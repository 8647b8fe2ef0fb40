-- ===== src/Pevent/Apart.antt =====
-- src/pevent.c: a pevent leaves other descriptors alone.
use camlite.Base.{ℕ, ◌≡◌, ◌≢◌, ◌∙◌, arith, ◌==◌, if_split}
use camlite.Kernel.{Kernel, Log, watched}
use camlite.Pevent.Transfer.{set-fd, sent-set}
use camlite.Kernel.Quiet.{Quiet, epoll_ctl-Quiet, closed-Quiet}
use camlite.Pevent.{Pevent, Status, set, free, free_no_close}

-- After pevent_set: the pevent is on the same descriptor.
abbrev pub SetQuiet : ℕ → ℕ → Log → Status × Pevent × Log → Type 0
SetQuiet f fd before (s, p, log) = (p.fd ≡ f) × Quiet fd before log

module _ (k : Kernel) (fd : ℕ) (before : Log) where
  set-watched_apart :
      (p : Pevent) (state : ℕ) (log : Log) (base : ℕ)
      → p.fd ≢ fd
      → watched base fd ((set k p state log).2) ≡ watched base fd log
  unfolding set
  set-watched_apart p state log base n = ground arith

  pub set-SetQuiet :
      (p : Pevent) (state : ℕ) (log : Log)
      → p.fd ≢ fd
      → Quiet fd before log
      → SetQuiet p.fd fd before (set k p state log)
  set-SetQuiet p state log n h = (
    (set-fd k p state log).0,
    record {
      same_watch = λ base. set-watched_apart p state log base n ∙ h.same_watch base;
      same_sent = sent-set k p state log fd ∙ h.same_sent;
    },
  )

  pub free_no_close-Quiet :
      (p : Pevent) (log : Log)
      → p.fd ≢ fd
      → Quiet fd before log
      → Quiet fd before (free_no_close k p log)
  unfolding free_no_close
  free_no_close-Quiet p log n h =
      if_split (Quiet fd before) (p.state == 0) _ _ (λ _. h)
        (λ _. epoll_ctl-Quiet fd _ p.fd _ _ _ before log n h)

  pub free-Quiet :
      (p : Pevent) (log : Log) → p.fd ≢ fd → Quiet fd before log → Quiet fd before (free k p log)
  unfolding free
  free-Quiet p log n h = closed-Quiet fd p.fd before _ n (free_no_close-Quiet p log n h)
