-- ===== src/Kernel/Quiet.antt =====
-- Calls that leave a descriptor alone: what epoll watches for on it and what its peer has been sent.
use camlite.Base.{ℕ, ◌≡◌, ◌≢◌, refl, ◌∙◌, sym, Bool, none, some, ◌∷◌, arith, Text}
use camlite.Kernel.{
  Kernel, Log, Ctl, Interest, Misc, Received, Written, misc, closed, epoll_ctl, reading, writing,
  hash_add, hash_del, watched, sent,
}

pub record Quiet (fd : ℕ) (before log : Log) : Type 0 where
  pub same_watch : (base : ℕ) → watched base fd log ≡ watched base fd before
  pub same_sent : sent fd log ≡ sent fd before

pub Quiet-refl : (fd : ℕ) (log : Log) → Quiet fd log log
Quiet-refl fd log = record { same_watch = λ base. refl; same_sent = refl }

pub misc-Quiet :
    (fd : ℕ) (before log : Log) (m : Misc) → Quiet fd before log → Quiet fd before (misc m ∷ log)
misc-Quiet fd before log m h = record { same_watch = h.same_watch; same_sent = h.same_sent }

pub closed-Quiet :
    (fd f : ℕ) (before log : Log) → f ≢ fd → Quiet fd before log → Quiet fd before (closed f ∷ log)
closed-Quiet fd f before log n h = record {
  same_watch = λ base. ground (arith, h.same_watch base);
  same_sent = h.same_sent;
}

pub epoll_ctl-Quiet :
    (fd b f : ℕ) (op : Ctl) (ev : Interest) (answer : Bool) (before log : Log)
    → f ≢ fd
    → Quiet fd before log
    → Quiet fd before (epoll_ctl b op f ev answer ∷ log)
epoll_ctl-Quiet fd b f op ev answer before log n h = record {
  same_watch = λ base. ground (arith, h.same_watch base);
  same_sent = h.same_sent;
}

-- epoll watches the descriptor, in some way.
abbrev pub IsHeld : ℕ → Log → Type 0
IsHeld fd log = (base : ℕ) × (ev : Interest) × (watched base fd log ≡ some ev)

-- What the manual page of open promises: the descriptor that it gives is not in use, so that nothing watches it.
pub record IsOpener (k : Kernel) : Type 0 where
  pub fresh :
      (log : Log) (path : Text) (f base : ℕ)
      → k.on_open log path ≡ some f
      → watched base f log ≡ none

pub opened-apart :
    (k : Kernel) (fd f : ℕ) (before log : Log) (path : Text)
    → IsOpener k
    → IsHeld fd before
    → Quiet fd before log
    → k.on_open log path ≡ some f
    → f ≢ fd
opened-apart k fd f before log path law held h e same =
    let (base, ev, w) = held in
    let free : watched base fd log ≡ none = rw (sym same) (law.fresh log path f base e) in
    some_none ev (sym (h.same_watch base ∙ w) ∙ free)
  where
    some_none : (ev : Interest) → some ev ≡ none → ⊥
    some_none ev e = cc

pub writing-Quiet :
    (fd f : ℕ) (b : Text) (answer : Written) (before log : Log)
    → f ≢ fd
    → Quiet fd before log
    → Quiet fd before (writing f b answer ∷ log)
writing-Quiet fd f b answer before log n h = record {
  same_watch = h.same_watch;
  same_sent = ground (arith, h.same_sent);
}

pub reading-Quiet :
    (fd f size : ℕ) (answer : Received) (before log : Log)
    → Quiet fd before log
    → Quiet fd before (reading f size answer ∷ log)
reading-Quiet fd f size answer before log h = record {
  same_watch = h.same_watch;
  same_sent = h.same_sent;
}

pub hash_add-Quiet :
    (fd f : ℕ) (before log : Log) → Quiet fd before log → Quiet fd before (hash_add f ∷ log)
hash_add-Quiet fd f before log h = record { same_watch = h.same_watch; same_sent = h.same_sent }

pub hash_del-Quiet :
    (fd f : ℕ) (before log : Log) → Quiet fd before log → Quiet fd before (hash_del f ∷ log)
hash_del-Quiet fd f before log h = record { same_watch = h.same_watch; same_sent = h.same_sent }

pub Quiet-trans : (fd : ℕ) (a b c : Log) → Quiet fd a b → Quiet fd b c → Quiet fd a c
Quiet-trans fd a b c f g = record {
  same_watch = λ base. g.same_watch base ∙ f.same_watch base;
  same_sent = g.same_sent ∙ f.same_sent;
}

pub Quiet-IsHeld : (fd : ℕ) (a b : Log) → Quiet fd a b → IsHeld fd a → IsHeld fd b
Quiet-IsHeld fd a b q (base, ev, w) = (base, ev, q.same_watch base ∙ w)
