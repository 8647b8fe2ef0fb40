-- ===== src/Pevent/Watch.antt =====
-- src/pevent.c: the state of a pevent tells what epoll watches for on its descriptor.
use camlite.Base.{ℕ, true, false, Option, none, some, ◌≡◌, ◌≢◌, ◌⊎◌, ◌==◌, arith, suc}
use camlite.Kernel.{Kernel, Log, Interest, epoll_in, epoll_out, watched, closings}
use camlite.Pevent.{Pevent, ok, failed, set, free, pevent_read, pevent_write}

-- What a state of a pevent stands for.
abbrev pub interest : ℕ → Option Interest
interest state = elim (state == 1) [
  | true ↦ some epoll_in
  | false ↦ elim (state == 2) [ true ↦ some epoll_out | false ↦ none ]
]

-- The pevent and epoll agree.
abbrev pub IsWatched : Pevent → Log → Type 0
IsWatched p log = watched p.base p.fd log ≡ interest p.state

-- A state that a caller may ask for.
abbrev pub IsMode : ℕ → Type 0
IsMode state = (state ≡ pevent_read) ⊎ (state ≡ pevent_write)

module _ (k : Kernel) where
  -- Asking for reading or writing keeps the agreement. On success the pevent has the new state; on
  -- failure it is as it was. Asking for the state it is in is refused with no call of epoll_ctl.
  pub set-IsWatched :
      (p : Pevent) (state : ℕ) (log : Log)
      → IsMode state
      → IsWatched p log
      → let (r, p', log') = set k p state log in
        IsWatched p' log'
        × (r ≡ ok → (p'.state ≡ state) × (p.state ≢ state))
        × (r ≡ failed → p' ≡ p)
        × (p.state ≡ state → log' ≡ log)
  unfolding set
  set-IsWatched p state log m w = ground arith

  -- Freeing a pevent closes its descriptor once more, and whatever epoll_ctl answers, epoll watches
  -- it no longer.
  pub free-unwatched :
      (p : Pevent) (log : Log)
      → (watched p.base p.fd (free k p log) ≡ none)
        × (closings p.fd (free k p log) ≡ suc (closings p.fd log))
  unfolding free
  free-unwatched p log = ground arith
