-- ===== src/Pevent.antt =====
-- src/pevent.c, src/pevent.h, src/pevent_private.h: the event wrapper round one descriptor.
-- A function that changes `*pevent` returns the new record; `free(pevent)` ends it.
pub mod Loop
pub mod Rounds
pub mod Apart
pub mod Watch
pub mod Transfer
use camlite.Base.{
  ℕ, Bool, true, false, Option, none, some, [], ◌∷◌, ◌==◌, if◌then◌else◌, Text, length,
}
use camlite.Kernel.{
  Kernel, Log, Ctl, ctl_add, ctl_mod, ctl_del, Interest, epoll_in, epoll_out, unset, Received,
  Written, epoll_ctl, closed, reading, writing,
}

abbrev pub pevent_read : ℕ
pevent_read = 1

abbrev pub pevent_write : ℕ
pevent_write = 2

abbrev pub pevent_error : ℕ
pevent_error = 3

-- The functions that the program passes as `event_callback`.
pub data Callback : Type 0 where
  on_event on_accept on_video_event : Callback

pub record Pevent : Type 0 where
  pub fd : ℕ
  pub state : ℕ
  pub pending : ℕ
  pub base : ℕ
  pub ptr : ℕ
  pub event_callback : Callback

-- An `int` result: 0 or -1.
pub data Status : Type 0 where
  ok failed : Status

t_alloc : ℕ → ℕ → Callback → ℕ → Pevent
t_alloc base fd callback ptr = record {
  fd = fd;
  state = 0;
  pending = 0;
  base = base;
  ptr = ptr;
  event_callback = callback;
}

unfoldable pub new : ℕ → ℕ → Callback → ℕ → Pevent
unfolding t_alloc
new base fd callback ptr = record (t_alloc base fd callback ptr) { state = 0 }

unfoldable pub get_flag : Pevent → ℕ
get_flag p = p.state

unfoldable pub get_fd : Pevent → ℕ
get_fd p = p.fd

unfoldable pub get_base : Pevent → ℕ
get_base p = p.base

module _ (k : Kernel) where
  -- One call of epoll_ctl, logged with its answer.
  ctl : Pevent → Ctl → Interest → Log → Bool × Log
  ctl p op ev log =
      let answer = k.on_epoll_ctl log p.base op p.fd ev in
      (answer, epoll_ctl p.base op p.fd ev answer ∷ log)

  -- The branches for PEVENT_WRITE and PEVENT_READ, which differ in the events and the new state.
  arm : Pevent → ℕ → Interest → Log → Status × Pevent × Log
  unfolding ctl
  arm p state ev log =
      let (answer, log') = ctl p (if p.state == 0 then ctl_add else ctl_mod) ev log in
      if answer then (ok, record p { state = state }, log') else (failed, p, log')

  -- The branch for state 0 only warns of a failure.
  disarm : Pevent → Log → Status × Pevent × Log
  unfolding ctl
  disarm p log = let (answer, log') = ctl p ctl_del unset log in (ok, record p { state = 0 }, log')

  unfoldable pub signal : Pevent → ℕ → Log → Status × Pevent × Log
  unfolding arm disarm
  signal p state log =
      if state == pevent_write
      then arm p pevent_write epoll_out log
      else if state == pevent_read
      then arm p pevent_read epoll_in log
      else if state == 0
      then disarm p log
      else (ok, p, log)

  unfoldable pub set : Pevent → ℕ → Log → Status × Pevent × Log
  unfolding signal
  set p state log = if p.state == state then (failed, p, log) else signal p state log

  unfoldable pub free_no_close : Pevent → Log → Log
  unfolding ctl
  free_no_close p log = if p.state == 0 then log else (ctl p ctl_del unset log).1

  unfoldable pub free : Pevent → Log → Log
  unfolding free_no_close
  free p log = closed p.fd ∷ free_no_close p log

  -- `none` is -1, `some 0` means that the call would block. (`some []` for a read.)
  read_result : Received → Option Text
  read_result (Received.bytes b) = if length b == 0 then none else some b
  read_result Received.again = some []
  read_result Received.broken = none

  unfoldable pub read : Pevent → ℕ → Log → Option Text × Log
  unfolding read_result
  read p size log =
      let answer = k.on_read log p.fd size in (read_result answer, reading p.fd size answer ∷ log)

  write_result : Written → Option ℕ
  write_result (Written.taken n) = if n == 0 then none else some n
  write_result Written.again = some 0
  write_result Written.broken = none

  unfoldable pub write : Pevent → Text → Log → Option ℕ × Log
  unfolding write_result
  write p buf log =
      let answer = k.on_write log p.fd buf in (write_result answer, writing p.fd buf answer ∷ log)
