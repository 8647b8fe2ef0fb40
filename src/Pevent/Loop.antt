-- ===== src/Pevent/Loop.antt =====
-- src/pevent_base.c: one round of the event loop.
use camlite.Base.{
  ℕ, Bool, ◌||◌, Option, none, some, List, [], ◌∷◌, if◌then◌else◌, length, ℤ, pos, negsuc,
}
use camlite.Kernel.{Log, closed}
use camlite.Pevent.{Callback, pevent_read, pevent_write, pevent_error}

-- What the program finds at events[i].data.ptr: the pevent's callback and its pointer; or NULL. The block may be
-- freed by then.
pub data Target : Type 0 where
  null : Target
  pevent_of : Callback → ℕ → Target

-- `struct epoll_event`, with EPOLLERR, EPOLLHUP, EPOLLIN and EPOLLOUT of its events
pub record Ready : Type 0 where
  pub target : Target
  pub err : Bool
  pub hup : Bool
  pub readable : Bool
  pub writable : Bool

-- epoll_wait: -1, or the events that it stored, at most MAX_EPOLL_EVENTS.
pub data Waited : Type 0 where
  interrupted : Waited
  events : List Ready → Waited

abbrev pub max_epoll_events : ℕ
max_epoll_events = 32

-- The branch that is taken, with the event that the callback is given.
unfoldable pub event_of : Ready → Option ℕ
event_of e =
    if e.err || e.hup
    then some pevent_error
    else if e.readable
    then some pevent_read
    else if e.writable
    then some pevent_write
    else none

module _ {S : Type 0} (callback : Callback → ℕ → ℕ → S → Option S) where
  -- The call through the pointer
  unfoldable pub call : Target → Option ℕ → S → Option S
  call null event s = some s
  call (pevent_of f ptr) none s = some s
  call (pevent_of f ptr) (some event) s = callback f ptr event s

  unfoldable pub go_on : (S → Option S) → Option S → Option S
  go_on go none = none
  go_on go (some s) = go s

  -- The loop over the events; `none` where a callback finds its block freed.
  unfoldable pub dispatch : List Ready → S → Option S
  unfolding call go_on event_of
  dispatch [] s = some s
  dispatch (e ∷ es) s = go_on (dispatch es) (call e.target (event_of e) s)

  -- pevent_base_loop, with its result
  unfoldable pub base_loop : Waited → S → ℤ × Option S
  unfolding dispatch
  base_loop interrupted s = (negsuc 0, some s)
  base_loop (events es) s = (pos (length es), dispatch es s)

  -- `while (pevent_base_loop(...) != -1)`, over what epoll_wait gives in turn, up to the first -1.
  unfoldable pub run : List Waited → S → Option S
  unfolding dispatch go_on
  run [] s = some s
  run (interrupted ∷ ws) s = some s
  run (events es ∷ ws) s = go_on (run ws) (dispatch es s)

-- pevent_base_cleanup, for the descriptor of the base
unfoldable pub base_cleanup : ℕ → Log → Log
base_cleanup fd log = closed fd ∷ log

-- An invariant of the state after a round, where no block was found freed
abbrev pub Kept : {S : Type 0} → (S → Type 0) → Option S → Type 0
Kept P none = ⊥
Kept P (some s) = P s

module _ {S : Type 0} (callback : Callback → ℕ → ℕ → S → Option S) (P : S → Type 0)
    (keeps : (f : Callback) (ptr event : ℕ) (s : S) → P s → Kept P (callback f ptr event s)) where
  call-Kept : (t : Target) (event : Option ℕ) (s : S) → P s → Kept P (call callback t event s)
  unfolding call
  call-Kept null event s h = h
  call-Kept (pevent_of f ptr) none s h = h
  call-Kept (pevent_of f ptr) (some event) s h = keeps f ptr event s h

  go_on-Kept :
      (go : S → Option S) (o : Option S)
      → ((s : S) → P s → Kept P (go s))
      → Kept P o
      → Kept P (go_on callback go o)
  unfolding go_on
  go_on-Kept go none f h = h
  go_on-Kept go (some s) f h = f s h

  dispatch-Kept : (es : List Ready) (s : S) → P s → Kept P (dispatch callback es s)
  unfolding dispatch
  dispatch-Kept [] s h = h
  dispatch-Kept (e ∷ es) s h =
      go_on-Kept (dispatch callback es) (call callback e.target (event_of e) s)
        (λ t p. dispatch-Kept es t p) (call-Kept e.target (event_of e) s h)

  -- What each callback keeps, for whatever event and pointer, the loop keeps over all its rounds, in whatever order
  -- the events come and until epoll_wait fails.
  pub run-Kept : (ws : List Waited) (s : S) → P s → Kept P (run callback ws s)
  unfolding run
  run-Kept [] s h = h
  run-Kept (interrupted ∷ ws) s h = h
  run-Kept (events es ∷ ws) s h =
      go_on-Kept (run callback ws) (dispatch callback es s) (λ t p. run-Kept ws t p)
        (dispatch-Kept es s h)
