-- ===== src/Pevent/Rounds.antt =====
-- src/pevent_base.c: what the event loop keeps over its rounds, where a callback may find its block freed.
use camlite.Base.{ℕ, Option, none, some, List, [], ◌∷◌}
use camlite.Pevent.{Callback}
use camlite.Pevent.Loop.{
  Target, null, pevent_of, Ready, Waited, interrupted, events, event_of, call, go_on, dispatch, run,
}

-- A property of the state after a step, if there is one
abbrev pub Then : {S : Type 0} → (S → Type 0) → Option S → Type 0
Then P none = Unit
Then P (some s) = P s

module _ {S : Type 0} (callback : Callback → ℕ → ℕ → S → Option S) (Pre : S → Type 0) where
  -- Every event of a batch comes in a state with the property.
  abbrev pub Along : List Ready → S → Type 0
  Along [] s = Unit
  Along (e ∷ es) s = Pre s × Then (Along es) (call callback e.target (event_of e) s)

  -- Every event of all rounds does.
  abbrev pub AlongAll : List Waited → S → Type 0
  AlongAll [] s = Unit
  AlongAll (interrupted ∷ ws) s = Unit
  AlongAll (events es ∷ ws) s = Along es s × Then (AlongAll ws) (dispatch callback es s)

  module _ (P : S → Type 0)
      (keeps : (f : Callback) (ptr event : ℕ) (s : S)
        → P s
        → Pre s
        → Then P (callback f ptr event s)) where
    call-Then :
        (t : Target) (event : Option ℕ) (s : S) → P s → Pre s → Then P (call callback t event s)
    unfolding call
    call-Then null event s h a = h
    call-Then (pevent_of f ptr) none s h a = h
    call-Then (pevent_of f ptr) (some event) s h a = keeps f ptr event s h a

    go_on-Then :
        (Q : S → Type 0) (go : S → Option S) (o : Option S)
        → ((s : S) → P s → Q s → Then P (go s))
        → Then P o
        → Then Q o
        → Then P (go_on callback go o)
    unfolding go_on
    go_on-Then Q go none f h a = tt
    go_on-Then Q go (some s) f h a = f s h a

    dispatch-Then : (es : List Ready) (s : S) → P s → Along es s → Then P (dispatch callback es s)
    unfolding dispatch
    dispatch-Then [] s h a = h
    dispatch-Then (e ∷ es) s h a =
        go_on-Then (Along es) (dispatch callback es) (call callback e.target (event_of e) s)
          (dispatch-Then es) (call-Then e.target (event_of e) s h a.0) a.1

    pub run-Then : (ws : List Waited) (s : S) → P s → AlongAll ws s → Then P (run callback ws s)
    unfolding run
    run-Then [] s h a = h
    run-Then (interrupted ∷ ws) s h a = h
    run-Then (events es ∷ ws) s h a =
        go_on-Then (AlongAll ws) (run callback ws) (dispatch callback es s) (run-Then ws)
          (dispatch-Then es s h a.0) a.1
