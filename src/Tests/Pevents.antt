-- ===== src/Tests/Pevents.antt =====
-- src/pevent.c
use camlite.Base.{suc, ◌≡◌, ◌≢◌, refl, inr, none, some, [], ◌∷◌, Text}
use camlite.Kernel.{watched, closings}
use camlite.Pevent
use camlite.Pevent.{ok, failed}
use camlite.Pevent.Watch.{IsWatched, set-IsWatched, free-unwatched}
use camlite.Tests.Sample.{slow_kernel, start_log, pevent}

set-IsWatched_example :
    let (r, p', log') = Pevent.set slow_kernel pevent 2 start_log in
    IsWatched p' log'
    × (r ≡ ok → (p'.state ≡ 2) × (pevent.state ≢ 2))
    × (r ≡ failed → p' ≡ pevent)
    × (pevent.state ≡ 2 → log' ≡ start_log)
set-IsWatched_example = set-IsWatched slow_kernel pevent 2 start_log (inr refl) refl

free-unwatched_example :
    (watched 3 5 (Pevent.free slow_kernel pevent start_log) ≡ none)
    × (closings 5 (Pevent.free slow_kernel pevent start_log) ≡ suc (closings 5 start_log))
free-unwatched_example = free-unwatched slow_kernel pevent start_log

abbrev six : Text
six = 1 ∷ 2 ∷ 3 ∷ 4 ∷ 5 ∷ 6 ∷ []

four_of_six : (Pevent.write slow_kernel pevent six start_log).0 ≡ some 4
unfolding Pevent.write
four_of_six = refl
