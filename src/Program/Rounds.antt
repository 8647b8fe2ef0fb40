-- ===== src/Program/Rounds.antt =====
-- src/camlite.c, main's loop: what the whole program keeps over the rounds of pevent_base_loop.
use camlite.Base.{ℕ, List}
use camlite.Kernel.{Kernel, IsPosix}
use camlite.Kernel.Quiet.{IsOpener}
use camlite.Pevent.Loop.{Waited, run}
use camlite.Pevent.Rounds.{AlongAll, run-Then}
use camlite.Camhttp.Digests.{Outside}
use camlite.Camhttp.Pages.{System}
use camlite.Camhttp.Frames.{Memory}
use camlite.Program.{World, Queue, callback}
use camlite.Program.Keeping.{Sound, MaySound, Takes, callback-MaySound}

module _ (k : Kernel) (o : Outside) (sys : System) (mem : Memory) (queue : Queue)
    (posix : IsPosix k) (opener : IsOpener k) (l : ℕ) where
  abbrev Granted : World → Type 0
  Granted w = Takes k o sys mem queue posix opener l w w.server.pevent

  -- What accept promises, for every event of the rounds
  abbrev pub AlwaysTakes : List Waited → World → Type 0
  AlwaysTakes = AlongAll (callback k o sys mem queue) Granted

  -- The whole program, over all rounds of its event loop, in whatever order the events come, whatever the peers send and
  -- the devices answer: every connection stays sound on a descriptor of its own, with no camera and not the listening
  -- socket on it, if open and accept give descriptors that are not in use, and if no callback finds its block freed and
  -- the program does not leave its arrays.
  pub run-MaySound :
      (ws : List Waited) (w : World)
      → Sound l w
      → AlwaysTakes ws w
      → MaySound l (run (callback k o sys mem queue) ws w)
  run-MaySound =
      run-Then (callback k o sys mem queue) Granted (Sound l)
        (callback-MaySound k o sys mem queue posix opener l)
