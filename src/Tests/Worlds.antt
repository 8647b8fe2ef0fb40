-- ===== src/Tests/Worlds.antt =====
-- src/camlite.c: the whole program over rounds of its event loop
use camlite.Base.{
  ℕ, zero, suc, ◌≢◌, refl, true, false, Option, some, none, List, ◌<◌, [], ◌∷◌, codes, arith,
}
use camlite.Kernel.{IsPosix, epoll_ctl, closed, reading, writing, hash_add, hash_del, misc}
use camlite.Pevent
use camlite.Pevent.{Pevent}
use camlite.Pevent.Loop.{Ready, pevent_of, Waited, run}
use camlite.Pevent.Rounds.{Then}
use camlite.Http
use camlite.Server
use camlite.Server.{Server, Arrival, peer}
use camlite.VideoManager.{slot}
use camlite.VideoManager.Apart.{ApartManager, ApartData}
use camlite.Program.{World, Queue, callback, server_event, client_event, client_at}
use camlite.Program.Keeping.{MaySound}
use camlite.Program.Rounds.{run-MaySound}
use camlite.Tests.Sample.{slow_kernel-IsPosix, start_log, client-IsClient, client-IsInput}
use camlite.Tests.Digests.{front}
use camlite.Tests.Videos.{table, idle_data, beyond}
use camlite.Tests.Servers.{server, listening}
use camlite.Tests.Programs.{opening_kernel, opening_kernel-IsOpener, linux, app, frames}

opening_kernel-IsPosix : IsPosix opening_kernel
opening_kernel-IsPosix = record {
  write_within = slow_kernel-IsPosix.write_within;
  read_within = slow_kernel-IsPosix.read_within;
}

abbrev world : World
world = record { server = record server { pevent = some listening }; app = app; log = start_log }

table-ApartManager : (fd : ℕ) → 0 < fd → 9 ≢ fd → ApartManager fd (table idle_data)
table-ApartManager fd pos n = record { above = pos; apart = free }
  where
    free : (i : ℕ) → ApartData fd (slot (table idle_data) i)
    free zero = (n, tt)
    free (suc n) = rw (beyond n) (tt, tt)

-- A connection arrives after a call of epoll_ctl.
abbrev one_peer : Queue
one_peer [] = []
one_peer (epoll_ctl b op f ev answer ∷ log) = peer 6 (codes "10.0.0.2") 99 8 ∷ []
one_peer (closed f ∷ log) = []
one_peer (reading _ _ _ ∷ log) = []
one_peer (writing _ _ _ ∷ log) = []
one_peer (hash_add _ ∷ log) = []
one_peer (hash_del _ ∷ log) = []
one_peer (misc _ ∷ log) = []

Then-nothing : (o : Option World) → Then (λ w. Unit) o
Then-nothing none = tt
Then-nothing (some w) = tt

abbrev readable : Pevent.Callback → ℕ → Ready
readable f ptr = record {
  target = pevent_of f ptr;
  err = false;
  hup = false;
  readable = true;
  writable = false;
}

-- It is taken, and then the request of the first connection arrives.
abbrev rounds : List Waited
rounds = Waited.events (readable Pevent.on_accept 7 ∷ readable Pevent.on_event 1 ∷ []) ∷ []

run-MaySound_example :
    MaySound 4 (run (callback opening_kernel front linux frames one_peer) rounds world)
unfolding Pevent.Loop.call Pevent.Loop.event_of callback Server.on_accept Server.after_new Http.new
    Http.new_with Pevent.new Pevent.set Pevent.signal server_event client_event client_at
run-MaySound_example =
    run-MaySound opening_kernel front linux frames one_peer opening_kernel-IsPosix
      opening_kernel-IsOpener 4 rounds world
      (
        (
          (
            client-IsClient,
            client-IsInput,
            (table-ApartManager 5 (omega arith) (λ e. omega (arith, e)), (λ e. omega (arith, e))),
          ),
          tt,
          tt,
        ),
        refl,
      )
      (
        (
          (
            (table-ApartManager 6 (omega arith) (λ e. omega (arith, e)), (λ e. omega (arith, e))),
            (λ base. ground arith),
            tt,
          ),
          (tt, Then-nothing _),
        ),
        Then-nothing _,
      )
