-- ===== src/Program/Starting.antt =====
-- src/camlite.c: what holds when the loop begins.
use camlite.Base.{ℕ, ◌≡◌, false, Option, none, some, codes, length, ◌⊎◌, ◌==◌}
use camlite.Kernel.{Kernel, Log}
use camlite.Pevent.{ok, failed}
use camlite.Server
use camlite.Server.{Server, start}
use camlite.Server.Listening.{Listens}
use camlite.V4l2.Init.{init}
use camlite.VideoManager.{blank, slot}
use camlite.VideoManager.Slots.{IsManager}
use camlite.VideoManager.Adding.{port_of}
use camlite.Camhttp.Digests.{Digests, Outside}
use camlite.Camhttp.Digests.Table.{IsTable}
use camlite.Camhttp.Service.{login_text}
use camlite.Program.Main.{Config, Boot, Started, exit_failure, running}

-- The server that camhttp_start creates
abbrev pub server_of : Boot → Config → ℕ → Server
server_of boot c base = Server.create base (codes "0.0.0.0") c.port boot.addr

-- How main gets to its loop, or ends before it. It ends where the signal handler or epoll_create1 fails, or
-- http_server_start. The loop begins after http_server_start has succeeded, so that the server listens; after it the one
-- device was put into the first slot of the table of cameras, which is sound, as v4l2port_init leaves it; and the login
-- is set, with no nonce in use.
abbrev pub Begins : Kernel → Outside → Boot → Config → Log → Option Started → Type 0
Begins k o boot c log none = ⊥
Begins k o boot c log (some (exit_failure after)) =
    (boot.signal_works ≡ false)
    ⊎ ((boot.epoll_create ≡ none)
        ⊎ ((base : ℕ) × (s : Server) × (start k (server_of boot c base) log
              ≡ some (failed, s, after))))
Begins k o boot c log (some (running base w)) =
    (boot.epoll_create ≡ some base)
    × ((up : Log) × (start k (server_of boot c base) log ≡ some (ok, w.server, up))
        × Listens w.server.pevent up
        × (let device = port_of blank c.device c.width c.height c.fps in
            ((slot w.app.manager 0).video ≡ some ((init k device up).1))
            × (w.log ≡ (init k device up).2)))
    × IsManager w.app.manager
    × (w.app.manager.count ≡ 1)
    × (w.app.digests.ha1 ≡ login_text o c.username c.password)
    × ((length w.app.digests.ha1 == 0) ≡ false)
    × IsTable 0 w.app.digests
