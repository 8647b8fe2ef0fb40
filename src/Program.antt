-- ===== src/Program.antt =====
-- src/camlite.c: the start of the program and its signal handler; and the callbacks of its event loop, as the pevents
-- of src/http.c and src/video_manager.c name them.
pub mod Main
pub mod Starting
pub mod Cameras
pub mod Keeping
pub mod Rounds
use camlite.Base.{
  ℕ, ◌%◌, ◌^◌, Bool, true, false, Option, none, some, List, [], ◌∷◌, Text, ◌==◌, if◌then◌else◌, ℤ,
}
use camlite.Kernel.{Kernel, Log}
use camlite.Libc.Numbers.{atoi, as_unsigned}
use camlite.Pevent.{Pevent, Callback, on_event, on_accept, on_video_event, Status, ok, failed}
use camlite.Pevent.Loop.{Waited, run, base_cleanup}
use camlite.Http.{Client}
use camlite.Server
use camlite.Server.{Server, Arrival}
use camlite.Server.Dispatch
use camlite.VideoManager
use camlite.VideoManager.{VideoManage, blank, manager_init, slot}
use camlite.VideoManager.Events
use camlite.Camhttp.Digests.{Digests, Outside}
use camlite.Camhttp.Pages.{App, System, request_callback}
use camlite.Camhttp.Frames.{Memory, on_video_read}
use camlite.Camhttp.Service.{camhttp_start, camhttp_stop}

-- g_service, g_video_manage with the digest table, and the calls so far
pub record World : Type 0 where
  pub server : Server
  pub app : App
  pub log : Log

-- What the connections of a readable listening socket are
abbrev pub Queue : Type 0
Queue = Log → List Arrival

-- The client at an address, if it still lives
unfoldable pub client_at : ℕ → List Client → Option Client
client_at ptr [] = none
client_at ptr (c ∷ cs) = let rest = client_at ptr cs in if c.pevent.ptr == ptr then some c else rest

abbrev with_answer : Option ((Server × Log) × Option App) → Option World
with_answer none = none
with_answer (some ((s, log), none)) = none
with_answer (some ((s, log), some a)) = some record { server = s; app = a; log = log }

abbrev with_frame : World → Option (VideoManage × Server × Log) → Option World
with_frame w none = none
with_frame w (some (m, s, log)) =
    some record { server = s; app = record (w.app) { manager = m }; log = log }

abbrev with_server : World → Server × Log → World
with_server w (s, log) = record w { server = s; log = log }

module _ (k : Kernel) (o : Outside) (sys : System) (mem : Memory) (queue : Queue) where
  unfoldable pub client_event : World → ℕ → Option Client → Option World
  unfolding Server.Dispatch.on_event request_callback
  client_event w event none = none
  client_event w event (some c) =
      with_answer
        (Server.Dispatch.on_event k (request_callback k o sys) w.server c event w.log (some w.app))

  unfoldable pub server_event : World → ℕ → Option Pevent → Option World
  unfolding Server.on_accept
  server_event w event none = none
  server_event w event (some p) =
      some (with_server w (Server.on_accept k w.server p event (queue w.log) w.log))

  unfoldable pub video_event : World → ℕ → ℕ → Option Pevent → Option World
  unfolding VideoManager.Events.on_video_event on_video_read
  video_event w i event none = none
  video_event w i event (some p) = with_frame w (
      VideoManager.Events.on_video_event k (on_video_read k mem) w.app.manager i event w.server
        w.log)

  -- The callback of a pevent with its pointer; `none` where the block of the pevent is freed, or the program leaves
  -- its arrays.
  unfoldable pub callback : Callback → ℕ → ℕ → World → Option World
  unfolding client_event server_event video_event client_at
  callback on_event ptr event w = client_event w event (client_at ptr w.server.clients)
  callback on_accept ptr event w = server_event w event w.server.pevent
  callback on_video_event ptr event w = video_event w ptr event (slot w.app.manager ptr).pevent
