-- ===== src/VideoManager/Events.antt =====
-- src/video_manager.c, on_video_event: a frame, and the end of a stream that nobody asked for.
use camlite.Base.{ℕ, ◌+◌, Bool, ◌&&◌, Option, none, some, ltb, ◌==◌, if◌then◌else◌}
use camlite.Kernel.{Kernel, Log}
use camlite.Pevent
use camlite.Pevent.{Pevent, Status, pevent_read}
use camlite.V4l2.{Port}
use camlite.V4l2.Streaming.{stream_off}
use camlite.V4l2.Capture.{ReadCallback, read}
use camlite.VideoManager.{VideoManage, slot, put}

module _ (k : Kernel) where
  -- The event is ended, and the stream with it.
  unfoldable pub stop : VideoManage → ℕ → Port → Option Pevent → Log → VideoManage × Log
  stop m i v none log = (m, log)
  stop m i v (some p) log =
      let (s, v', log') = stream_off k v log in
      (
        put m i (record (slot m i) { video = some v'; pevent = none }),
        Pevent.free_no_close k p log',
      )

  -- time(NULL) is wider than the time of the last check, so the difference is not an unsigned int's.
  unfoldable pub is_expired : VideoManage → ℕ → Log → Bool
  is_expired m i log =
      ltb 0 m.timeout && ltb ((slot m i).last_check_time + m.timeout) (k.on_time log)

  unfoldable pub expire : VideoManage → ℕ → Port → Log → VideoManage × Log
  unfolding stop
  expire m i v log = if is_expired m i log then stop m i v (slot m i).pevent log else (m, log)

  unfoldable pub with_app : {B : Type 0} → B → VideoManage × Log → VideoManage × B × Log
  with_app b (m, log) = (m, b, log)

  -- After the read, which left its mark on the port; the callback works on the manager as well.
  unfoldable pub after_read :
      {B : Type 0}
      → ℕ
      → Option (Status × Port × (VideoManage × B) × Log)
      → Option (VideoManage × B × Log)
  unfolding with_app
  after_read i none = none
  after_read i (some (s, v, (m, b), log)) =
      some (with_app b (expire (put m i (record (slot m i) { video = some v })) i v log))

  -- read_callback, with the video's index for its pointer
  module _ {B : Type 0} (callback : ℕ → ReadCallback (VideoManage × B)) where
    unfoldable pub frame : VideoManage → ℕ → Option Port → B → Log → Option (VideoManage × B × Log)
    unfolding after_read
    frame m i none b log = none
    frame m i (some v) b log = after_read i (read k (callback i) v (m, b) log)

    unfoldable pub on_video_event : VideoManage → ℕ → ℕ → B → Log → Option (VideoManage × B × Log)
    unfolding frame
    on_video_event m i event b log =
        let seen = frame m i (slot m i).video b log in
        if event == pevent_read then seen else some (m, b, log)
