-- ===== src/Camhttp/Frames/Delivery.antt =====
-- src/camhttp.c: which clients a frame goes to, and what it changes of the cameras.
use camlite.Base.{
  ℕ, ◌+◌, ◌*◌, ◌%◌, ◌^◌, ◌<◌, ◌≡◌, ◌≢◌, refl, Bool, true, false, Option, none, some, arith, not,
  if◌then◌else◌, ltb, ◌==◌, if_split, pos,
}
use camlite.Kernel.{Kernel, Log}
use camlite.Http.{Client}
use camlite.Http.Response.{Response}
use camlite.Server.{Server, DelayReply, keeplive_delay_iter}
use camlite.V4l2.{at}
use camlite.VideoManager.{VideoManage, slot, now}
use camlite.VideoManager.Times.{TimesOnly, TimesOnly-refl, set_check_time-times}
use camlite.VideoManager.Handling.{IsReadCallback}
use camlite.Camhttp.Pages.{delay_of, request_type_snapshort, request_type_stream}
use camlite.Camhttp.Frames.{
  VideoReadData, Memory, type_of, index_of, on_send_jpeg, on_video_read, snapshot_response,
  part_response, frame_data,
}

-- The delay that a page sets is read back by the frames.
delay_of-type_of : (type i : ℕ) → i < 2 ^ 15 → type_of (delay_of type (pos i)) ≡ type
unfolding type_of delay_of
delay_of-type_of type i h = omega arith

delay_of-index_of : (type i : ℕ) → i < 2 ^ 15 → index_of (delay_of type (pos i)) ≡ i
unfolding index_of delay_of
delay_of-index_of type i h =
    let low : (type * 2 ^ 16 + i) % 2 ^ 16 ≡ i = omega arith in rw low (ground arith)

-- The two pages that make a client wait
pub data Page : Type 0 where
  snapshot stream : Page

abbrev pub type_code : Page → ℕ
type_code snapshot = request_type_snapshort
type_code stream = request_type_stream

-- What a client of a page is sent, and the delay that it keeps, by whether a frame is of its video.
abbrev pub due : Page → Bool → VideoReadData → Client → Option Response × ℕ
due page false frame c = (none, c.delay_ptr)
due snapshot true frame c = (some (snapshot_response frame), 0)
due stream true frame c = (some (part_response frame), c.delay_ptr)

abbrev pub reply : {B : Type 0} → Option Response × ℕ → B → Log → DelayReply B
reply (response, delay) b log = record { response = response; delay = delay; app = b; log = log }

-- The test of the index picks what is due.
if_due :
    {B : Type 0} (page : Page) (m : Bool) (frame : VideoReadData) (c : Client) (b : B) (log : Log)
    → (if not m then reply (none, c.delay_ptr) b log else reply (due page true frame c) b log)
      ≡ reply (due page m frame c) b log
if_due snapshot true frame c b log = refl
if_due snapshot false frame c b log = refl
if_due stream true frame c b log = refl
if_due stream false frame c b log = refl

-- camhttp_on_send_jpeg for a client whose delay was set by a page, for the video i. A frame of another video changes
-- nothing. A frame of this one goes to a client of the snapshot page in an answer of its own, and the client waits no
-- more; it goes to a client of the stream page as the next part, and the client goes on waiting.
pub on_send_jpeg-due :
    {B : Type 0} (page : Page) (frame : VideoReadData) (c : Client) (i : ℕ) (b : B) (log : Log)
    → i < 2 ^ 15
    → on_send_jpeg frame c (delay_of (type_code page) (pos i)) b log
      ≡ reply (due page (frame.index == i) frame c) b log
unfolding on_send_jpeg
on_send_jpeg-due snapshot frame c i b log h =
    rw (delay_of-index_of 1 i h, delay_of-type_of 1 i h)
      (if_due snapshot (frame.index == i) frame c b log)
on_send_jpeg-due stream frame c i b log h =
    rw (delay_of-index_of 2 i h, delay_of-type_of 2 i h)
      (if_due stream (frame.index == i) frame c b log)

-- camhttp_on_video_read is a read callback as the video manager asks for: whatever the clients do, it changes times of
-- checks alone of the manager.
pub on_video_read-IsReadCallback :
    (k : Kernel) (mem : Memory) → IsReadCallback (on_video_read k mem)
unfolding on_video_read
on_video_read-IsReadCallback k mem = record {
  times_only = λ i x n m s log.
      let o = keeplive_delay_iter k (on_send_jpeg (frame_data k mem i (at x) n m log)) s tt log in
      if_split (λ (y : (VideoManage × Server) × Log). TimesOnly m y.0.0) (ltb 0 o.0.1) _ _
        (λ _. set_check_time-times k m i o.2) (λ _. TimesOnly-refl m);
}

-- The time of a check: with no client to send the frame to the manager is as it was; with one or more the time is noted
-- in the slot of the frame's video, and the other slots are as they were.
abbrev pub Notes : Kernel → VideoManage → ℕ → ℕ → Log → VideoManage → Type 0
Notes k m i count log m' =
    TimesOnly m m'
    × (count ≡ 0 → m' ≡ m)
    × (0 < count → slot m' i ≡ record (slot m i) { last_check_time = now k log })
    × ((j : ℕ) → i ≢ j → slot m' j ≡ slot m j)
