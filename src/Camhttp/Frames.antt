-- ===== src/Camhttp/Frames.antt =====
-- src/camhttp.c: a frame of a video goes to the clients that wait for it.
pub mod Delivery
use camlite.Base.{
  ℕ, ◌+◌, ◌-◌, ◌*◌, ◌/◌, ◌%◌, ◌^◌, not, Option, none, some, List, [], ◌∷◌, ◌++◌, Text, codes, ltb,
  ◌==◌, if◌then◌else◌,
}
use camlite.Kernel.{Kernel, Log}
use camlite.Libc.{decimal}
use camlite.Util.{Timeval}
use camlite.Http.{Client}
use camlite.Http.Response.{Response, addheader, set_data}
use camlite.Http.Response
use camlite.Server.{Server, DelayReply, DelayCallback, keeplive_delay_iter}
use camlite.V4l2.{Port, Mapping, null, map_failed, at}
use camlite.V4l2.Capture.{ReadCallback}
use camlite.VideoManager.{VideoManage, slot, set_check_time}
use camlite.Camhttp.Pages.{request_type_snapshort, request_type_stream}

-- `video_read_data_t`
pub record VideoReadData : Type 0 where
  pub buf : Text
  pub size : ℕ
  pub timestamp : Timeval
  pub index : ℕ

-- flag >> 16, of an int that is not negative
unfoldable pub type_of : ℕ → ℕ
type_of flag = flag / 2 ^ 16

-- flag << 16 >> 16, as the unsigned int that data->index is compared with: the sign of the low half is kept.
unfoldable pub index_of : ℕ → ℕ
index_of flag = let low = flag % 2 ^ 16 in if ltb low (2 ^ 15) then low else 2 ^ 32 - 2 ^ 16 + low

-- %06d
unfoldable pub six_digits : ℕ → Text
unfolding decimal
six_digits n =
    if ltb n 10
    then codes "00000" ++ decimal n
    else if ltb n 100
    then codes "0000" ++ decimal n
    else if ltb n 1000
    then codes "000" ++ decimal n
    else if ltb n 10000
    then codes "00" ++ decimal n
    else if ltb n 100000
    then codes "0" ++ decimal n
    else decimal n

unfoldable pub snapshot_response : VideoReadData → Response
snapshot_response frame =
    set_data
      (addheader
        (addheader (addheader (Response.new 200 none) (codes "Pragma: no-cache")).0 (
          codes
            "Cache-Control: no-store, no-cache, must-revalidate, pre-check=0, post-check=0, max-age=0")).0
        (codes "Content-Type: image/jpeg")).0
      frame.buf

unfoldable pub part_response : VideoReadData → Response
unfolding six_digits decimal
part_response frame =
    set_data
      (addheader
        (addheader
          (addheader (addheader (Response.new 0 none) (codes "--[data-boundary-data]")).0
            (codes "Content-Type: image/jpeg")).0
          (codes "Content-Length: " ++ decimal frame.size)).0
        (codes "X-Timestamp  /: "
          ++ (decimal frame.timestamp.tv_sec
              ++ (codes "." ++ six_digits frame.timestamp.tv_usec)))).0
      frame.buf

-- camhttp_on_send_jpeg, with a delay that may be cleared by http_client_set_delay
unfoldable pub on_send_jpeg : {B : Type 0} → VideoReadData → DelayCallback B
unfolding type_of index_of snapshot_response part_response
on_send_jpeg frame c flag b log =
    if not (frame.index == index_of flag)
    then record { response = none; delay = c.delay_ptr; app = b; log = log }
    else if type_of flag == request_type_snapshort
    then record { response = some (snapshot_response frame); delay = 0; app = b; log = log }
    else if type_of flag == request_type_stream
    then record { response = some (part_response frame); delay = c.delay_ptr; app = b; log = log }
    else record { response = none; delay = 0; app = b; log = log }

-- What the driver put into the buffer that was taken last: its bytes at an address, and buf.timestamp.
pub record Memory : Type 0 where
  pub bytes : Log → ℕ → ℕ → Text
  pub timestamp : Log → Timeval

unfoldable pub bytes_at : Memory → Log → Mapping → ℕ → Text
bytes_at mem log (at x) size = mem.bytes log x size
bytes_at mem log null size = []
bytes_at mem log map_failed size = []

-- video->profile.value of the video in a slot
unfoldable pub value_in : Option Port → ℕ
value_in none = 0
value_in (some v) = v.value

module _ (k : Kernel) (mem : Memory) where
  abbrev pub frame_data : ℕ → Mapping → ℕ → VideoManage → Log → VideoReadData
  frame_data i place size m log = record {
    buf = bytes_at mem log place size;
    size = size;
    timestamp = mem.timestamp log;
    index = value_in (slot m i).video;
  }

  -- camhttp_on_video_read for the video of slot i: g_service is the state besides the manager.
  unfoldable pub on_video_read : ℕ → ReadCallback (VideoManage × Server)
  unfolding bytes_at value_in on_send_jpeg keeplive_delay_iter set_check_time
  on_video_read i place size (m, s) log =
      let ((s', n), b, log') =
        keeplive_delay_iter k (on_send_jpeg (frame_data i place size m log)) s tt log in
      if ltb 0 n then ((set_check_time k m i log', s'), log') else ((m, s'), log')
