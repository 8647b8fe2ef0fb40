-- ===== src/V4l2.antt =====
-- src/v4l2port.c, src/v4l2port.h: a camera, its buffers and its stream.
-- A function whose result is an Option gives
-- `none` where the C code reaches past the end of `reqbufs`.
pub mod Mmap
pub mod Streaming
pub mod Init
pub mod Capture
pub mod Buffers
pub mod Overrun
pub mod Stream
pub mod Descriptors
pub mod Closing
pub mod Frames
pub mod Opening
pub mod Apart
pub mod Errors
use camlite.Base.{ℕ, zero, suc, Bool, false, Option, none, some, List, [], ◌∷◌, Text}
use camlite.Kernel.{Kernel, Log, Ioctl, IoctlReply, reqbufs, misc, interrupted, ioctl, unmapped}
use camlite.Libc.{strncpy}

abbrev pub req_buffer_max : ℕ
req_buffer_max = 1

-- enum V4L2_ERROR_TYPE
pub data ErrorType : Type 0 where
  no_error can_not_open not_v4l2_device at_querycap not_support_streamer at_s_fmt : ErrorType
  at_reqbufs reqbufs_no_memory at_querybuf at_mmap at_qbuf at_streamon at_streamoff : ErrorType
  at_dqbuf dqbuf_eagain dqbuf_eio stream_is_on stream_is_off at_s_parm at_g_parm : ErrorType
  not_support_streaming : ErrorType

abbrev pub eintr : ℕ
eintr = 4

abbrev pub eio : ℕ
eio = 5

abbrev pub eagain : ℕ
eagain = 11

abbrev pub einval : ℕ
einval = 22

-- `start` of a buffer: NULL, MAP_FAILED or an address.
pub data Mapping : Type 0 where
  null map_failed : Mapping
  at : ℕ → Mapping

pub record ReqBuffer : Type 0 where
  pub start : Mapping
  pub size : ℕ

-- `v4l2port_t`. Of `cap` and `streamparm` the fields that the program reads; `reqbufs` is an array of
-- REQ_BUFFER_MAX.
pub record Port : Type 0 where
  pub device : Text
  pub width : ℕ
  pub height : ℕ
  pub fps : ℕ
  pub value : ℕ
  pub fd : ℕ
  pub init_flag : Bool
  pub stream_flag : Bool
  pub last_error : ErrorType
  pub last_errno : ℕ
  pub streaming : Bool
  pub card : Text
  pub fmtdesc : List Text
  pub numerator : ℕ
  pub denominator : ℕ
  pub reqbufs_count : ℕ
  pub reqbufs : List ReqBuffer

abbrev pub no_buffer : ReqBuffer
no_buffer = record { start = null; size = 0 }

abbrev pub no_fmtdesc : List Text
no_fmtdesc = [] ∷ [] ∷ [] ∷ []

-- v4l2port_new, on zeroed memory
unfoldable pub new : Text → ℕ → ℕ → ℕ → Port
new device width height fps = record {
  device = strncpy device 255;
  width = width;
  height = height;
  fps = fps;
  value = 0;
  fd = 0;
  init_flag = false;
  stream_flag = false;
  last_error = no_error;
  last_errno = 0;
  streaming = false;
  card = [];
  fmtdesc = no_fmtdesc;
  numerator = 0;
  denominator = 0;
  reqbufs_count = 0;
  reqbufs = no_buffer ∷ [];
}

address : Mapping → Option ℕ
address null = some 0
address map_failed = none
address (at a) = some a

-- The loop of v4l2port_mmap_release over the buffers in use, up to the end of the array. A failure of
-- munmap is only logged.
unfoldable pub release_from : ℕ → List ReqBuffer → Log → Log
unfolding address
release_from zero bufs log = log
release_from (suc n) [] log = log
release_from (suc n) (b ∷ bufs) log =
    release_from n bufs (misc (unmapped (address b.start) b.size) ∷ log)

unfoldable pub mmap_release : Port → Log → Port × Log
unfolding release_from
mmap_release v log = (
  record v { reqbufs_count = 0; reqbufs = no_buffer ∷ [] },
  release_from v.reqbufs_count v.reqbufs log,
)

-- The loop over the descriptors of formats has three slots.
abbrev pub fmtdesc_max : ℕ
fmtdesc_max = 3

module _ (k : Kernel) where
  -- The rounds of xioctl that are interrupted.
  unfoldable pub retry : ℕ → ℕ → Ioctl → Log → Log
  retry zero fd request log = log
  retry (suc n) fd request log = retry n fd request (misc (interrupted fd request) ∷ log)

  unfoldable pub xioctl : ℕ → Ioctl → Log → IoctlReply × Log
  unfolding retry
  xioctl fd request log =
      let answer = k.on_ioctl log fd request in
      (answer.1, misc (ioctl fd request answer.1) ∷ retry answer.0 fd request log)

  -- The stores of last_errno and last_error; errno is what the calls left.
  unfoldable pub blame : Port → ErrorType → Log → Port
  blame v error log = record v { last_error = error; last_errno = k.errno log }
