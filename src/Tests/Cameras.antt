-- ===== src/Tests/Cameras.antt =====
-- src/v4l2port.c
use camlite.Base.{ℕ, ◌≡◌, refl, true, false, none, [], ◌∷◌, codes, arith, inl, inr, ◌+◌, ◌≤◌}
use camlite.Kernel.{Kernel, IoctlReply, closings}
use camlite.V4l2
use camlite.V4l2.{Port, stream_is_on, stream_is_off, no_buffer, at, xioctl}
use camlite.V4l2.Capture.{ReadCallback}
use camlite.V4l2.Init.{init}
use camlite.V4l2.Overrun.{mmap_init-overrun}
use camlite.V4l2.Buffers.{IsFrugal, IsPort, Mmapped, mmap_init-Mmapped}
use camlite.V4l2.Descriptors.{Accounts, init-Accounts}
use camlite.V4l2.Frames.{Frame, read-Frame}
use camlite.V4l2.Closing.{uninit-closings}
use camlite.Tests.Sample.{slow_kernel, reply, start_log}

abbrev pub camera : Port
camera = record {
  device = codes "/dev/video0";
  width = 640;
  height = 480;
  fps = 25;
  value = 0;
  fd = 9;
  init_flag = true;
  stream_flag = false;
  last_error = V4l2.no_error;
  last_errno = 0;
  streaming = true;
  card = [];
  fmtdesc = [] ∷ [] ∷ [] ∷ [];
  numerator = 1;
  denominator = 25;
  reqbufs_count = 0;
  reqbufs = no_buffer ∷ [];
}

abbrev pub streaming_camera : Port
streaming_camera = record camera {
  stream_flag = true;
  reqbufs_count = 1;
  reqbufs = record { start = at 4096; size = 8 } ∷ [];
}

pub camera-IsPort : IsPort camera
camera-IsPort = record {
  buffers = inr (record { nothing = refl; empty = refl });
  streams = λ e. cc;
}

pub streaming_camera-IsPort : IsPort streaming_camera
streaming_camera-IsPort = record {
  buffers = inl (record { one = refl; place = 4096; size = 8; mapped = refl });
  streams = λ e. refl;
}

pub slow_kernel-IsFrugal : IsFrugal slow_kernel
slow_kernel-IsFrugal = record { frugal = λ log fd d e. ground arith }

mmap_init-Mmapped_example : Mmapped false 9 (V4l2.Mmap.mmap_init slow_kernel camera start_log)
mmap_init-Mmapped_example =
    mmap_init-Mmapped slow_kernel camera start_log camera-IsPort slow_kernel-IsFrugal

-- A driver that grants two buffers.
abbrev generous_kernel : Kernel
generous_kernel = record slow_kernel {
  on_ioctl = λ _ _ _. (0, IoctlReply.done (record reply { count = 2 }));
}

mmap_init-overrun_example : V4l2.Mmap.mmap_init generous_kernel camera start_log ≡ none
unfolding V4l2.xioctl
mmap_init-overrun_example =
    mmap_init-overrun generous_kernel camera start_log (record reply { count = 2 }) refl refl
      (omega arith)

init-Accounts_example :
    Accounts 9 start_log (init slow_kernel (record camera { init_flag = false }) start_log)
init-Accounts_example =
    init-Accounts slow_kernel (record camera { init_flag = false }) start_log 9 refl (omega arith)

-- A callback that adds up the sizes of the frames.
abbrev pub measure : ReadCallback ℕ
measure place n total log = (total + n, log)

read-Frame_example :
    Frame
      (λ (total : ℕ). 3 ≤ total)
      streaming_camera
      (V4l2.Capture.read slow_kernel measure streaming_camera 3 start_log)
unfolding V4l2.xioctl
read-Frame_example =
    read-Frame slow_kernel measure (λ total. 3 ≤ total) (λ x n a log h. omega arith)
      streaming_camera 3 start_log streaming_camera-IsPort (λ d e. ground arith) (omega arith)

-- A port that was never opened: standard input is closed.
uninit-closings_example :
    closings 0
      (V4l2.Streaming.uninit slow_kernel (record camera { fd = 0; init_flag = false }) start_log).1
    ≡ 1
uninit-closings_example =
    uninit-closings slow_kernel (record camera { fd = 0; init_flag = false }) 0 start_log
