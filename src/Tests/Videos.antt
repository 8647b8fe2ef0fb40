-- ===== src/Tests/Videos.antt =====
-- src/video_manager.c
use camlite.Base.{
  ℕ, zero, suc, ◌≡◌, ◌<◌, ◌≤◌, refl, sym, ap, some, none, [], ◌∷◌, codes, arith, pos, negsuc,
  Option,
}
use camlite.Kernel.{IoctlReply, IoctlData, dqbuf}
use camlite.Pevent
use camlite.Pevent.{Pevent}
use camlite.V4l2
use camlite.V4l2.{Port}
use camlite.V4l2.Capture.{ReadCallback}
use camlite.VideoManager.{
  VideoData, VideoManage, no_video, slot, get, stream_start, init_video, add,
}
use camlite.VideoManager.Slots.{IsManager, IsData, get_within}
use camlite.VideoManager.Times.{TimesOnly-refl}
use camlite.VideoManager.Start.{StartsAt, stream_start-StartsAt}
use camlite.VideoManager.Init.{Inits, init_video-Inits}
use camlite.VideoManager.Adding.{Adds, port_of, add-Adds}
use camlite.VideoManager.Events.{expire, on_video_event}
use camlite.VideoManager.Handling.{
  Expired, expire-Expires, Handled, IsReadCallback, on_video_event-Handled,
}
use camlite.Tests.Sample.{slow_kernel, start_log}
use camlite.Tests.Cameras.{
  camera, camera-IsPort, streaming_camera, streaming_camera-IsPort, slow_kernel-IsFrugal,
}

abbrev pub table : VideoData → VideoManage
table d = record {
  timeout = 30;
  count = 1;
  videos =
      d ∷ no_video ∷ no_video ∷ no_video ∷ no_video ∷ no_video ∷ no_video ∷ no_video ∷ no_video
      ∷ no_video ∷ [];
  base = 3;
}

abbrev pub idle_data : VideoData
idle_data = record { video = some camera; pevent = none; last_check_time = 10 }

abbrev live_data : VideoData
live_data = record {
  video = some streaming_camera;
  pevent = some (record {
    fd = 9;
    state = 1;
    pending = 0;
    base = 3;
    ptr = 0;
    event_callback = Pevent.on_video_event;
  });
  last_check_time = 10;
}

pub beyond : (n : ℕ) → slot (table idle_data) (suc n) ≡ no_video
beyond zero = refl
beyond (suc zero) = refl
beyond (suc (suc zero)) = refl
beyond (suc (suc (suc zero))) = refl
beyond (suc (suc (suc (suc zero)))) = refl
beyond (suc (suc (suc (suc (suc zero))))) = refl
beyond (suc (suc (suc (suc (suc (suc zero)))))) = refl
beyond (suc (suc (suc (suc (suc (suc (suc zero))))))) = refl
beyond (suc (suc (suc (suc (suc (suc (suc (suc zero)))))))) = refl
beyond (suc (suc (suc (suc (suc (suc (suc (suc (suc n))))))))) = refl

pub table-IsManager : (d : VideoData) → IsData d → IsManager (table d)
table-IsManager d h = record {
  full = refl;
  counted = omega arith;
  data_sound = sound;
  unused = free;
}
  where
    sound : (i : ℕ) → IsData (slot (table d) i)
    sound zero = h
    sound (suc n) = rw (beyond n) tt

    free : (i : ℕ) → 1 ≤ i → (slot (table d) i).video ≡ none
    free zero l = absurd (omega arith)
    free (suc n) l = rw (beyond n) refl

get_within_example :
    ((n : ℕ) → get (table idle_data) (negsuc n) ≡ none)
    × ((n : ℕ) → 1 ≤ n → get (table idle_data) (pos n) ≡ some none)
    × ((n : ℕ) → n < 1 → get (table idle_data) (pos n) ≡ some (slot (table idle_data) n).video)
get_within_example = get_within (table idle_data) (table-IsManager idle_data camera-IsPort)

stream_start-StartsAt_example :
    StartsAt (table idle_data) 0 (stream_start slow_kernel (table idle_data) (pos 0) start_log)
stream_start-StartsAt_example =
    stream_start-StartsAt slow_kernel (table idle_data) 0 start_log
      (table-IsManager idle_data camera-IsPort) slow_kernel-IsFrugal

init_video-Inits_example :
    Inits slow_kernel
      (table idle_data)
      0
      start_log
      (init_video slow_kernel (table idle_data) (pos 0) start_log)
init_video-Inits_example =
    init_video-Inits slow_kernel (table idle_data) 0 start_log
      (table-IsManager idle_data camera-IsPort)

add-Adds_example :
    Adds slow_kernel
      (table idle_data)
      (port_of (table idle_data) (codes "/dev/video1") 320 240 10)
      start_log
      (add slow_kernel (table idle_data) (codes "/dev/video1") 320 240 10 start_log)
add-Adds_example =
    add-Adds slow_kernel (table idle_data) (codes "/dev/video1") 320 240 10 start_log
      (table-IsManager idle_data camera-IsPort)

live-IsData : IsData live_data
live-IsData = (streaming_camera-IsPort, refl, refl, refl)

expire-Expires_example :
    Expired slow_kernel
      (table live_data)
      0
      streaming_camera
      start_log
      (expire slow_kernel (table live_data) 0 streaming_camera start_log)
expire-Expires_example =
    expire-Expires slow_kernel (table live_data) 0 streaming_camera start_log
      (table-IsManager live_data live-IsData) (omega arith) streaming_camera-IsPort

-- A callback that counts the frames and notes nothing.
abbrev counting : ℕ → ReadCallback (VideoManage × ℕ)
counting i place n (m, b) log = ((m, suc b), log)

counting-IsReadCallback : IsReadCallback counting
counting-IsReadCallback = record { times_only = λ i x n m b log. TimesOnly-refl m }

within :
    (v : Port) (d : IoctlData)
    → some streaming_camera ≡ some v
    → (V4l2.xioctl slow_kernel v.fd dqbuf start_log).0 ≡ IoctlReply.done d
    → d.index < v.reqbufs_count
unfolding V4l2.xioctl
within v d e f =
    let one : v.reqbufs_count ≡ 1 = sym (ap (count_or 0) e) in
    let first : d.index ≡ 0 = sym (ap index_or f) in omega arith
  where
    count_or : ℕ → Option Port → ℕ
    count_or n none = n
    count_or n (some w) = w.reqbufs_count

    index_or : IoctlReply → ℕ
    index_or (IoctlReply.done x) = x.index
    index_or IoctlReply.refused = 0

on_video_event-Handled_example :
    Handled
      (table live_data)
      0
      (on_video_event slow_kernel counting (table live_data) 0 1 0 start_log)
on_video_event-Handled_example =
    on_video_event-Handled slow_kernel counting counting-IsReadCallback (table live_data) 0 1 0
      start_log (table-IsManager live_data live-IsData) (λ e. cc) within
