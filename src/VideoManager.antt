-- ===== src/VideoManager.antt =====
-- src/video_manager.c: the table of cameras, their streams and the events on them.
-- An outer `none` of a result stands for a read or a write out of the bounds of an array, before it or behind it. A
-- `v4l2port_t *` that the manager gives out is the index of its slot.
pub mod Slots
pub mod Times
pub mod Start
pub mod Init
pub mod Adding
pub mod Events
pub mod Handling
pub mod Apart
use camlite.Base.{
  ℕ, zero, suc, ◌+◌, ◌%◌, ◌^◌, not, Option, none, some, List, [], ◌∷◌, Text, ltb, leb, ◌==◌,
  if◌then◌else◌, set, get_or, length, ℤ, pos, negsuc,
}
use camlite.Kernel.{Kernel, Log}
use camlite.Pevent
use camlite.Pevent.{Pevent, Status, ok, failed, pevent_read}
use camlite.V4l2
use camlite.V4l2.{Port}
use camlite.V4l2.Streaming.{stream_on, stream_off}
use camlite.V4l2.Init.{init}

abbrev pub max_video_count : ℕ
max_video_count = 10

-- `video_data_t`
pub record VideoData : Type 0 where
  pub video : Option Port
  pub pevent : Option Pevent
  pub last_check_time : ℕ

-- `video_manage_t`; its read_callback is a parameter of the code that uses it.
pub record VideoManage : Type 0 where
  pub timeout : ℕ
  pub count : ℕ
  pub videos : List VideoData
  pub base : ℕ

abbrev pub no_video : VideoData
no_video = record { video = none; pevent = none; last_check_time = 0 }

-- g_video_manage, a static variable, before video_manager_init
abbrev pub blank : VideoManage
blank = record {
  timeout = 0;
  count = 0;
  videos =
      no_video ∷ no_video ∷ no_video ∷ no_video ∷ no_video ∷ no_video ∷ no_video ∷ no_video
      ∷ no_video ∷ no_video ∷ [];
  base = 0;
}

unfoldable pub manager_init : VideoManage → ℕ → ℕ → VideoManage
manager_init m base timeout = record m { base = base; timeout = timeout }

-- video_manager_get_timeout
unfoldable pub get_timeout : VideoManage → ℕ
get_timeout m = m.timeout

-- `g_video_manage.videos[i]`, and a store to it, for a place of the array: a use of them with an index that a caller
-- gives is under `inside`, the loops over the slots in use go up to `count`, and a pevent's pointer is to a slot.
abbrev pub slot : VideoManage → ℕ → VideoData
slot m i = get_or m.videos i no_video

abbrev pub put : VideoManage → ℕ → VideoData → VideoManage
put m i d = record m { videos = set m.videos i d }

-- The use of a place of the array: past the end there is none.
abbrev pub inside : {X : Type 0} → VideoManage → ℕ → Option X → Option X
inside m i r = if ltb i (length m.videos) then r else none

-- What the test `index >= MAX_VIDEO_COUNT` makes of an index: refused, before the array, or a slot.
pub data Place : Type 0 where
  refused before : Place
  at : ℕ → Place

unfoldable pub locate : ℤ → Place
locate (negsuc n) = before
locate (pos n) = if leb max_video_count n then refused else at n

unfoldable pub get_at : VideoManage → Place → Option (Option Port)
get_at m refused = some none
get_at m before = none
get_at m (at i) = inside m i (some (slot m i).video)

-- video_manager_get
unfoldable pub get : VideoManage → ℤ → Option (Option Port)
unfolding get_at locate
get m index = get_at m (locate index)

-- time(NULL) as an unsigned int
abbrev pub now : Kernel → Log → ℕ
now k log = k.on_time log % 2 ^ 32

-- video_manager_set_check_time, on the slots from i on
check_from : ℕ → ℕ → ℕ → ℕ → VideoManage → VideoManage
check_from zero i video time m = m
check_from (suc n) i video time m =
    let rest = check_from n (i + 1) video time m in
    if i == video then put m i (record (slot m i) { last_check_time = time }) else rest

unfoldable pub set_check_time : Kernel → VideoManage → ℕ → Log → VideoManage
unfolding check_from
set_check_time k m video log = check_from m.count 0 video (now k log) m

module _ (k : Kernel) where
  -- The end of video_manager_stream_start: the new pevent is set.
  unfoldable pub after_set : VideoData → Port → Status × Pevent × Log → Status × VideoData × Log
  after_set d v (ok, p, log) = (ok, record d { video = some v; pevent = some p }, log)
  after_set d v (failed, p, log) =
      let (s, v', log') = stream_off k v (Pevent.free_no_close k p log) in
      (failed, record d { video = some v' }, log')

  unfoldable pub watch : ℕ → ℕ → VideoData → Port → Log → Status × VideoData × Log
  unfolding after_set
  watch base i d v log =
      after_set d v (Pevent.set k (Pevent.new base v.fd Pevent.on_video_event i) pevent_read log)

  unfoldable pub after_stream :
      ℕ → ℕ → VideoData → Option (Status × Port × Log) → Option (Status × VideoData × Log)
  unfolding watch
  after_stream base i d none = none
  after_stream base i d (some (failed, v, log)) = some (failed, record d { video = some v }, log)
  after_stream base i d (some (ok, v, log)) = some (watch base i d v log)

  unfoldable pub ensure_stream : ℕ → ℕ → VideoData → Port → Log → Option (Status × VideoData × Log)
  unfolding after_stream watch
  ensure_stream base i d v log =
      if not v.stream_flag
      then after_stream base i d (stream_on k v log)
      else some (watch base i d v log)

  unfoldable pub after_init :
      ℕ → ℕ → VideoData → Status × Port × Log → Option (Status × VideoData × Log)
  unfolding ensure_stream
  after_init base i d (failed, v, log) = some (failed, record d { video = some v }, log)
  after_init base i d (ok, v, log) = ensure_stream base i d v log

  -- With a video: the time is noted, and what is not running yet is started.
  unfoldable pub start_with :
      ℕ → ℕ → VideoData → Port → Option Pevent → Log → Option (Status × VideoData × Log)
  unfolding after_init ensure_stream
  start_with base i d v (some p) log = some (ok, d, log)
  start_with base i d v none log =
      if not v.init_flag then after_init base i d (init k v log) else ensure_stream base i d v log

  unfoldable pub start_video :
      ℕ → ℕ → VideoData → Option Port → Log → Option (Status × VideoData × Log)
  unfolding start_with
  start_video base i d none log = some (failed, d, log)
  start_video base i d (some v) log =
      start_with base i (record d { last_check_time = now k log }) v d.pevent log

  unfoldable pub store :
      VideoManage → ℕ → Option (Status × VideoData × Log) → Option (Status × VideoManage × Log)
  store m i none = none
  store m i (some (s, d, log)) = some (s, put m i d, log)

  unfoldable pub start_at : VideoManage → Place → Log → Option (Status × VideoManage × Log)
  unfolding start_video store
  start_at m refused log = some (failed, m, log)
  start_at m before log = none
  start_at m (at i) log =
      inside m i (store m i (start_video m.base i (slot m i) (slot m i).video log))

  -- video_manager_stream_start
  unfoldable pub stream_start : VideoManage → ℤ → Log → Option (Status × VideoManage × Log)
  unfolding start_at locate
  stream_start m index log = start_at m (locate index) log

  unfoldable pub drop_event : Option Pevent → Log → Log
  drop_event none log = log
  drop_event (some p) log = Pevent.free_no_close k p log

  unfoldable pub reinit : VideoData → Status × Port × Log → Status × VideoData × Log
  reinit d (s, v, log) = (s, record d { video = some v; pevent = none }, log)

  unfoldable pub init_with : VideoData → Option Port → Log → Status × VideoData × Log
  unfolding reinit drop_event
  init_with d none log = (failed, d, log)
  init_with d (some v) log = reinit d (init k v (drop_event d.pevent log))

  unfoldable pub init_at : VideoManage → Place → Log → Option (Status × VideoManage × Log)
  unfolding init_with store
  init_at m refused log = some (failed, m, log)
  init_at m before log = none
  init_at m (at i) log = inside m i (store m i (some (init_with (slot m i) (slot m i).video log)))

  -- video_manager_init_video
  unfoldable pub init_video : VideoManage → ℤ → Log → Option (Status × VideoManage × Log)
  unfolding init_at locate
  init_video m index log = init_at m (locate index) log

  -- video_manager_add
  unfoldable pub add : VideoManage → Text → ℕ → ℕ → ℕ → Log → Option (Status × VideoManage × Log)
  unfolding init_video
  add m device width height fps log =
      let v = record (V4l2.new device width height fps) { value = m.count } in
      let m' = put m m.count (record (slot m m.count) { video = some v }) in
      if ltb m.count max_video_count
      then inside m m.count (init_video (record m' { count = m.count + 1 }) (pos m.count) log)
      else some (failed, m, log)

  unfoldable pub end_video : VideoData → Option Port → Log → Log
  unfolding drop_event
  end_video d none log = log
  end_video d (some v) log = (V4l2.Streaming.uninit k v (drop_event d.pevent log)).1

  -- video_manager_cleanup; the blocks of the ports go with the log.
  cleanup_from : ℕ → ℕ → VideoManage → Log → Log
  unfolding end_video
  cleanup_from zero i m log = log
  cleanup_from (suc n) i m log =
      cleanup_from n (i + 1) m (end_video (slot m i) (slot m i).video log)

  unfoldable pub cleanup : VideoManage → Log → Log
  unfolding cleanup_from
  cleanup m log = cleanup_from m.count 0 m log
