-- ===== src/VideoManager/Apart.antt =====
-- src/video_manager.c: starting and initialising a video leaves the descriptors of the clients alone.
use camlite.Base.{
  ℕ, ◌<◌, ◌≡◌, ◌≢◌, sym, ◌∙◌, true, false, not, Option, none, some, arith, length, ltb, if_split,
  ◌⊎◌, inl, inr, Bool-cases, set-beyond, ℤ,
}
use camlite.Kernel.{Kernel, Log}
use camlite.Kernel.Quiet.{Quiet, IsHeld, IsOpener}
use camlite.Pevent
use camlite.Pevent.{Pevent, Status, ok, failed, pevent_read}
use camlite.Pevent.Apart.{SetQuiet, set-SetQuiet, free_no_close-Quiet}
use camlite.V4l2.{Port}
use camlite.V4l2.Streaming.{stream_on}
use camlite.V4l2.Init.{init}
use camlite.V4l2.Apart.{Calm, MayCalm, stream_on-Calm, stream_off-Calm}
use camlite.V4l2.Apart.Opening.{init-Calm}
use camlite.VideoManager.{
  VideoData, VideoManage, slot, put, inside, Place, refused, before, at, locate, after_set, watch,
  after_stream, ensure_stream, after_init, start_with, start_video, store, start_at, stream_start,
  drop_event, reinit, init_with, init_at, init_video,
}
use camlite.VideoManager.Slots.{nat-cases, slot-put_same, slot-put_other}

abbrev pub ApartPort : ℕ → Option Port → Type 0
ApartPort fd none = Unit
ApartPort fd (some v) = v.fd ≢ fd

abbrev pub ApartPevent : ℕ → Option Pevent → Type 0
ApartPevent fd none = Unit
ApartPevent fd (some p) = p.fd ≢ fd

-- Nothing in the slot is on the descriptor.
abbrev pub ApartData : ℕ → VideoData → Type 0
ApartData fd d = ApartPort fd d.video × ApartPevent fd d.pevent

-- No camera is on the descriptor, which is not 0, the one that a closed port names.
pub record ApartManager (fd : ℕ) (m : VideoManage) : Type 0 where
  pub above : 0 < fd
  pub apart : (i : ℕ) → ApartData fd (slot m i)

pub put-ApartManager :
    (fd : ℕ) (m : VideoManage) (i : ℕ) (d : VideoData)
    → ApartManager fd m
    → ApartData fd d
    → ApartManager fd (put m i d)
put-ApartManager fd m i d h a = record {
  above = h.above;
  apart = λ j. within j (nat-cases i j) (Bool-cases (ltb i (length m.videos)));
}
  where
    within :
        (j : ℕ)
        → (i ≡ j) ⊎ (i ≢ j)
        → (ltb i (length m.videos) ≡ true) ⊎ (ltb i (length m.videos) ≡ false)
        → ApartData fd (slot (put m i d) j)
    within j (inr n) e = rw (slot-put_other m i j d n) (h.apart j)
    within j (inl e) (inl room) = rw (← e, slot-put_same m i d (ground arith)) a
    within j (inl e) (inr out) = rw (set-beyond m.videos i d (ground arith)) (h.apart j)

-- What an operation on a slot leaves of it
abbrev pub CalmData : ℕ → Log → Status × VideoData × Log → Type 0
CalmData fd begun (s, d, log) = Quiet fd begun log × ApartData fd d

abbrev pub MayCalmData : ℕ → Log → Option (Status × VideoData × Log) → Type 0
MayCalmData fd begun none = Unit
MayCalmData fd begun (some s) = CalmData fd begun s

-- What an operation on the table leaves of it
abbrev pub CalmManager : ℕ → Log → Option (Status × VideoManage × Log) → Type 0
CalmManager fd begun none = Unit
CalmManager fd begun (some (s, m, log)) = Quiet fd begun log × ApartManager fd m

module _ (k : Kernel) (fd : ℕ) (begun : Log) where
  after_set-CalmData :
      (d : VideoData) (v : Port) (t : Status × Pevent × Log)
      → ApartData fd d
      → v.fd ≢ fd
      → SetQuiet v.fd fd begun t
      → CalmData fd begun (after_set k d v t)
  unfolding after_set
  after_set-CalmData d v (ok, p, log) a n q = (q.1, (n, λ e. n (sym q.0 ∙ e)))
  after_set-CalmData d v (failed, p, log) a n q =
      let off =
        stream_off-Calm k fd begun v _ n
          (free_no_close-Quiet k fd begun p log (λ e. n (sym q.0 ∙ e)) q.1) in
      (off.0, (off.1, a.1))

  watch-CalmData :
      (base i : ℕ) (d : VideoData) (v : Port) (log : Log)
      → ApartData fd d
      → v.fd ≢ fd
      → Quiet fd begun log
      → CalmData fd begun (watch k base i d v log)
  unfolding watch Pevent.new
  watch-CalmData base i d v log a n q =
      after_set-CalmData d v _ a n
        (set-SetQuiet k fd begun (Pevent.new base v.fd Pevent.on_video_event i) pevent_read log n q)

  after_stream-CalmData :
      (base i : ℕ) (d : VideoData) (o : Option (Status × Port × Log))
      → ApartData fd d
      → MayCalm fd begun o
      → MayCalmData fd begun (after_stream k base i d o)
  unfolding after_stream
  after_stream-CalmData base i d none a h = tt
  after_stream-CalmData base i d (some (failed, v, log)) a h = (h.0, (h.1, a.1))
  after_stream-CalmData base i d (some (ok, v, log)) a h = watch-CalmData base i d v log a h.1 h.0

  ensure_stream-CalmData :
      (base i : ℕ) (d : VideoData) (v : Port) (log : Log)
      → ApartData fd d
      → v.fd ≢ fd
      → Quiet fd begun log
      → MayCalmData fd begun (ensure_stream k base i d v log)
  unfolding ensure_stream
  ensure_stream-CalmData base i d v log a n q =
      if_split (MayCalmData fd begun) (not v.stream_flag) _ _
        (λ _.
          after_stream-CalmData base i d (stream_on k v log) a
            (stream_on-Calm k fd begun v n log q))
        (λ _. watch-CalmData base i d v log a n q)

  after_init-CalmData :
      (base i : ℕ) (d : VideoData) (s : Status × Port × Log)
      → ApartData fd d
      → Calm fd begun s
      → MayCalmData fd begun (after_init k base i d s)
  unfolding after_init
  after_init-CalmData base i d (failed, v, log) a h = (h.0, (h.1, a.1))
  after_init-CalmData base i d (ok, v, log) a h = ensure_stream-CalmData base i d v log a h.1 h.0

  module _ (law : IsOpener k) (held : IsHeld fd begun) (pos : 0 < fd) where
    start_with-CalmData :
        (base i : ℕ) (d : VideoData) (v : Port) (event : Option Pevent) (log : Log)
        → ApartData fd d
        → v.fd ≢ fd
        → Quiet fd begun log
        → MayCalmData fd begun (start_with k base i d v event log)
    unfolding start_with
    start_with-CalmData base i d v (some p) log a n q = (q, a)
    start_with-CalmData base i d v none log a n q =
        if_split (MayCalmData fd begun) (not v.init_flag) _ _
          (λ _.
            after_init-CalmData base i d (init k v log) a
              (init-Calm k fd begun v log law held pos n q))
          (λ _. ensure_stream-CalmData base i d v log a n q)

    start_video-CalmData :
        (base i : ℕ) (d : VideoData) (video : Option Port) (log : Log)
        → ApartData fd d
        → ApartPort fd video
        → Quiet fd begun log
        → MayCalmData fd begun (start_video k base i d video log)
    unfolding start_video
    start_video-CalmData base i d none log a n q = (q, a)
    start_video-CalmData base i d (some v) log a n q =
        start_with-CalmData base i _ v d.pevent log a n q

    store-CalmManager :
        (m : VideoManage) (i : ℕ) (o : Option (Status × VideoData × Log))
        → ApartManager fd m
        → MayCalmData fd begun o
        → CalmManager fd begun (store k m i o)
    unfolding store
    store-CalmManager m i none a h = tt
    store-CalmManager m i (some (s, d, log)) a h = (h.0, put-ApartManager fd m i d a h.1)

    inside-CalmManager :
        (m : VideoManage) (i : ℕ) (o : Option (Status × VideoManage × Log))
        → CalmManager fd begun o
        → CalmManager fd begun (inside m i o)
    inside-CalmManager m i o h =
        if_split (CalmManager fd begun) (ltb i (length m.videos)) _ _ (λ _. h) (λ _. tt)

    start_at-CalmManager :
        (m : VideoManage) (place : Place) (log : Log)
        → ApartManager fd m
        → Quiet fd begun log
        → CalmManager fd begun (start_at k m place log)
    unfolding start_at
    start_at-CalmManager m refused log a q = (q, a)
    start_at-CalmManager m before log a q = tt
    start_at-CalmManager m (at i) log a q = inside-CalmManager m i _ (
        store-CalmManager m i _ a (
          start_video-CalmData m.base i (slot m i) (slot m i).video log (a.apart i) (a.apart i).0
            q))

    -- video_manager_stream_start leaves a descriptor that epoll watches alone, when no camera is on it, and no camera
    -- is on it afterwards.
    pub stream_start-CalmManager :
        (m : VideoManage) (index : ℤ) (log : Log)
        → ApartManager fd m
        → Quiet fd begun log
        → CalmManager fd begun (stream_start k m index log)
    unfolding stream_start
    stream_start-CalmManager m index log a q = start_at-CalmManager m (locate index) log a q

    drop_event-Quiet :
        (event : Option Pevent) (log : Log)
        → ApartPevent fd event
        → Quiet fd begun log
        → Quiet fd begun (drop_event k event log)
    unfolding drop_event
    drop_event-Quiet none log a q = q
    drop_event-Quiet (some p) log a q = free_no_close-Quiet k fd begun p log a q

    reinit-CalmData :
        (d : VideoData) (s : Status × Port × Log)
        → Calm fd begun s
        → CalmData fd begun (reinit k d s)
    unfolding reinit
    reinit-CalmData d (s, v, log) h = (h.0, (h.1, tt))

    init_with-CalmData :
        (d : VideoData) (video : Option Port) (log : Log)
        → ApartData fd d
        → ApartPort fd video
        → Quiet fd begun log
        → CalmData fd begun (init_with k d video log)
    unfolding init_with
    init_with-CalmData d none log a n q = (q, a)
    init_with-CalmData d (some v) log a n q =
        reinit-CalmData d (init k v (drop_event k d.pevent log)) (
          init-Calm k fd begun v (drop_event k d.pevent log) law held pos n
            (drop_event-Quiet d.pevent log a.1 q))

    init_at-CalmManager :
        (m : VideoManage) (place : Place) (log : Log)
        → ApartManager fd m
        → Quiet fd begun log
        → CalmManager fd begun (init_at k m place log)
    unfolding init_at
    init_at-CalmManager m refused log a q = (q, a)
    init_at-CalmManager m before log a q = tt
    init_at-CalmManager m (at i) log a q = inside-CalmManager m i _ (
        store-CalmManager m i (some (init_with k (slot m i) (slot m i).video log)) a
          (init_with-CalmData (slot m i) (slot m i).video log (a.apart i) (a.apart i).0 q))

    -- video_manager_init_video does so too.
    pub init_video-CalmManager :
        (m : VideoManage) (index : ℤ) (log : Log)
        → ApartManager fd m
        → Quiet fd begun log
        → CalmManager fd begun (init_video k m index log)
    unfolding init_video
    init_video-CalmManager m index log a q = init_at-CalmManager m (locate index) log a q
