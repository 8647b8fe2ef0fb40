-- ===== src/VideoManager/Handling.antt =====
-- src/video_manager.c, on_video_event: the table stays sound.
use camlite.Base.{
  ℕ, ◌+◌, ◌<◌, ◌≡◌, ◌≢◌, refl, ap, sym, ◌∙◌, Bool, true, false, Option, none, some, arith, length,
  ltb, ◌==◌, if◌then◌else◌, if_split, ◌⊎◌, inl, inr, Bool-cases,
}
use camlite.Kernel.{Kernel, Log, IoctlData, done, dqbuf}
use camlite.Pevent
use camlite.Pevent.{Pevent, Status, pevent_read}
use camlite.V4l2.{Port, at, xioctl}
use camlite.V4l2.Streaming.{stream_off}
use camlite.V4l2.Capture.{ReadCallback}
use camlite.V4l2.Buffers.{IsPort}
use camlite.V4l2.Stream.{stream_off-Streams}
use camlite.V4l2.Frames.{Frame, read-Frame}
use camlite.VideoManager.{VideoData, VideoManage, slot, put}
use camlite.VideoManager.Slots.{IsSlot, IsManager, put-IsManager, slot-put_same, slot-put_other}
use camlite.VideoManager.Times.{TimesOnly, TimesOnly-refl, TimesOnly-trans, TimesOnly-IsManager}
use camlite.VideoManager.Start.{stopped-IsPort, some-none, no_pevent_of}
use camlite.VideoManager.Init.{sound_port}
use camlite.VideoManager.Events.{
  stop, is_expired, expire, with_app, after_read, frame, on_video_event,
}

-- What the manager asks of its read_callback: of the manager it changes times of checks alone, as
-- camhttp_on_video_read does.
pub record IsReadCallback {B : Type 0} (callback : ℕ → ReadCallback (VideoManage × B))
    : Type 0 where
  pub times_only :
      (i x n : ℕ) (m : VideoManage) (b : B) (log : Log)
      → TimesOnly m (callback i (at x) n (m, b) log).0.0

-- After an event on slot i: the table is sound, the event is kept or ended, and other slots keep their
-- videos and events.
abbrev pub Handled : {B : Type 0} → VideoManage → ℕ → Option (VideoManage × B × Log) → Type 0
Handled m i none = ⊥
Handled m i (some (m', b, log)) =
    IsManager m'
    × (m'.count ≡ m.count)
    × (((slot m' i).pevent ≡ (slot m i).pevent) ⊎ ((slot m' i).pevent ≡ none))
    × ((j : ℕ)
        → i ≢ j
        → ((slot m' j).video ≡ (slot m j).video) × ((slot m' j).pevent ≡ (slot m j).pevent))

-- The time of the last check of a slot is longer ago than the timeout, which is not 0.
abbrev pub IsDue : Kernel → VideoManage → ℕ → Log → Type 0
IsDue k m i log = (0 < m.timeout) × ((slot m i).last_check_time + m.timeout < k.on_time log)

-- The stream of a slot is stopped and its event ended, with the port as v4l2port_stream leaves it and with those calls;
-- with no event nothing happens.
abbrev pub Stops :
    Kernel → Port → Option Pevent → VideoManage × Log → ℕ → VideoManage × Log → Type 0
Stops k v none before i after = after ≡ before
Stops k v (some p) (m, log) i (m', log') =
    ((slot m' i).pevent ≡ none)
    × ((slot m' i).video ≡ some ((stream_off k v log).1))
    × (log' ≡ Pevent.free_no_close k p ((stream_off k v log).2))

-- What the test leaves: exactly where the time is up, the stream is stopped.
abbrev pub Expired : Kernel → VideoManage → ℕ → Port → Log → VideoManage × Log → Type 0
Expired k m i v log (m', log') =
    IsManager m'
    × ((j : ℕ) → i ≢ j → slot m' j ≡ slot m j)
    × (IsDue k m i log → Stops k v (slot m i).pevent (m, log) i (m', log'))
    × (¬ IsDue k m i log → (m' ≡ m) × (log' ≡ log))

-- After the test of the timeout: a slot whose time is up has no event, and otherwise nothing changes.
abbrev pub Expires : Bool → VideoManage → ℕ → VideoManage × Log → Type 0
Expires up m i (m', log) =
    IsManager m'
    × (m'.count ≡ m.count)
    × (up ≡ true → (slot m' i).pevent ≡ none)
    × (up ≡ false → m' ≡ m)
    × ((j : ℕ) → i ≢ j → slot m' j ≡ slot m j)

-- The port of a slot moves on.
moved :
    (v w : Port) (event : Option Pevent)
    → IsSlot (some v) event
    → IsPort w
    → w.stream_flag ≡ v.stream_flag
    → w.fd ≡ v.fd
    → IsSlot (some w) event
moved v w none s p e f = p
moved v w (some q) s p e f = (p, e ∙ s.1, s.2 ∙ sym f, s.3)

module _ (k : Kernel) where
  stop-Expires :
      (m : VideoManage) (i : ℕ) (v : Port) (event : Option Pevent) (log : Log)
      → IsManager m
      → i < m.count
      → IsPort v
      → (slot m i).pevent ≡ event
      → Expires true m i (stop k m i v event log)
  unfolding stop
  stop-Expires m i v none log h used p e = (h, refl, (λ _. e), (λ f. cc), λ j n. refl)
  stop-Expires m i v (some q) log h used p e =
      let (s, v', log') = stream_off k v log in
      let d : VideoData = record (slot m i) { video = some v'; pevent = none } in
      let sound = stopped-IsPort (stream_off k v log) _ (stream_off-Streams k v log p).0 in
      (
        put-IsManager m i d h (omega (arith, h.counted)) (λ late. absurd (omega arith)) sound,
        refl,
        (λ _. ap (λ x. x.pevent) (slot-put_same m i d (omega (arith, h.full, h.counted)))),
        (λ f. cc),
        λ j n. slot-put_other m i j d n,
      )

  expire-keeps :
      (m : VideoManage) (i : ℕ) (v : Port) (log : Log)
      → IsManager m
      → i < m.count
      → IsPort v
      → Expires (is_expired k m i log) m i (expire k m i v log)
  unfolding expire
  expire-keeps m i v log h used p = split (is_expired k m i log)
    where
      split :
          (up : Bool) → Expires up m i (if up then stop k m i v (slot m i).pevent log else (m, log))
      split true = stop-Expires m i v (slot m i).pevent log h used p refl
      split false = (h, refl, (λ t. cc), (λ _. refl), λ j n. refl)

  stop-Stops :
      (m : VideoManage) (i : ℕ) (v : Port) (event : Option Pevent) (log : Log)
      → i < length m.videos
      → Stops k v event (m, log) i (stop k m i v event log)
  unfolding stop
  stop-Stops m i v none log h = refl
  stop-Stops m i v (some p) log h =
      let same =
        slot-put_same m i
          (record (slot m i) { video = some ((stream_off k v log).1); pevent = none }) h in
      (ap VideoData.pevent same, ap VideoData.video same, refl)

  -- The test at the end of on_video_event, on a slot in use with a sound port. If the timeout is not 0 and the time is
  -- later than that of the slot's last check by more than it, and the slot has an event, its stream is stopped and the
  -- event freed, in this order and whatever the driver answers; the slot has no event then, and the port that
  -- v4l2port_stream left. If not, nothing is changed and nothing is called. The table stays sound, and the other slots
  -- are as they were.
  pub expire-Expires :
      (m : VideoManage) (i : ℕ) (v : Port) (log : Log)
      → IsManager m
      → i < m.count
      → IsPort v
      → Expired k m i v log (expire k m i v log)
  unfolding expire is_expired
  expire-Expires m i v log h used p =
      let kept = expire-keeps m i v log h used p in
      (
        kept.0,
        kept.4,
        if_split
            (λ (x : VideoManage × Log). IsDue k m i log → Stops k v (slot m i).pevent (m, log) i x)
            (is_expired k m i log) _ _
            (λ _ due. stop-Stops m i v (slot m i).pevent log (omega (arith, h.full, h.counted)))
            (λ no due. absurd (not_due no due)),
        if_split (λ (x : VideoManage × Log). ¬ IsDue k m i log → (x.0 ≡ m) × (x.1 ≡ log))
            (is_expired k m i log) _ _ (λ yes never. absurd (never (due yes)))
            (λ _ never. (refl, refl)),
      )
    where
      not_due : is_expired k m i log ≡ false → ¬ IsDue k m i log
      not_due e d = ground (arith, d.0, d.1)

      due : is_expired k m i log ≡ true → IsDue k m i log
      due e = (ground arith, ground arith)

  Expires-pevent :
      (up : Bool) (m : VideoManage) (i : ℕ) (s : VideoManage × Log)
      → Expires up m i s
      → ((slot s.0 i).pevent ≡ (slot m i).pevent) ⊎ ((slot s.0 i).pevent ≡ none)
  Expires-pevent true m i (m', log) h = inr (h.2 refl)
  Expires-pevent false m i (m', log) h =
      inl (ap (λ (x : VideoManage). (slot x i).pevent) (h.3 refl))

  after_read-Handled :
      {B : Type 0} (m : VideoManage) (i : ℕ) (v : Port)
      (o : Option (Status × Port × (VideoManage × B) × Log))
      → IsManager m
      → i < m.count
      → (slot m i).video ≡ some v
      → Frame (λ (x : VideoManage × B). TimesOnly m x.0) v o
      → Handled m i (after_read k i o)
  unfolding after_read with_app
  after_read-Handled m i v none h used e f = f
  after_read-Handled m i v (some (s, w, (m', b), log)) h used e f =
      let d : VideoData = record (slot m' i) { video = some w } in
      let times : TimesOnly m m' = f.3 in
      let h' = TimesOnly-IsManager m m' times h in
      let within : i < length m'.videos = omega (arith, h'.full, h.counted) in
      let was : IsSlot (some v) (slot m i).pevent = rw e at (h.data_sound i) in
      let live : IsSlot (some w) (slot m' i).pevent =
        rw (times.same_pevent i) (moved v w (slot m i).pevent was f.0 f.1 f.2) in
      let kept =
        put-IsManager m' i d h' (omega (arith, h.counted))
          (λ late. absurd (omega (arith, times.same_count))) live in
      let m1 : VideoManage = put m' i d in
      let ends = expire-keeps m1 i w log kept (omega (arith, times.same_count)) f.0 in
      let same =
        ap (λ (x : VideoData). x.pevent) (slot-put_same m' i d within) ∙ times.same_pevent i in
      (
        ends.0,
        ends.1 ∙ times.same_count,
        trade (Expires-pevent (is_expired k m1 i log) m1 i (expire k m1 i w log) ends) same,
        λ j n. (
          ap (λ (x : VideoData). x.video) (ends.4 j n ∙ slot-put_other m' i j d n)
              ∙ times.same_video j,
          ap (λ (x : VideoData). x.pevent) (ends.4 j n ∙ slot-put_other m' i j d n)
              ∙ times.same_pevent j,
        ),
      )
    where
      trade : {a b c : Option Pevent} → (a ≡ b) ⊎ (a ≡ none) → b ≡ c → (a ≡ c) ⊎ (a ≡ none)
      trade (inl e) f = inl (e ∙ f)
      trade (inr e) f = inr e

  module _ {B : Type 0} (callback : ℕ → ReadCallback (VideoManage × B))
      (law : IsReadCallback callback) where
    frame-Handled :
        (m : VideoManage) (i : ℕ) (video : Option Port) (b : B) (log : Log)
        → IsManager m
        → (slot m i).video ≡ video
        → (slot m i).pevent ≢ none
        → ((v : Port) (d : IoctlData)
            → (slot m i).video ≡ some v
            → (xioctl k v.fd dqbuf log).0 ≡ done d
            → d.index < v.reqbufs_count)
        → Handled m i (frame k callback m i video b log)
    unfolding frame
    frame-Handled m i none b log h e live within =
        absurd (live (no_pevent_of (slot m i) e (h.data_sound i)))
    frame-Handled m i (some v) b log h e live within = elim (Bool-cases (ltb i m.count)) [
      | inl used ↦ after_read-Handled m i v _ h (ground arith) e (
          read-Frame k (callback i) (λ (x : VideoManage × B). TimesOnly m x.0)
            (λ x n a log' t. TimesOnly-trans m a.0 _ t (law.times_only i x n a.0 a.1 log')) v (m, b)
            log (sound_port (slot m i).pevent (rw e at (h.data_sound i))) (λ d g. within v d e g)
            (TimesOnly-refl m))
      | inr late ↦ absurd (some-none v (sym e ∙ h.unused i (ground arith)))
    ]

    -- on_video_event for a slot with an event, in a sound table, with a driver that hands back a buffer that it
    -- was given and a callback that changes times of checks alone, stays within its arrays and keeps the
    -- table sound. The slot's event is kept or ended, and the other slots keep their videos and events.
    pub on_video_event-Handled :
        (m : VideoManage) (i event : ℕ) (b : B) (log : Log)
        → IsManager m
        → (slot m i).pevent ≢ none
        → ((v : Port) (d : IoctlData)
            → (slot m i).video ≡ some v
            → (xioctl k v.fd dqbuf log).0 ≡ done d
            → d.index < v.reqbufs_count)
        → Handled m i (on_video_event k callback m i event b log)
    unfolding on_video_event
    on_video_event-Handled m i event b log h live within =
        if_split (Handled m i) (event == pevent_read) _ _
          (λ _. frame-Handled m i (slot m i).video b log h refl live within)
          (λ _. (h, refl, inl refl, λ j n. (refl, refl)))
