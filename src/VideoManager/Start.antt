-- ===== src/VideoManager/Start.antt =====
-- src/video_manager.c: video_manager_stream_start keeps the table sound.
use camlite.Base.{
  ℕ, ◌<◌, ◌≡◌, ◌≢◌, refl, sym, ◌∙◌, Bool, true, false, not, Option, none, some, arith, leb, ltb,
  if_split, inl, inr, pos, Bool-cases,
}
use camlite.Kernel.{Kernel, Log}
use camlite.Pevent
use camlite.Pevent.{Pevent, Status, ok, failed, pevent_read}
use camlite.V4l2.{Port}
use camlite.V4l2.Buffers.{IsPort, IsFrugal}
use camlite.V4l2.Stream.{Streams, StreamsOn, stream_on-Streams, stream_off-Streams}
use camlite.V4l2.Opening.{Opens, init-Opens}
use camlite.VideoManager.{
  VideoData, VideoManage, slot, max_video_count, after_set, watch, after_stream, ensure_stream,
  after_init, start_with, start_video, store, start_at, stream_start, locate,
}
use camlite.VideoManager.Slots.{
  IsSlot, IsData, IsManager, put-IsManager, slot-put_same, slot-put_other, inside-within,
}

-- What a start leaves of a slot: sound, and with an event exactly where the result is 0.
abbrev pub Started : Option (Status × VideoData × Log) → Type 0
Started none = ⊥
Started (some (ok, d, log)) = IsData d × (d.pevent ≢ none) × (d.video ≢ none)
Started (some (failed, d, log)) = IsData d × (d.pevent ≡ none)

pub some-none : {A : Type 0} (x : A) → some x ≢ none
some-none x e = cc

pub stopped-IsPort : (s : Status × Port × Log) (flag : Bool) → Streams flag false s → IsPort s.1
stopped-IsPort (ok, v, log) flag h = h.0
stopped-IsPort (failed, v, log) flag h = h.0

no_pevent : (event : Option Pevent) → IsSlot none event → event ≡ none
no_pevent none h = refl
no_pevent (some p) h = absurd h

pub no_pevent_of : (d : VideoData) → d.video ≡ none → IsData d → d.pevent ≡ none
no_pevent_of d e h = no_pevent d.pevent (rw e at h)

-- A new pevent that is set to read.
abbrev Reads : ℕ → Status × Pevent × Log → Type 0
Reads fd (ok, p, log) = (p.fd ≡ fd) × (p.state ≡ pevent_read)
Reads fd (failed, p, log) = Unit

-- What an operation on slot i leaves of the table: sound, with an event in the slot exactly where the
-- result is 0, and the other slots as they were.
abbrev pub StartsAt : VideoManage → ℕ → Option (Status × VideoManage × Log) → Type 0
StartsAt m i none = ⊥
StartsAt m i (some (ok, m', log)) =
    IsManager m' × ((slot m' i).pevent ≢ none) × ((j : ℕ) → i ≢ j → slot m' j ≡ slot m j)
StartsAt m i (some (failed, m', log)) =
    IsManager m' × ((slot m' i).pevent ≡ none) × ((j : ℕ) → i ≢ j → slot m' j ≡ slot m j)

module _ (k : Kernel) where
  set-Reads :
      (base fd i : ℕ) (log : Log)
      → Reads fd (Pevent.set k (Pevent.new base fd Pevent.on_video_event i) pevent_read log)
  unfolding Pevent.set Pevent.new Pevent.signal
  set-Reads base fd i log = ground arith

  after_set-Started :
      (d : VideoData) (v : Port) (t : Status × Pevent × Log)
      → d.pevent ≡ none
      → IsPort v
      → v.stream_flag ≡ true
      → Reads v.fd t
      → Started (some (after_set k d v t))
  unfolding after_set
  after_set-Started d v (ok, p, log) e sound live r =
      ((sound, live, r.0, r.1), some-none p, some-none v)
  after_set-Started d v (failed, p, log) e sound live r =
      let off = stream_off-Streams k v (Pevent.free_no_close k p log) sound in
      (rw e (stopped-IsPort _ _ off.0), e)

  watch-Started :
      (base i : ℕ) (d : VideoData) (v : Port) (log : Log)
      → d.pevent ≡ none
      → IsPort v
      → v.stream_flag ≡ true
      → Started (some (watch k base i d v log))
  unfolding watch
  watch-Started base i d v log e sound live =
      after_set-Started d v _ e sound live (set-Reads base v.fd i log)

  after_stream-Started :
      (base i : ℕ) (d : VideoData) (flag : Bool) (o : Option (Status × Port × Log))
      → d.pevent ≡ none
      → StreamsOn flag o
      → Started (after_stream k base i d o)
  unfolding after_stream
  after_stream-Started base i d flag none e h = h
  after_stream-Started base i d flag (some (failed, v, log)) e h = (rw e h.0, e)
  after_stream-Started base i d flag (some (ok, v, log)) e h =
      watch-Started base i d v log e h.0 h.1

  ensure_stream-Started :
      (base i : ℕ) (d : VideoData) (v : Port) (log : Log)
      → d.pevent ≡ none
      → IsPort v
      → IsFrugal k
      → Started (ensure_stream k base i d v log)
  unfolding ensure_stream
  ensure_stream-Started base i d v log e sound frugal =
      if_split Started (not v.stream_flag) _ _
        (λ off. after_stream-Started base i d _ _ e (stream_on-Streams k v log sound frugal).0)
        (λ on. watch-Started base i d v log e sound (ground arith))

  after_init-Started :
      (base i : ℕ) (d : VideoData) (s : Status × Port × Log)
      → d.pevent ≡ none
      → Opens s
      → IsFrugal k
      → Started (after_init k base i d s)
  unfolding after_init
  after_init-Started base i d (failed, v, log) e h frugal = (rw e h.0, e)
  after_init-Started base i d (ok, v, log) e h frugal =
      ensure_stream-Started base i d v log e h.0 frugal

  start_with-Started :
      (base i : ℕ) (d : VideoData) (v : Port) (event : Option Pevent) (log : Log)
      → d.video ≡ some v
      → d.pevent ≡ event
      → IsSlot (some v) event
      → IsFrugal k
      → Started (start_with k base i d v event log)
  unfolding start_with
  start_with-Started base i d v (some p) log f e h frugal =
      (rw (f, e) h, (λ n. some-none p (sym e ∙ n)), (λ n. some-none v (sym f ∙ n)))
  start_with-Started base i d v none log f e h frugal =
      if_split Started (not v.init_flag) _ _
        (λ off. after_init-Started base i d _ e (init-Opens k v log h) frugal)
        (λ on. ensure_stream-Started base i d v log e h frugal)

  start_video-Started :
      (base i : ℕ) (d : VideoData) (video : Option Port) (log : Log)
      → d.video ≡ video
      → IsData d
      → IsFrugal k
      → Started (start_video k base i d video log)
  unfolding start_video
  start_video-Started base i d none log f h frugal = (h, no_pevent d.pevent (rw f at h))
  start_video-Started base i d (some v) log f h frugal =
      start_with-Started base i _ v d.pevent log f refl (rw f at h) frugal

  store-StartsAt :
      (m : VideoManage) (i : ℕ) (o : Option (Status × VideoData × Log))
      → IsManager m
      → i < m.count
      → Started o
      → StartsAt m i (store k m i o)
  unfolding store
  store-StartsAt m i none h used s = s
  store-StartsAt m i (some (ok, d, log)) h used s = (
    put-IsManager m i d h (omega (arith, h.counted)) (λ late. absurd (omega arith)) s.0,
    rw (slot-put_same m i d (omega (arith, h.full, h.counted))) s.1,
    λ j n. slot-put_other m i j d n,
  )
  store-StartsAt m i (some (failed, d, log)) h used s = (
    put-IsManager m i d h (omega (arith, h.counted)) (λ late. absurd (omega arith)) s.0,
    rw (slot-put_same m i d (omega (arith, h.full, h.counted))) s.1,
    λ j n. slot-put_other m i j d n,
  )

  start_slot-StartsAt :
      (m : VideoManage) (i : ℕ) (video : Option Port) (log : Log)
      → IsManager m
      → IsFrugal k
      → i < max_video_count
      → (slot m i).video ≡ video
      → StartsAt m i (store k m i (start_video k m.base i (slot m i) video log))
  unfolding store start_video
  start_slot-StartsAt m i none log h frugal within e =
      let empty : (slot m i).pevent ≡ none = no_pevent_of (slot m i) e (h.data_sound i) in
      (
        put-IsManager m i (slot m i) h within (λ _. e) (h.data_sound i),
        rw (slot-put_same m i (slot m i) (omega (arith, h.full))) empty,
        λ j n. slot-put_other m i j (slot m i) n,
      )
  start_slot-StartsAt m i (some v) log h frugal within e = elim (Bool-cases (ltb i m.count)) [
    | inl used ↦
        store-StartsAt m i _ h (ground arith)
          (start_video-Started m.base i (slot m i) (some v) log e (h.data_sound i) frugal)
    | inr late ↦ absurd (some-none v (sym e ∙ h.unused i (ground arith)))
  ]

  -- video_manager_stream_start of a sound table, for each index that is not negative and with a driver
  -- that grants no more buffers than it is asked for, stays within its arrays and keeps the table sound. The
  -- slot has an event exactly where the result is 0: a start that fails leaves none behind, at whatever
  -- step. The other slots are as they were.
  pub stream_start-StartsAt :
      (m : VideoManage) (i : ℕ) (log : Log)
      → IsManager m
      → IsFrugal k
      → StartsAt m i (stream_start k m (pos i) log)
  unfolding stream_start start_at locate
  stream_start-StartsAt m i log h frugal =
      if_split (λ x. StartsAt m i (start_at k m x log)) (leb max_video_count i) _ _
        (λ beyond. (
          h,
          no_pevent_of (slot m i) (h.unused i (ground (arith, h.counted))) (h.data_sound i),
          λ j n. refl,
        ))
        (λ below.
          let room : i < max_video_count = ground arith in
          inside-within (StartsAt m i) m i _ h room
            (start_slot-StartsAt m i _ log h frugal room refl))
