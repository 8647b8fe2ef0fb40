-- ===== src/VideoManager/Adding.antt =====
-- src/video_manager.c: video_manager_add stores the new device and keeps the table sound.
use camlite.Base.{
  ℕ, ◌+◌, ◌<◌, ◌≡◌, ◌≢◌, refl, subst, ◌∙◌, Option, none, some, arith, ltb, Text, if_split, ◌⊎◌, inl,
  inr, length-set,
}
use camlite.Kernel.{Kernel, Log}
use camlite.Pevent.{Status, ok, failed}
use camlite.V4l2
use camlite.V4l2.{Port}
use camlite.V4l2.Buffers.{IsPort}
use camlite.V4l2.Init.{init}
use camlite.VideoManager.{VideoData, VideoManage, slot, put, max_video_count, add}
use camlite.VideoManager.Slots.{
  IsData, IsManager, slot-put_same, slot-put_other, nat-cases, inside-within,
}
use camlite.VideoManager.Start.{no_pevent_of}
use camlite.VideoManager.Init.{AsInit, Renewed, Inits, init_video-Inits}

-- The table with a new port in the first free slot.
abbrev added : VideoManage → Port → VideoManage
added m v = record (put m m.count (record (slot m m.count) { video = some v })) {
  count = m.count + 1;
}

added-IsManager :
    (m : VideoManage) (v : Port)
    → IsManager m
    → IsPort v
    → m.count < max_video_count
    → IsManager (added m v)
added-IsManager m v h p room = record {
  full = length-set m.videos m.count _ ∙ h.full;
  counted = omega arith;
  data_sound = λ j. sound j (nat-cases m.count j);
  unused =
      λ j late. rw (slot-put_other m m.count j d (λ e. omega arith)) (h.unused j (omega arith));
}
  where
    d : VideoData
    d = record (slot m m.count) { video = some v }

    empty : (slot m m.count).pevent ≡ none
    empty = no_pevent_of (slot m m.count) (h.unused m.count (omega arith)) (h.data_sound m.count)

    sound : (j : ℕ) → (m.count ≡ j) ⊎ (m.count ≢ j) → IsData (slot (put m m.count d) j)
    sound j (inl e) = rw (← e, slot-put_same m m.count d (omega (arith, h.full)), empty) p
    sound j (inr n) = rw (slot-put_other m m.count j d n) (h.data_sound j)

new-IsPort :
    (device : Text) (width height fps value : ℕ)
    → IsPort (record (V4l2.new device width height fps) { value = value })
unfolding V4l2.new
new-IsPort device width height fps value = record {
  buffers = inr (record { nothing = refl; empty = refl });
  streams = λ e. cc;
}

-- What video_manager_add leaves, for the port that v4l2port_new makes.
abbrev pub Adds : Kernel → VideoManage → Port → Log → Option (Status × VideoManage × Log) → Type 0
Adds k m v before none = ⊥
Adds k m v before (some (s, m', log)) =
    IsManager m'
    × (m.count < max_video_count
        → (m'.count ≡ m.count + 1)
          × AsInit (init k v before) s (slot m' m.count) log
          × ((j : ℕ) → m.count ≢ j → slot m' j ≡ slot m j))
    × (m.count ≡ max_video_count → (s ≡ failed) × (m' ≡ m) × (log ≡ before))

module _ (k : Kernel) (m : VideoManage) (v : Port) (h : IsManager m)
    (room : m.count < max_video_count) where
  -- The slot of the new port, which had none
  added-Renewed :
      (before : Log) (s : Status) (d : VideoData) (after : Log)
      → Renewed k
          (slot (added m v) m.count).video
          (slot (added m v) m.count).pevent
          before
          s
          d
          after
      → AsInit (init k v before) s d after
  added-Renewed before s d after r =
      let same =
        slot-put_same m m.count (record (slot m m.count) { video = some v })
          (omega (arith, h.full)) in
      let empty =
        no_pevent_of (slot m m.count) (h.unused m.count (omega arith)) (h.data_sound m.count) in
      subst (λ e. Renewed k (some v) e before s d after) empty
        (subst (λ (x : VideoData). Renewed k x.video x.pevent before s d after) same r)

  room-Adds :
      (before : Log) (o : Option (Status × VideoManage × Log))
      → Inits k (added m v) m.count before o
      → Adds k m v before o
  room-Adds before none h = h
  room-Adds before (some (ok, w, log)) h = (
    h.0,
    (λ _. (
      h.1,
      added-Renewed before ok (slot w m.count) log h.5,
      λ j n. h.3 j n ∙ slot-put_other m m.count j _ n,
    )),
    λ full. absurd (omega arith),
  )
  room-Adds before (some (failed, w, log)) h = (
    h.0,
    (λ _. (
      h.1,
      added-Renewed before failed (slot w m.count) log h.4,
      λ j n. h.3 j n ∙ slot-put_other m m.count j _ n,
    )),
    λ full. absurd (omega arith),
  )

-- The port of a new device, for a slot
abbrev pub port_of : VideoManage → Text → ℕ → ℕ → ℕ → Port
port_of m device width height fps = record (V4l2.new device width height fps) { value = m.count }

-- video_manager_add of a sound table stays within the table and keeps it sound. While there is room, the port that
-- v4l2port_new makes of the device and its size, with the number of its slot, is put into the first slot that is not
-- in use, as v4l2port_init leaves it, whether that succeeds or not; the result is that of v4l2port_init, and the other
-- slots are as they were. A table that is full is left as it is, with the result -1 and no call.
pub add-Adds :
    (k : Kernel) (m : VideoManage) (device : Text) (width height fps : ℕ) (log : Log)
    → IsManager m
    → Adds k m (port_of m device width height fps) log (add k m device width height fps log)
unfolding add
add-Adds k m device width height fps log h =
    let v = port_of m device width height fps in
    if_split (Adds k m v log) (ltb m.count max_video_count) _ _
      (λ below.
        let room : m.count < max_video_count = ground arith in
        inside-within (Adds k m v log) m m.count _ h room (
          room-Adds k m v h room log _ (
            init_video-Inits k (added m v) m.count log
              (added-IsManager m v h (new-IsPort device width height fps m.count) room))))
      (λ full. (h, (λ room. absurd (ground arith)), λ _. (refl, refl, refl)))
