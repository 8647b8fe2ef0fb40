-- ===== src/VideoManager/Init.antt =====
-- src/video_manager.c: video_manager_init_video keeps the table sound.
use camlite.Base.{
  ℕ, ◌≤◌, ◌<◌, ◌≡◌, ◌≢◌, refl, ap, sym, subst, ◌∙◌, true, Option, none, some, arith, leb, if_split,
  pos,
}
use camlite.Kernel.{Kernel, Log}
use camlite.Pevent
use camlite.Pevent.{Pevent, Status, ok, failed}
use camlite.V4l2.{Port}
use camlite.V4l2.Buffers.{IsPort}
use camlite.V4l2.Init.{init}
use camlite.V4l2.Opening.{Opens, init-Opens}
use camlite.VideoManager.{
  VideoData, VideoManage, slot, put, max_video_count, store, locate, reinit, init_with, init_at,
  init_video, drop_event,
}
use camlite.VideoManager.Slots.{
  IsSlot, IsData, IsManager, put-IsManager, slot-put_same, slot-put_other, inside-within,
}
use camlite.VideoManager.Start.{no_pevent_of, some-none}

same_port : (v w : Port) → some v ≡ some w → v ≡ w
same_port v w e = cc

-- The result and the port of v4l2port_init, with its calls.
abbrev pub AsInit : Status × Port × Log → Status → VideoData → Log → Type 0
AsInit (s, v, log) s' d after = (s' ≡ s) × (d.video ≡ some v) × (after ≡ log)

-- What becomes of a slot: with no video there is an error and no call; the event, if there is one, is freed with no
-- close of its descriptor; and then the port is initialised.
abbrev pub Renewed : Kernel → Option Port → Option Pevent → Log → Status → VideoData → Log → Type 0
Renewed k none e before s d after = (s ≡ failed) × (d.video ≡ none) × (after ≡ before)
Renewed k (some v) none before s d after = AsInit (init k v before) s d after
Renewed k (some v) (some p) before s d after =
    AsInit (init k v (Pevent.free_no_close k p before)) s d after

-- What video_manager_init_video leaves: the slot has no event, and where the result is 0 its video is
-- initialised.
abbrev pub Inits : Kernel → VideoManage → ℕ → Log → Option (Status × VideoManage × Log) → Type 0
Inits k m i before none = ⊥
Inits k m i before (some (ok, m', log)) =
    IsManager m'
    × (m'.count ≡ m.count)
    × ((slot m' i).pevent ≡ none)
    × ((j : ℕ) → i ≢ j → slot m' j ≡ slot m j)
    × ((v : Port) → (slot m' i).video ≡ some v → v.init_flag ≡ true)
    × Renewed k (slot m i).video (slot m i).pevent before ok (slot m' i) log
Inits k m i before (some (failed, m', log)) =
    IsManager m'
    × (m'.count ≡ m.count)
    × ((slot m' i).pevent ≡ none)
    × ((j : ℕ) → i ≢ j → slot m' j ≡ slot m j)
    × Renewed k (slot m i).video (slot m i).pevent before failed (slot m' i) log

pub sound_port : {v : Port} (event : Option Pevent) → IsSlot (some v) event → IsPort v
sound_port none h = h
sound_port (some p) h = h.0

module _ (k : Kernel) where
  reinit-Inits :
      (m : VideoManage) (i : ℕ) (before : Log) (s : Status × Port × Log)
      → IsManager m
      → i < max_video_count
      → ¬ (m.count ≤ i)
      → Opens s
      → ((d : VideoData)
          → d.video ≡ some (s.1)
          → Renewed k (slot m i).video (slot m i).pevent before s.0 d s.2)
      → Inits k m i before (store k m i (some (reinit k (slot m i) s)))
  unfolding reinit store
  reinit-Inits m i before (ok, v, log) h within used o r =
      let d : VideoData = record (slot m i) { video = some v; pevent = none } in
      let same = slot-put_same m i d (omega (arith, h.full)) in
      (
        put-IsManager m i d h within (λ late. absurd (used late)) o.0,
        refl,
        rw same refl,
        (λ j n. slot-put_other m i j d n),
        (λ w e. rw (← same_port v w (rw same at e)) o.1),
        r (slot (put m i d) i) (ap VideoData.video same),
      )
  reinit-Inits m i before (failed, v, log) h within used o r =
      let d : VideoData = record (slot m i) { video = some v; pevent = none } in
      let same = slot-put_same m i d (omega (arith, h.full)) in
      (
        put-IsManager m i d h within (λ late. absurd (used late)) o.0,
        refl,
        rw same refl,
        (λ j n. slot-put_other m i j d n),
        r (slot (put m i d) i) (ap VideoData.video same),
      )

  renewed :
      (v : Port) (event : Option Pevent) (before : Log) (d : VideoData)
      → let r = init k v (drop_event k event before) in
        d.video ≡ some r.1 → Renewed k (some v) event before r.0 d r.2
  unfolding drop_event
  renewed v none before d e = (refl, e, refl)
  renewed v (some p) before d e = (refl, e, refl)

  init_with-Started :
      (m : VideoManage) (i : ℕ) (video : Option Port) (log : Log)
      → IsManager m
      → i < max_video_count
      → (slot m i).video ≡ video
      → Inits k m i log (store k m i (some (init_with k (slot m i) video log)))
  unfolding init_with store
  init_with-Started m i none log h within e = (
    put-IsManager m i (slot m i) h within (λ _. e) (h.data_sound i),
    refl,
    rw (slot-put_same m i (slot m i) (omega (arith, h.full)))
        (no_pevent_of (slot m i) e (h.data_sound i)),
    (λ j n. slot-put_other m i j (slot m i) n),
    subst (λ x. Renewed k x (slot m i).pevent log failed (slot (put m i (slot m i)) i) log) (sym e)
        (refl, ap VideoData.video (slot-put_same m i (slot m i) (omega (arith, h.full))) ∙ e, refl),
  )
  init_with-Started m i (some v) log h within e =
      reinit-Inits m i log _ h within (λ late. some-none v (sym e ∙ h.unused i late))
        (init-Opens k v (drop_event k (slot m i).pevent log)
          (sound_port (slot m i).pevent (rw e at slot_sound)))
        (λ d f.
          let r = init k v (drop_event k (slot m i).pevent log) in
          subst (λ x. Renewed k x (slot m i).pevent log r.0 d r.2) (sym e)
            (renewed v (slot m i).pevent log d f))
    where
      slot_sound : IsData (slot m i)
      slot_sound = h.data_sound i

  -- video_manager_init_video of a sound table, for each index that is not negative, keeps the table sound.
  -- Its event, if it has one, is freed with no close of its descriptor, and then its port is given to v4l2port_init,
  -- whose result and port are those of the call and of the slot; a slot with no video, and every index from the tenth
  -- on, gives -1 with no call. Whatever the result, the slot has no event; where it is 0 its video is initialised.
  -- The other slots are as they were.
  pub init_video-Inits :
      (m : VideoManage) (i : ℕ) (log : Log)
      → IsManager m
      → Inits k m i log (init_video k m (pos i) log)
  unfolding init_video init_at locate
  init_video-Inits m i log h =
      if_split (λ x. Inits k m i log (init_at k m x log)) (leb max_video_count i) _ _
        (λ beyond. (
          h,
          refl,
          no_pevent_of (slot m i) (h.unused i (ground (arith, h.counted))) (h.data_sound i),
          (λ j n. refl),
          empty (h.unused i (ground (arith, h.counted))),
        ))
        (λ below.
          let room : i < max_video_count = ground arith in
          inside-within (Inits k m i log) m i _ h room (init_with-Started m i _ log h room refl))
    where
      empty :
          (slot m i).video ≡ none
          → Renewed k (slot m i).video (slot m i).pevent log failed (slot m i) log
      empty e =
          subst (λ x. Renewed k x (slot m i).pevent log failed (slot m i) log) (sym e)
            (refl, e, refl)
