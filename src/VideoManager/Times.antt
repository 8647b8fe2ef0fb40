-- ===== src/VideoManager/Times.antt =====
-- src/video_manager.c: video_manager_set_check_time changes nothing but times of checks.
use camlite.Base.{
  ℕ, zero, suc, ◌+◌, ◌≤◌, ◌<◌, ◌≡◌, ◌≢◌, refl, ap, ◌∙◌, Bool, true, false, arith, length, ltb, ◌==◌,
  if_split, if◌then◌else◌, set-beyond, length-set, ◌⊎◌, inl, inr, Bool-cases,
}
use camlite.Kernel.{Kernel, Log}
use camlite.VideoManager.{VideoData, VideoManage, slot, put, set_check_time, check_from, now}
use camlite.VideoManager.Slots.{IsManager, nat-cases, slot-put_same, slot-put_other}

-- Only times of checks differ.
pub record TimesOnly (m m' : VideoManage) : Type 0 where
  pub same_timeout : m'.timeout ≡ m.timeout
  pub same_count : m'.count ≡ m.count
  pub same_base : m'.base ≡ m.base
  pub same_length : length m'.videos ≡ length m.videos
  pub same_video : (i : ℕ) → (slot m' i).video ≡ (slot m i).video
  pub same_pevent : (i : ℕ) → (slot m' i).pevent ≡ (slot m i).pevent

pub TimesOnly-refl : (m : VideoManage) → TimesOnly m m
TimesOnly-refl m = record {
  same_timeout = refl;
  same_count = refl;
  same_base = refl;
  same_length = refl;
  same_video = λ i. refl;
  same_pevent = λ i. refl;
}

pub TimesOnly-trans : (m m' m'' : VideoManage) → TimesOnly m m' → TimesOnly m' m'' → TimesOnly m m''
TimesOnly-trans m m' m'' f g = record {
  same_timeout = g.same_timeout ∙ f.same_timeout;
  same_count = g.same_count ∙ f.same_count;
  same_base = g.same_base ∙ f.same_base;
  same_length = g.same_length ∙ f.same_length;
  same_video = λ i. g.same_video i ∙ f.same_video i;
  same_pevent = λ i. g.same_pevent i ∙ f.same_pevent i;
}

pub TimesOnly-IsManager : (m m' : VideoManage) → TimesOnly m m' → IsManager m → IsManager m'
TimesOnly-IsManager m m' f h = record {
  full = f.same_length ∙ h.full;
  counted = omega (arith, f.same_count, h.counted);
  data_sound = λ i. rw (f.same_video i, f.same_pevent i) (h.data_sound i);
  unused = λ i late. f.same_video i ∙ h.unused i (omega (arith, f.same_count));
}

put_time-TimesOnly :
    (m : VideoManage) (i time : ℕ)
    → i < length m.videos
    → TimesOnly m (put m i (record (slot m i) { last_check_time = time }))
put_time-TimesOnly m i time h = record {
  same_timeout = refl;
  same_count = refl;
  same_base = refl;
  same_length = length-set m.videos i _;
  same_video = λ j. video j (nat-cases i j);
  same_pevent = λ j. event j (nat-cases i j);
}
  where
    d : VideoData
    d = record (slot m i) { last_check_time = time }

    video : (j : ℕ) → (i ≡ j) ⊎ (i ≢ j) → (slot (put m i d) j).video ≡ (slot m j).video
    video j (inl e) = rw (← e, slot-put_same m i d h) refl
    video j (inr n) = rw (slot-put_other m i j d n) refl

    event : (j : ℕ) → (i ≡ j) ⊎ (i ≢ j) → (slot (put m i d) j).pevent ≡ (slot m j).pevent
    event j (inl e) = rw (← e, slot-put_same m i d h) refl
    event j (inr n) = rw (slot-put_other m i j d n) refl

-- The result of a store of the time to the video's slot, where it is looked at.
abbrev timed : ℕ → ℕ → VideoManage → Bool → VideoManage
timed video time m found =
    if found then put m video (record (slot m video) { last_check_time = time }) else m

-- The loop of set_check_time finds the video.
check_from-timed :
    (n i video time : ℕ) (m : VideoManage)
    → i ≤ video
    → check_from n i video time m ≡ timed video time m (ltb video (i + n))
unfolding check_from
check_from-timed zero i video time m h = ap (timed video time m) {x = false} (ground arith)
check_from-timed (suc n) i video time m h =
    if_split (λ (x : VideoManage). x ≡ timed video time m (ltb video (i + suc n))) (i == video) _ _
      (λ e.
        let same : i ≡ video = ground arith in
        rw same (ap (timed video time m) {x = true} (ground arith)))
      (λ ne.
        check_from-timed n (i + 1) video time m (ground arith)
        ∙ ap (timed video time m) {x = ltb video (i + 1 + n)} (ground arith))

-- A store of a time, in the table or behind it.
stored-TimesOnly :
    (m : VideoManage) (i time : ℕ)
    → TimesOnly m (put m i (record (slot m i) { last_check_time = time }))
stored-TimesOnly m i time = elim (Bool-cases (ltb i (length m.videos))) [
  | inl e ↦ put_time-TimesOnly m i time (ground arith)
  | inr e ↦
      rw (set-beyond m.videos i (record (slot m i) { last_check_time = time }) (ground arith))
        (TimesOnly-refl m)
]

pub set_check_time-times :
    (k : Kernel) (m : VideoManage) (video : ℕ) (log : Log)
    → TimesOnly m (set_check_time k m video log)
unfolding set_check_time
set_check_time-times k m video log =
    rw (check_from-timed m.count 0 video (now k log) m (omega arith)) (
      if_split (TimesOnly m) (ltb video (0 + m.count)) _ _
        (λ _. stored-TimesOnly m video (now k log)) (λ _. TimesOnly-refl m))

-- video_manager_set_check_time changes nothing but times of checks, and of a video in use its own.
pub set_check_time-TimesOnly :
    (k : Kernel) (m : VideoManage) (video : ℕ) (log : Log)
    → IsManager m
    → TimesOnly m (set_check_time k m video log)
      × (video < m.count → (slot (set_check_time k m video log) video).last_check_time ≡ now k log)
unfolding set_check_time
set_check_time-TimesOnly k m video log h =
    rw (check_from-timed m.count 0 video (now k log) m (omega arith)) (found, own)
  where
    found : TimesOnly m (timed video (now k log) m (ltb video (0 + m.count)))
    found =
        if_split (TimesOnly m) (ltb video (0 + m.count)) _ _
          (λ e. put_time-TimesOnly m video (now k log) (ground (arith, h.full, h.counted)))
          (λ _. TimesOnly-refl m)

    own :
        video < m.count
        → (slot (timed video (now k log) m (ltb video (0 + m.count))) video).last_check_time
          ≡ now k log
    own used =
        if_split (λ (w : VideoManage). (slot w video).last_check_time ≡ now k log)
          (ltb video (0 + m.count)) _ _
          (λ e.
            ap (λ d. d.last_check_time)
              (slot-put_same m video _ (omega (arith, h.full, h.counted))))
          (λ e. absurd (ground arith))

-- The time of a video in use is noted in its slot, and the other slots are as they were.
pub set_check_time-slots :
    (k : Kernel) (m : VideoManage) (video : ℕ) (log : Log)
    → IsManager m
    → video < m.count
    → let m' = set_check_time k m video log in
      (slot m' video ≡ record (slot m video) { last_check_time = now k log })
      × ((j : ℕ) → video ≢ j → slot m' j ≡ slot m j)
unfolding set_check_time
set_check_time-slots k m video log h used =
    let d : VideoData = record (slot m video) { last_check_time = now k log } in
    rw (check_from-timed m.count 0 video (now k log) m (omega arith)) (
      if_split
        (λ (w : VideoManage). (slot w video ≡ d) × ((j : ℕ) → video ≢ j → slot w j ≡ slot m j))
        (ltb video (0 + m.count)) _ _
        (λ _. (
          slot-put_same m video d (omega (arith, used, h.full, h.counted)),
          λ j n. slot-put_other m video j d n,
        ))
        (λ e. absurd (ground (arith, used))))
