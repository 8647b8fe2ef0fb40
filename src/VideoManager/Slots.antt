-- ===== src/VideoManager/Slots.antt =====
-- src/video_manager.c: the table is sound.
use camlite.Base.{
  ℕ, ◌≤◌, ◌<◌, ◌≡◌, ◌≢◌, refl, ap, ◌∙◌, true, Option, none, some, arith, length, leb, ltb, ◌==◌,
  if_split, get_or-set_same, get_or-set_other, length-set, ◌⊎◌, inl, inr, pos, negsuc, Bool-cases,
}
use camlite.Pevent.{Pevent, pevent_read}
use camlite.V4l2.{Port}
use camlite.V4l2.Buffers.{IsPort}
use camlite.VideoManager.{
  VideoData, VideoManage, slot, put, no_video, get, locate, max_video_count, inside, Place, get_at,
}

-- A slot: a pevent only for a video that streams, on its descriptor, and waiting to read.
abbrev pub IsSlot : Option Port → Option Pevent → Type 0
IsSlot none none = Unit
IsSlot none (some p) = ⊥
IsSlot (some v) none = IsPort v
IsSlot (some v) (some p) =
    IsPort v × (v.stream_flag ≡ true) × (p.fd ≡ v.fd) × (p.state ≡ pevent_read)

abbrev pub IsData : VideoData → Type 0
IsData d = IsSlot d.video d.pevent

pub record IsManager (m : VideoManage) : Type 0 where
  pub full : length m.videos ≡ max_video_count
  pub counted : m.count ≤ max_video_count
  pub data_sound : (i : ℕ) → IsData (slot m i)
  pub unused : (i : ℕ) → m.count ≤ i → (slot m i).video ≡ none

pub nat-cases : (i j : ℕ) → (i ≡ j) ⊎ (i ≢ j)
nat-cases i j = elim (Bool-cases (i == j)) [
  | inl e ↦ inl (ground arith)
  | inr e ↦ inr (λ h. ground arith)
]

pub slot-put_same :
    (m : VideoManage) (i : ℕ) (d : VideoData) → i < length m.videos → slot (put m i d) i ≡ d
slot-put_same m i d h = get_or-set_same m.videos i d no_video h

pub slot-put_other :
    (m : VideoManage) (i j : ℕ) (d : VideoData) → i ≢ j → slot (put m i d) j ≡ slot m j
slot-put_other m i j d n = get_or-set_other m.videos i j d no_video n

-- A place of a sound table is in the array.
pub inside-within :
    {X : Type 0} (P : Option X → Type 0) (m : VideoManage) (i : ℕ) (r : Option X)
    → IsManager m
    → i < max_video_count
    → P r
    → P (inside m i r)
inside-within P m i r h room p =
    if_split P (ltb i (length m.videos)) _ _ (λ _. p) (λ out. absurd (ground (arith, h.full)))

-- A slot gets other contents; one that is not in use stays empty.
pub put-IsManager :
    (m : VideoManage) (i : ℕ) (d : VideoData)
    → IsManager m
    → i < max_video_count
    → (m.count ≤ i → d.video ≡ none)
    → IsData d
    → IsManager (put m i d)
put-IsManager m i d h within free s = record {
  full = length-set m.videos i d ∙ h.full;
  counted = h.counted;
  data_sound = λ j. sound j (nat-cases i j);
  unused = λ j late. empty j late (nat-cases i j);
}
  where
    same : slot (put m i d) i ≡ d
    same = slot-put_same m i d (omega (arith, h.full))

    sound : (j : ℕ) → (i ≡ j) ⊎ (i ≢ j) → IsData (slot (put m i d) j)
    sound j (inl e) = rw (← e, same) s
    sound j (inr n) = rw (slot-put_other m i j d n) (h.data_sound j)

    empty : (j : ℕ) → m.count ≤ j → (i ≡ j) ⊎ (i ≢ j) → (slot (put m i d) j).video ≡ none
    empty j late (inl e) = rw (← e, same) (free (omega (arith, e)))
    empty j late (inr n) = rw (slot-put_other m i j d n) (h.unused j late)

-- video_manager_get reads within the table for each index that is not negative, and gives NULL from the
-- tenth on and for a slot not in use; a negative index passes its test and reads before the table.
pub get_within :
    (m : VideoManage)
    → IsManager m
    → ((n : ℕ) → get m (negsuc n) ≡ none)
      × ((n : ℕ) → m.count ≤ n → get m (pos n) ≡ some none)
      × ((n : ℕ) → n < m.count → get m (pos n) ≡ some (slot m n).video)
unfolding get locate get_at
get_within m h = (λ n. refl, late, used)
  where
    -- The place is in the array.
    read : (n : ℕ) → n < max_video_count → get_at m (Place.at n) ≡ some (slot m n).video
    read n room = inside-within (λ x. x ≡ some (slot m n).video) m n _ h room refl

    late : (n : ℕ) → m.count ≤ n → get_at m (locate (pos n)) ≡ some none
    late n l =
        if_split (λ x. get_at m x ≡ some none) (leb max_video_count n) _ _ (λ _. refl)
          (λ e. read n (ground arith) ∙ ap some (h.unused n l))

    used : (n : ℕ) → n < m.count → get_at m (locate (pos n)) ≡ some (slot m n).video
    used n l =
        if_split (λ x. get_at m x ≡ some (slot m n).video) (leb max_video_count n) _ _
          (λ e. absurd (ground (arith, h.counted))) (λ e. read n (ground arith))
