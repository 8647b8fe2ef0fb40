-- ===== src/V4l2/Stream.antt =====
-- src/v4l2port.c, v4l2port_stream and v4l2port_uninit: a port that streams has its buffer.
use camlite.Base.{
  ℕ, ◌≡◌, refl, sym, ◌∙◌, Bool, true, false, not, Option, none, some, arith, ◌⊎◌, inl, inr,
  if_split,
}
use camlite.Kernel.{Kernel, Log, IoctlReply, done, refused}
use camlite.Pevent.{Status, ok, failed}
use camlite.V4l2.{Port, stream_is_on, stream_is_off, mmap_release, blame}
use camlite.V4l2.Mmap.{mmap_init}
use camlite.V4l2.Streaming.{
  stream_on, stream_off, uninit, after_mmap_init, after_streamon, after_streamoff, wipe,
}
use camlite.V4l2.Buffers.{IsFrugal, IsPort, IsMapped, IsReleased, Mmapped, mmap_init-Mmapped}

-- After a call of v4l2port_stream: the port is sound, and the flag is what was asked for where the
-- result is 0, and what it was where it is -1.
abbrev pub Streams : Bool → Bool → Status × Port × Log → Type 0
Streams before asked (ok, v, log) = IsPort v × (v.stream_flag ≡ asked)
Streams before asked (failed, v, log) = IsPort v × (v.stream_flag ≡ before)

abbrev pub StreamsOn : Bool → Option (Status × Port × Log) → Type 0
StreamsOn before none = ⊥
StreamsOn before (some s) = Streams before true s

same_buffers :
    (v w : Port)
    → w.reqbufs_count ≡ v.reqbufs_count
    → w.reqbufs ≡ v.reqbufs
    → IsPort v
    → IsMapped w ⊎ IsReleased w
same_buffers v w c b p = again p.buffers
  where
    again : IsMapped v ⊎ IsReleased v → IsMapped w ⊎ IsReleased w
    again (inl m) =
        inl (record { one = c ∙ m.one; place = m.place; size = m.size; mapped = b ∙ m.mapped })
    again (inr r) = inr (record { nothing = c ∙ r.nothing; empty = b ∙ r.empty })

-- The other fields of a port may change.
pub remark-IsPort :
    (v w : Port)
    → w.reqbufs_count ≡ v.reqbufs_count
    → w.reqbufs ≡ v.reqbufs
    → w.stream_flag ≡ v.stream_flag
    → IsPort v
    → IsPort w
remark-IsPort v w c b f p = record {
  buffers = same_buffers v w c b p;
  streams = λ e. c ∙ p.streams (sym f ∙ e);
}

mapped-IsPort : (v : Port) → IsMapped v → IsPort v
mapped-IsPort v m = record { buffers = inl m; streams = λ _. m.one }

module _ (k : Kernel) where
  after_streamon-Streams :
      (v : Port) (r : IoctlReply) (log : Log) (flag : Bool)
      → IsMapped v
      → v.stream_flag ≡ flag
      → Streams flag true (after_streamon k v (r, log))
  unfolding after_streamon blame
  after_streamon-Streams v refused log flag m e =
      (remark-IsPort v _ refl refl refl (mapped-IsPort v m), e)
  after_streamon-Streams v (done d) log flag m e = (
    record { buffers = same_buffers v _ refl refl (mapped-IsPort v m); streams = λ _. m.one },
    refl,
  )

  after_mmap_init-Streams :
      (o : Option (Status × Port × Log)) (fd : ℕ) (flag : Bool)
      → flag ≡ false
      → Mmapped flag fd o
      → StreamsOn flag (after_mmap_init k o)
  unfolding after_mmap_init
  after_mmap_init-Streams none fd flag off h = h
  after_mmap_init-Streams (some (failed, v, log)) fd flag off h =
      (record { buffers = inr h.0; streams = λ f. cc }, h.1)
  after_mmap_init-Streams (some (ok, v, log)) fd flag off h =
      after_streamon-Streams v _ _ flag h.0 h.1

  -- v4l2port_stream(video, 1), where the driver grants no more buffers than it is asked for, stays
  -- within `reqbufs` and keeps a port sound. If it returns 0 the
  -- port streams; if it returns -1 the flag is as it was. A port that streams already is refused with
  -- an error of its own, and no call is made.
  pub stream_on-Streams :
      (v : Port) (log : Log)
      → IsPort v
      → IsFrugal k
      → StreamsOn v.stream_flag (stream_on k v log)
        × (v.stream_flag ≡ true
            → stream_on k v log
              ≡ some (failed, record v { last_errno = 0; last_error = stream_is_on }, log))
  unfolding stream_on
  stream_on-Streams v log p frugal = (
    if_split (StreamsOn v.stream_flag) (not v.stream_flag) _ _
        (λ off.
          after_mmap_init-Streams (mmap_init k v log) v.fd v.stream_flag (ground arith)
            (mmap_init-Mmapped k v log p frugal))
        (λ on. (remark-IsPort v _ refl refl refl p, refl)),
    λ on.
        if_split
          (λ (o : Option (Status × Port × Log)).
            o ≡ some (failed, record v { last_errno = 0; last_error = stream_is_on }, log))
          (not v.stream_flag) _ _ (λ off. absurd (ground arith)) (λ _. refl),
  )

  after_streamoff-Streams :
      (v : Port) (r : IoctlReply) (log : Log)
      → IsPort v
      → Streams v.stream_flag false (after_streamoff k v (r, log))
  unfolding after_streamoff blame mmap_release
  after_streamoff-Streams v refused log p = (remark-IsPort v _ refl refl refl p, refl)
  after_streamoff-Streams v (done d) log p =
      (record { buffers = inr (record { nothing = refl; empty = refl }); streams = λ f. cc }, refl)

  -- v4l2port_stream(video, 0) keeps a port sound. If it returns 0 the port streams no longer; if it
  -- returns -1 the flag is as it was. A port that does not stream is refused with an error of its own,
  -- and no call is made.
  pub stream_off-Streams :
      (v : Port) (log : Log)
      → IsPort v
      → Streams v.stream_flag false (stream_off k v log)
        × (v.stream_flag ≡ false
            → stream_off k v log
              ≡ (failed, record v { last_errno = 0; last_error = stream_is_off }, log))
  unfolding stream_off
  stream_off-Streams v log p = (
    if_split (Streams v.stream_flag false) v.stream_flag _ _ (λ on. after_streamoff-Streams v _ _ p)
        (λ off. (remark-IsPort v _ refl refl refl p, refl)),
    λ off.
        if_split
          (λ (s : Status × Port × Log).
            s ≡ (failed, record v { last_errno = 0; last_error = stream_is_off }, log))
          v.stream_flag _ _ (λ on. cc) (λ _. refl),
  )

  -- v4l2port_uninit leaves a port that is neither initialised nor streaming.
  pub uninit-IsPort :
      (v : Port) (log : Log)
      → IsPort v
      → IsPort (uninit k v log).0
        × ((uninit k v log).0.init_flag ≡ false)
        × ((uninit k v log).0.stream_flag ≡ false)
        × ((uninit k v log).0.fd ≡ 0)
  unfolding uninit
  uninit-IsPort v log p = wiped (stream_off k v log) (stream_off-Streams v log p).0
    where
      wiped :
          (s : Status × Port × Log)
          → Streams v.stream_flag false s
          → IsPort (wipe k s).0
            × ((wipe k s).0.init_flag ≡ false)
            × ((wipe k s).0.stream_flag ≡ false)
            × ((wipe k s).0.fd ≡ 0)
      wiped (ok, w, log') h =
          (record { buffers = same_buffers w _ refl refl h.0; streams = λ f. cc }, refl, refl, refl)
      wiped (failed, w, log') h =
          (record { buffers = same_buffers w _ refl refl h.0; streams = λ f. cc }, refl, refl, refl)
