-- ===== src/V4l2/Closing.antt =====
-- src/v4l2port.c, v4l2port_uninit: what it closes.
use camlite.Base.{ℕ, zero, suc, ◌+◌, ◌≡◌, refl, ap, ◌∙◌, List, [], ◌∷◌, arith, ◌==◌, if_split}
use camlite.Kernel.{Kernel, Log, IoctlReply, done, refused, closings, closed, streamoff}
use camlite.Pevent.{Status}
use camlite.V4l2.{Port, ReqBuffer, mmap_release, release_from, blame}
use camlite.V4l2.Streaming.{stream_off, after_streamoff, uninit, wipe}
use camlite.V4l2.Descriptors.{xioctl-neutral, one_if}

release_from-closings :
    (n : ℕ) (bufs : List ReqBuffer) (fd : ℕ) (log : Log)
    → closings fd (release_from n bufs log) ≡ closings fd log
unfolding release_from
release_from-closings zero bufs fd log = refl
release_from-closings (suc n) [] fd log = refl
release_from-closings (suc n) (b ∷ bufs) fd log = release_from-closings n bufs fd _

-- Nothing is closed, and the port keeps its descriptor.
abbrev Keeps : Port → ℕ → Log → Status × Port × Log → Type 0
Keeps v fd before (s, w, log) = (w.fd ≡ v.fd) × (closings fd log ≡ closings fd before)

module _ (k : Kernel) where
  after_streamoff-Keeps :
      (v : Port) (fd : ℕ) (r : IoctlReply) (before log : Log)
      → closings fd log ≡ closings fd before
      → Keeps v fd before (after_streamoff k v (r, log))
  unfolding after_streamoff blame mmap_release
  after_streamoff-Keeps v fd refused before log e = (refl, e)
  after_streamoff-Keeps v fd (done d) before log e =
      (refl, release_from-closings v.reqbufs_count v.reqbufs fd log ∙ e)

  stream_off-Keeps : (v : Port) (fd : ℕ) (log : Log) → Keeps v fd log (stream_off k v log)
  unfolding stream_off
  stream_off-Keeps v fd log =
      if_split (Keeps v fd log) v.stream_flag _ _
        (λ on. after_streamoff-Keeps v fd _ log _ (xioctl-neutral k v.fd fd streamoff log).1)
        (λ off. (refl, refl))

  -- v4l2port_uninit closes the descriptor that the port names exactly once and no other, whether the port is
  -- open or not: of a port that is not open, with the descriptor 0, it closes descriptor 0.
  pub uninit-closings :
      (v : Port) (fd : ℕ) (log : Log)
      → closings fd (uninit k v log).1 ≡ closings fd log + one_if (v.fd == fd)
  unfolding uninit wipe
  uninit-closings v fd log = wiped (stream_off k v log) (stream_off-Keeps v fd log)
    where
      wiped :
          (s : Status × Port × Log)
          → Keeps v fd log s
          → closings fd (wipe k s).1 ≡ closings fd log + one_if (v.fd == fd)
      wiped (s, w, log') h = counted ∙ ap (λ n. closings fd log + one_if (n == fd)) h.0
        where
          counted : closings fd (closed w.fd ∷ log') ≡ closings fd log + one_if (w.fd == fd)
          counted = ground (arith, h.1)
