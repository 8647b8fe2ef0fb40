-- ===== src/V4l2/Apart.antt =====
-- src/v4l2port.c: what a port does leaves other descriptors alone.
pub mod Opening
use camlite.Base.{
  ℕ, zero, suc, ◌+◌, ◌<◌, ◌≡◌, ◌≢◌, refl, sym, ◌∙◌, Bool, true, false, not, Option, none, some,
  List, [], ◌∷◌, arith, ltb, ◌==◌, if_split, set,
}
use camlite.Kernel.{
  Kernel, Log, Ioctl, IoctlData, IoctlReply, done, refused, querycap, enum_fmt, s_fmt, s_parm,
  reqbufs, querybuf, qbuf, streamon, streamoff, misc, interrupted, ioctl, clear_errno, opened,
  mapped, unmapped, closed,
}
use camlite.Kernel.Quiet.{
  Quiet, Quiet-refl, misc-Quiet, closed-Quiet, IsHeld, IsOpener, opened-apart,
}
use camlite.Pevent.{Status, ok, failed}
use camlite.V4l2.{
  Port, ReqBuffer, ErrorType, xioctl, retry, release_from, mmap_release, blame, address,
  fmtdesc_max, at, map_failed, req_buffer_max,
}
use camlite.V4l2.Mmap.{
  mmap_error, after_qbuf, queue_from, after_mmap, after_querybuf, map_from, after_reqbufs,
  request_buffers, mmap_init,
}
use camlite.V4l2.Streaming.{
  after_streamon, after_mmap_init, stream_on, after_streamoff, stream_off, wipe, uninit,
}
use camlite.V4l2.Init.{
  init_error, single, after_enum, enum_from, after_s_parm, after_s_fmt, set_format, after_querycap,
  after_open, open_device, init,
}

-- An operation on a port left the descriptor alone, and the port is still on another one.
abbrev pub Calm : ℕ → Log → Status × Port × Log → Type 0
Calm fd before (s, w, log) = Quiet fd before log × (w.fd ≢ fd)

abbrev pub MayCalm : ℕ → Log → Option (Status × Port × Log) → Type 0
MayCalm fd before none = Unit
MayCalm fd before (some s) = Calm fd before s

module _ (k : Kernel) (fd : ℕ) (before : Log) where
  retry-Quiet :
      (n f : ℕ) (r : Ioctl) (log : Log) → Quiet fd before log → Quiet fd before (retry k n f r log)
  unfolding retry
  retry-Quiet zero f r log h = h
  retry-Quiet (suc n) f r log h =
      retry-Quiet n f r (misc (interrupted f r) ∷ log)
        (misc-Quiet fd before log (interrupted f r) h)

  pub xioctl-Quiet :
      (f : ℕ) (r : Ioctl) (log : Log) → Quiet fd before log → Quiet fd before ((xioctl k f r log).1)
  unfolding xioctl
  xioctl-Quiet f r log h = misc-Quiet fd before _ _ (retry-Quiet (k.on_ioctl log f r).0 f r log h)

  release_from-Quiet :
      (n : ℕ) (bufs : List ReqBuffer) (log : Log)
      → Quiet fd before log
      → Quiet fd before (release_from n bufs log)
  unfolding release_from
  release_from-Quiet zero bufs log h = h
  release_from-Quiet (suc n) [] log h = h
  release_from-Quiet (suc n) (b ∷ bufs) log h =
      release_from-Quiet n bufs _ (misc-Quiet fd before log _ h)

  mmap_error-Calm :
      (v : Port) (error : ErrorType) (log : Log)
      → v.fd ≢ fd
      → Quiet fd before log
      → MayCalm fd before (mmap_error k v error log)
  unfolding mmap_error blame mmap_release
  mmap_error-Calm v error log n h =
      if_split (MayCalm fd before) (ltb req_buffer_max v.reqbufs_count) _ _ (λ _. tt)
        (λ _. (release_from-Quiet v.reqbufs_count v.reqbufs log h, n))

  -- What follows a call leaves the descriptor alone.
  abbrev pub Goes : (Log → Option (Status × Port × Log)) → Type 0
  Goes go = (log : Log) → Quiet fd before log → MayCalm fd before (go log)

  after_qbuf-Calm :
      (go : Log → Option (Status × Port × Log)) (v : Port) (r : IoctlReply × Log)
      → v.fd ≢ fd
      → Goes go
      → Quiet fd before (r.1)
      → MayCalm fd before (after_qbuf k go v r)
  unfolding after_qbuf
  after_qbuf-Calm go v (refused, log) n g q = mmap_error-Calm v _ log n q
  after_qbuf-Calm go v (done d, log) n g q = g log q

  queue_from-Calm : (rounds i : ℕ) (v : Port) → v.fd ≢ fd → Goes (queue_from k rounds i v)
  unfolding queue_from
  queue_from-Calm zero i v n log h = (h, n)
  queue_from-Calm (suc rounds) i v n log h =
      after_qbuf-Calm (queue_from k rounds (i + 1) v) v (xioctl k v.fd (qbuf i) log) n
        (queue_from-Calm rounds (i + 1) v n) (xioctl-Quiet v.fd (qbuf i) log h)

  after_mmap-Calm :
      (go : Port → Log → Option (Status × Port × Log)) (i : ℕ) (v : Port) (d : IoctlData)
      (answer : Option ℕ) (log : Log)
      → v.fd ≢ fd
      → ((w : Port) → w.fd ≢ fd → Goes (go w))
      → Quiet fd before log
      → MayCalm fd before (after_mmap k go i v d answer log)
  unfolding after_mmap
  after_mmap-Calm go i v d none log n g q =
      if_split (MayCalm fd before) (ltb i req_buffer_max) _ _ (λ _. mmap_error-Calm _ _ log n q)
        (λ _. tt)
  after_mmap-Calm go i v d (some a) log n g q =
      if_split (MayCalm fd before) (ltb i req_buffer_max) _ _ (λ _. g _ n log q) (λ _. tt)

  after_querybuf-Calm :
      (go : Port → Log → Option (Status × Port × Log)) (i : ℕ) (v : Port) (r : IoctlReply × Log)
      → v.fd ≢ fd
      → ((w : Port) → w.fd ≢ fd → Goes (go w))
      → Quiet fd before (r.1)
      → MayCalm fd before (after_querybuf k go i v r)
  unfolding after_querybuf
  after_querybuf-Calm go i v (refused, log) n g q = mmap_error-Calm v _ log n q
  after_querybuf-Calm go i v (done d, log) n g q =
      after_mmap-Calm go i v d _ _ n g (misc-Quiet fd before log _ q)

  map_from-Calm : (rounds i : ℕ) (v : Port) → v.fd ≢ fd → Goes (map_from k rounds i v)
  unfolding map_from
  map_from-Calm zero i v n log h = queue_from-Calm v.reqbufs_count 0 v n log h
  map_from-Calm (suc rounds) i v n log h =
      after_querybuf-Calm (map_from k rounds (i + 1)) i v (xioctl k v.fd (querybuf i) log) n
        (map_from-Calm rounds (i + 1)) (xioctl-Quiet v.fd (querybuf i) log h)

  after_reqbufs-Calm :
      (v : Port) (r : IoctlReply × Log)
      → v.fd ≢ fd
      → Quiet fd before (r.1)
      → MayCalm fd before (after_reqbufs k v r)
  unfolding after_reqbufs
  after_reqbufs-Calm v (refused, log) n q = mmap_error-Calm v _ log n q
  after_reqbufs-Calm v (done d, log) n q =
      if_split (MayCalm fd before) (ltb d.count req_buffer_max) _ _
        (λ _. mmap_error-Calm v _ log n q)
        (λ _. map_from-Calm d.count 0 (record v { reqbufs_count = d.count }) n log q)

  request_buffers-Calm :
      (s : Port × Log)
      → s.0.fd ≢ fd
      → Quiet fd before (s.1)
      → MayCalm fd before (request_buffers k s)
  unfolding request_buffers
  request_buffers-Calm (v, log) n q =
      after_reqbufs-Calm v _ n (xioctl-Quiet v.fd (reqbufs req_buffer_max) log q)

  mmap_init-Calm : (v : Port) → v.fd ≢ fd → Goes (mmap_init k v)
  unfolding mmap_init mmap_release
  mmap_init-Calm v n log h =
      let q = misc-Quiet fd before log clear_errno h in
      if_split (λ (s : Port × Log). MayCalm fd before (request_buffers k s)) (ltb 0 v.reqbufs_count)
        _ _ (λ _. request_buffers-Calm _ n (release_from-Quiet v.reqbufs_count v.reqbufs _ q))
        (λ _. request_buffers-Calm _ n q)

  after_streamon-Calm :
      (v : Port) (r : IoctlReply × Log)
      → v.fd ≢ fd
      → Quiet fd before (r.1)
      → Calm fd before (after_streamon k v r)
  unfolding after_streamon blame
  after_streamon-Calm v (refused, log) n q = (q, n)
  after_streamon-Calm v (done d, log) n q = (q, n)

  after_mmap_init-Calm :
      (o : Option (Status × Port × Log))
      → MayCalm fd before o
      → MayCalm fd before (after_mmap_init k o)
  unfolding after_mmap_init
  after_mmap_init-Calm none h = tt
  after_mmap_init-Calm (some (failed, v, log)) h = h
  after_mmap_init-Calm (some (ok, v, log)) h =
      after_streamon-Calm v (xioctl k v.fd streamon log) h.1 (xioctl-Quiet v.fd streamon log h.0)

  pub stream_on-Calm : (v : Port) → v.fd ≢ fd → Goes (stream_on k v)
  unfolding stream_on
  stream_on-Calm v n log h =
      if_split (MayCalm fd before) (not v.stream_flag) _ _
        (λ _. after_mmap_init-Calm (mmap_init k v log) (mmap_init-Calm v n log h)) (λ _. (h, n))

  after_streamoff-Calm :
      (v : Port) (r : IoctlReply × Log)
      → v.fd ≢ fd
      → Quiet fd before (r.1)
      → Calm fd before (after_streamoff k v r)
  unfolding after_streamoff blame mmap_release
  after_streamoff-Calm v (refused, log) n q = (q, n)
  after_streamoff-Calm v (done d, log) n q = (release_from-Quiet v.reqbufs_count v.reqbufs log q, n)

  pub stream_off-Calm :
      (v : Port) (log : Log) → v.fd ≢ fd → Quiet fd before log → Calm fd before (stream_off k v log)
  unfolding stream_off
  stream_off-Calm v log n h =
      if_split (Calm fd before) v.stream_flag _ _
        (λ _.
          after_streamoff-Calm v (xioctl k v.fd streamoff log) n
            (xioctl-Quiet v.fd streamoff log h))
        (λ _. (h, n))
