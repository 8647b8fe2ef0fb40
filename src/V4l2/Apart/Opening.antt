-- ===== src/V4l2/Apart/Opening.antt =====
-- src/v4l2port.c: v4l2port_init and v4l2port_uninit leave other descriptors alone.
use camlite.Base.{
  ℕ, zero, suc, ◌+◌, ◌<◌, ◌≡◌, ◌≢◌, refl, not, Option, none, some, arith, ltb, if_split,
}
use camlite.Kernel.{
  Kernel, Log, Ioctl, IoctlReply, done, refused, querycap, enum_fmt, s_fmt, s_parm, clear_errno,
  opened,
}
use camlite.Kernel.Quiet.{Quiet, misc-Quiet, closed-Quiet, IsHeld, IsOpener, opened-apart}
use camlite.Pevent.{Status}
use camlite.V4l2.{Port, ErrorType, blame, fmtdesc_max}
use camlite.V4l2.Streaming.{stream_off, wipe, uninit}
use camlite.V4l2.Init.{
  init_error, single, after_enum, enum_from, after_s_parm, after_s_fmt, set_format, after_querycap,
  after_open, open_device, init,
}
use camlite.V4l2.Apart.{Calm, xioctl-Quiet, stream_off-Calm}

module _ (k : Kernel) (fd : ℕ) (before : Log) where
  -- The port that is left, with the log
  abbrev pub CalmPort : Port × Log → Type 0
  CalmPort (v, log) = Quiet fd before log × (v.fd ≢ fd)

  wipe-CalmPort : (s : Status × Port × Log) → 0 < fd → Calm fd before s → CalmPort (wipe k s)
  unfolding wipe
  wipe-CalmPort (r, v, log) pos h = (closed-Quiet fd v.fd before log h.1 h.0, λ e. omega (arith, e))

  pub uninit-CalmPort :
      (v : Port) (log : Log) → 0 < fd → v.fd ≢ fd → Quiet fd before log → CalmPort (uninit k v log)
  unfolding uninit
  uninit-CalmPort v log pos n h =
      wipe-CalmPort (stream_off k v log) pos (stream_off-Calm k fd before v log n h)

  init_error-Calm :
      (v : Port) (f : ℕ) (error : ErrorType) (log : Log)
      → f ≢ fd
      → v.fd ≢ fd
      → Quiet fd before log
      → Calm fd before (init_error k v f error log)
  unfolding init_error blame
  init_error-Calm v f error log a n h =
      (if_split (Quiet fd before) (ltb 0 f) _ _ (λ _. closed-Quiet fd f before log a h) (λ _. h), n)

  single-Quiet :
      (f : ℕ) (r : Ioctl) (answer : ℕ × IoctlReply) (log : Log)
      → Quiet fd before log
      → Quiet fd before ((single k f r answer log).1)
  unfolding single
  single-Quiet f r (zero, a) log h = misc-Quiet fd before log _ h
  single-Quiet f r (suc i, a) log h = misc-Quiet fd before log _ h

  after_enum-CalmPort :
      (go : Port → Log → Port × Log) (i : ℕ) (v : Port) (r : IoctlReply × Log)
      → v.fd ≢ fd
      → ((w : Port) (log : Log) → w.fd ≢ fd → Quiet fd before log → CalmPort (go w log))
      → Quiet fd before (r.1)
      → CalmPort (after_enum k go i v r)
  unfolding after_enum
  after_enum-CalmPort go i v (refused, log) n g q = (q, n)
  after_enum-CalmPort go i v (done d, log) n g q = g _ log n q

  enum_from-CalmPort :
      (rounds i f : ℕ) (v : Port) (log : Log)
      → v.fd ≢ fd
      → Quiet fd before log
      → CalmPort (enum_from k rounds i f v log)
  unfolding enum_from
  enum_from-CalmPort zero i f v log n h = (h, n)
  enum_from-CalmPort (suc rounds) i f v log n h =
      after_enum-CalmPort (enum_from k rounds (i + 1) f) i v
        (single k f (enum_fmt i) (k.on_ioctl log f (enum_fmt i)) log) n
        (enum_from-CalmPort rounds (i + 1) f)
        (single-Quiet f (enum_fmt i) (k.on_ioctl log f (enum_fmt i)) log h)

  after_s_parm-Calm :
      (v : Port) (f : ℕ) (r : IoctlReply × Log)
      → f ≢ fd
      → v.fd ≢ fd
      → Quiet fd before (r.1)
      → Calm fd before (after_s_parm k v f r)
  unfolding after_s_parm
  after_s_parm-Calm v f (refused, log) a n q = init_error-Calm v f _ log a n q
  after_s_parm-Calm v f (done d, log) a n q = (q, a)

  after_s_fmt-Calm :
      (v : Port) (f : ℕ) (r : IoctlReply × Log)
      → f ≢ fd
      → v.fd ≢ fd
      → Quiet fd before (r.1)
      → Calm fd before (after_s_fmt k v f r)
  unfolding after_s_fmt
  after_s_fmt-Calm v f (refused, log) a n q = init_error-Calm v f _ log a n q
  after_s_fmt-Calm v f (done d, log) a n q =
      after_s_parm-Calm _ f _ a n (xioctl-Quiet k fd before f (s_parm v.fps) log q)

  set_format-Calm :
      (f : ℕ) (s : Port × Log) → f ≢ fd → CalmPort s → Calm fd before (set_format k f s)
  unfolding set_format
  set_format-Calm f (v, log) a h =
      after_s_fmt-Calm v f _ a h.1 (xioctl-Quiet k fd before f (s_fmt v.width v.height) log h.0)

  after_querycap-Calm :
      (v : Port) (f : ℕ) (r : IoctlReply × Log)
      → f ≢ fd
      → v.fd ≢ fd
      → Quiet fd before (r.1)
      → Calm fd before (after_querycap k v f r)
  unfolding after_querycap
  after_querycap-Calm v f (refused, log) a n q = init_error-Calm v f _ log a n q
  after_querycap-Calm v f (done d, log) a n q =
      if_split (Calm fd before) (not d.streaming) _ _ (λ _. init_error-Calm _ f _ log a n q)
        (λ _. set_format-Calm f _ a (enum_from-CalmPort fmtdesc_max 0 f _ log n q))

  after_open-Calm :
      (v : Port) (answer : Option ℕ) (log : Log)
      → ((f : ℕ) → answer ≡ some f → f ≢ fd)
      → v.fd ≢ fd
      → Quiet fd before log
      → Calm fd before (after_open k v answer log)
  unfolding after_open blame
  after_open-Calm v none log a n q = (q, n)
  after_open-Calm v (some f) log a n q =
      after_querycap-Calm v f _ (a f refl) n (xioctl-Quiet k fd before f querycap log q)

  open_device-Calm :
      (s : Port × Log)
      → IsOpener k
      → IsHeld fd before
      → CalmPort s
      → Calm fd before (open_device k s)
  unfolding open_device
  open_device-Calm (v, log) law held h =
      after_open-Calm v (k.on_open log v.device) _
        (λ f e. opened-apart k fd f before log v.device law held h.0 e) h.1
        (misc-Quiet fd before log (opened v.device (k.on_open log v.device)) h.0)

  -- v4l2port_init leaves a descriptor that epoll watches alone, and the port is not on it afterwards: what open gives
  -- is another one.
  pub init-Calm :
      (v : Port) (log : Log)
      → IsOpener k
      → IsHeld fd before
      → 0 < fd
      → v.fd ≢ fd
      → Quiet fd before log
      → Calm fd before (init k v log)
  unfolding init
  init-Calm v log law held pos n h =
      let q = misc-Quiet fd before log clear_errno h in
      if_split (λ (s : Port × Log). Calm fd before (open_device k s)) v.init_flag _ _
        (λ _. open_device-Calm _ law held (uninit-CalmPort v _ pos n q))
        (λ _. open_device-Calm _ law held (q, n))
