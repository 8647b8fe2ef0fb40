-- ===== src/V4l2/Descriptors.antt =====
-- src/v4l2port.c: the descriptors that v4l2port_init and v4l2port_uninit open and close.
use camlite.Base.{
  ℕ, zero, suc, ◌+◌, ◌<◌, ◌≡◌, refl, Bool, true, false, not, Option, none, some, [], ◌∷◌, arith,
  ◌==◌, if◌then◌else◌, if_split,
}
use camlite.Kernel.{
  Kernel, Log, Ioctl, IoctlReply, done, refused, clear_errno, opened, interrupted, misc, closings,
  s_parm, enum_fmt, querycap,
}
use camlite.Pevent.{Status, ok, failed}
use camlite.V4l2.{Port, ErrorType, xioctl, retry, fmtdesc_max}
use camlite.V4l2.Init.{
  init, init_error, single, enum_from, after_enum, after_s_parm, after_s_fmt, set_format,
  after_querycap, after_open, open_device,
}

-- How often open gave a descriptor.
abbrev pub openings : ℕ → Log → ℕ
openings fd [] = 0
openings fd (misc (opened path (some f)) ∷ log) =
    let n = openings fd log in if f == fd then suc n else n
openings fd (call ∷ log) = openings fd log

-- From one log to a later one, open has given a descriptor `n` times more often than it was closed.
abbrev pub Held : ℕ → ℕ → Log → Log → Type 0
Held fd n before after =
    openings fd after + closings fd before ≡ openings fd before + closings fd after + n

abbrev pub one_if : Bool → ℕ
one_if true = 1
one_if false = 0

-- After v4l2port_init: on success the port holds the descriptor that was opened, on failure nothing is
-- held.
abbrev pub Accounts : ℕ → Log → Status × Port × Log → Type 0
Accounts fd before (ok, v, log) = Held fd (one_if (v.fd == fd)) before log
Accounts fd before (failed, v, log) = Held fd 0 before log

module _ (k : Kernel) where
  retry-neutral :
      (n f fd : ℕ) (r : Ioctl) (log : Log)
      → (openings fd (retry k n f r log) ≡ openings fd log)
        × (closings fd (retry k n f r log) ≡ closings fd log)
  unfolding retry
  retry-neutral zero f fd r log = (refl, refl)
  retry-neutral (suc n) f fd r log = retry-neutral n f fd r (misc (interrupted f r) ∷ log)

  pub xioctl-neutral :
      (f fd : ℕ) (r : Ioctl) (log : Log)
      → (openings fd (xioctl k f r log).1 ≡ openings fd log)
        × (closings fd (xioctl k f r log).1 ≡ closings fd log)
  unfolding xioctl
  xioctl-neutral f fd r log = retry-neutral (k.on_ioctl log f r).0 f fd r log

  xioctl-Held :
      (f fd n : ℕ) (r : Ioctl) (before log : Log)
      → Held fd n before log
      → Held fd n before (xioctl k f r log).1
  xioctl-Held f fd n r before log h = omega (arith, xioctl-neutral f fd r log)

  -- The label __error closes the descriptor, unless it is 0.
  init_error-Accounts :
      (v : Port) (f fd : ℕ) (error : ErrorType) (before log : Log)
      → 0 < fd
      → Held fd (one_if (f == fd)) before log
      → Accounts fd before (init_error k v f error log)
  unfolding init_error
  init_error-Accounts v f fd error before log pos h = ground arith

  single-Held :
      (f fd n : ℕ) (r : Ioctl) (answer : ℕ × IoctlReply) (before log : Log)
      → Held fd n before log
      → Held fd n before (single k f r answer log).1
  unfolding single
  single-Held f fd n r (zero, a) before log h = h
  single-Held f fd n r (suc i, a) before log h = h

  after_enum-Held :
      (go : Port → Log → Port × Log) (i fd n : ℕ) (v : Port) (r : IoctlReply) (before log : Log)
      → Held fd n before log
      → ((w : Port) → Held fd n before (go w log).1)
      → Held fd n before (after_enum k go i v (r, log)).1
  unfolding after_enum
  after_enum-Held go i fd n v refused before log h g = h
  after_enum-Held go i fd n v (done d) before log h g = g _

  enum_from-Held :
      (rounds i f fd n : ℕ) (v : Port) (before log : Log)
      → Held fd n before log
      → Held fd n before (enum_from k rounds i f v log).1
  unfolding enum_from
  enum_from-Held zero i f fd n v before log h = h
  enum_from-Held (suc rounds) i f fd n v before log h =
      let answer = k.on_ioctl log f (enum_fmt i) in
      let (r, log') = single k f (enum_fmt i) answer log in
      let s = single-Held f fd n (enum_fmt i) answer before log h in
      after_enum-Held (enum_from k rounds (i + 1) f) i fd n v r before log' s
        (λ w. enum_from-Held rounds (i + 1) f fd n w before log' s)

  after_s_parm-Accounts :
      (v : Port) (f fd : ℕ) (r : IoctlReply) (before log : Log)
      → 0 < fd
      → Held fd (one_if (f == fd)) before log
      → Accounts fd before (after_s_parm k v f (r, log))
  unfolding after_s_parm
  after_s_parm-Accounts v f fd refused before log pos h =
      init_error-Accounts v f fd _ before log pos h
  after_s_parm-Accounts v f fd (done d) before log pos h = h

  after_s_fmt-Accounts :
      (v : Port) (f fd : ℕ) (r : IoctlReply) (before log : Log)
      → 0 < fd
      → Held fd (one_if (f == fd)) before log
      → Accounts fd before (after_s_fmt k v f (r, log))
  unfolding after_s_fmt
  after_s_fmt-Accounts v f fd refused before log pos h =
      init_error-Accounts v f fd _ before log pos h
  after_s_fmt-Accounts v f fd (done d) before log pos h =
      after_s_parm-Accounts _ f fd _ before _ pos (xioctl-Held f fd _ (s_parm v.fps) before log h)

  after_querycap-Accounts :
      (v : Port) (f fd : ℕ) (r : IoctlReply) (before log : Log)
      → 0 < fd
      → Held fd (one_if (f == fd)) before log
      → Accounts fd before (after_querycap k v f (r, log))
  unfolding after_querycap set_format
  after_querycap-Accounts v f fd refused before log pos h =
      init_error-Accounts v f fd _ before log pos h
  after_querycap-Accounts v f fd (done d) before log pos h =
      if_split (Accounts fd before) (not d.streaming) _ _
        (λ _. init_error-Accounts _ f fd _ before log pos h)
        (λ _.
          after_s_fmt-Accounts _ f fd _ before _ pos
            (xioctl-Held f fd _ _ before _ (enum_from-Held fmtdesc_max 0 f fd _ _ before log h)))

  after_open-Accounts :
      (v : Port) (answer : Option ℕ) (fd : ℕ) (before log : Log)
      → 0 < fd
      → Held fd 0 before log
      → Accounts fd before (after_open k v answer (misc (opened v.device answer) ∷ log))
  unfolding after_open
  after_open-Accounts v none fd before log pos h = h
  after_open-Accounts v (some f) fd before log pos h =
      after_querycap-Accounts v f fd _ before _ pos
        (xioctl-Held f fd (one_if (f == fd)) querycap before _ (ground arith))

  -- v4l2port_init of a port that is not initialised, for each descriptor but 0: on success the port
  -- holds the one that was opened, and none is left open besides; on every error path what was opened
  -- is closed again.
  pub init-Accounts :
      (v : Port) (log : Log) (fd : ℕ)
      → v.init_flag ≡ false
      → 0 < fd
      → Accounts fd log (init k v log)
  unfolding init open_device
  init-Accounts v log fd off pos =
      if_split (λ (s : Port × Log). Accounts fd log (open_device k s)) v.init_flag _ _
        (λ on. absurd (ground arith))
        (λ _. after_open-Accounts v _ fd log (misc clear_errno ∷ log) pos (omega arith))
