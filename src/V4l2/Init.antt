-- ===== src/V4l2/Init.antt =====
-- src/v4l2port.c: v4l2port_init, v4l2port_set_param and v4l2port_get_param.
use camlite.Base.{
  ℕ, zero, suc, ◌+◌, true, not, Option, none, some, ◌∷◌, ltb, ◌==◌, if◌then◌else◌, set,
}
use camlite.Kernel.{
  Kernel, Log, Ioctl, IoctlReply, done, refused, querycap, enum_fmt, s_fmt, s_parm, g_parm, misc,
  clear_errno, opened, interrupted, ioctl, closed,
}
use camlite.Pevent.{Status, ok, failed}
use camlite.V4l2.{
  Port, ErrorType, can_not_open, not_v4l2_device, at_querycap, at_s_fmt, at_s_parm, at_g_parm,
  not_support_streaming, einval, fmtdesc_max, xioctl, blame,
}
use camlite.V4l2.Streaming.{uninit}

module _ (k : Kernel) where
  -- The label __error of v4l2port_init, after open.
  unfoldable pub init_error : Port → ℕ → ErrorType → Log → Status × Port × Log
  unfolding blame
  init_error v fd error log =
      let log' = if ltb 0 fd then closed fd ∷ log else log in (failed, blame k v error log', log')

  -- One call of ioctl with no retry: an interruption is a failure.
  unfoldable pub single : ℕ → Ioctl → ℕ × IoctlReply → Log → IoctlReply × Log
  single fd request (zero, r) log = (r, misc (ioctl fd request r) ∷ log)
  single fd request (suc n, r) log = (refused, misc (interrupted fd request) ∷ log)

  -- The loop over the formats, with the slots that are left.
  unfoldable pub after_enum : (Port → Log → Port × Log) → ℕ → Port → IoctlReply × Log → Port × Log
  after_enum go i v (refused, log) = (v, log)
  after_enum go i v (done d, log) = go (record v { fmtdesc = set v.fmtdesc i d.text }) log

  unfoldable pub enum_from : ℕ → ℕ → ℕ → Port → Log → Port × Log
  unfolding single after_enum
  enum_from zero i fd v log = (v, log)
  enum_from (suc n) i fd v log =
      after_enum (enum_from n (i + 1) fd) i v
        (single fd (enum_fmt i) (k.on_ioctl log fd (enum_fmt i)) log)

  unfoldable pub after_s_parm : Port → ℕ → IoctlReply × Log → Status × Port × Log
  after_s_parm v fd (refused, log) = init_error v fd at_s_parm log
  after_s_parm v fd (done d, log) = (
    ok,
    record v { numerator = d.numerator; denominator = d.denominator; fd = fd; init_flag = true },
    log,
  )

  unfoldable pub after_s_fmt : Port → ℕ → IoctlReply × Log → Status × Port × Log
  unfolding after_s_parm
  after_s_fmt v fd (refused, log) = init_error v fd at_s_fmt log
  after_s_fmt v fd (done d, log) =
      after_s_parm (record v { numerator = 1; denominator = v.fps }) fd
        (xioctl k fd (s_parm v.fps) log)

  unfoldable pub set_format : ℕ → Port × Log → Status × Port × Log
  unfolding after_s_fmt
  set_format fd (v, log) = after_s_fmt v fd (xioctl k fd (s_fmt v.width v.height) log)

  unfoldable pub after_querycap : Port → ℕ → IoctlReply × Log → Status × Port × Log
  unfolding set_format
  after_querycap v fd (refused, log) =
      init_error v fd (if k.errno log == einval then not_v4l2_device else at_querycap) log
  after_querycap v fd (done d, log) =
      let v' = record v { streaming = d.streaming; card = d.text } in
      if not d.streaming
      then init_error v' fd not_support_streaming log
      else set_format fd (enum_from fmtdesc_max 0 fd v' log)

  unfoldable pub after_open : Port → Option ℕ → Log → Status × Port × Log
  unfolding after_querycap blame
  after_open v none log = (failed, blame k v can_not_open log, log)
  after_open v (some fd) log = after_querycap v fd (xioctl k fd querycap log)

  unfoldable pub open_device : Port × Log → Status × Port × Log
  unfolding after_open
  open_device (v, log) =
      let answer = k.on_open log v.device in
      after_open v answer (misc (opened v.device answer) ∷ log)

  unfoldable pub init : Port → Log → Status × Port × Log
  unfolding open_device
  init v log =
      open_device
        (if v.init_flag then uninit k v (misc clear_errno ∷ log) else (v, misc clear_errno ∷ log))

  unfoldable pub after_param : Port → ErrorType → IoctlReply × Log → Status × Port × Log
  unfolding blame
  after_param v error (refused, log) = (failed, blame k v error log, log)
  after_param v error (done d, log) =
      (ok, record v { numerator = d.numerator; denominator = d.denominator }, log)

  unfoldable pub set_param : Port → ℕ → Log → Status × Port × Log
  unfolding after_param
  set_param v fps log =
      after_param (record v { numerator = 1; denominator = fps }) at_s_parm
        (xioctl k v.fd (s_parm fps) log)

  unfoldable pub get_param : Port → Log → Status × Port × Log
  unfolding after_param
  get_param v log =
      after_param (record v { numerator = 0; denominator = 0 }) at_g_parm (xioctl k v.fd g_parm log)
