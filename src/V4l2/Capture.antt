-- ===== src/V4l2/Capture.antt =====
-- src/v4l2port.c: v4l2port_read hands a frame to a callback and queues its buffer again.
use camlite.Base.{ℕ, zero, suc, not, Option, none, some, List, [], ◌∷◌, ◌==◌, if◌then◌else◌}
use camlite.Kernel.{
  Kernel, Log, IoctlData, IoctlReply, done, refused, qbuf, dqbuf, misc, clear_errno,
}
use camlite.Pevent.{Status, ok, failed}
use camlite.V4l2.{
  Port, ReqBuffer, Mapping, ErrorType, at_qbuf, at_dqbuf, dqbuf_eagain, dqbuf_eio, stream_is_off,
  eagain, eio, xioctl, blame,
}

-- `v4l2_read_callback`: the frame's place and length, on a state of the callback's.
abbrev pub ReadCallback : Type 0 → Type 0
ReadCallback A = Mapping → ℕ → A → Log → A × Log

-- `reqbufs[i]`: `none` is past the end.
unfoldable pub buffer_at : List ReqBuffer → ℕ → Option ReqBuffer
buffer_at [] i = none
buffer_at (b ∷ bufs) zero = some b
buffer_at (b ∷ bufs) (suc i) = buffer_at bufs i

-- The switch over errno.
unfoldable pub dqbuf_error : ℕ → ErrorType
dqbuf_error errno =
    if errno == eagain then dqbuf_eagain else if errno == eio then dqbuf_eio else at_dqbuf

module _ (k : Kernel) {A : Type 0} (callback : ReadCallback A) where
  unfoldable pub after_requeue : Port → A → IoctlReply × Log → Status × Port × A × Log
  unfolding blame
  after_requeue v a (refused, log) = (failed, blame k v at_qbuf log, a, log)
  after_requeue v a (done d, log) = (ok, v, a, log)

  unfoldable pub after_callback : Port → ℕ → A × Log → Status × Port × A × Log
  unfolding after_requeue
  after_callback v i (a, log) = after_requeue v a (xioctl k v.fd (qbuf i) log)

  unfoldable pub with_buffer :
      Port → IoctlData → Option ReqBuffer → A → Log → Option (Status × Port × A × Log)
  unfolding after_callback
  with_buffer v d none a log = none
  with_buffer v d (some b) a log = some (after_callback v d.index (callback b.start d.size a log))

  unfoldable pub after_dqbuf : Port → A → IoctlReply × Log → Option (Status × Port × A × Log)
  unfolding with_buffer buffer_at blame
  after_dqbuf v a (refused, log) = some (failed, blame k v (dqbuf_error (k.errno log)) log, a, log)
  after_dqbuf v a (done d, log) = with_buffer v d (buffer_at v.reqbufs d.index) a log

  unfoldable pub read : Port → A → Log → Option (Status × Port × A × Log)
  unfolding after_dqbuf
  read v a log =
      if not v.stream_flag
      then some (failed, record v { last_error = stream_is_off }, a, misc clear_errno ∷ log)
      else after_dqbuf v a (xioctl k v.fd dqbuf log)
