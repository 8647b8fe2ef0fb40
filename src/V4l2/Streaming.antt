-- ===== src/V4l2/Streaming.antt =====
-- src/v4l2port.c: v4l2port_stream and v4l2port_uninit.
use camlite.Base.{true, false, not, Option, none, some, [], ◌∷◌, if◌then◌else◌}
use camlite.Kernel.{Kernel, Log, IoctlReply, done, refused, streamon, streamoff, closed}
use camlite.Pevent.{Status, ok, failed}
use camlite.V4l2.{
  Port, at_streamon, at_streamoff, stream_is_on, stream_is_off, no_fmtdesc, mmap_release, xioctl,
  blame,
}
use camlite.V4l2.Mmap.{mmap_init}

module _ (k : Kernel) where
  -- v4l2port_stream with flag 1, after v4l2port_mmap_init.
  unfoldable pub after_streamon : Port → IoctlReply × Log → Status × Port × Log
  after_streamon v (refused, log) = (failed, blame k v at_streamon log, log)
  after_streamon v (done d, log) = (ok, record v { stream_flag = true }, log)

  unfoldable pub after_mmap_init : Option (Status × Port × Log) → Option (Status × Port × Log)
  unfolding after_streamon blame
  after_mmap_init none = none
  after_mmap_init (some (failed, v, log)) = some (failed, v, log)
  after_mmap_init (some (ok, v, log)) = some (after_streamon v (xioctl k v.fd streamon log))

  unfoldable pub stream_on : Port → Log → Option (Status × Port × Log)
  unfolding after_mmap_init
  stream_on v log =
      if not v.stream_flag
      then after_mmap_init (mmap_init k v log)
      else some (failed, record v { last_errno = 0; last_error = stream_is_on }, log)

  -- v4l2port_stream with flag 0
  unfoldable pub after_streamoff : Port → IoctlReply × Log → Status × Port × Log
  unfolding blame
  after_streamoff v (refused, log) = (failed, blame k v at_streamoff log, log)
  after_streamoff v (done d, log) =
      let (v', log') = mmap_release v log in (ok, record v' { stream_flag = false }, log')

  unfoldable pub stream_off : Port → Log → Status × Port × Log
  unfolding after_streamoff
  stream_off v log =
      if v.stream_flag
      then after_streamoff v (xioctl k v.fd streamoff log)
      else (failed, record v { last_errno = 0; last_error = stream_is_off }, log)

  -- `fd` is never negative here, so v4l2port_uninit closes it, whether it was opened or not.
  unfoldable pub wipe : Status × Port × Log → Port × Log
  wipe (s, v, log) = (
    record v {
      fd = 0;
      init_flag = false;
      stream_flag = false;
      streaming = false;
      card = [];
      fmtdesc = no_fmtdesc;
      numerator = 0;
      denominator = 0;
    },
    closed v.fd ∷ log,
  )

  unfoldable pub uninit : Port → Log → Port × Log
  unfolding wipe
  uninit v log = wipe (stream_off v log)
