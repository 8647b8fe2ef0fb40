-- ===== src/V4l2/Errors.antt =====
-- src/v4l2port.c: the names of the errors, and what a port tells of itself.
use camlite.Base.{ℕ, Bool, Text, codes}
use camlite.V4l2.{
  Port, ErrorType, no_error, can_not_open, not_v4l2_device, at_querycap, not_support_streamer,
  at_s_fmt, at_reqbufs, reqbufs_no_memory, at_querybuf, at_mmap, at_qbuf, at_streamon, at_streamoff,
  at_dqbuf, dqbuf_eagain, dqbuf_eio, stream_is_on, stream_is_off, at_s_parm, at_g_parm,
  not_support_streaming,
}

unfoldable pub v4l2_error_string : ErrorType → Text
v4l2_error_string no_error = codes "V4L2_ERROR_NONE"
v4l2_error_string can_not_open = codes "V4L2_ERROR_CAN_NOT_OPEN"
v4l2_error_string not_v4l2_device = codes "V4L2_ERROR_NOT_V4L2_DEVICE"
v4l2_error_string at_querycap = codes "V4L2_ERROR_VIDIOC_QUERYCAP"
v4l2_error_string not_support_streamer = codes "V4L2_ERROR_NOT_SUPPORT_STREAMER"
v4l2_error_string at_s_fmt = codes "V4L2_ERROR_VIDIOC_S_FMT"
v4l2_error_string at_reqbufs = codes "V4L2_ERROR_VIDIOC_REQBUFS"
v4l2_error_string reqbufs_no_memory = codes "V4L2_ERROR_VIDIOC_REQBUFS_NO_MEMORY"
v4l2_error_string at_querybuf = codes "V4L2_ERROR_VIDIOC_QUERYBUF"
v4l2_error_string at_mmap = codes "V4L2_ERROR_MMAP"
v4l2_error_string at_qbuf = codes "V4L2_ERROR_VIDIOC_QBUF"
v4l2_error_string at_streamon = codes "V4L2_ERROR_VIDIOC_STREAMON"
v4l2_error_string at_streamoff = codes "V4L2_ERROR_VIDIOC_STREAMOFF"
v4l2_error_string at_dqbuf = codes "V4L2_ERROR_VIDIOC_DQBUF"
v4l2_error_string dqbuf_eagain = codes "V4L2_ERROR_VIDIOC_DQBUF_EAGAIN"
v4l2_error_string dqbuf_eio = codes "V4L2_ERROR_VIDIOC_DQBUF_EIO"
v4l2_error_string stream_is_on = codes "V4L2_ERROR_VIDIOC_STREAM_IS_ON"
v4l2_error_string stream_is_off = codes "V4L2_ERROR_VIDIOC_STREAM_IS_OFF"
v4l2_error_string at_s_parm = codes "V4L2_ERROR_VIDIOC_S_PARM"
v4l2_error_string at_g_parm = codes "V4L2_ERROR_VIDIOC_G_PARM"
v4l2_error_string not_support_streaming = codes "V4L2_ERROR_NOT_SUPPORT_STREAMING"

-- v4l2port_strerror
unfoldable pub strerror : Port → Text
unfolding v4l2_error_string
strerror v = v4l2_error_string v.last_error

-- v4l2port_getfd, v4l2port_getstate_init and v4l2port_getstate_stream
unfoldable pub getfd : Port → ℕ
getfd v = v.fd

unfoldable pub getstate_init : Port → Bool
getstate_init v = v.init_flag

unfoldable pub getstate_stream : Port → Bool
getstate_stream v = v.stream_flag
