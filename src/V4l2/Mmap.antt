-- ===== src/V4l2/Mmap.antt =====
-- src/v4l2port.c: v4l2port_mmap_init, which has the driver's buffers mapped and queued.
use camlite.Base.{ℕ, zero, suc, ◌+◌, Option, none, some, ◌∷◌, ltb, if◌then◌else◌, set}
use camlite.Kernel.{
  Kernel, Log, IoctlData, IoctlReply, done, refused, reqbufs, querybuf, qbuf, misc, clear_errno,
  mapped,
}
use camlite.Pevent.{Status, ok, failed}
use camlite.V4l2.{
  Port, ErrorType, at, map_failed, at_reqbufs, reqbufs_no_memory, at_querybuf, at_mmap, at_qbuf,
  req_buffer_max, mmap_release, xioctl, blame,
}

module _ (k : Kernel) where
  -- The label __error of v4l2port_mmap_init. The release would read past the end of `reqbufs` where
  -- the driver's count is above REQ_BUFFER_MAX.
  unfoldable pub mmap_error : Port → ErrorType → Log → Option (Status × Port × Log)
  unfolding blame
  mmap_error v error log =
      let (v', log') = mmap_release (blame k v error log) log in
      if ltb req_buffer_max v.reqbufs_count then none else some (failed, v', log')

  -- The second loop: the buffers are queued.
  unfoldable pub after_qbuf :
      (Log → Option (Status × Port × Log)) → Port → IoctlReply × Log → Option (Status × Port × Log)
  after_qbuf go v (refused, log) = mmap_error v at_qbuf log
  after_qbuf go v (done d, log) = go log

  unfoldable pub queue_from : ℕ → ℕ → Port → Log → Option (Status × Port × Log)
  queue_from zero i v log = some (ok, v, log)
  queue_from (suc n) i v log = after_qbuf (queue_from n (i + 1) v) v (xioctl k v.fd (qbuf i) log)

  -- The mapping of buffer i. The store to `reqbufs[i]` is past the end where i is not below
  -- REQ_BUFFER_MAX.
  unfoldable pub after_mmap :
      (Port → Log → Option (Status × Port × Log))
      → ℕ
      → Port
      → IoctlData
      → Option ℕ
      → Log
      → Option (Status × Port × Log)
  after_mmap go i v d none log =
      if ltb i req_buffer_max
      then mmap_error
          (record v { reqbufs = set v.reqbufs i (record { start = map_failed; size = d.size }) })
          at_mmap log
      else none
  after_mmap go i v d (some a) log =
      let more =
        go (record v { reqbufs = set v.reqbufs i (record { start = at a; size = d.size }) }) log in
      if ltb i req_buffer_max then more else none

  unfoldable pub after_querybuf :
      (Port → Log → Option (Status × Port × Log))
      → ℕ
      → Port
      → IoctlReply × Log
      → Option (Status × Port × Log)
  after_querybuf go i v (refused, log) = mmap_error v at_querybuf log
  after_querybuf go i v (done d, log) =
      let answer = k.on_mmap log v.fd d.size d.offset in
      after_mmap go i v d answer (misc (mapped v.fd d.size d.offset answer) ∷ log)

  -- The first loop: each buffer is asked for and mapped; then the second loop.
  unfoldable pub map_from : ℕ → ℕ → Port → Log → Option (Status × Port × Log)
  map_from zero i v log = queue_from v.reqbufs_count 0 v log
  map_from (suc n) i v log =
      after_querybuf (map_from n (i + 1)) i v (xioctl k v.fd (querybuf i) log)

  -- From the answer to VIDIOC_REQBUFS on.
  unfoldable pub after_reqbufs : Port → IoctlReply × Log → Option (Status × Port × Log)
  after_reqbufs v (refused, log) = mmap_error v at_reqbufs log
  after_reqbufs v (done d, log) =
      if ltb d.count req_buffer_max
      then mmap_error v reqbufs_no_memory log
      else map_from d.count 0 (record v { reqbufs_count = d.count }) log

  unfoldable pub request_buffers : Port × Log → Option (Status × Port × Log)
  request_buffers (v, log) = after_reqbufs v (xioctl k v.fd (reqbufs req_buffer_max) log)

  unfoldable pub mmap_init : Port → Log → Option (Status × Port × Log)
  unfolding request_buffers
  mmap_init v log = request_buffers (
      if ltb 0 v.reqbufs_count
      then mmap_release v (misc clear_errno ∷ log)
      else (v, misc clear_errno ∷ log))
