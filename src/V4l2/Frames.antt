-- ===== src/V4l2/Frames.antt =====
-- src/v4l2port.c: what v4l2port_read hands to its callback.
use camlite.Base.{
  ℕ, ◌<◌, ◌≡◌, refl, not, Option, none, some, List, [], ◌∷◌, arith, if_split, inl, inr, ◌⊎◌,
}
use camlite.Kernel.{Kernel, Log, IoctlData, IoctlReply, done, refused, dqbuf}
use camlite.Pevent.{Status}
use camlite.V4l2.{Port, ReqBuffer, at, xioctl, blame}
use camlite.V4l2.Capture.{
  ReadCallback, buffer_at, read, after_dqbuf, with_buffer, after_callback, after_requeue,
}
use camlite.V4l2.Buffers.{IsPort, IsMapped, IsReleased}
use camlite.V4l2.Stream.{remark-IsPort}

-- After v4l2port_read: it stayed within `reqbufs`, the port is sound, streams as before on the same descriptor, and the
-- callback's state has the property that it keeps.
abbrev pub Frame : {A : Type 0} → (A → Type 0) → Port → Option (Status × Port × A × Log) → Type 0
Frame P w none = ⊥
Frame P w (some (s, v, a, log)) = IsPort v × (v.stream_flag ≡ w.stream_flag) × (v.fd ≡ w.fd) × P a

module _ (k : Kernel) {A : Type 0} (callback : ReadCallback A) (P : A → Type 0)
    (keeps : (x n : ℕ) (a : A) (log : Log) → P a → P (callback (at x) n a log).0) where
  after_requeue-Frame :
      (v : Port) (a : A) (r : IoctlReply) (log : Log)
      → IsPort v
      → P a
      → Frame P v (some (after_requeue k callback v a (r, log)))
  unfolding after_requeue blame
  after_requeue-Frame v a refused log p h = (remark-IsPort v _ refl refl refl p, refl, refl, h)
  after_requeue-Frame v a (done d) log p h = (p, refl, refl, h)

  with_buffer-Frame :
      (v : Port) (d : IoctlData) (bufs : List ReqBuffer) (x n : ℕ) (a : A) (log : Log)
      → IsPort v
      → bufs ≡ record { start = at x; size = n } ∷ []
      → d.index ≡ 0
      → P a
      → Frame P v (with_buffer k callback v d (buffer_at bufs d.index) a log)
  unfolding with_buffer after_callback buffer_at
  with_buffer-Frame v d bufs x n a log p e i h =
      rw e (
        rw i
          (after_requeue-Frame v (callback (at x) d.size a log).0 _ _ p (keeps x d.size a log h)))

  after_dqbuf-Frame :
      (v : Port) (a : A) (r : IoctlReply) (log : Log)
      → IsPort v
      → v.reqbufs_count ≡ 1
      → ((d : IoctlData) → r ≡ done d → d.index < 1)
      → P a
      → Frame P v (after_dqbuf k callback v a (r, log))
  unfolding after_dqbuf blame
  after_dqbuf-Frame v a refused log p one within h =
      (remark-IsPort v _ refl refl refl p, refl, refl, h)
  after_dqbuf-Frame v a (done d) log p one within h = held p.buffers
    where
      held : IsMapped v ⊎ IsReleased v → Frame P v (after_dqbuf k callback v a (done d, log))
      held (inl m) =
          with_buffer-Frame v d v.reqbufs m.place m.size a log p m.mapped
            (omega (arith, within d refl)) h
      held (inr r) = absurd (omega (arith, r.nothing, one))

  -- v4l2port_read of a sound port, with a driver that hands back a buffer that it was given, stays
  -- within `reqbufs` and keeps the port sound, and the callback is only called with the address of a
  -- buffer that is mapped: what the callback keeps for such addresses is kept.
  pub read-Frame :
      (v : Port) (a : A) (log : Log)
      → IsPort v
      → ((d : IoctlData) → (xioctl k v.fd dqbuf log).0 ≡ done d → d.index < v.reqbufs_count)
      → P a
      → Frame P v (read k callback v a log)
  unfolding read
  read-Frame v a log p within h =
      if_split (Frame P v) (not v.stream_flag) _ _
        (λ off. (remark-IsPort v _ refl refl refl p, refl, refl, h))
        (λ on.
          let one = p.streams (ground arith) in
          after_dqbuf-Frame v a _ _ p one
            (λ d (e : (xioctl k v.fd dqbuf log).0 ≡ done d). omega (arith, within d e)) h)
