-- ===== src/V4l2/Overrun.antt =====
-- src/v4l2port.c, v4l2port_mmap_init: a driver that grants more buffers than `reqbufs` holds.
use camlite.Base.{ℕ, zero, suc, ◌≤◌, ◌≡◌, refl, Option, none, some, ◌∷◌, arith, ltb, if_split}
use camlite.Kernel.{Kernel, Log, IoctlData, IoctlReply, done, refused, reqbufs, misc, clear_errno}
use camlite.Pevent.{Status}
use camlite.V4l2.{Port, ErrorType, xioctl}
use camlite.V4l2.Mmap.{
  mmap_init, mmap_error, map_from, after_mmap, after_querybuf, after_reqbufs, request_buffers,
}

module _ (k : Kernel) where
  -- A count above one runs past the array, whatever the driver answers next.
  past_end :
      (v : Port) (error : ErrorType) (log : Log)
      → 2 ≤ v.reqbufs_count
      → mmap_error k v error log ≡ none
  unfolding mmap_error
  past_end v error log h = ground arith

  after_mmap-second :
      (go : Port → Log → Option (Status × Port × Log)) (v : Port) (d : IoctlData)
      (answer : Option ℕ) (log : Log)
      → after_mmap k go 1 v d answer log ≡ none
  unfolding after_mmap
  after_mmap-second go v d none log = refl
  after_mmap-second go v d (some a) log = refl

  after_querybuf-second :
      (go : Port → Log → Option (Status × Port × Log)) (v : Port) (r : IoctlReply) (log : Log)
      → 2 ≤ v.reqbufs_count
      → after_querybuf k go 1 v (r, log) ≡ none
  unfolding after_querybuf
  after_querybuf-second go v refused log h = past_end v _ log h
  after_querybuf-second go v (done d) log h = after_mmap-second go v d _ _

  after_mmap-first :
      (n : ℕ) (v : Port) (d : IoctlData) (answer : Option ℕ) (log : Log)
      → 2 ≤ v.reqbufs_count
      → after_mmap k (map_from k (suc n) 1) 0 v d answer log ≡ none
  unfolding after_mmap map_from
  after_mmap-first n v d none log h = past_end _ _ log h
  after_mmap-first n v d (some a) log h = after_querybuf-second _ _ _ _ h

  after_querybuf-first :
      (n : ℕ) (v : Port) (r : IoctlReply) (log : Log)
      → 2 ≤ v.reqbufs_count
      → after_querybuf k (map_from k (suc n) 1) 0 v (r, log) ≡ none
  unfolding after_querybuf
  after_querybuf-first n v refused log h = past_end v _ log h
  after_querybuf-first n v (done d) log h = after_mmap-first n v d _ _ h

  map_from-many :
      (n : ℕ) (v : Port) (log : Log) → v.reqbufs_count ≡ n → 2 ≤ n → map_from k n 0 v log ≡ none
  unfolding map_from
  map_from-many zero v log e h = absurd (omega arith)
  map_from-many (suc zero) v log e h = absurd (omega arith)
  map_from-many (suc (suc n)) v log e h = after_querybuf-first n v _ _ (omega arith)

  after_reqbufs-overrun :
      (v : Port) (r : IoctlReply) (log : Log) (d : IoctlData)
      → r ≡ done d
      → 2 ≤ d.count
      → after_reqbufs k v (r, log) ≡ none
  unfolding after_reqbufs
  after_reqbufs-overrun v refused log d e h = cc
  after_reqbufs-overrun v (done d') log d e h =
      let count : d'.count ≡ d.count = cc in
      if_split (λ (o : Option (Status × Port × Log)). o ≡ none) (ltb d'.count 1) _ _
        (λ few. absurd (ground arith))
        (λ many.
          map_from-many d'.count (record v { reqbufs_count = d'.count }) log refl (omega arith))

  -- A driver that grants more than one buffer, as V4L2 allows it to, makes v4l2port_mmap_init reach
  -- past the end of `reqbufs`, whatever it answers afterwards.
  pub mmap_init-overrun :
      (v : Port) (log : Log) (d : IoctlData)
      → v.reqbufs_count ≡ 0
      → (xioctl k v.fd (reqbufs 1) (misc clear_errno ∷ log)).0 ≡ done d
      → 2 ≤ d.count
      → mmap_init k v log ≡ none
  unfolding mmap_init request_buffers
  mmap_init-overrun v log d c e h =
      if_split (λ (s : Port × Log). request_buffers k s ≡ none) (ltb 0 v.reqbufs_count) _ _
        (λ held. absurd (ground arith)) (λ free. after_reqbufs-overrun v _ _ d e h)
