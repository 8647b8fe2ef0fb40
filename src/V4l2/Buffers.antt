-- ===== src/V4l2/Buffers.antt =====
-- src/v4l2port.c: the stream's flag, the mapped buffers, and the array that holds them.
use camlite.Base.{
  ℕ, zero, suc, ◌+◌, ◌≤◌, ◌≡◌, refl, ap, Bool, true, false, Option, none, some, List, [], ◌∷◌,
  arith, ltb, ◌⊎◌, inl, inr, if_split, set,
}
use camlite.Kernel.{Kernel, Log, IoctlData, IoctlReply, done, refused, reqbufs, qbuf}
use camlite.Pevent.{Status, ok, failed}
use camlite.V4l2.{Port, ErrorType, ReqBuffer, at, no_buffer, mmap_release, xioctl}
use camlite.V4l2.Mmap.{
  mmap_init, mmap_error, map_from, queue_from, after_qbuf, after_mmap, after_querybuf,
  after_reqbufs, request_buffers,
}

-- The buffer is mapped, or nothing is.
pub record IsMapped (v : Port) : Type 0 where
  pub one : v.reqbufs_count ≡ 1
  pub place : ℕ
  pub size : ℕ
  pub mapped : v.reqbufs ≡ record { start = at place; size = size } ∷ []

pub record IsReleased (v : Port) : Type 0 where
  pub nothing : v.reqbufs_count ≡ 0
  pub empty : v.reqbufs ≡ no_buffer ∷ []

-- A port that streams has its buffer.
pub record IsPort (v : Port) : Type 0 where
  pub buffers : IsMapped v ⊎ IsReleased v
  pub streams : v.stream_flag ≡ true → v.reqbufs_count ≡ 1

-- A driver that grants no more buffers than it is asked for.
pub record IsFrugal (k : Kernel) : Type 0 where
  pub frugal :
      (log : Log) (fd : ℕ) (d : IoctlData)
      → (k.on_ioctl log fd (reqbufs 1)).1 ≡ done d
      → d.count ≤ 1

-- What v4l2port_mmap_init leaves, on each of its paths, of a port with these flags; `none` is not one.
abbrev pub Mmapped : Bool → ℕ → Option (Status × Port × Log) → Type 0
Mmapped flag fd none = ⊥
Mmapped flag fd (some (ok, v, log)) = IsMapped v × (v.stream_flag ≡ flag) × (v.fd ≡ fd)
Mmapped flag fd (some (failed, v, log)) = IsReleased v × (v.stream_flag ≡ flag) × (v.fd ≡ fd)

module _ (k : Kernel) where
  mmap_error-Mmapped :
      (v : Port) (error : ErrorType) (log : Log) (flag : Bool) (fd : ℕ)
      → v.stream_flag ≡ flag
      → v.fd ≡ fd
      → v.reqbufs_count ≤ 1
      → Mmapped flag fd (mmap_error k v error log)
  unfolding mmap_error mmap_release
  mmap_error-Mmapped v error log flag fd e f few =
      if_split (Mmapped flag fd) (ltb 1 v.reqbufs_count) _ _ (λ many. absurd (ground arith))
        (λ _. (record { nothing = refl; empty = refl }, e, f))

  after_qbuf-Mmapped :
      (go : Log → Option (Status × Port × Log)) (v : Port) (r : IoctlReply) (log : Log)
      (flag : Bool) (fd : ℕ)
      → v.stream_flag ≡ flag
      → v.fd ≡ fd
      → v.reqbufs_count ≤ 1
      → ((log' : Log) → Mmapped flag fd (go log'))
      → Mmapped flag fd (after_qbuf k go v (r, log))
  unfolding after_qbuf
  after_qbuf-Mmapped go v refused log flag fd e f few g = mmap_error-Mmapped v _ log flag fd e f few
  after_qbuf-Mmapped go v (done d) log flag fd e f few g = g log

  queue_from-Mmapped :
      (n i : ℕ) (v : Port) (log : Log)
      → IsMapped v
      → Mmapped v.stream_flag v.fd (queue_from k n i v log)
  unfolding queue_from
  queue_from-Mmapped zero i v log m = (m, refl, refl)
  queue_from-Mmapped (suc n) i v log m =
      let (r, log') = xioctl k v.fd (qbuf i) log in
      after_qbuf-Mmapped (queue_from k n (i + 1) v) v r log' v.stream_flag v.fd refl refl
        (omega (arith, m.one)) (λ log''. queue_from-Mmapped n (i + 1) v log'' m)

  after_mmap-Mmapped :
      (v : Port) (d : IoctlData) (answer : Option ℕ) (log : Log)
      → v.reqbufs ≡ no_buffer ∷ []
      → v.reqbufs_count ≡ 1
      → Mmapped v.stream_flag v.fd (after_mmap k (map_from k 0 1) 0 v d answer log)
  unfolding after_mmap map_from
  after_mmap-Mmapped v d none log e c =
      mmap_error-Mmapped _ _ log v.stream_flag v.fd refl refl (omega arith)
  after_mmap-Mmapped v d (some a) log e c =
      queue_from-Mmapped v.reqbufs_count 0
        (record v { reqbufs = set v.reqbufs 0 (record { start = at a; size = d.size }) }) log
        (record {
          one = c;
          place = a;
          size = d.size;
          mapped =
              ap (λ (bufs : List ReqBuffer). set bufs 0 (record { start = at a; size = d.size })) e;
        })

  after_querybuf-Mmapped :
      (v : Port) (r : IoctlReply) (log : Log)
      → v.reqbufs ≡ no_buffer ∷ []
      → v.reqbufs_count ≡ 1
      → Mmapped v.stream_flag v.fd (after_querybuf k (map_from k 0 1) 0 v (r, log))
  unfolding after_querybuf
  after_querybuf-Mmapped v refused log e c =
      mmap_error-Mmapped v _ log v.stream_flag v.fd refl refl (omega arith)
  after_querybuf-Mmapped v (done d) log e c = after_mmap-Mmapped v d _ _ e c

  map_from-Mmapped :
      (n : ℕ) (v : Port) (log : Log)
      → v.reqbufs ≡ no_buffer ∷ []
      → v.reqbufs_count ≡ n
      → n ≡ 1
      → Mmapped v.stream_flag v.fd (map_from k n 0 v log)
  unfolding map_from
  map_from-Mmapped zero v log e c h = absurd (omega arith)
  map_from-Mmapped (suc zero) v log e c h = after_querybuf-Mmapped v _ _ e c
  map_from-Mmapped (suc (suc n)) v log e c h = absurd (omega arith)

  after_reqbufs-Mmapped :
      (v : Port) (r : IoctlReply) (log : Log)
      → v.reqbufs ≡ no_buffer ∷ []
      → v.reqbufs_count ≡ 0
      → ((d : IoctlData) → r ≡ done d → d.count ≤ 1)
      → Mmapped v.stream_flag v.fd (after_reqbufs k v (r, log))
  unfolding after_reqbufs
  after_reqbufs-Mmapped v refused log e c few =
      mmap_error-Mmapped v _ log v.stream_flag v.fd refl refl (omega arith)
  after_reqbufs-Mmapped v (done d) log e c few =
      if_split (Mmapped v.stream_flag v.fd) (ltb d.count 1) _ _
        (λ _. mmap_error-Mmapped v _ log v.stream_flag v.fd refl refl (omega arith))
        (λ more.
          let granted : d.count ≤ 1 = few d refl in
          map_from-Mmapped d.count (record v { reqbufs_count = d.count }) log e refl (ground arith))

  granted-few :
      (fd : ℕ) (log : Log) (d : IoctlData)
      → IsFrugal k
      → (xioctl k fd (reqbufs 1) log).0 ≡ done d
      → d.count ≤ 1
  unfolding xioctl
  granted-few fd log d f e = f.frugal log fd d e

  -- v4l2port_mmap_init of a port that has its buffer, or none, where the driver grants no more buffers
  -- than it is asked for, stays within `reqbufs`. If it returns 0, exactly one buffer is mapped; if it
  -- returns -1, none is left. The stream's flag and the descriptor are as they were.
  pub mmap_init-Mmapped :
      (v : Port) (log : Log)
      → IsPort v
      → IsFrugal k
      → Mmapped v.stream_flag v.fd (mmap_init k v log)
  unfolding mmap_init request_buffers mmap_release
  mmap_init-Mmapped v log p frugal =
      if_split (λ (s : Port × Log). Mmapped v.stream_flag v.fd (request_buffers k s))
        (ltb 0 v.reqbufs_count) _ _
        (λ held. after_reqbufs-Mmapped _ _ _ refl refl (λ d e. granted-few _ _ d frugal e))
        (λ free.
          after_reqbufs-Mmapped v _ _ (released p.buffers free) (ground arith)
            (λ d e. granted-few _ _ d frugal e))
    where
      released :
          IsMapped v ⊎ IsReleased v → ltb 0 v.reqbufs_count ≡ false → v.reqbufs ≡ no_buffer ∷ []
      released (inl m) free = absurd (ground (arith, m.one))
      released (inr r) free = r.empty
