-- ===== src/V4l2/Opening.antt =====
-- src/v4l2port.c, v4l2port_init: the port that it leaves.
use camlite.Base.{◌≡◌, refl, ℕ, suc, zero, ◌+◌, true, false, not, Option, none, some, ◌∷◌, if_split}
use camlite.Kernel.{Kernel, Log, IoctlReply, done, refused, enum_fmt, misc, clear_errno}
use camlite.Pevent.{Status, ok, failed}
use camlite.V4l2.{Port, ErrorType, blame, fmtdesc_max}
use camlite.V4l2.Init.{
  init, init_error, single, after_enum, enum_from, after_s_parm, after_s_fmt, set_format,
  after_querycap, after_open, open_device,
}
use camlite.V4l2.Buffers.{IsPort}
use camlite.V4l2.Stream.{remark-IsPort, uninit-IsPort}

-- What v4l2port_init leaves: a sound port, initialised where the result is 0.
abbrev pub Opens : Status × Port × Log → Type 0
Opens (ok, v, log) = IsPort v × (v.init_flag ≡ true)
Opens (failed, v, log) = IsPort v × (v.init_flag ≡ false)

-- A port that is sound and not initialised.
abbrev IsFresh : Port → Type 0
IsFresh v = IsPort v × (v.init_flag ≡ false)

module _ (k : Kernel) where
  init_error-Opens :
      (v : Port) (fd : ℕ) (error : ErrorType) (log : Log)
      → IsFresh v
      → Opens (init_error k v fd error log)
  unfolding init_error blame
  init_error-Opens v fd error log (p, off) = (remark-IsPort v _ refl refl refl p, off)

  after_enum-IsFresh :
      (go : Port → Log → Port × Log) (i : ℕ) (v : Port) (r : IoctlReply) (log : Log)
      → ((w : Port) → IsFresh w → IsFresh (go w log).0)
      → IsFresh v
      → IsFresh (after_enum k go i v (r, log)).0
  unfolding after_enum
  after_enum-IsFresh go i v refused log g f = f
  after_enum-IsFresh go i v (done d) log g (p, off) = g _ (remark-IsPort v _ refl refl refl p, off)

  enum_from-IsFresh :
      (n i fd : ℕ) (v : Port) (log : Log) → IsFresh v → IsFresh (enum_from k n i fd v log).0
  unfolding enum_from
  enum_from-IsFresh zero i fd v log f = f
  enum_from-IsFresh (suc n) i fd v log f =
      let (r, log') = single k fd (enum_fmt i) (k.on_ioctl log fd (enum_fmt i)) log in
      after_enum-IsFresh (enum_from k n (i + 1) fd) i v r log'
        (λ w. enum_from-IsFresh n (i + 1) fd w log') f

  after_s_parm-Opens :
      (v : Port) (fd : ℕ) (r : IoctlReply) (log : Log)
      → IsFresh v
      → Opens (after_s_parm k v fd (r, log))
  unfolding after_s_parm
  after_s_parm-Opens v fd refused log f = init_error-Opens v fd _ log f
  after_s_parm-Opens v fd (done d) log f = (remark-IsPort v _ refl refl refl f.0, refl)

  after_s_fmt-Opens :
      (v : Port) (fd : ℕ) (r : IoctlReply) (log : Log)
      → IsFresh v
      → Opens (after_s_fmt k v fd (r, log))
  unfolding after_s_fmt
  after_s_fmt-Opens v fd refused log f = init_error-Opens v fd _ log f
  after_s_fmt-Opens v fd (done d) log f =
      after_s_parm-Opens _ fd _ _ (remark-IsPort v _ refl refl refl f.0, f.1)

  after_querycap-Opens :
      (v : Port) (fd : ℕ) (r : IoctlReply) (log : Log)
      → IsFresh v
      → Opens (after_querycap k v fd (r, log))
  unfolding after_querycap set_format
  after_querycap-Opens v fd refused log f = init_error-Opens v fd _ log f
  after_querycap-Opens v fd (done d) log f =
      let w = record v { streaming = d.streaming; card = d.text } in
      let fresh : IsFresh w = (remark-IsPort v _ refl refl refl f.0, f.1) in
      if_split Opens (not d.streaming) _ _ (λ _. init_error-Opens w fd _ log fresh)
        (λ _. after_s_fmt-Opens _ fd _ _ (enum_from-IsFresh fmtdesc_max 0 fd w log fresh))

  after_open-Opens :
      (v : Port) (answer : Option ℕ) (log : Log) → IsFresh v → Opens (after_open k v answer log)
  unfolding after_open blame
  after_open-Opens v none log (p, off) = (remark-IsPort v _ refl refl refl p, off)
  after_open-Opens v (some fd) log f = after_querycap-Opens v fd _ _ f

  -- v4l2port_init of a sound port, initialised before or not, leaves a sound port, which is initialised
  -- exactly where the result is 0.
  pub init-Opens : (v : Port) (log : Log) → IsPort v → Opens (init k v log)
  unfolding init open_device
  init-Opens v log p =
      if_split (λ (s : Port × Log). Opens (open_device k s)) v.init_flag _ _
        (λ on.
          let ended = uninit-IsPort k v (misc clear_errno ∷ log) p in
          after_open-Opens _ _ _ (ended.0, ended.1))
        (λ off. after_open-Opens v _ _ (p, off))
