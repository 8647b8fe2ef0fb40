-- ===== src/Memory.antt =====
-- src/util.c: the allocators, and memcpy into a block. A block is the list of its bytes. Without
-- memory the program exits, so an allocation that returns has succeeded.
use camlite.Base.{
  ℕ, zero, suc, ◌+◌, ◌-◌, ◌≤◌, ◌≡◌, arith, [], ◌∷◌, ◌++◌, Text, length, take, drop, length-append,
  length-take, length-drop, take-append_le, take_past, take_prefix, take_all, ◌∙◌, ap,
}
use camlite.Kernel.{Kernel}

-- `n` bytes that nobody has written yet, from index i on.
unwritten : Kernel → ℕ → ℕ → Text
unwritten k zero i = []
unwritten k (suc n) i = k.noise i ∷ unwritten k n (i + 1)

unfoldable pub fmalloc : Kernel → ℕ → Text
unfolding unwritten
fmalloc k size = unwritten k size 0

unfoldable pub frealloc : Kernel → Text → ℕ → Text
unfolding fmalloc
frealloc k block size = take size block ++ fmalloc k (size - length block)

-- memcpy(block + at, src, n) inside the block
abbrev pub memcpy : Text → ℕ → Text → Text
memcpy block at src = take at block ++ (src ++ drop (at + length src) block)

length-unwritten : (k : Kernel) (n i : ℕ) → length (unwritten k n i) ≡ n
unfolding unwritten
length-unwritten k zero i = omega arith
length-unwritten k (suc n) i = omega (arith, length-unwritten k n (i + 1))

pub length-fmalloc : (k : Kernel) (n : ℕ) → length (fmalloc k n) ≡ n
unfolding fmalloc
length-fmalloc k n = length-unwritten k n 0

pub length-frealloc :
    (k : Kernel) (block : Text) (n : ℕ) → length block ≤ n → length (frealloc k block n) ≡ n
unfolding frealloc
length-frealloc k block n h = omega (
  arith,
  length-append (take n block) (fmalloc k (n - length block)),
  length-take n block,
  length-fmalloc k (n - length block),
)

pub length-memcpy :
    (block : Text) (at : ℕ) (src : Text)
    → at + length src ≤ length block
    → length (memcpy block at src) ≡ length block
length-memcpy block at src h = omega (
  arith,
  length-append (take at block) (src ++ drop (at + length src) block),
  length-append src (drop (at + length src) block),
  length-take at block,
  length-drop (at + length src) block,
)

-- A larger block begins with the bytes of the old one.
pub take-frealloc :
    (k : Kernel) (block : Text) (n m : ℕ)
    → n ≤ length block
    → length block ≤ m
    → take n (frealloc k block m) ≡ take n block
unfolding frealloc
take-frealloc k block n m h g =
    ap (λ (s : Text). take n (s ++ fmalloc k (m - length block))) (take_all m block g)
    ∙ take-append_le n block (fmalloc k (m - length block)) h

-- The bytes before the end of what memcpy wrote.
pub take-memcpy :
    (block : Text) (at : ℕ) (src : Text)
    → at ≤ length block
    → take (at + length src) (memcpy block at src) ≡ take at block ++ src
take-memcpy block at src h =
    take_past (length src) (at + length src) (take at block) (src ++ drop (at + length src) block)
      (omega (arith, length-take at block))
    ∙ ap (λ (s : Text). take at block ++ s) (take_prefix src (drop (at + length src) block))
