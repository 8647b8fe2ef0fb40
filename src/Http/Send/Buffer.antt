-- ===== src/Http/Send/Buffer.antt =====
-- src/http.c, http_client_send lines 195-230: the write buffer holds its bytes in order.
use camlite.Base.{
  ℕ, ◌+◌, ◌≤◌, ◌≡◌, refl, ◌∙◌, none, some, ◌++◌, inl, inr, Bool-cases, ltb, Text, arith, length,
  take, drop, Option, drop-append_le, length-take,
}
use camlite.Kernel.{Kernel}
use camlite.Memory.{length-fmalloc, length-frealloc, length-memcpy, take-frealloc, take-memcpy}
use camlite.Http.{IoBuffer}
use camlite.Http.Send.{contents, reserve, reserve_with, append}

-- The indices of a buffer lie in its block.
pub record IsBuffer (b : IoBuffer) : Type 0 where
  pub block : length (contents b.buf) ≡ b.max
  pub cur_size : b.cur ≤ b.size
  pub size_max : b.size ≤ b.max

-- What a buffer still has to send.
abbrev pub queued : IoBuffer → Text
queued b = drop b.cur (take b.size (contents b.buf))

-- What making room for `need` bytes leaves: a larger block with the same bytes.
record IsReserved (b b' : IoBuffer) (need : ℕ) : Type 0 where
  block : length (contents b'.buf) ≡ b'.max
  room : need ≤ b'.max
  same_cur : b'.cur ≡ b.cur
  same_size : b'.size ≡ b.size
  kept : take b.size (contents b'.buf) ≡ take b.size (contents b.buf)

take_nothing : (n : ℕ) (xs ys : Text) → n ≡ 0 → take n xs ≡ take n ys
take_nothing n xs ys e = rw e refl

module _ (k : Kernel) where
  reserve_with_lem :
      (b : IoBuffer) (o : Option Text) (need : ℕ)
      → b.buf ≡ o
      → IsBuffer b
      → b.size ≤ need
      → IsReserved b (reserve_with k b o need) need
  unfolding reserve_with
  reserve_with_lem b none need e v h =
      let whole : length (contents b.buf) ≡ 0 = rw e refl in
      record {
        block = length-fmalloc k _;
        room = omega arith;
        same_cur = refl;
        same_size = refl;
        kept = take_nothing b.size _ _ (omega (arith, v.block, v.size_max));
      }
  reserve_with_lem b (some block) need e v h =
      let whole : contents b.buf ≡ block = rw e refl in
      let max_size : length block ≡ b.max = rw whole at v.block in
      elim (Bool-cases (ltb b.max need)) [
        | inl small ↦ rw small (record {
          block = length-frealloc k block _ (ground arith);
          room = omega arith;
          same_cur = refl;
          same_size = refl;
          kept =
              rw whole (take-frealloc k block b.size _ (omega (arith, v.size_max)) (ground arith));
        })
        | inr big ↦ rw big (record {
          block = v.block;
          room = ground arith;
          same_cur = refl;
          same_size = refl;
          kept = refl;
        })
      ]

  pub append-IsBuffer :
      (b : IoBuffer) (rest : Text)
      → IsBuffer b
      → IsBuffer (append k b rest)
        × (queued (append k b rest) ≡ queued b ++ rest)
        × ((append k b rest).size ≡ b.size + length rest)
        × ((append k b rest).cur ≡ b.cur)
  unfolding append reserve
  append-IsBuffer b rest v =
      let r = reserve_with_lem b b.buf (b.size + length rest) refl v (omega arith) in
      let b' = reserve_with k b b.buf (b.size + length rest) in
      let fits : b.size ≤ length (contents b'.buf) = omega (arith, r.block, r.room) in
      (
        record {
          block =
              length-memcpy (contents b'.buf) b.size rest (omega (arith, r.block, r.room))
              ∙ r.block;
          cur_size = omega (arith, r.same_cur, v.cur_size);
          size_max = r.room;
        },
        rw (take-memcpy (contents b'.buf) b.size rest fits, r.kept, r.same_cur)
            (drop-append_le b.cur (take b.size (contents b.buf)) rest (
              omega (arith, length-take b.size (contents b.buf), v.cur_size, v.block, v.size_max))),
        refl,
        r.same_cur,
      )
