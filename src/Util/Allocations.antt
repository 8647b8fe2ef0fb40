-- ===== src/Util/Allocations.antt =====
-- src/util.c: the list of allocations that MEMORY_ALLOC_REPORT keeps, meminfo_add and meminfo_del.
use camlite.Base.{
  ℕ, ◌≡◌, refl, Bool, false, Option, none, some, List, [], ◌∷◌, Text, arith, ◌==◌, length,
  if◌then◌else◌,
}

-- `memory_alloc_info_t`; its links are the order of the list. An address of 0 is NULL.
pub record AllocInfo : Type 0 where
  pub ptr : ℕ
  pub size : ℕ
  pub file : Text
  pub function : Text
  pub line : ℕ

-- meminfo_add: at the head of g_meminfo_list
unfoldable pub meminfo_add : ℕ → ℕ → Text → Text → ℕ → List AllocInfo → List AllocInfo
meminfo_add ptr size file function line list =
    record { ptr = ptr; size = size; file = file; function = function; line = line } ∷ list

-- An entry behind the head that is found: `meminfo->next->prev` needs a next one. An outer `none` is the store
-- through NULL.
unfoldable pub unlink : List AllocInfo → Option (List AllocInfo)
unlink [] = none
unlink (next ∷ rest) = some (next ∷ rest)

unfoldable pub behind : AllocInfo → Option (List AllocInfo) → Option (List AllocInfo)
behind a none = none
behind a (some rest) = some (a ∷ rest)

-- The loop of meminfo_del behind the head
unfoldable pub del_behind : ℕ → List AllocInfo → Option (List AllocInfo)
unfolding unlink behind
del_behind ptr [] = some []
del_behind ptr (a ∷ rest) =
    let more = behind a (del_behind ptr rest) in if a.ptr == ptr then unlink rest else more

unfoldable pub meminfo_del : ℕ → List AllocInfo → Option (List AllocInfo)
unfolding del_behind behind
meminfo_del ptr [] = some []
meminfo_del ptr (a ∷ rest) =
    let more = behind a (del_behind ptr rest) in if a.ptr == ptr then some rest else more

-- The list without the first entry of an address
abbrev pub without : ℕ → List AllocInfo → List AllocInfo
without ptr [] = []
without ptr (a ∷ rest) = let more = without ptr rest in if a.ptr == ptr then rest else a ∷ more

-- The first entry of an address is the last of the list.
abbrev pub is_at_end : ℕ → List AllocInfo → Bool
is_at_end ptr [] = false
is_at_end ptr (a ∷ rest) =
    let more = is_at_end ptr rest in if a.ptr == ptr then length rest == 0 else more

-- It is the last of a list of two or more.
abbrev pub is_last : ℕ → List AllocInfo → Bool
is_last ptr [] = false
is_last ptr (a ∷ rest) = let more = is_at_end ptr rest in if a.ptr == ptr then false else more

del_behind-at_end :
    (ptr : ℕ) (list : List AllocInfo)
    → del_behind ptr list ≡ (if is_at_end ptr list then none else some (without ptr list))
unfolding del_behind unlink behind
del_behind-at_end ptr [] = refl
del_behind-at_end ptr (a ∷ []) = ground arith
del_behind-at_end ptr (a ∷ b ∷ rest) = ground (arith, del_behind-at_end ptr (b ∷ rest))

-- meminfo_del takes the first entry of an address out of the list and leaves the others in order, whether it is there
-- or not, but for one case: an entry that is the last of two or more is looked up a next one of, which is NULL.
pub meminfo_del-without :
    (ptr : ℕ) (list : List AllocInfo)
    → meminfo_del ptr list ≡ (if is_last ptr list then none else some (without ptr list))
unfolding meminfo_del behind
meminfo_del-without ptr [] = refl
meminfo_del-without ptr (a ∷ rest) = ground (arith, del_behind-at_end ptr rest)
