-- ===== src/Libc/Numbers.antt =====
-- What the program uses of the C library's conversions of numbers: strtol in base 16, atoi, the numbers of scanf and of
-- printf, and the bytes of an integer in memory, least first.
-- src/camhttp.c, src/util.c, src/camlite.c
use camlite.Base.{
  ℕ, zero, not, Option, none, some, length, suc, ◌+◌, ◌-◌, ◌*◌, ◌/◌, ◌%◌, ◌^◌, Bool, ◌&&◌, ◌||◌, [],
  ◌∷◌, Text, ltb, leb, ◌==◌, if◌then◌else◌, min, ℤ, pos, negsuc,
}
use camlite.Libc.{skip_space, is_space, span_rest, decimal}

unfoldable pub le_bytes : ℕ → ℕ → Text
le_bytes zero x = []
le_bytes (suc n) x = x % 256 ∷ le_bytes n (x / 256)

abbrev is_decimal : ℕ → Bool
is_decimal c = leb 48 c && leb c 57

abbrev is_hex : ℕ → Bool
is_hex c = is_decimal c || (leb 65 c && leb c 70 || leb 97 c && leb c 102)

abbrev hex_value : ℕ → ℕ
hex_value c = if leb 97 c then c - 87 else if leb 65 c then c - 55 else c - 48

unfoldable pub hex_run : ℕ → Text → ℕ
hex_run acc [] = acc
hex_run acc (c ∷ s) =
    let more = hex_run (acc * 16 + hex_value c) s in if is_hex c then more else acc

unfoldable pub decimal_run : ℕ → Text → ℕ
decimal_run acc [] = acc
decimal_run acc (c ∷ s) =
    let more = decimal_run (acc * 10 + (c - 48)) s in if is_decimal c then more else acc

-- "0x" before a digit
abbrev skip_prefix : Text → Text
skip_prefix [] = []
skip_prefix (a ∷ []) = a ∷ []
skip_prefix (a ∷ b ∷ []) = a ∷ b ∷ []
skip_prefix (a ∷ b ∷ c ∷ s) =
    if a == 48 && (b == b'x' || b == b'X') && is_hex c then c ∷ s else a ∷ b ∷ c ∷ s

abbrev pub negate : ℕ → ℤ
negate zero = pos 0
negate (suc n) = negsuc n

-- A sign, and the number behind it, held to a range of 2 ^ bits values.
abbrev signed : ℕ → (Text → ℕ) → Text → ℤ
signed bits run [] = pos (run [])
signed bits run (c ∷ s) =
    if c == b'-'
    then negate (min (run s) (2 ^ (bits - 1)))
    else if c == b'+'
    then pos (min (run s) (2 ^ (bits - 1) - 1))
    else pos (min (run (c ∷ s)) (2 ^ (bits - 1) - 1))

-- strtol(s, NULL, 16), a long of 64 bits
unfoldable pub strtol_hex : Text → ℤ
unfolding skip_space hex_run
strtol_hex s = signed 64 (λ t. hex_run 0 (skip_prefix t)) (skip_space s)

-- A long as an int: its low 32 bits.
abbrev pub wrap_int : ℕ → ℤ
wrap_int n = let m = n % 2 ^ 32 in if ltb m (2 ^ 31) then pos m else negate (2 ^ 32 - m)

unfoldable pub to_int : ℤ → ℤ
to_int (pos n) = wrap_int n
to_int (negsuc n) = wrap_int (2 ^ 32 - (n + 1) % 2 ^ 32)

abbrev decimal_long : Text → ℤ
decimal_long s = signed 64 (decimal_run 0) s

unfoldable pub atoi : Text → ℤ
unfolding skip_space to_int decimal_run
atoi s = to_int (decimal_long (skip_space s))

-- The digits at the front of a text are not none, and what follows them.
abbrev after_digits : Text → Option Text
after_digits [] = none
after_digits (c ∷ s) = if is_decimal c then some (span_rest (length s) is_decimal s) else none

abbrev after_number : Text → Option Text
after_number [] = none
after_number (c ∷ s) = if c == b'-' || c == b'+' then after_digits s else after_digits (c ∷ s)

abbrev with_number : {A : Type 0} → A → Option Text → Option (A × Text)
with_number n none = none
with_number n (some s) = some (n, s)

-- %d of scanf, with what follows the number
unfoldable pub scan_int : Text → Option (ℤ × Text)
unfolding skip_space to_int decimal_run
scan_int s = with_number (to_int (decimal_long (skip_space s))) (after_number (skip_space s))

-- strtoul: a minus sign counts from 2 ^ 64 down, and what is too large is the largest number.
abbrev negated : ℕ → ℕ
negated n = if leb (2 ^ 64) n then 2 ^ 64 - 1 else (2 ^ 64 - n) % 2 ^ 64

abbrev unsigned_long : Text → ℕ
unsigned_long [] = 0
unsigned_long (c ∷ s) =
    if c == b'-'
    then negated (decimal_run 0 s)
    else if c == b'+'
    then min (decimal_run 0 s) (2 ^ 64 - 1)
    else min (decimal_run 0 (c ∷ s)) (2 ^ 64 - 1)

-- %lu of scanf
unfoldable pub scan_ulong : Text → Option (ℕ × Text)
unfolding skip_space decimal_run
scan_ulong s = with_number (unsigned_long (skip_space s)) (after_number (skip_space s))

abbrev after_word : Text → Option Text
after_word [] = none
after_word (c ∷ s) = some (span_rest (length s) (λ x. not (is_space x)) s)

-- %*s of scanf
unfoldable pub skip_word : Text → Option Text
unfolding skip_space is_space
skip_word s = after_word (skip_space s)

-- %d and %u of printf
unfoldable pub decimal_int : ℤ → Text
unfolding decimal
decimal_int (pos n) = decimal n
decimal_int (negsuc n) = 45 ∷ decimal (n + 1)

-- An int where printf is told of an unsigned one
unfoldable pub as_unsigned : ℤ → ℕ
as_unsigned (pos n) = n % 2 ^ 32
as_unsigned (negsuc n) = 2 ^ 32 - 1 - n % 2 ^ 32
