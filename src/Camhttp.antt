-- ===== src/Camhttp.antt =====
-- src/camhttp.c: hex2string, which writes a digest in hexadecimal digits.
pub mod Parameters
pub mod Digests
pub mod Pages
pub mod Frames
pub mod Service
use camlite.Base.{
  ℕ, zero, suc, ◌+◌, ◌-◌, ◌*◌, ◌/◌, ◌%◌, ◌≤◌, ◌<◌, ◌≡◌, refl, ap, ◌∙◌, [], ◌∷◌, arith, Text, codes,
  length, get_or, ltb, leb, if◌then◌else◌, if_split, min,
}

-- HEX_DICT
abbrev pub hex_dict : Text
hex_dict = codes "0123456789abcdef"

abbrev pub hex_digit : ℕ → ℕ
hex_digit c = get_or hex_dict c 0

-- The loop from index i of the buffer on: what it writes, before the NUL. The rounds are the bytes that are left.
unfoldable pub hex_from : Text → ℕ → ℕ → Text
hex_from [] i buf_len = []
hex_from (b ∷ hex) i buf_len =
    let rest = hex_from hex (i + 2) buf_len in
    if ltb i (buf_len - 1) then hex_digit (b / 16) ∷ hex_digit (b % 16) ∷ rest else []

-- hex2string: the text in the buffer. The NUL is written behind it.
unfoldable pub hex2string : Text → ℕ → Text
unfolding hex_from
hex2string hex buf_len = hex_from hex 0 buf_len

-- The value of a digit, and the bytes that a text of digits stands for.
abbrev pub digit : ℕ → ℕ
digit c = if leb 97 c then c - 87 else c - 48

abbrev pub unhex : Text → Text
unhex [] = []
unhex (a ∷ []) = []
unhex (a ∷ b ∷ t) = (digit a * 16 + digit b) ∷ unhex t

abbrev pub AllBytes : Text → Type 0
AllBytes [] = Unit
AllBytes (b ∷ t) = (b < 256) × AllBytes t

digit-hex_digit : (c : ℕ) → c < 16 → digit (hex_digit c) ≡ c
digit-hex_digit zero h = refl
digit-hex_digit (suc zero) h = refl
digit-hex_digit (suc (suc zero)) h = refl
digit-hex_digit (suc (suc (suc zero))) h = refl
digit-hex_digit (suc (suc (suc (suc zero)))) h = refl
digit-hex_digit (suc (suc (suc (suc (suc zero))))) h = refl
digit-hex_digit (suc (suc (suc (suc (suc (suc zero)))))) h = refl
digit-hex_digit (suc (suc (suc (suc (suc (suc (suc zero))))))) h = refl
digit-hex_digit (suc (suc (suc (suc (suc (suc (suc (suc zero)))))))) h = refl
digit-hex_digit (suc (suc (suc (suc (suc (suc (suc (suc (suc zero))))))))) h = refl
digit-hex_digit (suc (suc (suc (suc (suc (suc (suc (suc (suc (suc zero)))))))))) h = refl
digit-hex_digit (suc (suc (suc (suc (suc (suc (suc (suc (suc (suc (suc zero))))))))))) h = refl
digit-hex_digit (suc (suc (suc (suc (suc (suc (suc (suc (suc (suc (suc (suc zero)))))))))))) h =
    refl
digit-hex_digit (suc (suc (suc (suc (suc (suc (suc (suc (suc (suc (suc (suc (suc zero)))))))))))))
      h =
    refl
digit-hex_digit
      (suc (suc (suc (suc (suc (suc (suc (suc (suc (suc (suc (suc (suc (suc zero)))))))))))))) h =
    refl
digit-hex_digit
      (suc (suc (suc (suc (suc (suc (suc (suc (suc (suc (suc (suc (suc (suc (suc zero)))))))))))))))
      h =
    refl
digit-hex_digit
      (suc
        (suc (suc (suc (suc (suc (suc (suc (suc (suc (suc (suc (suc (suc (suc (suc n))))))))))))))))
      h =
    absurd (omega arith)

byte_back : (b : ℕ) → b < 256 → digit (hex_digit (b / 16)) * 16 + digit (hex_digit (b % 16)) ≡ b
byte_back b h =
    let high = digit-hex_digit (b / 16) (omega arith) in
    let low = digit-hex_digit (b % 16) (omega arith) in omega (arith, high, low)

unhex-hex_from :
    (hex : Text) (i buf_len : ℕ)
    → AllBytes hex
    → i + 2 * length hex < buf_len
    → unhex (hex_from hex i buf_len) ≡ hex
unfolding hex_from
unhex-hex_from [] i buf_len a h = refl
unhex-hex_from (b ∷ hex) i buf_len a h =
    if_split (λ (t : Text). unhex t ≡ b ∷ hex) (ltb i (buf_len - 1)) _ _
      (λ _.
        ap (λ x. x ∷ unhex (hex_from hex (i + 2) buf_len)) (byte_back b a.0)
        ∙ ap (◌∷◌ b) (unhex-hex_from hex (i + 2) buf_len a.1 (omega arith)))
      (λ e. absurd (ground arith))

-- The text that hex2string writes of bytes, in a buffer with room for all their digits and the NUL, reads
-- back to the same bytes.
pub unhex-hex2string :
    (hex : Text) (buf_len : ℕ)
    → AllBytes hex
    → 2 * length hex < buf_len
    → unhex (hex2string hex buf_len) ≡ hex
unfolding hex2string
unhex-hex2string hex buf_len a h = unhex-hex_from hex 0 buf_len a (omega arith)

length-hex_from :
    (hex : Text) (i buf_len : ℕ)
    → i % 2 ≡ 0
    → length (hex_from hex i buf_len) ≡ min (2 * length hex) (2 * (buf_len / 2) - i)
unfolding hex_from
length-hex_from [] i buf_len e = omega arith
length-hex_from (b ∷ hex) i buf_len e =
    if_split (λ (t : Text). length t ≡ min (2 * suc (length hex)) (2 * (buf_len / 2) - i))
      (ltb i (buf_len - 1)) _ _
      (λ l. let rest = length-hex_from hex (i + 2) buf_len (omega arith) in ground (arith, rest))
      (λ l. ground arith)

-- hex2string writes two digits for each byte, as long as the buffer's whole pairs last. So in a buffer of even
-- size that the digits fill, the NUL behind them is out of the buffer; in one of odd size it never is.
pub length-hex2string :
    (hex : Text) (buf_len : ℕ)
    → (length (hex2string hex buf_len) ≡ min (2 * length hex) (2 * (buf_len / 2)))
      × (buf_len % 2 ≡ 1 → length (hex2string hex buf_len) < buf_len)
      × (buf_len % 2 ≡ 0 → buf_len ≤ 2 * length hex → length (hex2string hex buf_len) ≡ buf_len)
unfolding hex2string
length-hex2string hex buf_len =
    let n = length-hex_from hex 0 buf_len (omega arith) in
    (omega (arith, n), (λ odd. omega (arith, n)), λ even full. omega (arith, n))
