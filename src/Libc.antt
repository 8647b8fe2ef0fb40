-- ===== src/Libc.antt =====
-- What the program uses of the C library's text functions, over texts without their final NUL.
-- src/http.c, src/camhttp.c: sscanf, snprintf, strncpy, strstr and C strings.
pub mod Bounds
pub mod Equality
pub mod Numbers
use camlite.Base.{
  ℕ, zero, suc, ◌+◌, ◌-◌, ◌*◌, ◌/◌, ◌%◌, Bool, true, false, not, ◌&&◌, ◌||◌, List, [], ◌∷◌, ◌++◌,
  ltb, leb, ◌==◌, if◌then◌else◌, take, Text, Option, none, some,
}

-- The C string that starts at an address: the bytes before the first NUL.
abbrev pub c_str : Text → Text
c_str [] = []
c_str (c ∷ s) = let rest = c_str s in if c == 0 then [] else c ∷ rest

-- isspace in the C locale
unfoldable pub is_space : ℕ → Bool
is_space c = c == 32 || (leb 9 c && leb c 13)

unfoldable pub skip_space : Text → Text
unfolding is_space
skip_space [] = []
skip_space (c ∷ s) = let rest = skip_space s in if is_space c then rest else c ∷ s

-- At most `n` bytes, as long as they pass the test; and the bytes after them.
abbrev pub span : ℕ → (ℕ → Bool) → Text → Text
span zero p s = []
span (suc n) p [] = []
span (suc n) p (c ∷ s) = let rest = span n p s in if p c then c ∷ rest else []

abbrev pub span_rest : ℕ → (ℕ → Bool) → Text → Text
span_rest zero p s = s
span_rest (suc n) p [] = []
span_rest (suc n) p (c ∷ s) = let rest = span_rest n p s in if p c then rest else c ∷ s

abbrev pub elem : ℕ → Text → Bool
elem c [] = false
elem c (x ∷ xs) = c == x || elem c xs

-- The directives of a scanf format: a byte, white space, `%n[^set]`, `%ns`.
pub data Directive : Type 0 where
  lit : ℕ → Directive
  space : Directive
  not_of : ℕ → Text → Directive
  word : ℕ → Directive

abbrev pub lits : Text → List Directive → List Directive
lits [] f = f
lits (c ∷ s) f = lit c ∷ lits s f

-- A conversion of nothing fails, and ends the scan.
unfoldable pub convert : Text → List Text → List Text
convert [] rest = []
convert (c ∷ cs) rest = (c ∷ cs) ∷ rest

-- The conversions that sscanf stores, in order. Its result is their number, or -1 where the input
-- ends before the first: the program tests only whether it is above 0.
unfoldable pub sscanf : List Directive → Text → List Text
unfolding convert skip_space is_space
sscanf [] s = []
sscanf (lit c ∷ f) [] = []
sscanf (lit c ∷ f) (x ∷ s) = let rest = sscanf f s in if x == c then rest else []
sscanf (space ∷ f) s = sscanf f (skip_space s)
sscanf (not_of n set ∷ f) s =
    convert (span n (λ c. not (elem c set)) s) (sscanf f (span_rest n (λ c. not (elem c set)) s))
sscanf (word n ∷ f) s =
    convert (span n (λ c. not (is_space c)) (skip_space s))
      (sscanf f (span_rest n (λ c. not (is_space c)) (skip_space s)))

-- strcmp(s, t) == 0
abbrev pub text_eq : Text → Text → Bool
text_eq [] [] = true
text_eq [] (c ∷ t) = false
text_eq (x ∷ s) [] = false
text_eq (x ∷ s) (c ∷ t) = x == c && text_eq s t

-- strstr(s, t) == s
abbrev pub starts_with : Text → Text → Bool
starts_with s [] = true
starts_with [] (c ∷ t) = false
starts_with (x ∷ s) (c ∷ t) = x == c && starts_with s t

-- strstr(s, t) != NULL
abbrev pub contains : Text → Text → Bool
contains [] t = starts_with [] t
contains (x ∷ s) t = starts_with (x ∷ s) t || contains s t

-- snprintf and vsnprintf into `size` bytes keep the last one for the NUL.
abbrev pub snprintf : ℕ → Text → Text
snprintf size s = take (size - 1) s

-- strncpy(dst, s, n) into a zeroed array with room after n bytes
abbrev pub strncpy : Text → ℕ → Text
strncpy s n = take n s

-- The digits of %d at a number that is not negative.
digits : ℕ → ℕ → Text → Text
digits zero n acc = acc
digits (suc f) n acc =
    let more = digits f (n / 10) ((48 + n % 10) ∷ acc) in if ltb n 10 then (48 + n) ∷ acc else more

unfoldable pub decimal : ℕ → Text
unfolding digits
decimal n = digits (suc n) n []
