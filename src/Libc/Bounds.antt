-- ===== src/Libc/Bounds.antt =====
-- Bounds on what sscanf stores.
use camlite.Base.{ℕ, zero, suc, ◌≤◌, Bool, List, [], ◌∷◌, not, arith, length, Text}
use camlite.Libc.{
  Directive, lit, space, not_of, word, sscanf, span, skip_space, is_space, elem, span_rest,
}

pub length-span : (n : ℕ) (p : ℕ → Bool) (s : Text) → length (span n p s) ≤ n
length-span zero p s = omega arith
length-span (suc n) p [] = omega arith
length-span (suc n) p (c ∷ s) = ground (arith, length-span n p s)

-- Every text of a list is of a length up to `n`.
abbrev pub AllUpTo : ℕ → List Text → Type 0
AllUpTo n [] = Unit
AllUpTo n (t ∷ ts) = (length t ≤ n) × AllUpTo n ts

-- Every width of a format is at most `n`.
abbrev pub WidthsUpTo : ℕ → List Directive → Type 0
WidthsUpTo n [] = Unit
WidthsUpTo n (lit c ∷ f) = WidthsUpTo n f
WidthsUpTo n (space ∷ f) = WidthsUpTo n f
WidthsUpTo n (not_of w s ∷ f) = (w ≤ n) × WidthsUpTo n f
WidthsUpTo n (word w ∷ f) = (w ≤ n) × WidthsUpTo n f

pub sscanf-AllUpTo :
    (n : ℕ) (f : List Directive) (s : Text) → WidthsUpTo n f → AllUpTo n (sscanf f s)
unfolding sscanf
sscanf-AllUpTo n [] s h = tt
sscanf-AllUpTo n (lit c ∷ f) [] h = tt
sscanf-AllUpTo n (lit c ∷ f) (x ∷ s) h = ground (arith, sscanf-AllUpTo n f s h)
sscanf-AllUpTo n (space ∷ f) s h = sscanf-AllUpTo n f (skip_space s) h
sscanf-AllUpTo n (not_of w set ∷ f) s h = ground (
  arith,
  sscanf-AllUpTo n f (span_rest w (λ c. not (elem c set)) s) h.1,
  length-span w (λ c. not (elem c set)) s,
)
sscanf-AllUpTo n (word w ∷ f) s h = ground (
  arith,
  sscanf-AllUpTo n f (span_rest w (λ c. not (is_space c)) (skip_space s)) h.1,
  length-span w (λ c. not (is_space c)) (skip_space s),
)
