-- ===== src/Http/Read/Lines.antt =====
-- src/http.c, on_read: the loop over the buffer cuts it into lines, however the bytes arrived.
use camlite.Base.{
  ℕ, zero, suc, ◌+◌, ◌-◌, ◌≡◌, refl, sym, ap, ◌∙◌, Bool, true, false, ◌&&◌, [], ◌∷◌, ◌++◌, Text,
  arith, ◌==◌, if◌then◌else◌, length, get_or, set, drop, drop_prefix, append_assoc, append-nil,
  length-append,
}
use camlite.Libc.{c_str}
use camlite.Http.{Request}
use camlite.Http.Parse.{parse_line}
use camlite.Http.Read.{Scan, complete, refused, partial, scan, scan_from, after_line}

-- The bytes of a line that is not complete, the last first, and the line they make.
abbrev pub turn : Text → Text
turn [] = []
turn (z ∷ back) = turn back ++ (z ∷ [])

-- What there is to know after some bytes: the empty line was met, or a line has begun.
pub data Progress : Type 0 where
  done : Request → Progress
  began : Request → Text → Progress

-- The reading of a request one byte at a time, with no buffer and no index: CR LF ends a line, and
-- an empty line ends the header.
unfoldable pub feed : Request → Text → Text → Progress
feed r back [] = began r back
feed r [] (c ∷ rest) = feed r (c ∷ []) rest
feed r (z ∷ back) (c ∷ rest) =
    let line = feed (parse_line r (c_str (turn back))).1 [] rest in
    let next = feed r (c ∷ z ∷ back) rest in
    if c == 10 && z == 13 then if length back == 0 then done r else line else next

-- What the loop leaves: the bytes of the line that has begun, for the next round of reading.
pub data Left : Type 0 where
  whole : Request → Left
  remains : Request → Text → Left
  broken : Request → Left

abbrev pub left_by_scan : Scan → Left
left_by_scan (complete r) = whole r
left_by_scan (refused r) = broken r
left_by_scan (partial r wrap_pos buf) = remains r (drop wrap_pos buf)

abbrev pub left_by_feed : Progress → Left
left_by_feed (done r) = whole r
left_by_feed (began r back) = remains r (turn back)

get_or_behind :
    (xs : Text) (c : ℕ) (ys : Text) (i : ℕ) → i ≡ length xs → get_or (xs ++ (c ∷ ys)) i 0 ≡ c
get_or_behind [] c ys zero e = refl
get_or_behind [] c ys (suc i) e = absurd (omega arith)
get_or_behind (x ∷ xs) c ys zero e = absurd (omega arith)
get_or_behind (x ∷ xs) c ys (suc i) e = get_or_behind xs c ys i (omega arith)

set_behind :
    (xs : Text) (c v : ℕ) (ys : Text) (i : ℕ)
    → i ≡ length xs
    → set (xs ++ (c ∷ ys)) i v ≡ xs ++ (v ∷ ys)
set_behind [] c v ys zero e = refl
set_behind [] c v ys (suc i) e = absurd (omega arith)
set_behind (x ∷ xs) c v ys zero e = absurd (omega arith)
set_behind (x ∷ xs) c v ys (suc i) e =
    ap (λ (s : Text). x ∷ s) (set_behind xs c v ys i (omega arith))

-- A C string ends at the NUL that is put behind it, or before.
c_str_cut : (xs ys : Text) → c_str (xs ++ (0 ∷ ys)) ≡ c_str xs
c_str_cut [] ys = refl
c_str_cut (x ∷ xs) ys = ap (λ (s : Text). if x == 0 then [] else x ∷ s) (c_str_cut xs ys)

length-turn : (back : Text) → length (turn back) ≡ length back
length-turn [] = refl
length-turn (z ∷ back) = omega (arith, length-append (turn back) (z ∷ []), length-turn back)

parse_line_ok :
    (go : Request → Scan) (r : Request) (s : Text)
    → after_line go (parse_line r s) ≡ go (parse_line r s).1
unfolding after_line parse_line
parse_line_ok go r s = refl

both :
    (b : Bool) (x y : Scan) (x' y' : Progress)
    → (b ≡ true → left_by_scan x ≡ left_by_feed x')
    → (b ≡ false → left_by_scan y ≡ left_by_feed y')
    → left_by_scan (if b then x else y) ≡ left_by_feed (if b then x' else y')
both true x y x' y' f g = f refl
both false x y x' y' f g = g refl

and_false : (b : Bool) → (b && false) ≡ false
and_false true = refl
and_false false = refl

-- The buffer, cut at the byte before the one that is looked at.
around :
    (buf pre back rest : Text) (z c : ℕ)
    → buf ≡ pre ++ (turn (z ∷ back) ++ (c ∷ rest))
    → buf ≡ (pre ++ turn back) ++ (z ∷ c ∷ rest)
around buf pre back rest z c e =
    e
    ∙ ap (λ (s : Text). pre ++ s) (append_assoc (turn back) (z ∷ []) (c ∷ rest))
    ∙ sym (append_assoc pre (turn back) (z ∷ c ∷ rest))

behind :
    (buf pre back rest : Text) (z c : ℕ)
    → buf ≡ pre ++ (turn (z ∷ back) ++ (c ∷ rest))
    → buf ≡ (pre ++ turn (z ∷ back)) ++ (c ∷ rest)
behind buf pre back rest z c e = e ∙ sym (append_assoc pre (turn (z ∷ back)) (c ∷ rest))

-- The line that is handed to the parser, with its NUL.
line_text :
    (pre back rest : Text) (c wrap : ℕ)
    → wrap ≡ length pre
    → c_str (drop wrap ((pre ++ turn back) ++ (0 ∷ c ∷ rest))) ≡ c_str (turn back)
line_text pre back rest c wrap e =
    ap (λ (s : Text). c_str (drop wrap s)) (append_assoc pre (turn back) (0 ∷ c ∷ rest))
    ∙ ap (λ (n : ℕ). c_str (drop n (pre ++ (turn back ++ (0 ∷ c ∷ rest))))) e
    ∙ ap c_str (drop_prefix pre (turn back ++ (0 ∷ c ∷ rest)))
    ∙ c_str_cut (turn back) (c ∷ rest)

scan_from-feed :
    (rest back pre buf : Text) (i wrap : ℕ) (r : Request)
    → buf ≡ pre ++ (turn back ++ rest)
    → wrap ≡ length pre
    → i ≡ wrap + length back
    → (back ≡ [] → (get_or buf (i - 1) 0 == 13) ≡ false)
    → left_by_scan (scan_from (length rest) i wrap buf r) ≡ left_by_feed (feed r back rest)
unfolding scan_from feed
scan_from-feed [] back pre buf i wrap r e w p h =
    ap (remains r) (rw (w, e, append-nil (turn back)) (drop_prefix pre (turn back)))
scan_from-feed (c ∷ rest) [] pre buf i wrap r e w p h =
    rw (h refl, and_false (get_or buf i 0 == 10))
      (scan_from-feed rest (c ∷ []) pre buf (i + 1) wrap r e w (omega arith) (λ f. cc))
scan_from-feed (c ∷ rest) (z ∷ back) pre buf i wrap r e w p h =
    rw (get_c, get_z, at_start)
      (both (c == 10 && z == 13) _ _ _ _
        (λ ends.
          both (length back == 0) _ _ _ _ (λ _. refl)
            (λ _.
              ap left_by_scan (
                parse_line_ok (scan_from (length rest) (i + 1) (i + 1) (set buf (i - 1) 0)) r
                  (c_str (drop wrap (set buf (i - 1) 0))))
              ∙ scan_from-feed rest [] (pre ++ turn back ++ (0 ∷ c ∷ [])) (set buf (i - 1) 0)
                  (i + 1) (i + 1) (parse_line r (c_str (drop wrap (set buf (i - 1) 0)))).1
                  (cut ∙ sym (append_assoc (pre ++ turn back) (0 ∷ c ∷ []) rest))
                  (omega (arith, length-append (pre ++ turn back) (0 ∷ c ∷ []), at_back))
                  (omega arith) (λ _. no_cr ends)
              ∙ ap (λ (t : Text). left_by_feed (feed (parse_line r t).1 [] rest)) same_line))
        (λ goes.
          scan_from-feed rest (c ∷ z ∷ back) pre buf (i + 1) wrap r
            (e ∙ ap (λ (s : Text). pre ++ s) (sym (append_assoc (turn (z ∷ back)) (c ∷ []) rest))) w
            (omega arith) (λ f. cc)))
  where
    get_c : get_or buf i 0 ≡ c
    get_c = rw (behind buf pre back rest z c e) (
        get_or_behind (pre ++ turn (z ∷ back)) c rest i
          (omega (arith, length-append pre (turn (z ∷ back)), length-turn (z ∷ back))))

    get_z : get_or buf (i - 1) 0 ≡ z
    get_z = rw (around buf pre back rest z c e) (
        get_or_behind (pre ++ turn back) z (c ∷ rest) (i - 1)
          (omega (arith, length-append pre (turn back), length-turn back)))

    at_start : (wrap == i - 1) ≡ (length back == 0)
    at_start = ground arith

    at_back : i - 1 ≡ length (pre ++ turn back)
    at_back = omega (arith, length-append pre (turn back), length-turn back)

    cut : set buf (i - 1) 0 ≡ (pre ++ turn back) ++ (0 ∷ c ∷ rest)
    cut =
        ap (λ (s : Text). set s (i - 1) 0) (around buf pre back rest z c e)
        ∙ set_behind (pre ++ turn back) z 0 (c ∷ rest) (i - 1) at_back

    same_line : c_str (drop wrap (set buf (i - 1) 0)) ≡ c_str (turn back)
    same_line = ap (λ (s : Text). c_str (drop wrap s)) cut ∙ line_text pre back rest c wrap w

    no_cr : (c == 10 && z == 13) ≡ true → (get_or (set buf (i - 1) 0) (i + 1 - 1) 0 == 13) ≡ false
    no_cr ends =
        let there : get_or (set buf (i - 1) 0) (i + 1 - 1) 0 ≡ c =
          ap (λ (s : Text). get_or s (i + 1 - 1) 0)
            (cut ∙ sym (append_assoc (pre ++ turn back) (0 ∷ []) (c ∷ rest)))
          ∙ get_or_behind ((pre ++ turn back) ++ (0 ∷ [])) c rest (i + 1 - 1)
              (omega (arith, length-append (pre ++ turn back) (0 ∷ []), at_back)) in
        rw there (ground arith)

-- The loop over the buffer, with its index and its start of the line, does what reading byte by byte
-- does: it ends at the same empty line, hands the same lines to the parser in the same order, and
-- keeps the same bytes of the line that has begun.
pub scan-feed :
    (buf : Text) (r : Request) → left_by_scan (scan buf r) ≡ left_by_feed (feed r [] buf)
unfolding scan feed scan_from
scan-feed [] r = refl
scan-feed (x ∷ s) r =
    let rounds : suc (length s) - 1 ≡ length s = omega arith in
    ap (λ (n : ℕ). left_by_scan (scan_from n 1 0 (x ∷ s) r)) rounds
    ∙ scan_from-feed s (x ∷ []) [] (x ∷ s) 1 0 r refl refl (omega arith) (λ f. cc)
