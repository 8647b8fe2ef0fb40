-- ===== src/Http/Read/Chunks.antt =====
-- src/http.c, on_read: a request is read the same in however many pieces it arrives.
use camlite.Base.{
  ◌≡◌, refl, sym, ap, ◌∙◌, Bool, true, false, ◌&&◌, [], ◌∷◌, ◌++◌, Text, ◌==◌, if_split, length,
  if◌then◌else◌,
}
use camlite.Libc.{c_str}
use camlite.Http.{Request}
use camlite.Http.Parse.{parse_line}
use camlite.Http.Read.{scan}
use camlite.Http.Read.Lines.{
  Progress, done, began, feed, turn, whole, remains, left_by_scan, left_by_feed, scan-feed,
}

-- Going on with more bytes.
abbrev resume : Progress → Text → Progress
resume (done r) more = done r
resume (began r back) more = feed r back more

resume_if :
    (b : Bool) (x y : Progress) (x' y' : Progress) (more : Text)
    → resume x more ≡ x'
    → resume y more ≡ y'
    → resume (if b then x else y) more ≡ (if b then x' else y')
resume_if true x y x' y' more f g = f
resume_if false x y x' y' more f g = g

feed-append :
    (a : Text) (b : Text) (r : Request) (back : Text)
    → resume (feed r back a) b ≡ feed r back (a ++ b)
unfolding feed
feed-append [] b r back = refl
feed-append (c ∷ a) b r [] = feed-append a b r (c ∷ [])
feed-append (c ∷ a) b r (z ∷ back) =
    resume_if (c == 10 && z == 13) _ _ _ _ b
      (resume_if (length back == 0) _ _ _ _ b refl (feed-append a b _ []))
      (feed-append a b r (c ∷ z ∷ back))

-- A line that has begun has no CR LF in it.
NoEnd : Text → Type 0
NoEnd [] = Unit
NoEnd (c ∷ []) = Unit
NoEnd (c ∷ z ∷ back) = ((c == 10 && z == 13) ≡ false) × NoEnd (z ∷ back)

IsOpen : Progress → Type 0
unfolding NoEnd
IsOpen (done r) = Unit
IsOpen (began r back) = NoEnd back

feed-IsOpen : (a : Text) (r : Request) (back : Text) → NoEnd back → IsOpen (feed r back a)
unfolding feed IsOpen
feed-IsOpen [] r back h = h
feed-IsOpen (c ∷ a) r [] h = feed-IsOpen a r (c ∷ []) tt
feed-IsOpen (c ∷ a) r (z ∷ back) h =
    if_split IsOpen (c == 10 && z == 13) _ _
      (λ _. if_split IsOpen (length back == 0) _ _ (λ _. tt) (λ _. feed-IsOpen a _ [] tt))
      (λ goes. feed-IsOpen a r (c ∷ z ∷ back) (goes, h))

-- Reading the line that has begun again comes to the same point.
feed-turn : (back : Text) (r : Request) → NoEnd back → feed r [] (turn back) ≡ began r back
unfolding feed NoEnd
feed-turn [] r h = refl
feed-turn (z ∷ []) r h = refl
feed-turn (c ∷ z ∷ back) r h =
    sym (feed-append (turn (z ∷ back)) (c ∷ []) r [])
    ∙ ap (λ (p : Progress). resume p (c ∷ [])) (feed-turn (z ∷ back) r h.1)
    ∙ ap
        (λ (b : Bool).
          if b
          then (if length back == 0
              then done r
              else feed (parse_line r (c_str (turn back))).1 [] [])
          else began r (c ∷ z ∷ back))
        h.0

again :
    (p : Progress) (r : Request) (rest b : Text)
    → IsOpen p
    → left_by_feed p ≡ remains r rest
    → feed r [] (rest ++ b) ≡ resume p b
unfolding IsOpen
again (done r') r rest b h e = cc
again (began r' back) r rest b h e =
    let same_r : r' ≡ r = cc in
    let same_rest : turn back ≡ rest = cc in
    rw (← same_r, ← same_rest)
      (sym (feed-append (turn back) b r' [])
        ∙ ap (λ (p : Progress). resume p b) (feed-turn back r' h))

stays_whole :
    (p : Progress) (r : Request) (b : Text)
    → left_by_feed p ≡ whole r
    → left_by_feed (resume p b) ≡ whole r
stays_whole (done r') r b e = e
stays_whole (began r' back) r b e = cc

-- Whatever bytes `a` come first: if they leave a line that has begun, then reading its bytes again
-- with the bytes `b` that come next ends as reading `a` and `b` at once does; and if `a` holds the
-- empty line, what follows it changes nothing.
pub scan-append :
    (a b : Text) (r : Request)
    → ((r' : Request) (rest : Text)
        → left_by_scan (scan a r) ≡ remains r' rest
        → left_by_scan (scan (rest ++ b) r') ≡ left_by_scan (scan (a ++ b) r))
      × ((r' : Request)
          → left_by_scan (scan a r) ≡ whole r'
          → left_by_scan (scan (a ++ b) r) ≡ whole r')
unfolding NoEnd
scan-append a b r = (
  λ r' rest e.
      scan-feed (rest ++ b) r'
      ∙ ap left_by_feed (
          again (feed r [] a) r' rest b (feed-IsOpen a r [] tt) (sym (scan-feed a r) ∙ e)
          ∙ feed-append a b r [])
      ∙ sym (scan-feed (a ++ b) r),
  λ r' e.
      scan-feed (a ++ b) r
      ∙ ap left_by_feed (sym (feed-append a b r []))
      ∙ stays_whole (feed r [] a) r' b (sym (scan-feed a r) ∙ e),
)
