-- ===== src/Http/Parse/RoundTrip.antt =====
-- src/http.c, http_request_parse_line: a request line gives back the path and the parameters that a
-- client put in it.
use camlite.Base.{
  ℕ, zero, suc, ◌≤◌, ◌≡◌, refl, ap, ◌∙◌, Bool, true, false, not, List, [], ◌∷◌, ◌++◌, Text, codes,
  arith, length,
}
use camlite.Libc.{
  Directive, sscanf, span, span_rest, skip_space, is_space, elem, convert, lits, word, space, lit,
  not_of,
}
use camlite.Http.{Request, http_method_get}
use camlite.Http.Parse.{parse_line, request_format, parse_from, store_target, host_format}
use camlite.Pevent.{ok}

-- Every byte passes a test.
abbrev pub AllPass : (ℕ → Bool) → Text → Type 0
AllPass p [] = Unit
AllPass p (c ∷ s) = (p c ≡ true) × AllPass p s

span_whole :
    (n : ℕ) (p : ℕ → Bool) (s : Text) (c : ℕ) (t : Text)
    → AllPass p s
    → length s ≤ n
    → p c ≡ false
    → (span n p (s ++ (c ∷ t)) ≡ s) × (span_rest n p (s ++ (c ∷ t)) ≡ c ∷ t)
span_whole zero p [] c t a h e = (refl, refl)
span_whole zero p (x ∷ s) c t a h e = absurd (omega arith)
span_whole (suc n) p [] c t a h e = ground arith
span_whole (suc n) p (x ∷ s) c t a h e = ground (arith, span_whole n p s c t a.1 (omega arith) e)

-- The bytes of a path: no white space, none of "?^ ".
abbrev pub in_path : ℕ → Bool
in_path c = not (elem c (codes "?^ "))

abbrev pub in_word : ℕ → Bool
in_word c = not (is_space c)

sscanf_space :
    (f : List Directive) (c : ℕ) (s : Text)
    → in_word c ≡ true
    → sscanf (space ∷ f) (32 ∷ c ∷ s) ≡ sscanf f (c ∷ s)
unfolding sscanf
sscanf_space f c s e = ap (sscanf f) (ground arith)

-- A conversion takes a text that passes its test, up to the byte behind it.
sscanf_path :
    (n : ℕ) (f : List Directive) (x : ℕ) (s : Text) (c : ℕ) (t : Text)
    → AllPass in_path (x ∷ s)
    → length (x ∷ s) ≤ n
    → in_path c ≡ false
    → sscanf (not_of n (codes "?^ ") ∷ f) ((x ∷ s) ++ (c ∷ t)) ≡ (x ∷ s) ∷ sscanf f (c ∷ t)
unfolding sscanf
sscanf_path n f x s c t a h e =
    let w = span_whole n in_path (x ∷ s) c t a h e in
    ap (λ (got : Text). convert got (sscanf f (span_rest n in_path ((x ∷ s) ++ (c ∷ t))))) w.0
    ∙ ap (λ (left : Text). (x ∷ s) ∷ sscanf f left) w.1

sscanf_word :
    (n : ℕ) (f : List Directive) (x : ℕ) (s : Text) (c : ℕ) (t : Text)
    → AllPass in_word (x ∷ s)
    → length (x ∷ s) ≤ n
    → in_word c ≡ false
    → sscanf (word n ∷ f) ((x ∷ s) ++ (c ∷ t)) ≡ (x ∷ s) ∷ sscanf f (c ∷ t)
unfolding sscanf
sscanf_word n f x s c t a h e =
    let w = span_whole n in_word (x ∷ s) c t a h e in
    let start : skip_space ((x ∷ s) ++ (c ∷ t)) ≡ (x ∷ s) ++ (c ∷ t) = ground arith in
    ap (λ (u : Text). convert (span n in_word u) (sscanf f (span_rest n in_word u))) start
    ∙ ap (λ (got : Text). convert got (sscanf f (span_rest n in_word ((x ∷ s) ++ (c ∷ t))))) w.0
    ∙ ap (λ (left : Text). (x ∷ s) ∷ sscanf f left) w.1

-- A path as a client sends it: not empty, up to 255 bytes, no white space at its head, and none of
-- "?^ ".
pub record IsPath (path : Text) : Type 0 where
  pub head : ℕ
  pub tail : Text
  pub whole : path ≡ head ∷ tail
  pub starts : in_word head ≡ true
  pub clean : AllPass in_path path
  pub fits : length path ≤ 255

-- Parameters: not empty, up to 255 bytes, no white space.
pub record IsParam (param : Text) : Type 0 where
  pub head : ℕ
  pub tail : Text
  pub whole : param ≡ head ∷ tail
  pub clean : AllPass in_word param
  pub fits : length param ≤ 255

abbrev after_query : List Directive
after_query = word 255 ∷ lits (codes "HTTP") []

-- The scan of a request line up to the byte behind the path.
scan_path :
    (f : List Directive) (p : Text) (c : ℕ) (t : Text)
    → IsPath p
    → in_path c ≡ false
    → sscanf (space ∷ not_of 255 (codes "?^ ") ∷ f) (32 ∷ (p ++ (c ∷ t))) ≡ p ∷ sscanf f (c ∷ t)
scan_path f p c t v e = rw v.whole (
    sscanf_space (not_of 255 (codes "?^ ") ∷ f) v.head (v.tail ++ (c ∷ t)) v.starts
    ∙ sscanf_path 255 f v.head v.tail c t (rw v.whole at v.clean) (rw v.whole at v.fits) e)

scan_param :
    (f : List Directive) (q : Text) (c : ℕ) (t : Text)
    → IsParam q
    → in_word c ≡ false
    → sscanf (word 255 ∷ f) (q ++ (c ∷ t)) ≡ q ∷ sscanf f (c ∷ t)
scan_param f q c t v e =
    rw v.whole
      (sscanf_word 255 f v.head v.tail c t (rw v.whole at v.clean) (rw v.whole at v.fits) e)

-- What a line stores, by what the GET format finds in it.
parse_line_get :
    (r : Request) (line path : Text) (more : List Text)
    → sscanf (request_format (codes "GET")) line ≡ path ∷ more
    → parse_line r line ≡ (ok, store_target r 1 (path ∷ more))
unfolding parse_line
parse_line_get r line path more e =
    ap
      (λ (got : List Text). (
        ok,
        parse_from r line got (sscanf (request_format (codes "POST")) line)
            (sscanf host_format line),
      ))
      e

-- The request line of a GET gives back its path, and its parameters where there is a query; without
-- one, the request keeps the parameters it had. Nothing else of the request changes.
pub parse_line-request_line :
    (r : Request) (path param : Text)
    → IsPath path
    → IsParam param
    → (parse_line r (codes "GET " ++ (path ++ (b'?' ∷ (param ++ codes " HTTP/1.1"))))
        ≡ (ok, record r { method = http_method_get; path = path; param = param }))
      × (parse_line r (codes "GET " ++ (path ++ codes " HTTP/1.1"))
          ≡ (ok, record r { method = http_method_get; path = path }))
unfolding parse_line sscanf
parse_line-request_line r path param v w = (
  parse_line_get r (codes "GET " ++ (path ++ (b'?' ∷ (param ++ codes " HTTP/1.1")))) path
      (param ∷ [])
      (scan_path (lit b'?' ∷ after_query) path b'?' (param ++ codes " HTTP/1.1") v refl
        ∙ ap (λ (got : List Text). path ∷ got)
            (scan_param (lits (codes "HTTP") []) param 32 (codes "HTTP/1.1") w refl)),
  parse_line_get r (codes "GET " ++ (path ++ codes " HTTP/1.1")) path []
      (scan_path (lit b'?' ∷ after_query) path 32 (codes "HTTP/1.1") v refl),
)

-- A query that is empty, "/path?", takes the protocol for its parameters.
pub parse_line-empty_query :
    (r : Request) (path : Text)
    → IsPath path
    → parse_line r (codes "GET " ++ (path ++ codes "? HTTP/1.1"))
      ≡ (ok, record r { method = http_method_get; path = path; param = codes "HTTP/1.1" })
unfolding parse_line sscanf
parse_line-empty_query r path v =
    parse_line_get r (codes "GET " ++ (path ++ codes "? HTTP/1.1")) path (codes "HTTP/1.1" ∷ [])
      (scan_path (lit b'?' ∷ after_query) path b'?' (codes " HTTP/1.1") v refl)
