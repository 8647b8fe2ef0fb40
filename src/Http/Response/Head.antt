-- ===== src/Http/Response/Head.antt =====
-- src/http.c, http_response_compile: what the peer reads before the data.
use camlite.Base.{
  ℕ, zero, suc, ◌-◌, ◌≤◌, ◌≡◌, refl, ap, ◌∙◌, Bool, true, false, not, ◌&&◌, List, [], Option, none,
  some, ◌∷◌, ◌++◌, Text, codes, arith, ltb, ◌==◌, if◌then◌else◌, length, take, length-take,
  length-append, append_assoc, append-nil, if_split,
}
use camlite.Libc.Bounds.{AllUpTo}
use camlite.Libc.{decimal}
use camlite.Http.{http_max_string_size, http_max_header}
use camlite.Http.Response.{
  Response, new, addheader, append, compose, crlf, extend, has_header, add_headers,
}
use camlite.Http.Response.Codes.{get_http_code_string}

-- The header lines, each with its end.
abbrev pub lines : List Text → Text
lines [] = []
lines (h ∷ hs) = h ++ (crlf ++ lines hs)

-- The parts of an answer as HTTP lays them out.
abbrev first_line : ℕ → Text
first_line code =
    if ltb 0 code
    then codes "HTTP/1.1 " ++ (decimal code ++ (codes " " ++ (get_http_code_string code ++ crlf)))
    else []

abbrev default_type : List Text → Text
default_type hs =
    if not (has_header (codes "Content-Type") hs)
    then codes "Content-type: text/html" ++ crlf
    else []

abbrev default_connection : List Text → Text
default_connection hs =
    if not (has_header (codes "Connection:") hs) then codes "Connection: close" ++ crlf else []

abbrev content : ℕ → Text → Text
content code body =
    if not (code == 0) && (not (code == 200) && length body == 0)
    then decimal code ++ (codes ":" ++ get_http_code_string code)
    else body

-- The answer with no bound on its length.
unfoldable pub layout : Response → Text
layout r =
    first_line r.code
    ++ lines r.headers
    ++ default_type r.headers
    ++ default_connection r.headers
    ++ crlf
    ++ content r.code r.body

abbrev room : ℕ
room = http_max_string_size - 1

take-take-append : (n : ℕ) (s t : Text) → take n (take n s ++ t) ≡ take n (s ++ t)
take-take-append zero s t = refl
take-take-append (suc n) [] t = refl
take-take-append (suc n) (x ∷ s) t = ap (λ (r : Text). x ∷ r) (take-take-append n s t)

-- A text that grows by snprintf holds the front of all that was put in.
IsFront : Text → Text → Type 0
IsFront s whole = s ≡ take room whole

extend-IsFront : (s whole t : Text) → IsFront s whole → IsFront (extend s t) (whole ++ t)
unfolding IsFront
extend-IsFront s whole t e = rw e (take-take-append room whole t)

add_headers-IsFront :
    (s whole : Text) (hs : List Text)
    → IsFront s whole
    → IsFront (add_headers s hs) (whole ++ lines hs)
unfolding IsFront
add_headers-IsFront s whole [] e = rw (append-nil whole) e
add_headers-IsFront s whole (h ∷ hs) e =
    add_headers-IsFront (extend s (h ++ crlf)) (whole ++ (h ++ crlf)) hs
      (extend-IsFront s whole (h ++ crlf) e)
    ∙ ap (λ (t : Text). take room t)
        (append_assoc whole (h ++ crlf) (lines hs)
          ∙ ap (λ (t : Text). whole ++ t) (append_assoc h crlf (lines hs)))

-- A part that is put in on a test only.
optional-IsFront :
    (b : Bool) (s whole t : Text)
    → IsFront s whole
    → IsFront (if b then extend s t else s) (whole ++ (if b then t else []))
unfolding IsFront
optional-IsFront true s whole t e = extend-IsFront s whole t e
optional-IsFront false s whole t e = rw (append-nil whole) e

either-IsFront :
    (b : Bool) (s whole t u : Text)
    → IsFront s whole
    → IsFront (if b then extend s t else extend s u) (whole ++ (if b then t else u))
either-IsFront true s whole t u e = extend-IsFront s whole t e
either-IsFront false s whole t u e = extend-IsFront s whole u e

first_line-IsFront :
    (b : Bool) (t : Text) → IsFront (if b then take room t else []) (if b then t else [])
unfolding IsFront
first_line-IsFront true t = refl
first_line-IsFront false t = refl

-- What http_response_compile sends before the data is the answer as HTTP lays it out: the status
-- line, the headers given, the default Content-type and Connection where no header has them, the
-- empty line, and the body or, for an error with no body, the code and its phrase. Of an answer
-- above 2047 bytes it is the first 2047.
pub compose-layout : (r : Response) → compose r ≡ take room (layout r)
unfolding compose layout IsFront
compose-layout r = either-IsFront _ _ _ _ _ (
    extend-IsFront _ _ crlf (
      optional-IsFront _ _ _ _ (
        optional-IsFront _ _ _ _
          (add_headers-IsFront _ _ r.headers (first_line-IsFront (ltb 0 r.code) _)))))

-- What the functions that build an answer keep: ten headers of up to 255 bytes, and a body of up to
-- 2047 bytes, as the arrays of `http_response_t` hold them.
pub record IsResponse (r : Response) : Type 0 where
  pub slots : length r.headers ≤ http_max_header
  pub short : AllUpTo 255 r.headers
  pub body_fits : length r.body ≤ 2047

AllUpTo-append : (n : ℕ) (xs ys : List Text) → AllUpTo n xs → AllUpTo n ys → AllUpTo n (xs ++ ys)
AllUpTo-append n [] ys h g = g
AllUpTo-append n (x ∷ xs) ys h g = (h.0, AllUpTo-append n xs ys h.1 g)

pub new-IsResponse : (code : ℕ) (text : Option Text) → IsResponse (new code text)
unfolding new
new-IsResponse code none = record { slots = omega arith; short = tt; body_fits = omega arith }
new-IsResponse code (some text) = record {
  slots = omega arith;
  short = tt;
  body_fits = omega (arith, length-take 2047 text);
}

-- From http_response_new on, http_response_addheader and http_response_append stay within the
-- arrays, whatever the texts. A header is refused, and nothing changes, exactly when ten are there.
pub build-IsResponse :
    (r : Response) (text : Text)
    → IsResponse r
    → IsResponse (addheader r text).0
      × IsResponse (append r text)
      × ((addheader r text).1 ≡ false
          → ((addheader r text).0 ≡ r) × (length r.headers ≡ http_max_header))
      × ((addheader r text).1 ≡ true
          → (addheader r text).0.headers ≡ r.headers ++ (take 255 text ∷ []))
unfolding addheader append
build-IsResponse r text v = (
  if_split (λ (p : Response × Bool). IsResponse p.0) (ltb (length r.headers) http_max_header) _ _
      (λ room_left. record {
        slots = ground (arith, length-append r.headers (take 255 text ∷ []));
        short =
            AllUpTo-append 255 r.headers (take 255 text ∷ []) v.short
              (omega (arith, length-take 255 text), tt);
        body_fits = v.body_fits;
      })
      (λ full. v),
  record {
    slots = v.slots;
    short = v.short;
    body_fits = omega (
      arith,
      length-append r.body (take (2048 - length r.body - 1) text),
      length-take (2048 - length r.body - 1) text,
      v.body_fits,
    );
  },
  ground (arith, v.slots),
  ground arith,
)
