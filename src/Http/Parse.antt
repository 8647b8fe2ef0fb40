-- ===== src/Http/Parse.antt =====
-- src/http.c, http_request_parse_line: one line of a request.
pub mod RoundTrip
use camlite.Base.{
  ℕ, suc, ◌≤◌, ◌≡◌, ◌⊎◌, List, [], ◌∷◌, Text, codes, arith, if◌then◌else◌, length, drop,
  length-take, take,
}
use camlite.Libc.{Directive, lit, space, not_of, word, lits, sscanf, starts_with, strncpy}
use camlite.Libc.Bounds.{sscanf-AllUpTo, AllUpTo}
use camlite.Http.{Request, http_method_get, http_method_post, empty_request}
use camlite.Pevent.{Status, ok}

-- "GET %255[^?^ ]?%255sHTTP", and the same with "POST "
abbrev request_format : Text → List Directive
request_format method =
    lits method (space ∷ not_of 255 (codes "?^ ") ∷ lit b'?' ∷ word 255 ∷ lits (codes "HTTP") [])

-- "Host: %255s"
abbrev host_format : List Directive
host_format = lits (codes "Host:") (space ∷ word 255 ∷ [])

-- What a format's conversions are stored in; one that is not reached keeps its value.
store_target : Request → ℕ → List Text → Request
store_target r method [] = r
store_target r method (path ∷ []) = record r { method = method; path = path }
store_target r method (path ∷ param ∷ more) = record r {
  method = method;
  path = path;
  param = param;
}

store_host : Request → List Text → Request
store_host r [] = r
store_host r (host ∷ more) = record r { host = host }

abbrev digest_prefix : Text
digest_prefix = codes "Authorization: Digest"

parse_digest : Request → Text → Request
parse_digest r line =
    if starts_with line digest_prefix
    then record r { digest = strncpy (drop (length digest_prefix) line) 255 }
    else r

-- The first format that stores a conversion takes the line.
parse_from : Request → Text → List Text → List Text → List Text → Request
parse_from r line (g ∷ gs) post host = store_target r http_method_get (g ∷ gs)
parse_from r line [] (p ∷ ps) host = store_target r http_method_post (p ∷ ps)
parse_from r line [] [] (h ∷ hs) = store_host r (h ∷ hs)
parse_from r line [] [] [] = parse_digest r line

-- The result is 0 on every path.
unfoldable pub parse_line : Request → Text → Status × Request
unfolding parse_from store_target store_host parse_digest
parse_line r line = (
  ok,
  parse_from r line (sscanf (request_format (codes "GET")) line)
      (sscanf (request_format (codes "POST")) line) (sscanf host_format line),
)

-- The fields fit the arrays of 256 bytes of `http_request_t`, with their NUL.
pub record IsRequest (r : Request) : Type 0 where
  pub path_fits : length r.path ≤ 255
  pub param_fits : length r.param ≤ 255
  pub host_fits : length r.host ≤ 255
  pub digest_fits : length r.digest ≤ 255

store_target-IsRequest :
    (r : Request) (method : ℕ) (got : List Text)
    → AllUpTo 255 got
    → IsRequest r
    → IsRequest (store_target r method got)
unfolding store_target
store_target-IsRequest r method [] a v = v
store_target-IsRequest r method (path ∷ []) a v = ground arith
store_target-IsRequest r method (path ∷ param ∷ more) a v = ground arith

parse_from-IsRequest :
    (r : Request) (line : Text) (get post host : List Text)
    → AllUpTo 255 get
    → AllUpTo 255 post
    → AllUpTo 255 host
    → IsRequest r
    → IsRequest (parse_from r line get post host)
unfolding parse_from store_host parse_digest
parse_from-IsRequest r line (g ∷ gs) post host a b c v = store_target-IsRequest r 1 (g ∷ gs) a v
parse_from-IsRequest r line [] (p ∷ ps) host a b c v = store_target-IsRequest r 2 (p ∷ ps) b v
parse_from-IsRequest r line [] [] (h ∷ hs) a b c v = ground arith
parse_from-IsRequest r line [] [] [] a b c v =
    ground (arith, length-take 255 (drop (length digest_prefix) line))

-- No line, however long, writes past the end of a field of the request.
pub parse_line-IsRequest :
    (r : Request) (line : Text) → IsRequest r → IsRequest (parse_line r line).1
unfolding parse_line
parse_line-IsRequest r line v =
    parse_from-IsRequest r line _ _ _
      (sscanf-AllUpTo 255 (request_format (codes "GET")) line (omega arith))
      (sscanf-AllUpTo 255 (request_format (codes "POST")) line (omega arith))
      (sscanf-AllUpTo 255 host_format line (omega arith)) v
