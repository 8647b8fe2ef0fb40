-- ===== src/Http/Response.antt =====
-- src/http.c: building an answer and sending it. A format with its arguments is the text that
-- printf makes of them.
pub mod Codes
pub mod Head
pub mod Delivery
pub mod Frame
use camlite.Base.{
  ℕ, suc, ◌-◌, Bool, true, false, not, ◌&&◌, ◌||◌, Option, none, some, List, [], ◌∷◌, ◌++◌, Text,
  codes, ltb, ◌==◌, if◌then◌else◌, length,
}
use camlite.Kernel.{Kernel, Log}
use camlite.Libc.{snprintf, contains, decimal}
use camlite.Http.{Client, http_max_string_size, http_max_header}
use camlite.Http.Send.{send}
use camlite.Http.Response.Codes.{get_http_code_string}

-- `http_response_t`: `headers` are the slots in use, which come first, and `extra` the `extra_size`
-- bytes at `extra_buf`.
pub record Response : Type 0 where
  pub code : ℕ
  pub headers : List Text
  pub body : Text
  pub extra : Text

-- http_response_new: `none` is a NULL format.
unfoldable pub new : ℕ → Option Text → Response
new code none = record { code = code; headers = []; body = []; extra = [] }
new code (some text) = record {
  code = code;
  headers = [];
  body = snprintf http_max_string_size text;
  extra = [];
}

-- http_response_addheader, with its result: `false` is -1, when the ten slots are taken.
unfoldable pub addheader : Response → Text → Response × Bool
addheader r text =
    if ltb (length r.headers) http_max_header
    then (record r { headers = r.headers ++ (snprintf 256 text ∷ []) }, true)
    else (r, false)

-- http_response_append
unfoldable pub append : Response → Text → Response
append r text = record r { body = r.body ++ snprintf (http_max_string_size - length r.body) text }

-- http_response_set_data
unfoldable pub set_data : Response → Text → Response
set_data r buf = record r { extra = buf }

abbrev pub crlf : Text
crlf = 13 ∷ 10 ∷ []

-- snprintf(send_string, ..., "%s%s", send_string, text)
abbrev pub extend : Text → Text → Text
extend s text = snprintf http_max_string_size (s ++ text)

abbrev pub status_line : ℕ → Text
status_line code =
    snprintf http_max_string_size
      (codes "HTTP/1.1 " ++ (decimal code ++ (codes " " ++ (get_http_code_string code ++ crlf))))

-- Whether a header with this text is among those given.
unfoldable pub has_header : Text → List Text → Bool
has_header text [] = false
has_header text (h ∷ hs) = contains h text || has_header text hs

abbrev pub add_headers : Text → List Text → Text
add_headers s [] = s
add_headers s (h ∷ hs) = add_headers (extend s (h ++ crlf)) hs

-- What http_response_compile puts before the extra data.
unfoldable pub compose : Response → Text
unfolding has_header
compose r =
    let start : Text = if ltb 0 r.code then status_line r.code else [] in
    let with_headers = add_headers start r.headers in
    let with_type =
      if not (has_header (codes "Content-Type") r.headers)
      then extend with_headers (codes "Content-type: text/html" ++ crlf)
      else with_headers in
    let with_connection =
      if not (has_header (codes "Connection:") r.headers)
      then extend with_type (codes "Connection: close" ++ crlf)
      else with_type in
    let head = extend with_connection crlf in
    if not (r.code == 0) && (not (r.code == 200) && length r.body == 0)
    then extend head (decimal r.code ++ (codes ":" ++ get_http_code_string r.code))
    else extend head r.body

module _ (k : Kernel) where
  -- The second send of http_response_compile, if the first left the connection open.
  unfoldable pub send_extra : Text → Option Client × Log → Option Client × Log
  send_extra extra (none, log) = (none, log)
  send_extra extra (some c, log) = if length extra == 0 then (some c, log) else send k c extra log

  -- http_response_compile
  unfoldable pub compile : Response → Client → Log → Option Client × Log
  unfolding send_extra
  compile r c log = send_extra r.extra (send k c (compose r) log)
