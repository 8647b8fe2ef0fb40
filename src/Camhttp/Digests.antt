-- ===== src/Camhttp/Digests.antt =====
-- src/camhttp.c: the table of digest nonces, and on_check_digest.
pub mod Table
pub mod Admission
pub mod Passing
pub mod Session
pub mod Replay
use camlite.Base.{
  ℕ, zero, suc, ◌+◌, ◌%◌, ◌^◌, Bool, true, false, not, Option, none, some, List, [], ◌∷◌, ◌++◌,
  Text, codes, ltb, leb, ◌==◌, if◌then◌else◌, length, take, get_or, ℤ, pos, negsuc,
}
use camlite.Kernel.{Kernel, Log}
use camlite.Libc.{text_eq}
use camlite.Http.{Client, Request}
use camlite.Http.Response.{Response, addheader}
use camlite.Http.Response
use camlite.Camhttp.{hex2string}
use camlite.Libc.Numbers.{le_bytes, strtol_hex}
use camlite.Camhttp.Parameters.{HttpParameter, get_http_parameter}

abbrev pub http_digest_max : ℕ
http_digest_max = 1000

abbrev pub http_digest_expiretime : ℕ
http_digest_expiretime = 3600

-- HTTP_DIGEST_NONCE and HTTP_DIGEST_REALM
abbrev pub http_digest_nonce : Text
http_digest_nonce = codes "camlite"

abbrev pub http_digest_realm : Text
http_digest_realm = codes "camlite"

-- `http_digest_t`
pub record Digest : Type 0 where
  pub nonce : Text
  pub check_time : ℕ
  pub ip : ℕ
  pub count : ℕ

-- g_digest_ha1, g_digest_list in the order of HASH_ITER, and digest_count of new_digest
pub record Digests : Type 0 where
  pub ha1 : Text
  pub list : List Digest
  pub digest_count : ℕ

-- Code that is not the program's: MD5 of a text, and inet_addr.
pub record Outside : Type 0 where
  pub md5 : Text → Text
  pub inet_addr : Text → ℕ

-- HASH_FIND
unfoldable pub find : Text → List Digest → Option Digest
find nonce [] = none
find nonce (d ∷ ds) = let rest = find nonce ds in if text_eq d.nonce nonce then some d else rest

-- The stores through the pointer that HASH_FIND gave.
unfoldable pub update : Text → Digest → List Digest → List Digest
update nonce new [] = []
update nonce new (d ∷ ds) =
    let rest = update nonce new ds in if text_eq d.nonce nonce then new ∷ ds else d ∷ rest

-- The test of check_digest_expire; `timenow` is an unsigned int.
abbrev pub is_expired : ℕ → Digest → Bool
is_expired timenow d = ltb (d.check_time + http_digest_expiretime) timenow

unfoldable pub live : ℕ → List Digest → List Digest
live timenow [] = []
live timenow (d ∷ ds) =
    let rest = live timenow ds in if is_expired timenow d then rest else d ∷ rest

abbrev pub timenow : Kernel → Log → ℕ
timenow k log = k.on_time log % 2 ^ 32

abbrev pub challenge_text : Text
challenge_text = codes "WWW-Authenticate: Digest realm=\"camlite\",qop=\"auth\",nonce=\"camlite\""

-- __proc_failure
unfoldable pub challenge : Response
challenge = (addheader (Response.new 401 none) challenge_text).0

-- The answer to a login with the nonce that everyone knows: a nonce of its own, or an error. The format of
-- the error is NULL, so that its message is not used.
unfoldable pub issue : Option Digest × Digests → Option Response × Digests
issue (none, g) = (some (Response.new 500 none), g)
issue (some d, g) = (
  some
      (addheader (Response.new 401 none) (
        codes "WWW-Authenticate: Digest realm=\"camlite\",qop=\"auth\",nonce=\""
        ++ (d.nonce ++ codes "\",stale=TRUE"))).0,
  g,
)

-- `parameter` of on_check_digest
abbrev pub asked : List HttpParameter
asked =
    record { key = codes "nonce"; value = none }
    ∷ record { key = codes "nc"; value = none }
    ∷ record { key = codes "cnonce"; value = none }
    ∷ record { key = codes "response"; value = none }
    ∷ []

abbrev pub value_of : Option Text → Text
value_of none = []
value_of (some v) = v

-- parameter[i].value, once all are set
abbrev pub value : List HttpParameter → ℕ → Text
value [] i = []
value (p ∷ ps) zero = value_of p.value
value (p ∷ ps) (suc i) = value ps i

abbrev pub same_count : ℤ → Digest → Bool
same_count (pos n) d = d.count == n
same_count (negsuc n) d = false

-- memcmp looks at the first 16 bytes of the response; a shorter one has its NUL among them.
abbrev pub is_answer : Text → Text → Bool
is_answer expected response = text_eq (take 16 expected) (take 16 response)

module _ (k : Kernel) (o : Outside) where
  unfoldable pub check_digest_expire : Digests → Log → Digests
  unfolding live
  check_digest_expire g log = record g { list = live (timenow k log) g.list }

  -- The nonce that new_digest makes.
  unfoldable pub new_nonce : Digests → Text → Log → Text
  unfolding le_bytes
  new_nonce g ip log =
      hex2string
        (o.md5 (
          le_bytes 4 g.digest_count ++ (le_bytes 8 (k.on_time log) ++ le_bytes 4 (o.inet_addr ip))))
        33

  unfoldable pub add_digest : Digests → Digest → Option Digest → Option Digest × Digests
  add_digest g new (some d) = (none, g)
  add_digest g new none = (
    some new,
    record g { list = g.list ++ (new ∷ []); digest_count = (g.digest_count + 1) % 2 ^ 32 },
  )

  -- new_digest for a client's address
  unfoldable pub new_digest : Digests → Text → Log → Option Digest × Digests
  unfolding add_digest find new_nonce
  new_digest g ip log =
      let new : Digest = record {
        nonce = new_nonce g ip log;
        check_time = k.on_time log;
        ip = o.inet_addr ip;
        count = 1;
      } in
      if leb http_digest_max (length g.list)
      then (none, g)
      else add_digest g new (find new.nonce g.list)

  -- "GET:" path, and the parameters behind a question mark
  unfoldable pub a2 : Request → Text
  a2 r =
      let uri = codes "GET:" ++ r.path in
      if length r.param == 0 then uri else uri ++ (codes "?" ++ r.param)

  -- What the response of the client has to be.
  unfoldable pub expected : Text → Request → Text → Text → Text → Text
  unfolding a2
  expected ha1 r nonce nc cnonce =
      let ha2 = hex2string (o.md5 (a2 r)) 64 in
      hex2string
        (o.md5 (
          ha1
          ++ (codes ":"
              ++ (nonce
                  ++ (codes ":" ++ (nc ++ (codes ":" ++ (cnonce ++ (codes ":auth:" ++ ha2)))))))))
        64

  -- The nonce is in the table: the count of its uses is compared, and goes on.
  unfoldable pub check_count : Digests → Text → Log → Option Digest → Option Response × Digests
  unfolding update strtol_hex
  check_count g nc log none = (some challenge, g)
  check_count g nc log (some d) =
      let d' = record d { count = d.count + 1; check_time = k.on_time log } in
      if same_count (strtol_hex nc) d
      then (none, record g { list = update d.nonce d' g.list })
      else (some challenge, g)

  -- The response is right.
  unfoldable pub admit : Digests → Text → Text → Text → Log → Option Response × Digests
  unfolding issue check_count find
  admit g nonce nc ip log =
      if text_eq nonce http_digest_nonce
      then issue (new_digest g ip log)
      else if not (length nonce == 32)
      then (some challenge, g)
      else check_count g nc log (find nonce g.list)

  unfoldable pub check_values :
      Digests → Client → Text → Text → Text → Text → Log → Option Response × Digests
  unfolding admit expected
  check_values g c nonce nc cnonce response log =
      if is_answer (expected g.ha1 c.request nonce nc cnonce) response
      then admit g nonce nc c.ip log
      else (some challenge, g)

  unfoldable pub check_parameters :
      Digests → Client → Log → Bool × List HttpParameter → Option Response × Digests
  unfolding check_values
  check_parameters g c log (false, ps) = (some challenge, g)
  check_parameters g c log (true, ps) =
      check_values g c (value ps 0) (value ps 1) (value ps 2) (value ps 3) log

  -- on_check_digest: `none` is NULL, which lets the request pass.
  unfoldable pub on_check_digest : Digests → Client → Log → Option Response × Digests
  unfolding check_parameters check_digest_expire get_http_parameter
  on_check_digest g c log =
      let g' = check_digest_expire g log in
      if length g'.ha1 == 0
      then (none, g')
      else if length c.request.digest == 0
      then (some challenge, g')
      else check_parameters g' c log (get_http_parameter c.request.digest asked)
