-- ===== src/Camhttp/Digests/Admission.antt =====
-- src/camhttp.c, on_check_digest: what each of its answers takes, and what is left of the table.
use camlite.Base.{
  ℕ, ◌+◌, ◌≡◌, ◌≢◌, refl, sym, ◌∙◌, ◌⊎◌, inl, inr, Bool, true, false, not, Option, none, some, List,
  Text, arith, leb, ◌==◌, if_split, length,
}
use camlite.Kernel.{Kernel, Log}
use camlite.Libc.{text_eq}
use camlite.Http.{Client}
use camlite.Http.Response.{Response}
use camlite.Http.Response
use camlite.Camhttp.Parameters.{HttpParameter, get_http_parameter}
use camlite.Camhttp.Digests.{
  Digest, Digests, Outside, find, update, timenow, check_digest_expire, add_digest, new_digest,
  new_nonce, issue, check_count, admit, check_values, check_parameters, on_check_digest, asked,
  http_digest_max, http_digest_nonce, same_count, strtol_hex, challenge, value, is_answer, expected,
}
use camlite.Camhttp.Digests.Table.{
  IsTable, check_digest_expire-IsTable, add_digest-IsTable, update-IsTable,
}

module _ (k : Kernel) (o : Outside) where
  -- The digest header of a request is there, it has the four parameters, and the response in it is the right one.
  pub record Answers (ha1 : Text) (c : Client) (ps : List HttpParameter) : Type 0 where
    pub present : (length c.request.digest == 0) ≡ false
    pub parsed : get_http_parameter c.request.digest asked ≡ (true, ps)
    pub right :
        is_answer (expected k o ha1 c.request (value ps 0) (value ps 1) (value ps 2)) (value ps 3)
        ≡ true

  -- The entry that new_digest makes.
  abbrev pub made : Digests → Text → Log → Digest
  made g ip log = record {
    nonce = new_nonce k o g ip log;
    check_time = k.on_time log;
    ip = o.inet_addr ip;
    count = 1;
  }

  -- The entry of a nonce that was used once more.
  abbrev pub used : Digest → Log → Digest
  used d log = record d { count = d.count + 1; check_time = k.on_time log }

  -- Why a request gets the challenge: a header is missing, it does not have the four parameters, its response is wrong,
  -- or its response is right for a nonce of its own that is not 32 characters long, not in the table, or not used as
  -- often as the request says.
  pub data Refusal (g : Digests) (c : Client) : Type 0 where
    no_header : (length c.request.digest == 0) ≡ true → Refusal g c
    malformed :
        (ps : List HttpParameter)
        → get_http_parameter c.request.digest asked ≡ (false, ps)
        → Refusal g c
    wrong_response :
        (ps : List HttpParameter)
        → get_http_parameter c.request.digest asked ≡ (true, ps)
        → is_answer
            (expected k o g.ha1 c.request (value ps 0) (value ps 1) (value ps 2))
            (value ps 3)
          ≡ false
        → Refusal g c
    wrong_length :
        (ps : List HttpParameter)
        → Answers g.ha1 c ps
        → text_eq (value ps 0) http_digest_nonce ≡ false
        → length (value ps 0) ≢ 32
        → Refusal g c
    not_issued :
        (ps : List HttpParameter)
        → Answers g.ha1 c ps
        → text_eq (value ps 0) http_digest_nonce ≡ false
        → find (value ps 0) g.list ≡ none
        → Refusal g c
    wrong_count :
        (ps : List HttpParameter) (d : Digest)
        → Answers g.ha1 c ps
        → text_eq (value ps 0) http_digest_nonce ≡ false
        → find (value ps 0) g.list ≡ some d
        → same_count (strtol_hex (value ps 1)) d ≡ false
        → Refusal g c

  -- From the table `g` that is left of the old one when the expired entries are gone: the answer to a request, and
  -- the new table.
  pub data Checked (g : Digests) (c : Client) (log : Log) : Option Response × Digests → Type 0 where
    unprotected : (length g.ha1 == 0) ≡ true → Checked g c log (none, g)
    refused : (length g.ha1 == 0) ≡ false → Refusal g c → Checked g c log (some challenge, g)
    unavailable :
        (ps : List HttpParameter)
        → Answers g.ha1 c ps
        → text_eq (value ps 0) http_digest_nonce ≡ true
        → (leb http_digest_max (length g.list) ≡ true)
          ⊎ (find (new_nonce k o g c.ip log) g.list ≢ none)
        → Checked g c log (some (Response.new 500 none), g)
    issued :
        (ps : List HttpParameter)
        → Answers g.ha1 c ps
        → text_eq (value ps 0) http_digest_nonce ≡ true
        → leb http_digest_max (length g.list) ≡ false
        → find (new_nonce k o g c.ip log) g.list ≡ none
        → Checked g c log (issue (add_digest k o g (made g c.ip log) none))
    admitted :
        (ps : List HttpParameter) (d : Digest)
        → Answers g.ha1 c ps
        → length (value ps 0) ≡ 32
        → find (value ps 0) g.list ≡ some d
        → same_count (strtol_hex (value ps 1)) d ≡ true
        → Checked g c log (none, record g { list = update d.nonce (used d log) g.list })

  check_count-Checked :
      (g : Digests) (c : Client) (log : Log) (ps : List HttpParameter) (found : Option Digest)
      → (length g.ha1 == 0) ≡ false
      → Answers g.ha1 c ps
      → text_eq (value ps 0) http_digest_nonce ≡ false
      → length (value ps 0) ≡ 32
      → find (value ps 0) g.list ≡ found
      → Checked g c log (check_count k o g (value ps 1) log found)
  unfolding check_count
  check_count-Checked g c log ps none p a n l f = refused p (not_issued ps a n f)
  check_count-Checked g c log ps (some d) p a n l f =
      if_split (Checked g c log) (same_count (strtol_hex (value ps 1)) d) _ _
        (λ same. admitted ps d a l f same) (λ other. refused p (wrong_count ps d a n f other))

  add_digest-Checked :
      (g : Digests) (c : Client) (log : Log) (ps : List HttpParameter) (found : Option Digest)
      → Answers g.ha1 c ps
      → text_eq (value ps 0) http_digest_nonce ≡ true
      → leb http_digest_max (length g.list) ≡ false
      → find (new_nonce k o g c.ip log) g.list ≡ found
      → Checked g c log (issue (add_digest k o g (made g c.ip log) found))
  unfolding issue add_digest
  add_digest-Checked g c log ps none a n room f = issued ps a n room f
  add_digest-Checked g c log ps (some d) a n room f =
      unavailable ps a n (inr (λ e. found d (sym f ∙ e)))
    where
      found : (d : Digest) → some d ≢ none
      found d e = cc

  new_digest-Checked :
      (g : Digests) (c : Client) (log : Log) (ps : List HttpParameter)
      → Answers g.ha1 c ps
      → text_eq (value ps 0) http_digest_nonce ≡ true
      → Checked g c log (issue (new_digest k o g c.ip log))
  unfolding issue new_digest
  new_digest-Checked g c log ps a n =
      if_split (λ (x : Option Digest × Digests). Checked g c log (issue x))
        (leb http_digest_max (length g.list)) _ _ (λ full. unavailable ps a n (inl full))
        (λ room. add_digest-Checked g c log ps _ a n room refl)

  admit-Checked :
      (g : Digests) (c : Client) (log : Log) (ps : List HttpParameter)
      → (length g.ha1 == 0) ≡ false
      → Answers g.ha1 c ps
      → Checked g c log (admit k o g (value ps 0) (value ps 1) c.ip log)
  unfolding admit
  admit-Checked g c log ps p a =
      if_split (Checked g c log) (text_eq (value ps 0) http_digest_nonce) _ _
        (λ common. new_digest-Checked g c log ps a common)
        (λ own.
          if_split (Checked g c log) (not (length (value ps 0) == 32)) _ _
            (λ short. refused p (wrong_length ps a own (λ e. ground arith)))
            (λ long.
              check_count-Checked g c log ps (find (value ps 0) g.list) p a own (ground arith)
                refl))

  check_parameters-Checked :
      (g : Digests) (c : Client) (log : Log) (parsed : Bool × List HttpParameter)
      → (length g.ha1 == 0) ≡ false
      → (length c.request.digest == 0) ≡ false
      → get_http_parameter c.request.digest asked ≡ parsed
      → Checked g c log (check_parameters k o g c log parsed)
  unfolding check_parameters check_values
  check_parameters-Checked g c log (false, ps) p q e = refused p (malformed ps e)
  check_parameters-Checked g c log (true, ps) p q e =
      if_split (Checked g c log)
        (is_answer (expected k o g.ha1 c.request (value ps 0) (value ps 1) (value ps 2))
          (value ps 3))
        _ _ (λ r. admit-Checked g c log ps p record { present = q; parsed = e; right = r })
        (λ w. refused p (wrong_response ps e w))

  -- on_check_digest first takes the expired entries out of the table. What it answers then, and what becomes of
  -- the table, is one of five things, whatever MD5 is. Without a login set (g_digest_ha1 is empty) every request
  -- passes. With one, a request passes only when it has a digest header with all four parameters, whose response
  -- agrees in its first 16 digits with the one computed, whose nonce has 32 characters and is in the table, and
  -- whose nc is the count of that entry; the entry's count then goes up by one and its time is now. A right response
  -- to the nonce that everyone knows is answered with 401 and a nonce that was not in the table and now is, or with
  -- 500, but only where the table is full or has that nonce already. The challenge, which leaves the table as it is, is
  -- given only where the header is missing or has not the four parameters, where its response is wrong, or where the
  -- nonce is not the one that everyone knows and is not 32 characters long, not in the table or of another count.
  pub on_check_digest-Checked :
      (g : Digests) (c : Client) (log : Log)
      → Checked (check_digest_expire k o g log) c log (on_check_digest k o g c log)
  unfolding on_check_digest
  on_check_digest-Checked g c log =
      let g' = check_digest_expire k o g log in
      if_split (Checked g' c log) (length g'.ha1 == 0) _ _ (λ u. unprotected u)
        (λ p.
          if_split (Checked g' c log) (length c.request.digest == 0) _ _
            (λ none_there. refused p (no_header none_there))
            (λ q.
              check_parameters-Checked g' c log (get_http_parameter c.request.digest asked) p q
                refl))

  Checked-IsTable :
      (g : Digests) (c : Client) (log : Log) (r : Option Response × Digests)
      → IsTable (timenow k log) g
      → Checked g c log r
      → IsTable (timenow k log) (r.1)
  unfolding issue add_digest
  Checked-IsTable g c log _ h (unprotected u) = h
  Checked-IsTable g c log _ h (refused p why) = h
  Checked-IsTable g c log _ h (unavailable ps a n why) = h
  Checked-IsTable g c log _ h (issued ps a n room f) =
      add_digest-IsTable k o g (made g c.ip log) log refl f room h
  Checked-IsTable g c log _ h (admitted ps d a l f s) =
      update-IsTable k o g d.nonce (used d log) log refl refl h

  -- On every path on_check_digest leaves at most HTTP_DIGEST_MAX entries in the table, no two with one nonce, and none
  -- that was made or used last more than HTTP_DIGEST_EXPIRETIME seconds before the time of the check, when the table
  -- was such at the last check, however long ago that is.
  pub on_check_digest-IsTable :
      (g : Digests) (c : Client) (log : Log) (last : ℕ)
      → IsTable last g
      → IsTable (timenow k log) ((on_check_digest k o g c log).1)
  on_check_digest-IsTable g c log last h =
      Checked-IsTable (check_digest_expire k o g log) c log (on_check_digest k o g c log)
        (check_digest_expire-IsTable k o g log last h) (on_check_digest-Checked g c log)
