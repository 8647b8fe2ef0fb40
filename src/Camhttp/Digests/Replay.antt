-- ===== src/Camhttp/Digests/Replay.antt =====
-- src/camhttp.c, on_check_digest: a digest header that let a request pass lets no second one pass.
use camlite.Base.{
  ℕ, ◌<◌, ◌≡◌, ◌≢◌, refl, sym, ap, ◌∙◌, Bool, true, false, not, ◌&&◌, ◌||◌, Option, none, some,
  List, [], ◌∷◌, ◌++◌, Text, arith, ltb, ◌==◌, if_split, length, ℤ, pos, negsuc, false≢true,
}
use camlite.Kernel.{Kernel, Log}
use camlite.Libc.{text_eq}
use camlite.Libc.Equality.{text_eq_refl, eq_of_text_eq}
use camlite.Http.{Client}
use camlite.Http.Response.{Response}
use camlite.Camhttp.Parameters.{HttpParameter, get_http_parameter}
use camlite.Camhttp.Digests.{
  Digest, Digests, Outside, find, update, live, timenow, check_digest_expire, add_digest, new_nonce,
  issue, on_check_digest, same_count, strtol_hex, value, asked,
}
use camlite.Camhttp.Digests.Table.{IsTable, AllDistinct, check_digest_expire-IsTable, find-nonce}
use camlite.Camhttp.Digests.Admission.{
  unprotected, refused, unavailable, issued, admitted, Answers, Checked, used, made,
  on_check_digest-Checked,
}

-- Every entry of this nonce has been used more often than `n` times.
unfoldable pub spent : Text → ℕ → List Digest → Bool
spent nonce n [] = true
spent nonce n (d ∷ ds) = (not (text_eq d.nonce nonce) || ltb n d.count) && spent nonce n ds

live-spent :
    (nonce : Text) (n now : ℕ) (ds : List Digest)
    → spent nonce n ds ≡ true
    → spent nonce n (live now ds) ≡ true
unfolding spent live
live-spent nonce n now [] h = refl
live-spent nonce n now (d ∷ ds) h = ground (arith, live-spent nonce n now ds)

append-spent :
    (nonce : Text) (n : ℕ) (new : Digest) (ds : List Digest)
    → text_eq new.nonce nonce ≡ false
    → spent nonce n ds ≡ true
    → spent nonce n (ds ++ (new ∷ [])) ≡ true
unfolding spent
append-spent nonce n new [] e h = ground arith
append-spent nonce n new (d ∷ ds) e h = ground (arith, append-spent nonce n new ds e)

find-spent :
    (nonce : Text) (n : ℕ) (other : Text) (d : Digest) (ds : List Digest)
    → find other ds ≡ some d
    → spent nonce n ds ≡ true
    → (not (text_eq d.nonce nonce) || ltb n d.count) ≡ true
unfolding spent find
find-spent nonce n other d [] f h = cc
find-spent nonce n other d (e ∷ ds) f h = ground (arith, find-spent nonce n other d ds)

update-spent :
    (nonce : Text) (n : ℕ) (other : Text) (new : Digest) (ds : List Digest)
    → (not (text_eq new.nonce nonce) || ltb n new.count) ≡ true
    → spent nonce n ds ≡ true
    → spent nonce n (update other new ds) ≡ true
unfolding spent update
update-spent nonce n other new [] c h = refl
update-spent nonce n other new (d ∷ ds) c h = ground (arith, update-spent nonce n other new ds c)

-- The entries behind the one of a nonce are of other nonces.
absent-spent :
    (nonce : Text) (n : ℕ) (ds : List Digest) → find nonce ds ≡ none → spent nonce n ds ≡ true
unfolding spent find
absent-spent nonce n [] f = refl
absent-spent nonce n (d ∷ ds) f = ground (arith, absent-spent nonce n ds)

found-spent :
    (nonce : Text) (d new : Digest) (n : ℕ) (ds : List Digest)
    → AllDistinct ds
    → find nonce ds ≡ some d
    → n < new.count
    → spent nonce n (update nonce new ds) ≡ true
unfolding spent find update
found-spent nonce d new n [] h f c = refl
found-spent nonce d new n (e ∷ ds) h f c =
    if_split (λ x. spent nonce n x ≡ true) (text_eq e.nonce nonce) _ _
      (λ same.
        let rest : find nonce ds ≡ none = rw (sym (eq_of_text_eq e.nonce nonce same)) h.0 in
        ground (arith, absent-spent nonce n ds))
      (λ other.
        let f' : find nonce ds ≡ some d = ground arith in
        ground (arith, found-spent nonce d new n ds h.1 f' c))

or_true : (a b : Bool) → (not a || b) ≡ true → a ≡ true → b ≡ true
or_true true b h e = h
or_true false b h e = cc

module _ (k : Kernel) (o : Outside) where
  -- The checks of one request after the other, each at its time.
  unfoldable pub checks : Digests → List (Client × Log) → Digests
  checks g [] = g
  checks g ((c, log) ∷ rest) = checks ((on_check_digest k o g c log).1) rest

  -- No nonce that could be made in these checks is this one.
  abbrev pub NeverMade : Text → Digests → List (Client × Log) → Type 0
  NeverMade nonce g [] = Unit
  NeverMade nonce g ((c, log) ∷ rest) =
      (text_eq (new_nonce k o (check_digest_expire k o g log) c.ip log) nonce ≡ false)
      × NeverMade nonce ((on_check_digest k o g c log).1) rest

  Checked-spent :
      (g : Digests) (c : Client) (log : Log) (nonce : Text) (n : ℕ) (r : Option Response × Digests)
      → text_eq (new_nonce k o g c.ip log) nonce ≡ false
      → spent nonce n g.list ≡ true
      → Checked k o g c log r
      → (r.1.ha1 ≡ g.ha1) × (spent nonce n (r.1.list) ≡ true)
  unfolding issue add_digest
  Checked-spent g c log nonce n _ new h (unprotected u) = (refl, h)
  Checked-spent g c log nonce n _ new h (refused p why) = (refl, h)
  Checked-spent g c log nonce n _ new h (unavailable ps a m why) = (refl, h)
  Checked-spent g c log nonce n _ new h (issued ps a m room f) =
      (refl, append-spent nonce n (made k o g c.ip log) g.list new h)
  Checked-spent g c log nonce n _ new h (admitted ps d a l f s) =
      let old = find-spent nonce n (value ps 0) d g.list f h in
      (refl, update-spent nonce n d.nonce (used k o d log) g.list (ground arith) h)

  checks-spent :
      (runs : List (Client × Log)) (g : Digests) (nonce : Text) (n : ℕ)
      → NeverMade nonce g runs
      → spent nonce n g.list ≡ true
      → ((checks g runs).ha1 ≡ g.ha1) × (spent nonce n ((checks g runs).list) ≡ true)
  unfolding checks check_digest_expire
  checks-spent [] g nonce n fresh h = (refl, h)
  checks-spent ((c, log) ∷ rest) g nonce n fresh h =
      let g' = check_digest_expire k o g log in
      let now =
        Checked-spent g' c log nonce n (on_check_digest k o g c log) fresh.0
          (live-spent nonce n (timenow k log) g.list h) (on_check_digest-Checked k o g c log) in
      let later = checks-spent rest ((on_check_digest k o g c log).1) nonce n fresh.1 now.1 in
      (later.0 ∙ now.0, later.1)

  -- A request that passed under a login, from the table `g`
  pub record Passed (g : Digests) (c : Client) (log : Log) (g1 : Digests) : Type 0 where
    pub ps : List HttpParameter
    pub entry : Digest
    pub answers : Answers k o g.ha1 c ps
    pub found : find (value ps 0) g.list ≡ some entry
    pub counted : same_count (strtol_hex (value ps 1)) entry ≡ true
    pub table : g1.list ≡ update entry.nonce (used k o entry log) g.list

  Checked-Passed :
      (g : Digests) (c : Client) (log : Log) (r : Option Response × Digests)
      → (length g.ha1 == 0) ≡ false
      → r.0 ≡ none
      → Checked k o g c log r
      → Passed g c log (r.1)
  unfolding issue add_digest
  Checked-Passed g c log _ p e (unprotected u) = cc
  Checked-Passed g c log _ p e (refused q why) = cc
  Checked-Passed g c log _ p e (unavailable ps a m why) = cc
  Checked-Passed g c log _ p e (issued ps a m room f) = cc
  Checked-Passed g c log _ p e (admitted ps d a l f s) = record {
    ps = ps;
    entry = d;
    answers = a;
    found = f;
    counted = s;
    table = refl;
  }

  same_count-spent :
      (z : ℤ) (d e : Digest)
      → same_count z d ≡ true
      → same_count z e ≡ true
      → ltb d.count e.count ≡ true
      → ⊥
  same_count-spent (pos n) d e h i l = ground arith
  same_count-spent (negsuc n) d e h i l = false≢true h

  -- The nonce in the digest header of a request
  abbrev pub nonce_of : Client → Text
  nonce_of c = value ((get_http_parameter c.request.digest asked).1) 0

  Passed-nonce_of :
      (g g1 : Digests) (c : Client) (log : Log) (p : Passed g c log g1) → nonce_of c ≡ value p.ps 0
  Passed-nonce_of g g1 c log p =
      ap (λ (x : Bool × List HttpParameter). value (x.1) 0) p.answers.parsed

  Passed-spent :
      (g g1 : Digests) (c : Client) (log : Log)
      → AllDistinct g.list
      → (p : Passed g c log g1) → spent (nonce_of c) p.entry.count g1.list ≡ true
  Passed-spent g g1 c log h p =
      let e : p.entry.nonce ≡ nonce_of c =
        find-nonce (value p.ps 0) p.entry g.list p.found ∙ sym (Passed-nonce_of g g1 c log p) in
      let f : find (nonce_of c) g.list ≡ some p.entry = rw (Passed-nonce_of g g1 c log p) p.found in
      rw (p.table ∙ ap (λ (x : Text). update x (used k o p.entry log) g.list) e) (
        found-spent (nonce_of c) p.entry (used k o p.entry log) p.entry.count g.list h f
          (omega arith))

  -- Two requests with one digest header cannot both pass when the first one's nonce is used up in the second's table.
  Passed-once :
      (g g1 g2 g3 : Digests) (c c2 : Client) (log log2 : Log)
      → c2.request.digest ≡ c.request.digest
      → (p : Passed g c log g1) → spent (nonce_of c) p.entry.count g2.list ≡ true
      → Passed g2 c2 log2 g3
      → ⊥
  Passed-once g g1 g2 g3 c c2 log log2 same p h q =
      let parsed : (true, p.ps) ≡ (true, q.ps) =
        sym p.answers.parsed
        ∙ (ap (λ (x : Text). get_http_parameter x asked) (sym same) ∙ q.answers.parsed) in
      let ps : p.ps ≡ q.ps = ap (λ (x : Bool × List HttpParameter). x.1) parsed in
      let e : nonce_of c ≡ value q.ps 0 =
        Passed-nonce_of g g1 c log p ∙ ap (λ (x : List HttpParameter). value x 0) ps in
      let n : q.entry.nonce ≡ nonce_of c =
        find-nonce (value q.ps 0) q.entry g2.list q.found ∙ sym e in
      let more = find-spent (nonce_of c) p.entry.count (value q.ps 0) q.entry g2.list q.found h in
      let same_nonce : text_eq q.entry.nonce (nonce_of c) ≡ true =
        rw n (text_eq_refl (nonce_of c)) in
      let count : same_count (strtol_hex (value q.ps 1)) p.entry ≡ true = rw (sym ps) p.counted in
      same_count-spent (strtol_hex (value q.ps 1)) p.entry q.entry count q.counted
        (or_true _ _ more same_nonce)

  Checked-ha1 :
      (g : Digests) (c : Client) (log : Log) (r : Option Response × Digests)
      → Checked k o g c log r
      → r.1.ha1 ≡ g.ha1
  unfolding issue add_digest
  Checked-ha1 g c log _ (unprotected u) = refl
  Checked-ha1 g c log _ (refused p why) = refl
  Checked-ha1 g c log _ (unavailable ps a m why) = refl
  Checked-ha1 g c log _ (issued ps a m room f) = refl
  Checked-ha1 g c log _ (admitted ps d a l f s) = refl

  on_check_digest-ha1 :
      (g : Digests) (c : Client) (log : Log) → (on_check_digest k o g c log).1.ha1 ≡ g.ha1
  unfolding check_digest_expire
  on_check_digest-ha1 g c log =
      Checked-ha1 (check_digest_expire k o g log) c log (on_check_digest k o g c log)
        (on_check_digest-Checked k o g c log)

  -- While a login is set, a digest header that let a request pass lets no later request pass, from whatever client,
  -- for whatever page and however many requests were checked in between, as long as no nonce that could be made for
  -- them is the header's own.
  pub on_check_digest-once :
      (g : Digests) (c c2 : Client) (log log2 : Log) (runs : List (Client × Log)) (last : ℕ)
      → IsTable last g
      → (length g.ha1 == 0) ≡ false
      → (on_check_digest k o g c log).0 ≡ none
      → c2.request.digest ≡ c.request.digest
      → NeverMade (nonce_of c) ((on_check_digest k o g c log).1) runs
      → (on_check_digest k o (checks ((on_check_digest k o g c log).1) runs) c2 log2).0 ≢ none
  unfolding check_digest_expire
  on_check_digest-once g c c2 log log2 runs last h p e same fresh again =
      let g' = check_digest_expire k o g log in
      let g1 = (on_check_digest k o g c log).1 in
      let g2 = checks g1 runs in
      let g2' = check_digest_expire k o g2 log2 in
      let first : Passed g' c log g1 =
        Checked-Passed g' c log (on_check_digest k o g c log) p e
          (on_check_digest-Checked k o g c log) in
      let gone =
        Passed-spent g' g1 c log ((check_digest_expire-IsTable k o g log last h).distinct) first in
      let later = checks-spent runs g1 (nonce_of c) first.entry.count fresh gone in
      let login : (length g2.ha1 == 0) ≡ false = rw (later.0 ∙ on_check_digest-ha1 g c log) p in
      let second =
        Checked-Passed g2' c2 log2 (on_check_digest k o g2 c2 log2) login again
          (on_check_digest-Checked k o g2 c2 log2) in
      Passed-once g' g1 g2' ((on_check_digest k o g2 c2 log2).1) c c2 log log2 same first
        (live-spent (nonce_of c) first.entry.count (timenow k log2) g2.list later.1) second
