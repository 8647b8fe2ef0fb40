-- ===== src/Camhttp/Digests/Session.antt =====
-- src/camhttp.c, on_check_digest: a client that goes on with its nonce.
use camlite.Base.{
  ℕ, ◌+◌, ◌≤◌, ◌≡◌, refl, ap, sym, subst, ◌∙◌, true, false, none, some, List, [], ◌∷◌, Text, arith,
  ◌==◌, length, pos,
}
use camlite.Kernel.{Kernel, Log}
use camlite.Libc.{text_eq}
use camlite.Libc.Equality.{text_eq_refl}
use camlite.Http.{Client}
use camlite.Camhttp.Parameters.{HttpParameter}
use camlite.Camhttp.Digests.{
  Digest, Digests, Outside, find, update, live, is_expired, timenow, check_digest_expire,
  on_check_digest, http_digest_expiretime, same_count, strtol_hex, value,
}
use camlite.Camhttp.Digests.Table.{find-nonce}
use camlite.Camhttp.Digests.Admission.{Answers, used}
use camlite.Camhttp.Digests.Passing.{on_check_digest-passes}

-- An entry that has not expired is still found.
find-young :
    (nonce : Text) (d : Digest) (now : ℕ) (ds : List Digest)
    → is_expired now d ≡ false
    → find nonce ds ≡ some d
    → find nonce (live now ds) ≡ some d
unfolding find live
find-young nonce d now [] y f = cc
find-young nonce d now (e ∷ ds) y f = ground (arith, find-young nonce d now ds y)

-- What is stored at a nonce is found at it.
find-updated :
    (nonce : Text) (d new : Digest) (ds : List Digest)
    → text_eq new.nonce nonce ≡ true
    → find nonce ds ≡ some d
    → find nonce (update nonce new ds) ≡ some new
unfolding find update
find-updated nonce d new [] e f = cc
find-updated nonce d new (x ∷ ds) e f = ground (arith, find-updated nonce d new ds e)

module _ (k : Kernel) (o : Outside) where
  -- One request of the client: it passes, and the entry expects the next count.
  step :
      (g : Digests) (c : Client) (log : Log) (ps : List HttpParameter) (d : Digest)
      → length (value ps 0) ≡ 32
      → (length g.ha1 == 0) ≡ false
      → find (value ps 0) g.list ≡ some d
      → Answers k o g.ha1 c ps
      → same_count (strtol_hex (value ps 1)) d ≡ true
      → timenow k log ≤ d.check_time + http_digest_expiretime
      → let r = on_check_digest k o g c log in
        (r.0 ≡ none) × (r.1.ha1 ≡ g.ha1) × (find (value ps 0) r.1.list ≡ some (used k o d log))
  unfolding check_digest_expire
  step g c log ps d l p f a n young =
      let found = find-young (value ps 0) d (timenow k log) g.list (ground arith) f in
      let key = find-nonce (value ps 0) d g.list f in
      let mark : text_eq d.nonce (value ps 0) ≡ true = rw key (text_eq_refl (value ps 0)) in
      rw (on_check_digest-passes k o g c log ps d a l found n p) (
        refl,
        refl,
        subst
            (λ (x : Text).
              find (value ps 0) (update x (used k o d log) (live (timenow k log) g.list))
              ≡ some (used k o d log))
            (sym key)
            (find-updated (value ps 0) d (used k o d log) (live (timenow k log) g.list) mark found),
      )

  -- The requests of a client that goes on with a nonce, each with the time at which it is checked: each answers right,
  -- says the count that is one more than the last one's, and comes within the time of expiry after the last one.
  abbrev pub IsSession : Text → Text → ℕ → ℕ → List (Client × Log) → Type 0
  IsSession ha1 nonce n last [] = Unit
  IsSession ha1 nonce n last ((c, log) ∷ rest) =
      ((ps : List HttpParameter) × Answers k o ha1 c ps
        × (value ps 0 ≡ nonce)
        × (strtol_hex (value ps 1) ≡ pos n))
      × (timenow k log ≤ last + http_digest_expiretime)
      × IsSession ha1 nonce (n + 1) (k.on_time log) rest

  -- Every one of the requests passes, each checked with the table that the one before left.
  abbrev pub AllPass : Digests → List (Client × Log) → Type 0
  AllPass g [] = Unit
  AllPass g ((c, log) ∷ rest) =
      ((on_check_digest k o g c log).0 ≡ none) × AllPass ((on_check_digest k o g c log).1) rest

  -- A client that has a nonce of 32 characters in the table, and whose requests answer right to it with counts that go
  -- up by one from the entry's, no two of them further apart than HTTP_DIGEST_EXPIRETIME, passes with every one of
  -- them, however many they are: the entry stays in the table and expects the count that comes next.
  pub on_check_digest-AllPass :
      (runs : List (Client × Log)) (g : Digests) (d : Digest) (nonce : Text)
      → length nonce ≡ 32
      → (length g.ha1 == 0) ≡ false
      → find nonce g.list ≡ some d
      → IsSession g.ha1 nonce d.count d.check_time runs
      → AllPass g runs
  on_check_digest-AllPass [] g d nonce l p f s = tt
  on_check_digest-AllPass ((c, log) ∷ rest) g d nonce l p f ((ps, a, same, n), young, s) =
      let r =
        step g c log ps d (ap length same ∙ l) p (ap (λ (x : Text). find x g.list) same ∙ f) a
          (ap (λ z. same_count z d) n ∙ counted d.count) young in
      let g1 = (on_check_digest k o g c log).1 in
      (
        r.0,
        on_check_digest-AllPass rest g1 (used k o d log) nonce l
            (ap (λ (x : Text). length x == 0) r.1 ∙ p)
            (ap (λ (x : Text). find x g1.list) (sym same) ∙ r.2)
            (subst (λ (x : Text). IsSession x nonce (d.count + 1) (k.on_time log) rest) (sym r.1)
              s),
      )
    where
      counted : (m : ℕ) → (m == m) ≡ true
      counted m = ground arith
