-- ===== src/Camhttp/Digests/Passing.antt =====
-- src/camhttp.c, on_check_digest: the request of a client that has logged in passes.
use camlite.Base.{◌≡◌, refl, ap, Bool, true, false, none, some, List, Text, arith, ◌==◌, length}
use camlite.Kernel.{Kernel, Log}
use camlite.Libc.{text_eq}
use camlite.Libc.Equality.{eq_of_text_eq}
use camlite.Http.{Client}
use camlite.Camhttp.Parameters.{HttpParameter}
use camlite.Camhttp.Digests.{
  Digest, Digests, Outside, find, update, check_digest_expire, check_count, admit, check_values,
  check_parameters, on_check_digest, http_digest_nonce, same_count, strtol_hex, value,
}
use camlite.Camhttp.Digests.Admission.{Answers, used}

-- A nonce of 32 characters is not the one that everyone knows.
long-http_digest_nonce :
    (nonce : Text) → length nonce ≡ 32 → text_eq nonce http_digest_nonce ≡ false
long-http_digest_nonce nonce l = by_cases (text_eq nonce http_digest_nonce) refl
  where
    by_cases :
        (b : Bool) → text_eq nonce http_digest_nonce ≡ b → text_eq nonce http_digest_nonce ≡ false
    by_cases false e = e
    by_cases true e =
        let seven : length nonce ≡ 7 = ap length (eq_of_text_eq nonce http_digest_nonce e) in
        ground arith

module _ (k : Kernel) (o : Outside) where
  admit-passes :
      (g : Digests) (nonce nc ip : Text) (log : Log) (d : Digest)
      → length nonce ≡ 32
      → find nonce g.list ≡ some d
      → same_count (strtol_hex nc) d ≡ true
      → admit k o g nonce nc ip log
        ≡ (none, record g { list = update d.nonce (used k o d log) g.list })
  unfolding admit check_count
  admit-passes g nonce nc ip log d l f s =
      let other : text_eq nonce http_digest_nonce ≡ false = long-http_digest_nonce nonce l in
      let long : (length nonce == 32) ≡ true = ground arith in rw other (rw long (rw f (rw s refl)))

  -- The answer to a nonce of its own that a client gives, with the count that the table expects, lets the request
  -- pass, and the entry is used once more: `now` is the table without what has expired.
  pub on_check_digest-passes :
      (g : Digests) (c : Client) (log : Log) (ps : List HttpParameter) (d : Digest)
      → Answers k o g.ha1 c ps
      → length (value ps 0) ≡ 32
      → find (value ps 0) ((check_digest_expire k o g log).list) ≡ some d
      → same_count (strtol_hex (value ps 1)) d ≡ true
      → (length g.ha1 == 0) ≡ false
      → on_check_digest k o g c log ≡ (
        none,
        record (check_digest_expire k o g log) {
          list = update d.nonce (used k o d log) ((check_digest_expire k o g log).list);
        },
      )
  unfolding on_check_digest check_digest_expire check_parameters check_values
  on_check_digest-passes g c log ps d a l f s p = rw p (
      rw a.present (
        rw a.parsed (
          rw a.right (
            admit-passes (check_digest_expire k o g log) (value ps 0) (value ps 1) c.ip log d l f
              s))))
