-- ===== src/Camhttp/Digests/Table.antt =====
-- src/camhttp.c: the table of digest nonces is bounded, holds each nonce once, and forgets what has expired.
use camlite.Base.{
  ℕ, ◌+◌, ◌≤◌, ◌≡◌, refl, sym, ◌∙◌, false, none, some, List, [], ◌∷◌, ◌++◌, Text, arith, leb,
  if_split, length, length-append,
}
use camlite.Kernel.{Kernel, Log}
use camlite.Libc.{text_eq}
use camlite.Libc.Equality.{eq_of_text_eq, text_eq_comm}
use camlite.Camhttp.Digests.{
  Digest, Digests, Outside, find, update, live, is_expired, timenow, check_digest_expire,
  add_digest, http_digest_max, http_digest_expiretime,
}

-- Each nonce once
abbrev pub AllDistinct : List Digest → Type 0
AllDistinct [] = Unit
AllDistinct (d ∷ ds) = (find d.nonce ds ≡ none) × AllDistinct ds

-- Every use is counted from 1, and no entry was checked longer ago than an hour.
abbrev pub AllLive : ℕ → List Digest → Type 0
AllLive now [] = Unit
AllLive now (d ∷ ds) = (now ≤ d.check_time + http_digest_expiretime) × AllLive now ds

-- The table after a check at the time `now`
pub record IsTable (now : ℕ) (g : Digests) : Type 0 where
  pub bounded : length g.list ≤ http_digest_max
  pub distinct : AllDistinct g.list
  pub alive : AllLive now g.list

find-live :
    (nonce : Text) (now : ℕ) (ds : List Digest)
    → find nonce ds ≡ none
    → find nonce (live now ds) ≡ none
unfolding find live
find-live nonce now [] h = refl
find-live nonce now (d ∷ ds) h = ground (arith, find-live nonce now ds)

live-AllDistinct : (now : ℕ) (ds : List Digest) → AllDistinct ds → AllDistinct (live now ds)
unfolding live
live-AllDistinct now [] h = h
live-AllDistinct now (d ∷ ds) h =
    if_split AllDistinct (is_expired now d) _ _ (λ _. live-AllDistinct now ds h.1)
      (λ _. (find-live d.nonce now ds h.0, live-AllDistinct now ds h.1))

live-AllLive : (now : ℕ) (ds : List Digest) → AllLive now (live now ds)
unfolding live
live-AllLive now [] = tt
live-AllLive now (d ∷ ds) =
    if_split (AllLive now) (is_expired now d) _ _ (λ _. live-AllLive now ds)
      (λ young. (ground arith, live-AllLive now ds))

length-live : (now : ℕ) (ds : List Digest) → length (live now ds) ≤ length ds
unfolding live
length-live now [] = omega arith
length-live now (d ∷ ds) = ground (arith, length-live now ds)

find-update :
    (nonce other : Text) (new : Digest) (ds : List Digest)
    → new.nonce ≡ nonce
    → find other ds ≡ none
    → find other (update nonce new ds) ≡ none
unfolding find update
find-update nonce other new [] e h = refl
find-update nonce other new (d ∷ ds) e h =
    ground (arith, find-update nonce other new ds e, eq_of_text_eq d.nonce nonce)

update-AllDistinct :
    (nonce : Text) (new : Digest) (ds : List Digest)
    → new.nonce ≡ nonce
    → AllDistinct ds
    → AllDistinct (update nonce new ds)
unfolding update
update-AllDistinct nonce new [] e h = h
update-AllDistinct nonce new (d ∷ ds) e h =
    if_split AllDistinct (text_eq d.nonce nonce) _ _
      (λ same. (rw (e ∙ sym (eq_of_text_eq d.nonce nonce same)) h.0, h.1))
      (λ _. (find-update nonce d.nonce new ds e h.0, update-AllDistinct nonce new ds e h.1))

update-AllLive :
    (now : ℕ) (nonce : Text) (new : Digest) (ds : List Digest)
    → now ≤ new.check_time + http_digest_expiretime
    → AllLive now ds
    → AllLive now (update nonce new ds)
unfolding update
update-AllLive now nonce new [] n h = h
update-AllLive now nonce new (d ∷ ds) n h =
    if_split (AllLive now) (text_eq d.nonce nonce) _ _ (λ _. (n, h.1))
      (λ _. (h.0, update-AllLive now nonce new ds n h.1))

length-update :
    (nonce : Text) (new : Digest) (ds : List Digest) → length (update nonce new ds) ≡ length ds
unfolding update
length-update nonce new [] = refl
length-update nonce new (d ∷ ds) = ground (arith, length-update nonce new ds)

find-append :
    (nonce : Text) (new : Digest) (ds : List Digest)
    → find nonce ds ≡ none
    → text_eq new.nonce nonce ≡ false
    → find nonce (ds ++ (new ∷ [])) ≡ none
unfolding find
find-append nonce new [] h n = ground arith
find-append nonce new (d ∷ ds) h n = ground (arith, find-append nonce new ds)

append-AllDistinct :
    (new : Digest) (ds : List Digest)
    → find new.nonce ds ≡ none
    → AllDistinct ds
    → AllDistinct (ds ++ (new ∷ []))
unfolding find
append-AllDistinct new [] f h = (refl, tt)
append-AllDistinct new (d ∷ ds) f h =
    let other : text_eq d.nonce new.nonce ≡ false = ground arith in
    let rest : find new.nonce ds ≡ none = ground arith in
    (
      find-append d.nonce new ds h.0 (text_eq_comm new.nonce d.nonce ∙ other),
      append-AllDistinct new ds rest h.1,
    )

append-AllLive :
    (now : ℕ) (new : Digest) (ds : List Digest)
    → now ≤ new.check_time + http_digest_expiretime
    → AllLive now ds
    → AllLive now (ds ++ (new ∷ []))
append-AllLive now new [] n h = (n, tt)
append-AllLive now new (d ∷ ds) n h = (h.0, append-AllLive now new ds n h.1)

pub find-nonce :
    (nonce : Text) (d : Digest) (ds : List Digest) → find nonce ds ≡ some d → d.nonce ≡ nonce
unfolding find
find-nonce nonce d [] h = cc
find-nonce nonce d (e ∷ ds) h = ground (arith, find-nonce nonce d ds, eq_of_text_eq e.nonce nonce)

module _ (k : Kernel) (o : Outside) where
  timenow-on_time : (log : Log) → timenow k log ≤ k.on_time log + http_digest_expiretime
  timenow-on_time log = omega arith

  pub check_digest_expire-IsTable :
      (g : Digests) (log : Log) (now : ℕ)
      → IsTable now g
      → IsTable (timenow k log) (check_digest_expire k o g log)
  unfolding check_digest_expire
  check_digest_expire-IsTable g log now h = record {
    bounded = omega (arith, length-live (timenow k log) g.list, h.bounded);
    distinct = live-AllDistinct (timenow k log) g.list h.distinct;
    alive = live-AllLive (timenow k log) g.list;
  }

  pub add_digest-IsTable :
      (g : Digests) (new : Digest) (log : Log)
      → new.check_time ≡ k.on_time log
      → find new.nonce g.list ≡ none
      → leb http_digest_max (length g.list) ≡ false
      → IsTable (timenow k log) g
      → IsTable (timenow k log) ((add_digest k o g new none).1)
  unfolding add_digest
  add_digest-IsTable g new log t f room h = record {
    bounded = rw (length-append g.list (new ∷ [])) (ground arith);
    distinct = append-AllDistinct new g.list f h.distinct;
    alive = append-AllLive (timenow k log) new g.list (rw t (timenow-on_time log)) h.alive;
  }

  pub update-IsTable :
      (g : Digests) (nonce : Text) (new : Digest) (log : Log)
      → new.check_time ≡ k.on_time log
      → new.nonce ≡ nonce
      → IsTable (timenow k log) g
      → IsTable (timenow k log) (record g { list = update nonce new g.list })
  update-IsTable g nonce new log t e h = record {
    bounded = rw (length-update nonce new g.list) h.bounded;
    distinct = update-AllDistinct nonce new g.list e h.distinct;
    alive = update-AllLive (timenow k log) nonce new g.list (rw t (timenow-on_time log)) h.alive;
  }
