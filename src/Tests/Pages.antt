-- ===== src/Tests/Pages.antt =====
-- src/camhttp.c
use camlite.Base.{◌≡◌, refl, [], ◌∷◌, codes, Text}
use camlite.Camhttp.{hex2string}

-- The first bytes of a digest, in the 33 bytes of a nonce and in four bytes.
abbrev digest : Text
digest = 222 ∷ 173 ∷ 15 ∷ []

hex2string_run : hex2string digest 33 ≡ codes "dead0f"
unfolding hex2string
hex2string_run = refl
