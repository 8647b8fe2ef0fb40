-- ===== src/Camhttp/Parameters.antt =====
-- src/camhttp.c, get_http_parameter: the parameters of a digest header.
-- strsep and the trimming write NULs into `src`; a text here is what lies before the NUL.
use camlite.Base.{
  ℕ, Bool, true, false, ◌&&◌, ◌||◌, Option, none, some, List, [], ◌∷◌, Text, ◌==◌, if◌then◌else◌,
  length,
}
use camlite.Libc.{text_eq}

abbrev push_byte : ℕ → List Text → List Text
push_byte c [] = (c ∷ []) ∷ []
push_byte c (p ∷ ps) = (c ∷ p) ∷ ps

-- `while (strsep(&q, ","))`: the texts between the commas.
unfoldable pub pieces : Text → List Text
pieces [] = [] ∷ []
pieces (c ∷ s) = let rest = pieces s in if c == b',' then [] ∷ rest else push_byte c rest

unfoldable pub nonempty : List Text → List Text
nonempty [] = []
nonempty (p ∷ ps) = let rest = nonempty ps in if length p == 0 then rest else p ∷ rest

-- The pieces that the loop over q meets: the first one as it is, and of the others those that are not
-- empty, since q skips NULs.
unfoldable pub after_first : List Text → List Text
unfolding nonempty
after_first [] = []
after_first (p ∷ ps) = p ∷ nonempty ps

unfoldable pub rounds : Text → List Text
unfolding pieces after_first
rounds [] = []
rounds (c ∷ s) = after_first (pieces (c ∷ s))

abbrev push_name : ℕ → Option (Text × Text) → Option (Text × Text)
push_name c none = none
push_name c (some (name, value)) = some (c ∷ name, value)

-- strsep(&value, "="): `none` where value becomes NULL.
unfoldable pub name_value : Text → Option (Text × Text)
name_value [] = none
name_value (c ∷ s) =
    let rest = push_name c (name_value s) in if c == b'=' then some ([], s) else rest

abbrev pub is_blank : ℕ → Bool
is_blank c = c == 9 || c == 32

unfoldable pub trim_front : Text → Text
trim_front [] = []
trim_front (c ∷ s) = let rest = trim_front s in if is_blank c then rest else c ∷ s

unfoldable pub trim_back : Text → Text
trim_back [] = []
trim_back (c ∷ s) =
    let rest = trim_back s in if is_blank c && length rest == 0 then [] else c ∷ rest

-- The front of a value: blanks, and one quote that ends them.
unfoldable pub open_quote : Text → Text
open_quote [] = []
open_quote (c ∷ s) =
    let rest = open_quote s in if c == b'"' then s else if is_blank c then rest else c ∷ s

-- One quote at the end
unfoldable pub close_quote : Text → Text
close_quote [] = []
close_quote (c ∷ []) = if c == b'"' then [] else c ∷ []
close_quote (c ∷ d ∷ s) = c ∷ close_quote (d ∷ s)

unfoldable pub trim_name : Text → Text
unfolding trim_front trim_back
trim_name name = trim_back (trim_front name)

unfoldable pub trim_value : Text → Text
unfolding open_quote trim_back close_quote
trim_value value = close_quote (trim_back (open_quote value))

-- `http_parameter_t`; a value that is `none` is NULL.
pub record HttpParameter : Type 0 where
  pub key : Text
  pub value : Option Text

unfoldable pub store_value : Text → Text → List HttpParameter → List HttpParameter
store_value name value [] = []
store_value name value (p ∷ ps) =
    let rest = store_value name value ps in
    if text_eq name p.key then record p { value = some value } ∷ rest else p ∷ rest

-- One round of the loop: a piece with no `=` ends it.
unfoldable pub take_piece :
    (List HttpParameter → List HttpParameter)
    → Option (Text × Text)
    → List HttpParameter
    → List HttpParameter
unfolding store_value trim_name trim_value
take_piece go none ps = ps
take_piece go (some (name, value)) ps = go (store_value (trim_name name) (trim_value value) ps)

unfoldable pub take_pieces : List Text → List HttpParameter → List HttpParameter
unfolding take_piece name_value
take_pieces [] ps = ps
take_pieces (p ∷ rest) ps = take_piece (take_pieces rest) (name_value p) ps

abbrev is_some : Option Text → Bool
is_some none = false
is_some (some v) = true

unfoldable pub all_set : List HttpParameter → Bool
all_set [] = true
all_set (p ∷ ps) = is_some p.value && all_set ps

unfoldable pub get_http_parameter : Text → List HttpParameter → Bool × List HttpParameter
unfolding rounds take_pieces all_set
get_http_parameter src ps = let ps' = take_pieces (rounds src) ps in (all_set ps', ps')
