-- ===== src/Registry/Challenge.antt =====
-- The challenge of a registry that wants a token: parseWwwAuthenticate and splitAuthParams of
-- internal/registry/v2.go.
pub mod RoundTrip
use vullify_backend.Prelude.{
  ℕ, Bool, true, false, not, ◌&&◌, Option, none, some, List, [], ◌∷◌, if◌then◌else◌, ◌==◌, drop,
  reverse,
}
use vullify_backend.Text.{Text, codes, text_eq, is_empty, trim_space, to_lower, has_prefix}
use vullify_backend.Text.Cut.{cut_first}

-- `bearerChallenge`.
pub record BearerChallenge : Type 0 where
  pub realm : Text
  pub service : Text
  pub scope : Text

-- The rest of the part that is read, and the parts after it; a part ends at a comma outside
-- quotes, and an empty rest of the text is no part.
unfoldable pub split_from : Bool → Text → Text × List Text
unfolding trim_space
split_from quoted [] = ([], [])
split_from quoted (c ∷ s) =
    let q : Bool = if c == b'"' then not quoted else quoted in
    let (part, parts) = split_from q s in
    if c == b',' && not q
    then ([], if is_empty s then [] else trim_space part ∷ parts)
    else (c ∷ part, parts)

unfoldable pub split_auth_params : Text → List Text
unfolding split_from trim_space
split_auth_params [] = []
split_auth_params (c ∷ s) = let (part, parts) = split_from false (c ∷ s) in trim_space part ∷ parts

unfoldable pub trim_quotes_left : Text → Text
trim_quotes_left [] = []
trim_quotes_left (c ∷ s) = if c == b'"' then trim_quotes_left s else c ∷ s

-- strings.Trim of quotes.
unfoldable pub trim_quotes : Text → Text
unfolding trim_quotes_left
trim_quotes s = reverse (trim_quotes_left (reverse (trim_quotes_left s)))

abbrev pub set_named : Text → Text → BearerChallenge → BearerChallenge
set_named key val c =
    if text_eq key (codes "realm")
    then record c { realm = val }
    else if text_eq key (codes "service")
    then record c { service = val }
    else if text_eq key (codes "scope")
    then record c { scope = val }
    else c

abbrev pub set_param : Option (Text × Text) → BearerChallenge → BearerChallenge
set_param none c = c
set_param (some (key, val)) c = set_named (to_lower (trim_space key)) (trim_quotes val) c

unfoldable pub set_params : List Text → BearerChallenge → BearerChallenge
unfolding cut_first text_eq to_lower trim_space trim_quotes
set_params [] c = c
set_params (part ∷ parts) c = set_params parts (set_param (cut_first b'=' part) c)

abbrev pub no_challenge : BearerChallenge
no_challenge = record { realm = []; service = []; scope = [] }

unfoldable pub parse_www_authenticate : Text → BearerChallenge
unfolding set_params split_auth_params has_prefix to_lower trim_space
parse_www_authenticate header =
    let header : Text = trim_space header in
    if has_prefix (to_lower header) (codes "bearer ")
    then set_params (split_auth_params (drop 7 header)) no_challenge
    else no_challenge
