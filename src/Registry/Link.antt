-- ===== src/Registry/Link.antt =====
-- The address of the next page and the path of a repository: nextCatalogURL, linkNext and
-- encodeRepoPath of internal/registry/gcr.go.
use vullify_backend.Prelude.{
  ℕ, Bool, false, ◌||◌, Option, none, some, [], ◌∷◌, ◌++◌, if◌then◌else◌, ◌==◌,
}
use vullify_backend.Text.{Text, codes, is_empty, trim_space, has_prefix}
use vullify_backend.Text.Cut.{cut_first}

-- `\s` of a regular expression.
abbrev pub is_blank : ℕ → Bool
is_blank c = c == 9 || (c == 10 || (c == 12 || (c == 13 || c == b' ')))

unfoldable pub skip_blanks : Text → Text
skip_blanks [] = []
skip_blanks (c ∷ t) = if is_blank c then skip_blanks t else c ∷ t

-- Whether a text starts with `\s*;\s*rel="next"`.
abbrev after_semicolon : Text → Bool
after_semicolon [] = false
after_semicolon (c ∷ t) =
    if c == b';' then has_prefix (skip_blanks t) (codes "rel=\"next\"") else false

abbrev names_next : Text → Bool
names_next t = after_semicolon (skip_blanks t)

abbrev next_of : Option (Text × Text) → Option Text
next_of none = none
next_of (some (url, rest)) =
    if is_empty url then none else if names_next rest then some url else none

abbrev first_of : Option Text → Option Text → Option Text
first_of none later = later
first_of (some url) later = some url

-- The group of the leftmost match of `linkNext`.
unfoldable pub link_next : Text → Option Text
unfolding cut_first has_prefix skip_blanks
link_next [] = none
link_next (c ∷ t) =
    let later = link_next t in
    if c == b'<' then first_of (next_of (cut_first b'>' t)) later else later

abbrev absolute : Text → Text → Text
absolute base url = if has_prefix url (codes "/") then base ++ url else url

abbrev next_url : Text → Option Text → Text
next_url base none = []
next_url base (some url) = absolute base (trim_space url)

unfoldable pub next_catalog_url : Text → Text → Text
unfolding link_next has_prefix trim_space
next_catalog_url link base = next_url base (link_next link)

-- The first part, and the others with their slashes.
unfoldable pub encode_parts : (Text → Text) → Text → Text × Text
encode_parts escape [] = ([], [])
encode_parts escape (c ∷ t) =
    let (part, rest) = encode_parts escape t in
    if c == b'/' then ([], b'/' ∷ (escape part ++ rest)) else (c ∷ part, rest)

unfoldable pub encode_repo_path : (Text → Text) → Text → Text
unfolding encode_parts
encode_repo_path escape repository =
    let (part, rest) = encode_parts escape repository in escape part ++ rest
