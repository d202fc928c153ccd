-- ===== src/Registry/Challenge/RoundTrip.antt =====
-- A challenge is read back from the header in which a registry writes it.
use vullify_backend.Prelude.{
  any-append, ◌||◌, ℕ, ◌≡◌, refl, sym, Bool, true, false, [], ◌∷◌, ◌++◌, ◌==◌, any, subst, drop,
  reverse, Bool-cases, inl, inr, arith,
}
use mathlib.Core.List.{append_assoc, reverse-append, reverse-reverse}
use vullify_backend.Text.{Text, codes, trim_space, trim_left, is_space}
use vullify_backend.Text.Cut.{cut_first}
use vullify_backend.Registry.Challenge.{
  BearerChallenge, parse_www_authenticate, split_from, split_auth_params, trim_quotes,
  trim_quotes_left, set_params,
}

abbrev is_quote : ℕ → Bool
is_quote c = c == b'"'

-- A text that a header can quote.
abbrev pub Quotable : Text → Type 0
Quotable t = any is_quote t ≡ false

abbrev pub quoted : Text → Text
quoted v = b'"' ∷ (v ++ b'"' ∷ [])

-- The header with its three parameters.
abbrev pub print_challenge : BearerChallenge → Text
print_challenge c =
    codes "Bearer realm=\""
    ++ (c.realm
        ++ (codes "\",service=\""
            ++ (c.service ++ (codes "\",scope=\"" ++ (c.scope ++ codes "\"")))))

neither : (a b : Bool) → a || b ≡ false → (a ≡ false) × (b ≡ false)
neither true b h = absurd (ground arith)
neither false b h = (refl, h)

split-quoted :
    (v rest : Text)
    → Quotable v
    → split_from true (v ++ b'"' ∷ rest)
      ≡ (v ++ b'"' ∷ (split_from false rest).0, (split_from false rest).1)
unfolding split_from
split-quoted [] rest h = refl
split-quoted (c ∷ v) rest h =
    let (e, t) = neither (is_quote c) (any is_quote v) h in
    elim (Bool-cases (c == b',')) [
      | inl comma ↦ rw (e, comma, split-quoted v rest t) refl
      | inr other ↦ rw (e, other, split-quoted v rest t) refl
    ]

trim_quotes_left-kept : (v : Text) → Quotable v → trim_quotes_left v ≡ v
unfolding trim_quotes_left
trim_quotes_left-kept [] h = refl
trim_quotes_left-kept (c ∷ v) h = let (e, t) = neither (is_quote c) (any is_quote v) h in rw e refl

Quotable-snoc : (v : Text) (c : ℕ) → Quotable v → is_quote c ≡ false → Quotable (v ++ c ∷ [])
Quotable-snoc v c h e = rw (any-append is_quote v c, h, e) refl

Quotable-reverse : (v : Text) → Quotable v → Quotable (reverse v)
Quotable-reverse [] h = refl
Quotable-reverse (c ∷ v) h =
    let (e, t) = neither (is_quote c) (any is_quote v) h in
    subst Quotable (sym (reverse-append (c ∷ []) v))
      (Quotable-snoc (reverse v) c (Quotable-reverse v t) e)

-- The quotes of a quoted text are taken off, and nothing else.
trim_quotes-quoted : (v : Text) → Quotable v → trim_quotes (quoted v) ≡ v
unfolding trim_quotes trim_quotes_left
trim_quotes-quoted [] h = refl
trim_quotes-quoted (c ∷ v) h =
    let (e, t) = neither (is_quote c) (any is_quote v) h in
    let back : reverse (c ∷ v ++ b'"' ∷ []) ≡ b'"' ∷ reverse (c ∷ v) =
      reverse-append (c ∷ v) (b'"' ∷ []) in
    rw
      (
        e,
        back,
        trim_quotes_left-kept (reverse (c ∷ v)) (Quotable-reverse (c ∷ v) h),
        reverse-reverse (c ∷ v),
      )
      refl

-- A text with no space at its ends is left as it is.
trim_space-kept :
    (c d : ℕ) (t : Text)
    → is_space c ≡ false
    → is_space d ≡ false
    → trim_space (c ∷ (t ++ d ∷ [])) ≡ c ∷ (t ++ d ∷ [])
unfolding trim_space trim_left
trim_space-kept c d t hc hd =
    let back : reverse (c ∷ t ++ d ∷ []) ≡ d ∷ reverse (c ∷ t) = reverse-append (c ∷ t) (d ∷ []) in
    rw (hc, back, hd, sym back, reverse-reverse (c ∷ (t ++ d ∷ []))) refl

header-trimmed : (c : BearerChallenge) → trim_space (print_challenge c) ≡ print_challenge c
unfolding is_space
header-trimmed c = subst (λ t. trim_space t ≡ t) ends (trim_space-kept b'B' b'"' body refl refl)
  where
    body : Text
    body =
        codes "earer realm=\""
        ++ (c.realm ++ (codes "\",service=\"" ++ (c.service ++ (codes "\",scope=\"" ++ c.scope))))

    ends : b'B' ∷ (body ++ b'"' ∷ []) ≡ print_challenge c
    ends =
        rw
          (
            append_assoc c.realm
                (codes "\",service=\"" ++ (c.service ++ (codes "\",scope=\"" ++ c.scope)))
                (codes "\""),
            append_assoc c.service (codes "\",scope=\"" ++ c.scope) (codes "\""),
          )
          refl

split-print :
    (c : BearerChallenge)
    → Quotable c.realm
    → Quotable c.service
    → Quotable c.scope
    → split_auth_params (drop 7 (print_challenge c))
      ≡ (codes "realm=" ++ quoted c.realm)
        ∷ (codes "service=" ++ quoted c.service)
        ∷ (codes "scope=" ++ quoted c.scope)
        ∷ []
unfolding split_auth_params split_from is_space
split-print c hr hs hp =
    rw
      (
        split-quoted c.realm
            (codes ",service=\"" ++ (c.service ++ (codes "\",scope=\"" ++ (c.scope ++ codes "\""))))
            hr,
        split-quoted c.service (codes ",scope=\"" ++ (c.scope ++ codes "\"")) hs,
        split-quoted c.scope [] hp,
        trim_space-kept b'r' b'"' (codes "ealm=\"" ++ c.realm) refl refl,
        trim_space-kept b's' b'"' (codes "ervice=\"" ++ c.service) refl refl,
        trim_space-kept b's' b'"' (codes "cope=\"" ++ c.scope) refl refl,
      )
      refl

-- A challenge whose texts have no quote is read back from the header that shows it, whatever
-- commas, spaces or equals signs they have.
pub parse_www_authenticate-print :
    (c : BearerChallenge)
    → Quotable c.realm
    → Quotable c.service
    → Quotable c.scope
    → parse_www_authenticate (print_challenge c) ≡ c
unfolding parse_www_authenticate set_params cut_first
parse_www_authenticate-print c hr hs hp =
    rw
      (
        header-trimmed c,
        split-print c hr hs hp,
        trim_quotes-quoted c.realm hr,
        trim_quotes-quoted c.service hs,
        trim_quotes-quoted c.scope hp,
      )
      refl
