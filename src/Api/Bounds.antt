-- ===== src/Api/Bounds.antt =====
-- Bounds of a page: internal/api/pagination.go.
use vullify_backend.Prelude.{
  ℕ, ◌≡◌, refl, ◌≤◌, ◌<◌, ◌*◌, ◌-◌, ◌%◌, ◌⊎◌, inl, inr, Bool, true, false, ◌&&◌, Option, none, some,
  arith, if◌then◌else◌, ltb, leb, [], ◌∷◌, ◌==◌,
}
use native.Mathlib.Nat.{mul-le-mul}
use vullify_backend.Text.{Text, is_empty}
use vullify_backend.Api.{
  parse_pagination, positive_int, or_default, max_int, two_64, unsigned, in_range, digits,
}

-- A number that `positive_int` gives, and the number with a default.
abbrev InRange : Option ℕ → Type 0
InRange none = Unit
InRange (some n) = (1 ≤ n) × (n ≤ max_int)

in_range-InRange : (o : Option ℕ) → InRange (in_range o)
in_range-InRange none = tt
in_range-InRange (some n) = checked (ltb 0 n && leb n max_int) refl
  where
    checked : (b : Bool) → ltb 0 n && leb n max_int ≡ b → InRange (if b then some n else none)
    checked true e = (ground arith, ground arith)
    checked false e = tt

InRange-if : (b : Bool) (x y : Option ℕ) → InRange x → InRange y → InRange (if b then x else y)
InRange-if true x y hx hy = hx
InRange-if false x y hx hy = hy

unsigned-InRange : (t : Text) → InRange (unsigned t)
unfolding unsigned
unsigned-InRange t =
    InRange-if (is_empty t) none (in_range (digits 0 t)) tt (in_range-InRange (digits 0 t))

positive_int-InRange : (t : Text) → InRange (positive_int t)
unfolding positive_int
positive_int-InRange [] = tt
positive_int-InRange (c ∷ cs) =
    InRange-if (c == 43) (unsigned cs) (unsigned (c ∷ cs)) (unsigned-InRange cs)
      (unsigned-InRange (c ∷ cs))

or_default-InRange :
    (d : ℕ) (o : Option ℕ)
    → (1 ≤ d) × (d ≤ max_int)
    → InRange o
    → (1 ≤ or_default d o) × (or_default d o ≤ max_int)
or_default-InRange d none hd h = hd
or_default-InRange d (some n) hd h = h

-- The number of the last page whose offset surely fits.
abbrev pub last_safe : ℕ
last_safe = 92_233_720_368_547_758

offset-exact :
    (page per_page : ℕ)
    → per_page ≤ 100
    → (last_safe < page)
      ⊎ (((page - 1) * per_page) % two_64 ≡ (page - 1) * per_page)
        × (((page - 1) * per_page) % two_64 ≤ max_int)
offset-exact page per_page h = safe (ltb last_safe page) refl
  where
    safe :
        (b : Bool)
        → ltb last_safe page ≡ b
        → (last_safe < page)
          ⊎ (((page - 1) * per_page) % two_64 ≡ (page - 1) * per_page)
            × (((page - 1) * per_page) % two_64 ≤ max_int)
    safe true e = inl (ground arith)
    safe false e =
        let le : (page - 1) * per_page ≤ 92_233_720_368_547_757 * 100 =
          mul-le-mul {n₂ = 92_233_720_368_547_757} (ground arith) h in
        inr (omega (arith, le), omega (arith, le))

-- A page counts from 1 and fits an int, and has 1 to 100 entries, whatever the query says. Its
-- offset is the number of the entries before it, unless the page's number is over 2^63 / 100.
pub parse_pagination-bounds :
    (page_value per_page_value : Text)
    → let p = parse_pagination page_value per_page_value in
      (1 ≤ p.page)
      × (p.page ≤ max_int)
      × (1 ≤ p.per_page)
      × (p.per_page ≤ 100)
      × ((last_safe < p.page) ⊎ (p.offset ≡ (p.page - 1) * p.per_page) × (p.offset ≤ max_int))
unfolding parse_pagination
parse_pagination-bounds page_value per_page_value =
    let (p1, p2) =
      or_default-InRange 1 _ (ground arith, ground arith) (positive_int-InRange page_value) in
    let (q1, q2) =
      or_default-InRange 20 _ (ground arith, ground arith) (positive_int-InRange per_page_value) in
    (p1, p2, ground arith, ground arith, offset-exact _ _ (ground arith))
