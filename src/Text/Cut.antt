-- ===== src/Text/Cut.antt =====
-- A text cut at a byte: `strings.Index`, `strings.LastIndex` and `strings.SplitN(s, sep, 2)`.
use vullify_backend.Prelude.{
  ==_refl, ℕ, ◌≡◌, refl, false, any, ◌++◌, arith, Bool-cases, inl, inr, Option, none, some, [], ◌∷◌,
  if◌then◌else◌, ◌==◌,
}
use vullify_backend.Text.{Text}

-- `strings.Index` and `strings.LastIndex` of one byte, with the parts before and after it.
abbrev pub before_cons : ℕ → Option (Text × Text) → Option (Text × Text)
before_cons d none = none
before_cons d (some (a, b)) = some (d ∷ a, b)

unfoldable pub cut_first : ℕ → Text → Option (Text × Text)
cut_first c [] = none
cut_first c (d ∷ t) = if d == c then some ([], t) else before_cons d (cut_first c t)

unfoldable pub cut_last : ℕ → Text → Option (Text × Text)
cut_last c [] = none
cut_last c (d ∷ t) = elim (cut_last c t) [
  | none ↦ if d == c then some ([], t) else none
  | some p ↦ some (d ∷ p.0, p.1)
]

pub cut_first-found :
    (c : ℕ) (p rest : Text)
    → any (λ d. d == c) p ≡ false
    → cut_first c (p ++ c ∷ rest) ≡ some (p, rest)
unfolding cut_first
cut_first-found c [] rest h = rw (==_refl c) refl
cut_first-found c (d ∷ p) rest h = elim (Bool-cases (d == c)) [
  | inl e ↦ absurd (ground arith)
  | inr e ↦ rw (e, cut_first-found c p rest (ground arith)) refl
]
