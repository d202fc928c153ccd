-- ===== src/Text/Trim.antt =====
-- `strings.TrimSpace` leaves no space at either end, and trimming again changes nothing.
use mathlib.Core.List.{reverse-append, reverse-reverse}
use vullify_backend.Prelude.{
  ◌≡◌, refl, sym, ap, subst, ◌∙◌, ◌≤◌, true, [], ◌∷◌, ◌++◌, reverse, length, if◌then◌else◌, arith,
  Bool-cases, inl, inr,
}
use vullify_backend.Text.{Text, is_space, trim_left, trim_space}

length-trim_left : (t : Text) → length (trim_left t) ≤ length t
unfolding trim_left
length-trim_left [] = omega arith
length-trim_left (c ∷ t) = ground (arith, length-trim_left t)

trim_left_idem : (t : Text) → trim_left (trim_left t) ≡ trim_left t
unfolding trim_left
trim_left_idem [] = refl
trim_left_idem (c ∷ t) = elim (Bool-cases (is_space c)) [
  | inl e ↦ rw e (trim_left_idem t)
  | inr e ↦ rw e (rw e refl)
]

trim_left-split : (t : Text) → (p : Text) × (t ≡ p ++ trim_left t)
unfolding trim_left
trim_left-split [] = ([], refl)
trim_left-split (c ∷ t) = elim (Bool-cases (is_space c)) [
  | inl e ↦ let (p, h) = trim_left-split t in (c ∷ p, rw e (ap (◌∷◌ c) h))
  | inr e ↦ ([], rw e refl)
]

-- A text that starts with no space still does so when its end is cut off.
trim_left-cut : (x y : Text) → trim_left (x ++ y) ≡ x ++ y → trim_left x ≡ x
unfolding trim_left
trim_left-cut [] y h = refl
trim_left-cut (c ∷ x) y h = elim (Bool-cases (is_space c)) [
  | inl e ↦ absurd (omega (arith, length-trim_left (x ++ y), ap length (shorter e)))
  | inr e ↦ rw e refl
]
  where
    shorter : is_space c ≡ true → trim_left (x ++ y) ≡ c ∷ (x ++ y)
    shorter e = subst (λ b. (if b then trim_left (x ++ y) else c ∷ (x ++ y)) ≡ c ∷ (x ++ y)) e h

reverse_idem :
    (t : Text)
    → trim_left (reverse (trim_left (reverse (trim_left t))))
      ≡ reverse (trim_left (reverse (trim_left t)))
reverse_idem t =
    let (p, h) = trim_left-split (reverse (trim_left t)) in
    let whole : trim_left t ≡ reverse (trim_left (reverse (trim_left t))) ++ reverse p =
      sym (reverse-reverse (trim_left t)) ∙ (ap reverse h ∙ reverse-append p _) in
    trim_left-cut _ (reverse p) (subst (λ u. trim_left u ≡ u) whole (trim_left_idem t))

pub trim_space_idem : (t : Text) → trim_space (trim_space t) ≡ trim_space t
unfolding trim_space
trim_space_idem t =
    rw
      (
        reverse_idem t,
        reverse-reverse (trim_left (reverse (trim_left t))),
        trim_left_idem (reverse (trim_left t)),
      )
      refl

pub trim_space-blank : trim_space [] ≡ []
unfolding trim_space trim_left
trim_space-blank = refl
