-- ===== src/Api/Decimal.antt =====
-- A number in decimal digits is read back: internal/api/pagination.go against fmt's `%d`.
use native.Mathlib.Nat.{mul-le-mul}
use vullify_backend.Prelude.{
  ℕ, zero, suc, ◌≡◌, refl, ◌∙◌, ap, subst, ◌+◌, ◌*◌, ◌-◌, ◌/◌, ◌%◌, ◌<◌, ◌≤◌, true, false, some, [],
  ◌∷◌, arith, ltb, ◌==◌, Bool-cases, inl, inr,
}
use vullify_backend.Text.{Text, decimal, decimal_from}
use vullify_backend.Api.{positive_int, unsigned, digits, is_digit, max_int, parse_pagination}

digits-digit :
    (d acc m : ℕ) (t : Text) → d < 10 → 10 * acc + d ≡ m → digits acc ((b'0' + d) ∷ t) ≡ digits m t
unfolding digits
digits-digit d acc m t h e =
    let is : is_digit (b'0' + d) ≡ true = ground arith in rw is (ap (λ k. digits k t) (omega arith))

digits-decimal_from : (f n : ℕ) (t : Text) → n < f → digits 0 (decimal_from f n t) ≡ digits n t
unfolding decimal_from
digits-decimal_from zero n t h = absurd (omega arith)
digits-decimal_from (suc f) n t h = elim (Bool-cases (ltb n 10)) [
  | inl small ↦ rw small (digits-digit n 0 n t (ground arith) (omega arith))
  | inr large ↦ rw large (
      digits-decimal_from f (n / 10) ((b'0' + n % 10) ∷ t) (ground arith)
      ∙ digits-digit (n % 10) (n / 10) n t (omega arith) (omega arith))
]

-- The first character is a digit.
decimal_from-first :
    (f n : ℕ) (t : Text) → n < f → (c : ℕ) × (s : Text) × (decimal_from f n t ≡ c ∷ s) × (b'0' ≤ c)
unfolding decimal_from
decimal_from-first zero n t h = absurd (omega arith)
decimal_from-first (suc f) n t h = elim (Bool-cases (ltb n 10)) [
  | inl small ↦ (b'0' + n, t, rw small refl, omega arith)
  | inr large ↦
      let (c, s, e, lo) = decimal_from-first f (n / 10) ((b'0' + n % 10) ∷ t) (ground arith) in
      (c, s, rw large e, lo)
]

-- A positive number that fits an int is read back from its digits.
pub positive_int-decimal : (n : ℕ) → 0 < n → n ≤ max_int → positive_int (decimal n) ≡ some n
unfolding positive_int unsigned decimal
positive_int-decimal n pos fits =
    let (c, s, e, lo) = decimal_from-first (suc n) n [] (omega arith) in
    let read : digits 0 (c ∷ s) ≡ some n =
      subst (λ u. digits 0 u ≡ some n) e (digits-decimal_from (suc n) n [] (omega arith)) in
    let unsign : (c == 43) ≡ false = ground arith in rw (e, unsign, read) (ground arith)

-- The query of a page: its number and its size are read back, and the offset is what comes before.
pub parse_pagination-decimal :
    (page per_page : ℕ)
    → 0 < page
    → page ≤ 1_000_000
    → 0 < per_page
    → per_page ≤ 100
    → parse_pagination (decimal page) (decimal per_page)
      ≡ record { page = page; per_page = per_page; offset = (page - 1) * per_page }
unfolding parse_pagination
parse_pagination-decimal page per_page p q r s =
    let small : ltb 100 per_page ≡ false = ground arith in
    let le : (page - 1) * per_page ≤ 999_999 * 100 = mul-le-mul {n₂ = 999_999} (omega arith) s in
    rw
      (
        positive_int-decimal page p (omega arith),
        positive_int-decimal per_page r (omega arith),
        small,
      )
      (ap (λ o. record { page = page; per_page = per_page; offset = o }) (omega (arith, le)))
