-- ===== src/Text/Laws.antt =====
-- Laws of the string functions: comparison decides equality, and trimming and case mapping are
-- idempotent.
use vullify_backend.Prelude.{ℕ, ◌≡◌, refl, subst, ◌↔◌, true, [], ◌∷◌, ◌++◌, arith}
use vullify_backend.Text.{Text, text_eq, lower, to_lower, is_empty, has_prefix, skip_prefix}

pub text_eq_refl : (s : Text) → text_eq s s ≡ true
unfolding text_eq
text_eq_refl [] = refl
text_eq_refl (c ∷ s) = ground (arith, text_eq_refl s)

pub text_eq_sound : (s t : Text) → text_eq s t ≡ true → s ≡ t
unfolding text_eq
text_eq_sound [] [] h = refl
text_eq_sound [] (d ∷ t) h = cc
text_eq_sound (c ∷ s) [] h = cc
text_eq_sound (c ∷ s) (d ∷ t) h = ground (arith, text_eq_sound s t)

pub text_eq_iff : (s t : Text) → (text_eq s t ≡ true) ↔ (s ≡ t)
text_eq_iff s t = (text_eq_sound s t, λ e. subst (λ u. text_eq s u ≡ true) e (text_eq_refl s))

lower_idem : (c : ℕ) → lower (lower c) ≡ lower c
unfolding lower
lower_idem c = ground arith

pub to_lower_idem : (s : Text) → to_lower (to_lower s) ≡ to_lower s
unfolding to_lower
to_lower_idem [] = refl
to_lower_idem (c ∷ s) = cc (lower_idem c, to_lower_idem s)

pub has_prefix-split : (t p : Text) → has_prefix t p ≡ true → t ≡ p ++ skip_prefix p t
unfolding has_prefix skip_prefix
has_prefix-split t [] h = refl
has_prefix-split [] (d ∷ p) h = cc
has_prefix-split (c ∷ t) (d ∷ p) h = ground (arith, has_prefix-split t p)

pub has_prefix-append : (p t : Text) → has_prefix (p ++ t) p ≡ true
unfolding has_prefix
has_prefix-append [] [] = refl
has_prefix-append [] (c ∷ t) = refl
has_prefix-append (c ∷ p) t = ground (arith, has_prefix-append p t)

pub skip_prefix-append : (p t : Text) → skip_prefix p (p ++ t) ≡ t
unfolding skip_prefix
skip_prefix-append [] t = refl
skip_prefix-append (c ∷ p) t = skip_prefix-append p t

pub is_empty_iff : (t : Text) → (is_empty t ≡ true) ↔ (t ≡ [])
is_empty_iff [] = (λ h. refl, λ h. refl)
is_empty_iff (c ∷ t) = (λ h. cc, λ h. cc)

pub text_eq_sym : (s t : Text) → text_eq s t ≡ text_eq t s
unfolding text_eq
text_eq_sym [] [] = refl
text_eq_sym [] (d ∷ t) = refl
text_eq_sym (c ∷ s) [] = refl
text_eq_sym (c ∷ s) (d ∷ t) = ground (arith, text_eq_sym s t)
