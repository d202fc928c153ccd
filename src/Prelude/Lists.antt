-- ===== src/Prelude/Lists.antt =====
-- Lists measured by native numbers, under the library's names, and the row operations that the
-- SQL statements of the repository come down to.
use Prim.Native.Nat.{ℕ, zero, suc, ◌+◌, ◌-◌, ◌≤◌, min}
use mathlib.Core.Path.{◌≡◌, refl, ap}
use mathlib.Core.Bool.{Bool, true, false, ◌||◌}
use mathlib.Core.Option.{Option, none, some}
use mathlib.Core.List.{List, [], ◌∷◌, ◌++◌}
use native.Mathlib.Omega.{arith}
use vullify_backend.Prelude.Tests.{if◌then◌else◌}

module _ {ℓ} {A : Type ℓ} where
  abbrev pub length : List A → ℕ
  length [] = 0
  length (x ∷ xs) = suc (length xs)

  abbrev pub take : ℕ → List A → List A
  take zero xs = []
  take (suc n) [] = []
  take (suc n) (x ∷ xs) = x ∷ take n xs

  abbrev pub drop : ℕ → List A → List A
  drop zero xs = xs
  drop (suc n) [] = []
  drop (suc n) (x ∷ xs) = drop n xs

  abbrev pub any : (A → Bool) → List A → Bool
  any p [] = false
  any p (x ∷ xs) = p x || any p xs

  -- The row that a key selects.
  abbrev pub find_row : (A → Bool) → List A → Option A
  find_row p [] = none
  find_row p (x ∷ xs) = if p x then some x else find_row p xs

  -- How many rows a test selects.
  abbrev pub count_where : (A → Bool) → List A → ℕ
  count_where p [] = 0
  count_where p (x ∷ xs) = (if p x then 1 else 0) + count_where p xs

  -- `UPDATE … SET f WHERE p`.
  abbrev pub update_where : (A → Bool) → (A → A) → List A → List A
  update_where p f [] = []
  update_where p f (x ∷ xs) = (if p x then f x else x) ∷ update_where p f xs

  -- `DELETE … WHERE p`.
  abbrev pub delete_where : (A → Bool) → List A → List A
  delete_where p [] = []
  delete_where p (x ∷ xs) = if p x then delete_where p xs else x ∷ delete_where p xs

  pub length-append : (xs ys : List A) → length (xs ++ ys) ≡ length xs + length ys
  length-append [] ys = omega arith
  length-append (x ∷ xs) ys = omega (arith, length-append xs ys)

  pub count_where-append :
      (p : A → Bool) (xs ys : List A)
      → count_where p (xs ++ ys) ≡ count_where p xs + count_where p ys
  count_where-append p [] ys = omega arith
  count_where-append p (x ∷ xs) ys = omega (arith, count_where-append p xs ys)

  pub take-append-drop : (n : ℕ) (xs : List A) → take n xs ++ drop n xs ≡ xs
  take-append-drop zero xs = refl
  take-append-drop (suc n) [] = refl
  take-append-drop (suc n) (x ∷ xs) = ap (◌∷◌ x) (take-append-drop n xs)

-- What `any` says of a list that was searched, extended or updated.
module _ {ℓ} {A : Type ℓ} where
  pub any-find_row : (p : A → Bool) (xs : List A) (a : A) → find_row p xs ≡ some a → any p xs ≡ true
  any-find_row p [] a h = absurd (ground arith)
  any-find_row p (x ∷ xs) a h = ground (arith, any-find_row p xs a)

  pub any-append : (p : A → Bool) (xs : List A) (a : A) → any p (xs ++ a ∷ []) ≡ any p xs || p a
  any-append p [] a = ground arith
  any-append p (x ∷ xs) a = ground (arith, any-append p xs a)

  pub any-update_blind :
      (p q : A → Bool) (f : A → A)
      → ((x : A) → p (f x) ≡ p x)
      → (xs : List A) → any p (update_where q f xs) ≡ any p xs
  any-update_blind p q f h [] = refl
  any-update_blind p q f h (x ∷ xs) = ground (arith, h x, any-update_blind p q f h xs)

-- Parts of a list.
module _ {ℓ} {A : Type ℓ} where
  pub length-take : (n : ℕ) (xs : List A) → length (take n xs) ≡ min n (length xs)
  length-take zero xs = omega arith
  length-take (suc n) [] = omega arith
  length-take (suc n) (x ∷ xs) = omega (arith, length-take n xs)

  pub length-drop : (n : ℕ) (xs : List A) → length (drop n xs) ≡ length xs - n
  length-drop zero xs = omega arith
  length-drop (suc n) [] = omega arith
  length-drop (suc n) (x ∷ xs) = omega (arith, length-drop n xs)

  pub take_long : (n : ℕ) (xs : List A) → length xs ≤ n → take n xs ≡ xs
  take_long zero [] h = refl
  take_long zero (x ∷ xs) h = absurd (omega arith)
  take_long (suc n) [] h = refl
  take_long (suc n) (x ∷ xs) h = ap (◌∷◌ x) (take_long n xs (omega arith))

  pub take_add : (n m s : ℕ) (xs : List A) → n + m ≡ s → take n xs ++ take m (drop n xs) ≡ take s xs
  take_add zero m s xs e = ap (λ k. take k xs) (omega arith)
  take_add (suc n) zero zero [] e = refl
  take_add (suc n) zero (suc s) [] e = refl
  take_add (suc n) (suc m) zero [] e = refl
  take_add (suc n) (suc m) (suc s) [] e = refl
  take_add (suc n) m zero (x ∷ xs) e = absurd (omega arith)
  take_add (suc n) m (suc s) (x ∷ xs) e = ap (◌∷◌ x) (take_add n m s xs (omega arith))

-- What the tests of an update and a deletion on the same rows leave.
module _ {ℓ} {A : Type ℓ} (p : A → Bool) where
  pub delete_where-update_where :
      (f : A → A)
      → ((x : A) → p x ≡ true → p (f x) ≡ true)
      → (xs : List A) → delete_where p (update_where p f xs) ≡ delete_where p xs
  delete_where-update_where f h [] = refl
  delete_where-update_where f h (x ∷ xs) = ground (arith, h x, delete_where-update_where f h xs)

  pub delete_where_idem : (xs : List A) → delete_where p (delete_where p xs) ≡ delete_where p xs
  delete_where_idem [] = refl
  delete_where_idem (x ∷ xs) = ground (arith, delete_where_idem xs)

  pub delete_where-snoc :
      (xs : List A) (x : A) → p x ≡ true → delete_where p (xs ++ x ∷ []) ≡ delete_where p xs
  delete_where-snoc [] x h = rw h
  delete_where-snoc (y ∷ xs) x h = ground (arith, delete_where-snoc xs x h)

  pub count_where-delete_where : (xs : List A) → count_where p (delete_where p xs) ≡ 0
  count_where-delete_where [] = refl
  count_where-delete_where (x ∷ xs) = ground (arith, count_where-delete_where xs)

  pub count_where-update_where :
      (f : A → A)
      → ((x : A) → p x ≡ true → p (f x) ≡ true)
      → (xs : List A) → count_where p (update_where p f xs) ≡ count_where p xs
  count_where-update_where f h [] = refl
  count_where-update_where f h (x ∷ xs) = ground (arith, h x, count_where-update_where f h xs)

  pub count_where-find_row : (xs : List A) → find_row p xs ≡ none → count_where p xs ≡ 0
  count_where-find_row [] h = refl
  count_where-find_row (x ∷ xs) h = ground (arith, count_where-find_row xs)

  -- What an update that the test does not see leaves.
  pub count_where-update_blind :
      (q : A → Bool) (f : A → A)
      → ((x : A) → p (f x) ≡ p x)
      → (xs : List A) → count_where p (update_where q f xs) ≡ count_where p xs
  count_where-update_blind q f h [] = refl
  count_where-update_blind q f h (x ∷ xs) = ground (arith, h x, count_where-update_blind q f h xs)

  pub find_row-snoc :
      (x : A) (xs : List A) → find_row p xs ≡ none → p x ≡ true → find_row p (xs ++ x ∷ []) ≡ some x
  find_row-snoc x [] h e = rw e refl
  find_row-snoc x (y ∷ xs) h e = ground (arith, find_row-snoc x xs)

  pub find_row-update_blind :
      (q : A → Bool) (f : A → A) (a : A) (xs : List A)
      → ((x : A) → p (f x) ≡ p x)
      → q a ≡ true
      → find_row p xs ≡ some a
      → find_row p (update_where q f xs) ≡ some (f a)
  find_row-update_blind q f a [] h e g = absurd (ground arith)
  find_row-update_blind q f a (x ∷ xs) h e g =
      ground (arith, h x, find_row-update_blind q f a xs h e)

module _ {ℓ} {A : Type ℓ} where
  pub length-update_where :
      (q : A → Bool) (f : A → A) (xs : List A) → length (update_where q f xs) ≡ length xs
  length-update_where q f [] = refl
  length-update_where q f (x ∷ xs) = ap suc (length-update_where q f xs)

module _ {ℓ κ} {A : Type ℓ} (P : A → Type κ) where
  -- A predicate on every entry.
  abbrev pub All : List A → Type κ
  All [] = Unit
  All (x ∷ xs) = P x × All xs

  pub All-append : (xs ys : List A) → All xs → All ys → All (xs ++ ys)
  All-append [] ys hx hy = hy
  All-append (x ∷ xs) ys hx hy = (hx.0, All-append xs ys hx.1 hy)

  pub All-split : (xs ys : List A) → All (xs ++ ys) → All xs × All ys
  All-split [] ys h = (tt, h)
  All-split (x ∷ xs) ys h = ((h.0, (All-split xs ys h.1).0), (All-split xs ys h.1).1)
