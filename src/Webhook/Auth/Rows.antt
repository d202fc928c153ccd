-- ===== src/Webhook/Auth/Rows.antt =====
-- The rows that the loops of internal/webhook/middleware.go run over, and what the loop finds.
use vullify_backend.Prelude.{
  ◌≡◌, refl, sym, subst, Bool, true, false, Option, some, List, [], ◌∷◌, if◌then◌else◌, Memᴰ, arith,
}
use vullify_backend.Text.{Text}
use vullify_backend.World.{RegistryRow}
use vullify_backend.Db.Webhooks.{rows_of_type, insert_by_name, is_of_type}
use vullify_backend.Webhook.Auth.{accepts, first_match}

-- The loop and the statement it runs over.
module _ (test : Text → Bool) (secret : RegistryRow → Option Text) where
  pub first_match_sound :
      (rows : List RegistryRow) (r : RegistryRow)
      → first_match test secret rows ≡ some r
      → Memᴰ r rows × (accepts test (secret r) ≡ true)
  first_match_sound [] r h = absurd (ground arith)
  first_match_sound (s ∷ rows) r h =
      decided (accepts test (secret s)) refl (first_match_sound rows r) h
    where
      decided :
          (b : Bool)
          → accepts test (secret s) ≡ b
          → (first_match test secret rows ≡ some r → Memᴰ r rows × (accepts test (secret r) ≡ true))
          → (if b then some s else first_match test secret rows) ≡ some r
          → Memᴰ r (s ∷ rows) × (accepts test (secret r) ≡ true)
      decided true e ih g =
          let same : s ≡ r = ground arith in
          (Memᴰ.head (sym same), subst (λ x. accepts test (secret x) ≡ true) same e)
      decided false e ih g = let (m, a) = ih g in (Memᴰ.tail m, a)

  pub first_match_complete :
      (rows : List RegistryRow) (r : RegistryRow)
      → Memᴰ r rows
      → accepts test (secret r) ≡ true
      → (s : RegistryRow) × (first_match test secret rows ≡ some s)
  first_match_complete [] r m h = elim m [ ]
  first_match_complete (s ∷ rows) r (Memᴰ.head e) h =
      (s, rw (subst (λ x. accepts test (secret x) ≡ true) e h) refl)
  first_match_complete (s ∷ rows) r (Memᴰ.tail m) h =
      decided (accepts test (secret s)) (first_match_complete rows r m h)
    where
      decided :
          (b : Bool)
          → (t : RegistryRow) × (first_match test secret rows ≡ some t)
          → (t : RegistryRow) × ((if b then some s else first_match test secret rows) ≡ some t)
      decided true ih = (s, refl)
      decided false ih = ih

module _ (before : Text → Text → Bool) where
  insert_by_name-members :
      (s : RegistryRow) (rows : List RegistryRow) (r : RegistryRow)
      → Memᴰ r (insert_by_name before s rows)
      → Memᴰ r (s ∷ rows)
  insert_by_name-members s [] r m = m
  insert_by_name-members s (t ∷ rows) r m =
      decided (before t.name s.name) (insert_by_name-members s rows r) m
    where
      swap : Memᴰ r (s ∷ rows) → Memᴰ r (s ∷ t ∷ rows)
      swap (Memᴰ.head e) = Memᴰ.head e
      swap (Memᴰ.tail n) = Memᴰ.tail (Memᴰ.tail n)

      decided :
          (b : Bool)
          → (Memᴰ r (insert_by_name before s rows) → Memᴰ r (s ∷ rows))
          → Memᴰ r (if b then t ∷ insert_by_name before s rows else s ∷ t ∷ rows)
          → Memᴰ r (s ∷ t ∷ rows)
      decided true ih (Memᴰ.head e) = Memᴰ.tail (Memᴰ.head e)
      decided true ih (Memᴰ.tail n) = swap (ih n)
      decided false ih n = n

  insert_by_name-contains :
      (s : RegistryRow) (rows : List RegistryRow) (r : RegistryRow)
      → Memᴰ r (s ∷ rows)
      → Memᴰ r (insert_by_name before s rows)
  insert_by_name-contains s [] r m = m
  insert_by_name-contains s (t ∷ rows) r m =
      decided (before t.name s.name) (insert_by_name-contains s rows r) m
    where
      decided :
          (b : Bool)
          → (Memᴰ r (s ∷ rows) → Memᴰ r (insert_by_name before s rows))
          → Memᴰ r (s ∷ t ∷ rows)
          → Memᴰ r (if b then t ∷ insert_by_name before s rows else s ∷ t ∷ rows)
      decided true ih (Memᴰ.head e) = Memᴰ.tail (ih (Memᴰ.head e))
      decided true ih (Memᴰ.tail (Memᴰ.head e)) = Memᴰ.head e
      decided true ih (Memᴰ.tail (Memᴰ.tail n)) = Memᴰ.tail (ih (Memᴰ.tail n))
      decided false ih n = n

  pub rows_of_type_sound :
      (typ : Text) (rows : List RegistryRow) (r : RegistryRow)
      → Memᴰ r (rows_of_type before typ rows)
      → Memᴰ r rows × (is_of_type typ r ≡ true)
  rows_of_type_sound typ [] r m = elim m [ ]
  rows_of_type_sound typ (s ∷ rows) r m =
      decided (is_of_type typ s) refl (rows_of_type_sound typ rows r) m
    where
      later :
          Memᴰ r rows × (is_of_type typ r ≡ true) → Memᴰ r (s ∷ rows) × (is_of_type typ r ≡ true)
      later (n, t) = (Memᴰ.tail n, t)

      first :
          is_of_type typ s ≡ true
          → (Memᴰ r (rows_of_type before typ rows) → Memᴰ r rows × (is_of_type typ r ≡ true))
          → Memᴰ r (s ∷ rows_of_type before typ rows)
          → Memᴰ r (s ∷ rows) × (is_of_type typ r ≡ true)
      first e ih (Memᴰ.head h) = (Memᴰ.head h, subst (λ x. is_of_type typ x ≡ true) (sym h) e)
      first e ih (Memᴰ.tail n) = later (ih n)

      decided :
          (b : Bool)
          → is_of_type typ s ≡ b
          → (Memᴰ r (rows_of_type before typ rows) → Memᴰ r rows × (is_of_type typ r ≡ true))
          → Memᴰ r (
              if b
              then insert_by_name before s (rows_of_type before typ rows)
              else rows_of_type before typ rows)
          → Memᴰ r (s ∷ rows) × (is_of_type typ r ≡ true)
      decided true e ih n = first e ih (insert_by_name-members s _ r n)
      decided false e ih n = later (ih n)

  pub rows_of_type_complete :
      (typ : Text) (rows : List RegistryRow) (r : RegistryRow)
      → Memᴰ r rows
      → is_of_type typ r ≡ true
      → Memᴰ r (rows_of_type before typ rows)
  rows_of_type_complete typ [] r m h = elim m [ ]
  rows_of_type_complete typ (s ∷ rows) r (Memᴰ.head e) h =
      rw (subst (λ x. is_of_type typ x ≡ true) e h)
        (insert_by_name-contains s (rows_of_type before typ rows) r (Memᴰ.head e))
  rows_of_type_complete typ (s ∷ rows) r (Memᴰ.tail m) h =
      decided (is_of_type typ s) (rows_of_type_complete typ rows r m h)
    where
      decided :
          (b : Bool)
          → Memᴰ r (rows_of_type before typ rows)
          → Memᴰ r (
              if b
              then insert_by_name before s (rows_of_type before typ rows)
              else rows_of_type before typ rows)
      decided true n = insert_by_name-contains s _ r (Memᴰ.tail n)
      decided false n = n
