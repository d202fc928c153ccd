-- ===== src/Db/Webhooks/Present.antt =====
-- Which images are there after `UpsertImage`.
use vullify_backend.Prelude.{
  ℕ, suc, ◌≡◌, refl, ap, ◌∙◌, Bool, true, ◌&&◌, ◌||◌, none, some, List, ◌==◌, any, find_row, arith,
  Bool-cases, Option-cases, inl, inr, any-find_row, any-append, any-update_blind,
}
use vullify_backend.Text.{Text, text_eq}
use vullify_backend.Text.Laws.{text_eq_sound, text_eq_sym}
use vullify_backend.World.{World, Env, ImageRow, call-ok, tick, now}
use vullify_backend.Db.Webhooks.{
  is_image, new_image, seen_at, upsert_image, upsert_found, touch_image, insert_image,
}

-- Two keys of images are the same.
abbrev pub same_key : ℕ → Text → Text → ℕ → Text → Text → Bool
same_key r repo tag r' repo' tag' = r == r' && (text_eq repo repo' && text_eq tag tag')

same_key_sound :
    (r r' : ℕ) (repo tag repo' tag' : Text)
    → same_key r' repo' tag' r repo tag ≡ true
    → (r' ≡ r) × ((repo' ≡ repo) × (tag' ≡ tag))
same_key_sound r r' repo tag repo' tag' h =
    (ground arith, (text_eq_sound repo' repo (ground arith), text_eq_sound tag' tag (ground arith)))

is_image-new :
    (r' r : ℕ) (repo' tag' repo tag : Text) (id t : ℕ)
    → is_image r' repo' tag' (new_image id t r repo tag) ≡ same_key r' repo' tag' r repo tag
is_image-new r' r repo' tag' repo tag id t =
    ground (arith, text_eq_sym repo repo', text_eq_sym tag tag')

already :
    (r' r : ℕ) (repo' tag' repo tag : Text) (images : List ImageRow) (i : ImageRow)
    → find_row (is_image r repo tag) images ≡ some i
    → any (is_image r' repo' tag') images
      ≡ any (is_image r' repo' tag') images || same_key r' repo' tag' r repo tag
already r' r repo' tag' repo tag images i e =
    elim (Bool-cases (same_key r' repo' tag' r repo tag)) [
      | inl same ↦
          let (er, (ep, et)) = same_key_sound r r' repo tag repo' tag' same in
          let there : any (is_image r' repo' tag') images ≡ true =
            any-find_row (is_image r' repo' tag') images i (rw (er, ep, et) e) in
          rw there refl
      | inr other ↦ rw other (ground arith)
    ]

-- After an upsert the image is there, and the others are as they were.
pub upsert_image-present :
    (r' : ℕ) (repo' tag' : Text) (r : ℕ) (repo tag : Text) (env : Env) (w : World)
    → ((t : ℕ) → env.fault t ≡ none)
    → any (is_image r' repo' tag') (upsert_image r repo tag env w).1.db.images
      ≡ any (is_image r' repo' tag') w.db.images || same_key r' repo' tag' r repo tag
unfolding upsert_image upsert_found touch_image insert_image
upsert_image-present r' repo' tag' r repo tag env w healthy =
    elim (Option-cases (find_row (is_image r repo tag) w.db.images)) [
      | inl e ↦
          rw (call-ok _ env w (healthy w.ticks), e)
            (rw (healthy (suc w.ticks)) (
              any-append (is_image r' repo' tag') w.db.images _
              ∙ ap (◌||◌ (any (is_image r' repo' tag') w.db.images))
                  (is_image-new r' r repo' tag' repo tag w.db.next_id (now env (tick (tick w))))))
      | inr (i, e) ↦
          rw (call-ok _ env w (healthy w.ticks), e)
            (rw (healthy (suc w.ticks)) (
              any-update_blind (is_image r' repo' tag') (λ x. x.id == i.id)
                (seen_at (now env (tick (tick w)))) (λ x. refl) w.db.images
              ∙ already r' r repo' tag' repo tag w.db.images i e))
    ]
