-- ===== src/Db/SoftDelete/Present.antt =====
-- Which images are there after an upsert and after a soft deletion.
use vullify_backend.Prelude.{
  ℕ, ◌≡◌, refl, ap, Bool, true, false, ◌&&◌, not, none, List, [], ◌∷◌, ◌==◌, any, update_where,
  arith,
}
use vullify_backend.Text.{Text, text_eq}
use vullify_backend.Text.Laws.{text_eq_sound}
use vullify_backend.World.{World, Env, ImageRow, call-ok, tick, now}
use vullify_backend.Db.Images.{is_live}
use vullify_backend.Db.Webhooks.{is_image}
use vullify_backend.Db.SoftDelete.{
  delete_image_at, is_stale_tag, is_stale_repository, soft_delete_image_tags_not_in,
  soft_delete_images_for_repositories_not_in,
}

-- There is a live image of the registry, the repository and the tag.
abbrev pub present : ℕ → Text → Text → List ImageRow → Bool
present r repo tag images = any (is_image r repo tag) images

abbrev pub is_cons : List Text → Bool
is_cons [] = false
is_cons (t ∷ ts) = true

is_image-key :
    (r : ℕ) (repo tag : Text) (i : ImageRow)
    → is_image r repo tag i ≡ true
    → (i.registry_id ≡ r)
      × ((i.repository ≡ repo) × ((i.tag ≡ tag) × (is_live i.deleted_at ≡ true)))
is_image-key r repo tag i h = (
  ground arith,
  (
    text_eq_sound i.repository repo (ground arith),
    (text_eq_sound i.tag tag (ground arith), ground arith),
  ),
)

is_image-deleted :
    (r : ℕ) (repo tag : Text) (t : ℕ) (i : ImageRow)
    → is_image r repo tag (delete_image_at t i) ≡ false
is_image-deleted r repo tag t i = ground arith

-- A deletion whose test is the same for all rows of one image takes the image away or leaves it.
present-delete :
    (r : ℕ) (repo tag : Text) (p : ImageRow → Bool) (q : Bool) (t : ℕ)
    → ((i : ImageRow) → is_image r repo tag i ≡ true → p i ≡ q)
    → (images : List ImageRow)
    → present r repo tag (update_where p (delete_image_at t) images)
      ≡ present r repo tag images && not q
present-delete r repo tag p q t same [] = refl
present-delete r repo tag p q t same (i ∷ images) =
    ground
      (arith, same i, is_image-deleted r repo tag t i, present-delete r repo tag p q t same images)

module _ (r : ℕ) (repo tag : Text) (env : Env) (w : World)
    (healthy : env.fault w.ticks ≡ none) where
  -- The tags that are not kept go.
  pub soft_delete_image_tags_not_in-present :
      (r' : ℕ) (repo' : Text) (keep : List Text)
      → present r repo tag (soft_delete_image_tags_not_in r' repo' keep env w).1.db.images
        ≡ present r repo tag w.db.images
          && not (r == r' && (text_eq repo repo' && not (any (text_eq tag) keep)))
  unfolding soft_delete_image_tags_not_in
  soft_delete_image_tags_not_in-present r' repo' keep = rw (call-ok _ env w healthy) (
      present-delete r repo tag (is_stale_tag r' repo' keep) _ (now env (tick w))
        (λ i h.
          let (er, (ep, (et, live))) = is_image-key r repo tag i h in rw (er, ep, et, live) refl)
        w.db.images)

  pub soft_delete_images_for_repositories_not_in-present :
      (r' : ℕ) (repos : List Text)
      → present r repo tag (soft_delete_images_for_repositories_not_in r' repos env w).1.db.images
        ≡ present r repo tag w.db.images
          && not (r == r' && (is_cons repos && not (any (text_eq repo) repos)))
  unfolding soft_delete_images_for_repositories_not_in
  soft_delete_images_for_repositories_not_in-present r' [] = ground arith
  soft_delete_images_for_repositories_not_in-present r' (p ∷ repos) = rw (call-ok _ env w healthy) (
      present-delete r repo tag (is_stale_repository r' (p ∷ repos)) _ (now env (tick w))
        (λ i h.
          let (er, (ep, (et, live))) = is_image-key r repo tag i h in
          rw (er, live) (ap (λ x. r == r' && (true && not (any (text_eq x) (p ∷ repos)))) ep))
        w.db.images)
