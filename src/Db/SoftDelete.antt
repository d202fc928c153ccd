-- ===== src/Db/SoftDelete.antt =====
-- The statements that set `deleted_at`: internal/db/scheduler_store.go, registries_store.go and
-- images_store.go.
pub mod Present
use vullify_backend.Prelude.{
  ℕ, Bool, true, false, ◌&&◌, not, Option, some, List, [], ◌∷◌, ◌++◌, if◌then◌else◌, ◌==◌, any,
  update_where, count_where,
}
use vullify_backend.Text.{Text, codes, text_eq}
use vullify_backend.Scanner.{plain, no_rows}
use vullify_backend.World.{
  M, ok, err, pure, raise, ◌>>=◌, ◌>>◌, call, now, transaction, World, Env, Db, RegistryRow,
  ImageRow,
}
use vullify_backend.Db.Images.{is_live}

abbrev pub delete_image_at : ℕ → ImageRow → ImageRow
delete_image_at t i = record i { deleted_at = some t }

abbrev pub delete_registry_at : ℕ → RegistryRow → RegistryRow
delete_registry_at t r = record r { deleted_at = some t }

-- `UPDATE images SET deleted_at = now() WHERE p`.
abbrev pub delete_images : (ImageRow → Bool) → M (Unit {0})
delete_images p env w = (
  ok tt,
  record w {
    db = record (w.db) { images = update_where p (delete_image_at (now env w)) w.db.images };
  },
)

abbrev pub is_stale_tag : ℕ → Text → List Text → ImageRow → Bool
is_stale_tag registry_id repository keep_tags i =
    i.registry_id == registry_id
    && (text_eq i.repository repository
        && (is_live i.deleted_at && not (any (text_eq i.tag) keep_tags)))

unfoldable pub soft_delete_image_tags_not_in : ℕ → Text → List Text → M (Unit {0})
soft_delete_image_tags_not_in registry_id repository keep_tags =
    call (delete_images (is_stale_tag registry_id repository keep_tags))

abbrev pub is_stale_repository : ℕ → List Text → ImageRow → Bool
is_stale_repository registry_id live_repos i =
    i.registry_id == registry_id
    && (is_live i.deleted_at && not (any (text_eq i.repository) live_repos))

-- With no repository at all nothing is deleted.
unfoldable pub soft_delete_images_for_repositories_not_in : ℕ → List Text → M (Unit {0})
soft_delete_images_for_repositories_not_in registry_id [] = pure tt
soft_delete_images_for_repositories_not_in registry_id (r ∷ repos) =
    call (delete_images (is_stale_repository registry_id (r ∷ repos)))

abbrev pub is_live_image : ℕ → ImageRow → Bool
is_live_image id i = i.id == id && is_live i.deleted_at

unfoldable pub soft_delete_image : ℕ → M (Unit {0})
soft_delete_image id = call λ env w.
    if count_where (is_live_image id) w.db.images == 0
    then (err (plain (codes "image not found or already deleted: " ++ env.uuid_text id)), w)
    else delete_images (is_live_image id) env w

-- A registry goes with its images, in one transaction.
abbrev pub is_live_image_of : ℕ → ImageRow → Bool
is_live_image_of registry_id i = i.registry_id == registry_id && is_live i.deleted_at

abbrev pub is_live_registry : ℕ → RegistryRow → Bool
is_live_registry id r = r.id == id && is_live r.deleted_at

unfoldable pub delete_registry_row : ℕ → M (Unit {0})
delete_registry_row id = call λ env w.
    if count_where (is_live_registry id) w.db.registries == 0 then (err no_rows, w) else (
      ok tt,
      record w {
        db = record (w.db) {
          registries =
              update_where (is_live_registry id) (delete_registry_at (now env w)) w.db.registries;
        };
      },
    )

unfoldable pub soft_delete_registry : ℕ → M (Unit {0})
unfolding delete_registry_row
soft_delete_registry id =
    transaction (call (delete_images (is_live_image_of id)) >> delete_registry_row id)
