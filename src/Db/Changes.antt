-- ===== src/Db/Changes.antt =====
-- The listings for the registry sync and for the detection of changes, and `UpdateImageDigest`:
-- internal/db/scheduler_store.go.
use vullify_backend.Prelude.{
  ℕ, Bool, ◌&&◌, ◌||◌, Option, none, some, List, [], ◌∷◌, if◌then◌else◌, ◌==◌, update_where,
}
use vullify_backend.Text.{Text, text_eq}
use vullify_backend.World.{M, ok, call, modify_db, Env, Db, RegistryRow, ImageRow}
use vullify_backend.Db.Images.{is_live, live_registry}
use vullify_backend.Db.Webhooks.{insert_by_name}

abbrev pub live_by_name : (Text → Text → Bool) → List RegistryRow → List RegistryRow
live_by_name before [] = []
live_by_name before (r ∷ rows) =
    if is_live r.deleted_at
    then insert_by_name before r (live_by_name before rows)
    else live_by_name before rows

unfoldable pub list_active_registries : M (List RegistryRow)
list_active_registries = call λ env w. (ok (live_by_name env.name_before w.db.registries), w)

-- `ImageChangeRow`: an image with its registry.
pub record ImageChangeRow : Type 0 where
  pub image : ImageRow
  pub registry : RegistryRow

-- `ORDER BY i.registry_id, i.repository, i.tag`.
abbrev change_before : Env → ImageChangeRow → ImageChangeRow → Bool
change_before env a b =
    env.uuid_before a.image.registry_id b.image.registry_id
    || (a.image.registry_id == b.image.registry_id
        && (env.name_before a.image.repository b.image.repository
            || (text_eq a.image.repository b.image.repository
                && env.name_before a.image.tag b.image.tag)))

abbrev insert_change : Env → ImageChangeRow → List ImageChangeRow → List ImageChangeRow
insert_change env a [] = a ∷ []
insert_change env a (b ∷ rows) =
    if change_before env b a then b ∷ insert_change env a rows else a ∷ b ∷ rows

abbrev add_change : Env → ImageRow → Option RegistryRow → List ImageChangeRow → List ImageChangeRow
add_change env i none rows = rows
add_change env i (some r) rows =
    if is_live i.deleted_at
    then insert_change env (record { image = i; registry = r }) rows
    else rows

abbrev change_rows : Env → Db → List ImageRow → List ImageChangeRow
change_rows env db [] = []
change_rows env db (i ∷ rows) =
    add_change env i (live_registry i.registry_id db) (change_rows env db rows)

unfoldable pub list_images_for_change_detection : M (List ImageChangeRow)
list_images_for_change_detection = call λ env w. (ok (change_rows env w.db w.db.images), w)

abbrev pub with_digest : Text → ImageRow → ImageRow
with_digest digest i = record i { digest = some digest }

unfoldable pub update_image_digest : ℕ → Text → M (Unit {0})
update_image_digest id digest = call (
    modify_db λ db. record db {
      images =
          update_where (λ i. i.id == id && is_live i.deleted_at) (with_digest digest) db.images;
    })
