-- ===== src/Db/ImageList.antt =====
-- `ListImages` of internal/db/images_store.go.
use vullify_backend.Prelude.{
  ℕ, Bool, true, false, ◌&&◌, Option, none, some, List, ◌==◌, count_where,
}
use vullify_backend.World.{M, pure, ◌>>=◌, call, gets_db, Db, ImageRow, RegistryRow}
use vullify_backend.Db.Images.{is_live, live_registry}
use vullify_backend.Db.Paging.{paged, latest_first}
use vullify_backend.Db.Listings.{rows_where}

abbrev is_row : Option RegistryRow → Bool
is_row none = false
is_row (some r) = true

abbrev is_registry : Option ℕ → ImageRow → Bool
is_registry none i = true
is_registry (some id) i = i.registry_id == id

-- A live image of a live registry, and of the one that is asked for.
abbrev is_listed : Option ℕ → Db → ImageRow → Bool
is_listed registry_id db i =
    is_live i.deleted_at && (is_row (live_registry i.registry_id db) && is_registry registry_id i)

unfoldable pub list_images : Option ℕ → ℕ → ℕ → M (List ImageRow × ℕ)
list_images registry_id offset limit = do
  total ← call (gets_db λ db. count_where (is_listed registry_id db) db.images)
  rows ← call (λ env w. (
    paged offset limit
        (latest_first (λ i. i.last_seen_at) (rows_where (is_listed registry_id w.db) w.db.images)),
    w,
  ))
  pure (rows, total)
