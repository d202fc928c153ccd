-- ===== src/Db/Images.antt =====
-- The statements on `images`, `registries` and `targets` that the scheduler uses:
-- internal/db/images_store.go, registries_store.go and scheduler_store.go.
use vullify_backend.Prelude.{
  ℕ, Bool, true, false, ◌||◌, ◌&&◌, not, Option, none, some, List, [], ◌∷◌, if◌then◌else◌, ◌==◌,
  ltb, any, find_row, max,
}
use vullify_backend.Text.{Text}
use vullify_backend.Scanner.{no_rows}
use vullify_backend.World.{
  M, ok, pure, raise, ◌>>=◌, call, gets_db, Env, Db, ScanRow, ImageRow, RegistryRow, TargetRow,
}
use vullify_backend.Db.Scans.{is_completed}

-- `pgx.ErrNoRows` where there is no row.
abbrev pub or_no_rows : {A : Type 0} → Option A → M A
or_no_rows none = raise no_rows
or_no_rows (some a) = pure a

-- `deleted_at IS NULL`.
abbrev pub is_live : Option ℕ → Bool
is_live none = true
is_live (some t) = false

abbrev pub live_registry : ℕ → Db → Option RegistryRow
live_registry id db = find_row (λ r. r.id == id && is_live r.deleted_at) db.registries

abbrev pub live_image : ℕ → Db → Option ImageRow
live_image id db = find_row (λ i. i.id == id && is_live i.deleted_at) db.images

-- `ImageDetail`.
pub record ImageDetail : Type 0 where
  pub image : ImageRow
  pub registry_url : Text
  pub latest_scan : Option ScanRow

-- `JOIN registries r ON r.id = i.registry_id`, for one image.
abbrev with_registry : ImageRow → Option RegistryRow → Option (ImageRow × Text)
with_registry i none = none
with_registry i (some r) = some (i, r.url)

abbrev pub joined : Db → Option ImageRow → Option (ImageRow × Text)
joined db none = none
joined db (some i) = with_registry i (live_registry i.registry_id db)

-- `ORDER BY s.id DESC LIMIT 1`.
abbrev pub later_of : Env → ScanRow → Option ScanRow → Option ScanRow
later_of env s none = some s
later_of env s (some t) = some (if env.uuid_before s.id t.id then t else s)

abbrev pub latest_of : Env → ℕ → List ScanRow → Option ScanRow
latest_of env image_id [] = none
latest_of env image_id (s ∷ rows) =
    if s.image_id == image_id
    then later_of env s (latest_of env image_id rows)
    else latest_of env image_id rows

unfoldable pub get_image_by_id : ℕ → M ImageDetail
get_image_by_id id = do
  found ← call (gets_db λ db. joined db (live_image id db))
  row ← or_no_rows found
  latest ← call (λ env w. (ok (latest_of env id w.db.scans), w))
  pure (record { image = row.0; registry_url = row.1; latest_scan = latest })

unfoldable pub get_registry_by_id : ℕ → M RegistryRow
get_registry_by_id id = do found ← call (gets_db λ db. live_registry id db); or_no_rows found

-- `SELECT MAX(s.completed_at) … WHERE s.image_id = $1 AND s.status = 'completed'`.
abbrev later_time : Option ℕ → Option ℕ → Option ℕ
later_time none b = b
later_time (some a) none = some a
later_time (some a) (some b) = some (max a b)

abbrev is_completed_of : ℕ → ScanRow → Bool
is_completed_of image_id s = s.image_id == image_id && is_completed s.status

abbrev pub last_completed_at : ℕ → List ScanRow → Option ℕ
last_completed_at image_id [] = none
last_completed_at image_id (s ∷ rows) =
    if is_completed_of image_id s
    then later_time s.completed_at (last_completed_at image_id rows)
    else last_completed_at image_id rows

-- `MAX(…) < $1`, which is not true of NULL.
abbrev is_before : ℕ → Option ℕ → Bool
is_before cutoff none = false
is_before cutoff (some t) = ltb t cutoff

abbrev pub has_live_registry : Db → ImageRow → Bool
has_live_registry db i = any (λ r. r.id == i.registry_id && is_live r.deleted_at) db.registries

abbrev is_stale : Db → ℕ → ImageRow → Bool
is_stale db cutoff i =
    is_live i.deleted_at
    && (has_live_registry db i
        && (not (any (is_completed_of i.id) db.scans)
            || is_before cutoff (last_completed_at i.id db.scans)))

abbrev stale_ids : Db → ℕ → List ImageRow → List ℕ
stale_ids db cutoff [] = []
stale_ids db cutoff (i ∷ rows) =
    if is_stale db cutoff i then i.id ∷ stale_ids db cutoff rows else stale_ids db cutoff rows

unfoldable pub list_image_ids_stale_for_rescan : ℕ → M (List ℕ)
list_image_ids_stale_for_rescan cutoff = call (gets_db λ db. stale_ids db cutoff db.images)

-- `TargetRescanRow`.
pub record TargetRescanRow : Type 0 where
  pub target_id : ℕ
  pub image_id : ℕ
  pub scan_frequency : Text
  pub last_scanned_at : Option ℕ

abbrev rescan_rows : Db → List TargetRow → List TargetRescanRow
rescan_rows db [] = []
rescan_rows db (t ∷ rows) =
    if is_live t.deleted_at
    then record {
      target_id = t.id;
      image_id = t.image_id;
      scan_frequency = t.scan_frequency;
      last_scanned_at = last_completed_at t.image_id db.scans;
    }
      ∷ rescan_rows db rows
    else rescan_rows db rows

unfoldable pub list_targets_due_for_rescan : M (List TargetRescanRow)
list_targets_due_for_rescan = call (gets_db λ db. rescan_rows db db.targets)
