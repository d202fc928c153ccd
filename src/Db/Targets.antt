-- ===== src/Db/Targets.antt =====
-- The statements on `targets`: internal/db/targets_store.go. The column `updated_at` is left out,
-- and so are the severity counts, which the listing leaves empty.
pub mod Unique
use vullify_backend.Prelude.{
  ℕ, suc, Bool, true, false, ◌&&◌, Option, none, some, List, [], ◌∷◌, ◌++◌, if◌then◌else◌, ◌==◌,
  any, find_row, update_where, count_where,
}
use vullify_backend.Text.{Text, codes, is_empty}
use vullify_backend.Scanner.{no_rows}
use vullify_backend.World.{
  M, ok, err, pure, ◌>>=◌, call, gets_db, modify_db, now, World, Env, Db, TargetRow, ImageRow,
  RegistryRow,
}
use vullify_backend.Db.Images.{is_live, or_no_rows}
use vullify_backend.Db.Paging.{latest_first}

-- `Target`: a target with what the joins give.
pub record Target : Type 0 where
  pub row : TargetRow
  pub repository : Text
  pub tag : Text
  pub registry_url : Text
  pub registry_name : Text

abbrev pub or_daily : Text → Text
or_daily freq = if is_empty freq then codes "24h" else freq

abbrev pub new_target : ℕ → ℕ → ℕ → Text → TargetRow
new_target id t image_id freq = record {
  id = id;
  image_id = image_id;
  scan_frequency = freq;
  latest_scan_id = none;
  latest_scan_status = none;
  created_at = t;
  deleted_at = none;
}

unfoldable pub create_target : ℕ → Text → M ℕ
create_target image_id freq = call λ env w. (
  ok w.db.next_id,
  record w {
    db = record (w.db) {
      targets = w.db.targets ++ new_target w.db.next_id (now env w) image_id (or_daily freq) ∷ [];
      next_id = suc w.db.next_id;
    };
  },
)

-- The joins with `images` and `registries` on their primary keys; `test` is what a statement asks
-- of the rows that are joined.
abbrev join_registry : TargetRow → ImageRow → Option RegistryRow → Option Target
join_registry t i none = none
join_registry t i (some r) = some (record {
  row = t;
  repository = i.repository;
  tag = i.tag;
  registry_url = r.url;
  registry_name = r.name;
})

abbrev join_image : (Option ℕ → Bool) → Db → TargetRow → Option ImageRow → Option Target
join_image test db t none = none
join_image test db t (some i) =
    join_registry t i (find_row (λ r. r.id == i.registry_id && test r.deleted_at) db.registries)

abbrev pub join_target : (Option ℕ → Bool) → Db → TargetRow → Option Target
join_target test db t =
    join_image test db t (find_row (λ i. i.id == t.image_id && test i.deleted_at) db.images)

abbrev add_some : Option Target → List Target → List Target
add_some none rows = rows
add_some (some t) rows = t ∷ rows

abbrev target_rows : Db → List TargetRow → List Target
target_rows db [] = []
target_rows db (t ∷ rows) =
    if is_live t.deleted_at
    then add_some (join_target is_live db t) (target_rows db rows)
    else target_rows db rows

-- The least severity is not read.
unfoldable pub list_targets : Text → M (List Target)
list_targets severity_min =
    call (gets_db λ db. target_rows db (latest_first (λ t. t.created_at) db.targets))

abbrev pub is_live_target : ℕ → TargetRow → Bool
is_live_target id t = t.id == id && is_live t.deleted_at

abbrev pub find_target : Db → Option TargetRow → Option Target
find_target db none = none
find_target db (some t) = join_target (λ deleted_at. true) db t

-- The image and the registry may be deleted.
unfoldable pub get_target_by_id : ℕ → M Target
get_target_by_id id = do
  found ← call (gets_db λ db. find_target db (find_row (is_live_target id) db.targets))
  or_no_rows found

abbrev pub update_targets : ℕ → (TargetRow → TargetRow) → Db → Db
update_targets id f db = record db { targets = update_where (is_live_target id) f db.targets }

abbrev pub with_latest : ℕ → Text → TargetRow → TargetRow
with_latest scan_id status t = record t {
  latest_scan_id = some scan_id;
  latest_scan_status = some status;
}

unfoldable pub update_target_latest_scan : ℕ → ℕ → Text → M (Unit {0})
update_target_latest_scan id scan_id status =
    call (modify_db (update_targets id (with_latest scan_id status)))

abbrev pub delete_target_at : ℕ → TargetRow → TargetRow
delete_target_at t row = record row { deleted_at = some t }

-- A target that is not there is no error.
unfoldable pub soft_delete_target : ℕ → M (Unit {0})
soft_delete_target id =
    call λ env w. modify_db (update_targets id (delete_target_at (now env w))) env w

abbrev pub with_frequency : Text → TargetRow → TargetRow
with_frequency freq t = record t { scan_frequency = freq }

unfoldable pub update_target : ℕ → Text → M (Unit {0})
update_target id freq = call λ env w.
    if count_where (is_live_target id) w.db.targets == 0
    then (err no_rows, w)
    else modify_db (update_targets id (with_frequency freq)) env w

abbrev pub is_live_target_of : ℕ → TargetRow → Bool
is_live_target_of image_id t = t.image_id == image_id && is_live t.deleted_at

unfoldable pub target_exists : ℕ → M Bool
target_exists image_id = call (gets_db λ db. any (is_live_target_of image_id) db.targets)
