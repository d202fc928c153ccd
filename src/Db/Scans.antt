-- ===== src/Db/Scans.antt =====
-- The statements on the table `scans`: internal/db/scans.go, scans_api_store.go (InsertManualScan),
-- webhook_store.go (InsertWebhookScan) and scheduler_store.go.
pub mod Lifecycle
pub mod Frame
use vullify_backend.Prelude.{
  ℕ, suc, ◌+◌, Bool, true, false, ◌||◌, ◌&&◌, not, Option, none, some, List, [], ◌∷◌, ◌++◌, map,
  if◌then◌else◌, ◌==◌, ltb, any, count_where, update_where, max,
}
use vullify_backend.Text.{Text, codes, is_empty}
use vullify_backend.Scanner.{plain}
use vullify_backend.World.{
  M, ok, err, pure, raise, ◌>>=◌, ◌>>◌, call, now, modify_db, gets_db, World, Env, Db, ScanRow,
  ScanStatus, pending, running, completed, failed, cancelled, ScanTrigger, manual, schedule,
  webhook, SeverityCounts, ImageRow, RegistryRow, TargetRow,
}

-- `WHERE id = $1`.
abbrev pub has_id : ℕ → ScanRow → Bool
has_id id s = s.id == id

-- `status IN ('pending', 'running')`.
abbrev pub is_active : ScanStatus → Bool
is_active pending = true
is_active running = true
is_active completed = false
is_active failed = false
is_active cancelled = false

abbrev pub is_completed : ScanStatus → Bool
is_completed completed = true
is_completed pending = false
is_completed running = false
is_completed failed = false
is_completed cancelled = false

-- `NULLIF($2, '')`.
abbrev pub null_if_blank : Text → Option Text
null_if_blank t = if is_empty t then none else some t

-- `COALESCE(a, b)`.
abbrev coalesce : Option ℕ → ℕ → Option ℕ
coalesce none b = some b
coalesce (some a) b = some a

abbrev pub update_scans : (ScanRow → Bool) → (ScanRow → ScanRow) → Db → Db
update_scans p f db = record db { scans = update_where p f db.scans }

abbrev pub mark_running : ℕ → ScanRow → ScanRow
mark_running t s = record s { status = running; started_at = coalesce s.started_at t }

abbrev pub mark_failed : ℕ → Text → ScanRow → ScanRow
mark_failed t msg s = record s { status = failed; completed_at = some t; error_message = some msg }

abbrev pub mark_cancelled : ℕ → ScanRow → ScanRow
mark_cancelled t s = record s { status = cancelled; completed_at = some t }

unfoldable pub update_scan_running : ℕ → M (Unit {0})
update_scan_running id = call λ env w.
    if count_where (has_id id) w.db.scans == 0
    then (err (plain (codes "scan not found: " ++ env.uuid_text id)), w)
    else modify_db (update_scans (has_id id) (mark_running (now env w))) env w

-- `ScanCompletionParams`.
pub record ScanCompletionParams : Type 0 where
  pub trivy_version : Text
  pub duration_ms : Option ℕ
  pub image_os : Text
  pub image_arch : Text
  pub image_size : Option ℕ
  pub layer_count : Option ℕ
  pub base_image : Text
  pub counts : SeverityCounts

abbrev complete_with : ℕ → ScanCompletionParams → ScanRow → ScanRow
complete_with t p s = record s {
  status = completed;
  completed_at = some t;
  error_message = none;
  trivy_version = null_if_blank p.trivy_version;
  counts = p.counts;
  duration_ms = p.duration_ms;
  image_os = null_if_blank p.image_os;
  image_arch = null_if_blank p.image_arch;
  image_size = p.image_size;
  layer_count = p.layer_count;
  base_image = null_if_blank p.base_image;
}

unfoldable pub update_scan_completed : ℕ → ScanCompletionParams → M (Unit {0})
update_scan_completed id p =
    call λ env w. modify_db (update_scans (has_id id) (complete_with (now env w) p)) env w

unfoldable pub update_scan_failed : ℕ → Text → M (Unit {0})
update_scan_failed id msg =
    call λ env w. modify_db (update_scans (has_id id) (mark_failed (now env w) msg)) env w

-- `WHERE id = $1 AND status IN ('pending', 'running')`.
abbrev pub is_cancellable : ℕ → ScanRow → Bool
is_cancellable id s = s.id == id && is_active s.status

unfoldable pub cancel_scan : ℕ → M (Unit {0})
cancel_scan id = call λ env w.
    if count_where (is_cancellable id) w.db.scans == 0
    then (err (plain (codes "scan not found or not cancellable: " ++ env.uuid_text id)), w)
    else modify_db (update_scans (is_cancellable id) (mark_cancelled (now env w))) env w

abbrev pub no_counts : SeverityCounts
no_counts = record { critical = 0; high = 0; medium = 0; low = 0; unknown = 0 }

abbrev pub new_scan : ℕ → ℕ → ScanTrigger → ScanRow
new_scan id image_id trigger = record {
  id = id;
  image_id = image_id;
  status = pending;
  triggered_by = trigger;
  started_at = none;
  completed_at = none;
  error_message = none;
  trivy_version = none;
  counts = no_counts;
  duration_ms = none;
  image_os = none;
  image_arch = none;
  image_size = none;
  layer_count = none;
  base_image = none;
}

-- `INSERT INTO scans (image_id, status, triggered_by) … RETURNING id`.
unfoldable pub insert_scan : ScanTrigger → ℕ → M ℕ
insert_scan trigger image_id = call λ env w.
    let id = w.db.next_id in
    (
      ok id,
      record w {
        db = record (w.db) {
          scans = w.db.scans ++ new_scan id image_id trigger ∷ [];
          next_id = suc id;
        };
      },
    )

unfoldable pub insert_scheduled_scan : ℕ → M ℕ
unfolding insert_scan
insert_scheduled_scan image_id = insert_scan schedule image_id

unfoldable pub insert_webhook_scan : ℕ → M ℕ
unfolding insert_scan
insert_webhook_scan image_id = insert_scan webhook image_id

unfoldable pub insert_manual_scan : ℕ → M ℕ
unfolding insert_scan
insert_manual_scan image_id = insert_scan manual image_id

abbrev pub is_busy_with : ℕ → ScanRow → Bool
is_busy_with image_id s = s.image_id == image_id && is_active s.status

unfoldable pub image_has_pending_or_running_scan : ℕ → M Bool
image_has_pending_or_running_scan image_id =
    call (gets_db λ db. any (is_busy_with image_id) db.scans)
