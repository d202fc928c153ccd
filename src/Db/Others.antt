-- ===== src/Db/Others.antt =====
-- The part of the world that a scan's own statements leave alone.
use vullify_backend.Prelude.{ℕ, ◌≡◌, refl, ◌==◌, List, delete_where}
use vullify_backend.Text.{Text}
use vullify_backend.World.{
  World, M, ScanRow, FindingRow, PackageRow, MisconfigRow, SecretRow, SbomRow, RegistryRow,
  ImageRow, WebhookEventRow, TargetRow, SuppressionRow, ScanJob, LockKey, Keeps, Keeps-call, tick,
  call,
}
use vullify_backend.Db.Scans.{has_id}

-- All that does not belong to the scan `id`: of the tables of results and of `scans` the other rows.
pub record Others : Type 0 where
  pub scans : List ScanRow
  pub findings : List FindingRow
  pub packages : List PackageRow
  pub misconfigurations : List MisconfigRow
  pub secrets : List SecretRow
  pub sboms : List SbomRow
  pub registries : List RegistryRow
  pub images : List ImageRow
  pub webhook_events : List WebhookEventRow
  pub targets : List TargetRow
  pub suppressions : List SuppressionRow
  pub queue : List (Text × ScanJob)
  pub locks : List LockKey

abbrev pub others : ℕ → World → Others
others id w = record {
  scans = delete_where (has_id id) w.db.scans;
  findings = delete_where (λ r. r.scan_id == id) w.db.findings;
  packages = delete_where (λ r. r.scan_id == id) w.db.packages;
  misconfigurations = delete_where (λ r. r.scan_id == id) w.db.misconfigurations;
  secrets = delete_where (λ r. r.scan_id == id) w.db.secrets;
  sboms = delete_where (λ r. r.scan_id == id) w.db.sboms;
  registries = w.db.registries;
  images = w.db.images;
  webhook_events = w.db.webhook_events;
  targets = w.db.targets;
  suppressions = w.db.suppressions;
  queue = w.redis.queue;
  locks = w.redis.locks;
}

pub still : (id : ℕ) (w : World) → others id (tick w) ≡ others id w
still id w = refl

pub call-frame : (id : ℕ) {A : Type 0} {m : M A} → Keeps (others id) m → Keeps (others id) (call m)
call-frame id h = Keeps-call (still id) h
