-- ===== src/World/Rows.antt =====
-- The rows of the tables and the values under the Redis keys. UUIDs are numbers, instants are
-- numbers of nanoseconds, SQL NULL is `none`.
use vullify_backend.Prelude.{ℕ, Bool, Option, List}
use vullify_backend.Text.{Text}
use vullify_backend.Severity.{Severity}
use vullify_backend.Scanner.{Float64}

-- A `time.Duration` in nanoseconds, with its sign.
pub data Duration : Type 0 where
  ahead back : ℕ → Duration

-- The enums `scan_status` (migrations/001, 013) and `scan_trigger`.
pub data ScanStatus : Type 0 where
  pending running completed failed cancelled : ScanStatus

pub data ScanTrigger : Type 0 where
  manual schedule webhook : ScanTrigger

pub record SeverityCounts : Type 0 where
  pub critical : ℕ
  pub high : ℕ
  pub medium : ℕ
  pub low : ℕ
  pub unknown : ℕ

pub record ScanRow : Type 0 where
  pub id : ℕ
  pub image_id : ℕ
  pub status : ScanStatus
  pub triggered_by : ScanTrigger
  pub started_at : Option ℕ
  pub completed_at : Option ℕ
  pub error_message : Option Text
  pub trivy_version : Option Text
  pub counts : SeverityCounts
  pub duration_ms : Option ℕ
  pub image_os : Option Text
  pub image_arch : Option Text
  pub image_size : Option ℕ
  pub layer_count : Option ℕ
  pub base_image : Option Text

pub record FindingRow : Type 0 where
  pub id : ℕ
  pub scan_id : ℕ
  pub vulnerability_id : Text
  pub package_name : Text
  pub installed_version : Option Text
  pub fixed_version : Option Text
  pub severity : Severity
  pub title : Option Text
  pub description : Option Text
  pub data_source : Option Text
  pub cvss_v3_score : Option Float64
  pub cvss_v3_vector : Option Text
  pub primary_url : Option Text
  pub layer_digest : Option Text
  pub layer_index : Option ℕ

pub record PackageRow : Type 0 where
  pub scan_id : ℕ
  pub name : Text
  pub version : Text
  pub type : Text
  pub layer_digest : Text
  pub licenses : List Text
  pub file_path : Text

pub record MisconfigRow : Type 0 where
  pub scan_id : ℕ
  pub type : Text
  pub check_id : Text
  pub title : Text
  pub description : Text
  pub severity : Severity
  pub resolution : Text
  pub file_path : Text
  pub start_line : ℕ
  pub end_line : ℕ

pub record SecretRow : Type 0 where
  pub scan_id : ℕ
  pub rule_id : Text
  pub category : Text
  pub severity : Severity
  pub title : Text
  pub match_text : Text
  pub file_path : Text
  pub start_line : ℕ
  pub end_line : ℕ
  pub layer_digest : Text

-- The enum `sbom_format`.
pub data SbomFormat : Type 0 where
  cyclonedx spdx : SbomFormat

pub record SbomRow : Type 0 where
  pub scan_id : ℕ
  pub format : SbomFormat
  pub content : Text

pub record RegistryRow : Type 0 where
  pub id : ℕ
  pub name : Text
  pub type : Text
  pub url : Text
  pub credentials : Text
  pub deleted_at : Option ℕ

pub record ImageRow : Type 0 where
  pub id : ℕ
  pub registry_id : ℕ
  pub repository : Text
  pub tag : Text
  pub digest : Option Text
  pub first_seen_at : ℕ
  pub last_seen_at : ℕ
  pub deleted_at : Option ℕ

pub record WebhookEventRow : Type 0 where
  pub id : ℕ
  pub source : Text
  pub event_type : Text
  pub payload : Text
  pub processed : Bool

pub record TargetRow : Type 0 where
  pub id : ℕ
  pub image_id : ℕ
  pub scan_frequency : Text
  pub latest_scan_id : Option ℕ
  pub latest_scan_status : Option Text
  pub created_at : ℕ
  pub deleted_at : Option ℕ

-- A row of `suppressions`; a missing column matches anything.
pub record SuppressionRow : Type 0 where
  pub id : ℕ
  pub cve_id : Option Text
  pub pkg_name : Option Text
  pub image_id : Option ℕ
  pub reason : Text
  pub accepted_by : Option Text
  pub expires_at : Option ℕ
  pub created_at : ℕ

pub record Db : Type 0 where
  pub scans : List ScanRow
  pub findings : List FindingRow
  pub packages : List PackageRow
  pub misconfigurations : List MisconfigRow
  pub secrets : List SecretRow
  pub sboms : List SbomRow
  pub registries : List RegistryRow
  pub images : List ImageRow
  pub webhook_events : List WebhookEventRow
  pub targets : List TargetRow
  pub suppressions : List SuppressionRow
  pub next_id : ℕ  -- what `gen_random_uuid()` gives next

-- `scanqueue.RegistryCredentials`, whose JSON shape `worker.RegistryCredentials` repeats.
pub record RegistryCredentials : Type 0 where
  pub username : Text
  pub password : Text

-- `worker.ScanJob`.
pub record ScanJob : Type 0 where
  pub scan_id : ℕ
  pub image_ref : Text
  pub reg_creds : Option RegistryCredentials

pub data Phase : Type 0 where
  initializing scanning persisting completed failed : Phase

-- A key `vullify:scan:<id>:phase`, with the instant at which it expires.
pub record PhaseKey : Type 0 where
  pub scan_id : ℕ
  pub phase : Phase
  pub expires_at : ℕ

-- `worker.scanEvent`; its field `event` is always "scan.completed".
pub record ScanEvent : Type 0 where
  pub scan_id : ℕ
  pub status : Text
  pub error : Text

-- A key `vullify:scheduler:lock:<name>`.
pub record LockKey : Type 0 where
  pub name : Text
  pub expires_at : ℕ

-- Each list of a key is kept with the newest entry first.
pub record Redis : Type 0 where
  pub queue : List (Text × ScanJob)
  pub phases : List PhaseKey
  pub events : List (Text × ScanEvent)
  pub locks : List LockKey

pub record World : Type 0 where
  pub db : Db
  pub redis : Redis
  pub ticks : ℕ
