-- ===== src/Tests/Scans.antt =====
-- The theorems on the handlers of scans applied at concrete data.
use vullify_backend.Prelude.{refl, ◌∷◌, ℕ, Option, none, some, [], if◌then◌else◌}
use vullify_backend.Text.{Text, codes, text_eq}
use vullify_backend.World.{Post}
use vullify_backend.Api.Scans.{Answer, CreateScanReq, create_scan, rerun_scan, queue_key}
use vullify_backend.Api.Scans.Started.{Accepted}
use vullify_backend.Api.Accepted.{scans-Accepted}
use vullify_backend.Api.Targets.{trigger_target_scan}
use vullify_backend.Api.Adhoc.{create_adhoc_scan}
use vullify_backend.World.{World, schedule, tick}
use vullify_backend.Db.Scans.{new_scan, no_counts}
use vullify_backend.Db.Details.{ScanDetail, get_scan_detail}
use vullify_backend.Api.Progress.{scan_progress}
use vullify_backend.Api.Progress.Status.{StatusIs, scan_progress-StatusIs}
use vullify_backend.Tests.Data.{healthy_env, some_world}

abbrev one_request : CreateScanReq
one_request = record { image_id = codes " 1 "; image_ref = [] }

abbrev parse_one : Text → Option ℕ
parse_one t = if text_eq t (codes "1") then some 1 else none

abbrev Asked : Answer → World → Type 0
Asked = Accepted (queue_key [] healthy_env) some_world.db.scans []

scans-Accepted_example :
    Post Asked (λ w. ⊥) (create_scan parse_one [] (some one_request) healthy_env some_world)
    × Post Asked (λ w. ⊥) (rerun_scan [] (some 4) healthy_env some_world)
    × Post Asked (λ w. ⊥) (trigger_target_scan [] (some 3) healthy_env some_world)
    × Post Asked
        (λ w. ⊥)
        (create_adhoc_scan [] (some (codes "ghcr.io/team/app:1.0")) healthy_env some_world)
scans-Accepted_example =
    scans-Accepted parse_one [] (some one_request) (some 4) (some 3)
      (some (codes "ghcr.io/team/app:1.0")) healthy_env some_world

abbrev scanned_world : World
scanned_world = record some_world {
  db = record (some_world.db) { scans = new_scan 5 1 schedule ∷ [] };
}

abbrev scanned : ScanDetail
scanned = record {
  scan = new_scan 5 1 schedule;
  repository = codes "team/app";
  tag = codes "latest";
  severity_count = no_counts;
}

scan_progress-StatusIs_example :
    StatusIs scanned.scan.status (scan_progress 5 healthy_env scanned_world)
unfolding get_scan_detail
scan_progress-StatusIs_example =
    scan_progress-StatusIs 5 healthy_env scanned_world scanned (tick (tick (tick scanned_world)))
      refl refl refl
