-- ===== src/Api/Accepted.antt =====
-- What an accepted request for a scan promises: createScan and rerunScan of
-- internal/api/handlers_scans.go, triggerTargetScan of handlers_targets.go and createAdhocScan of
-- handlers_adhoc.go.
use vullify_backend.Prelude.{ℕ, refl, Option}
use vullify_backend.Text.{Text}
use vullify_backend.World.{Env, World, Post}
use vullify_backend.Api.Scans.{CreateScanReq, queue_key, create_scan, rerun_scan}
use vullify_backend.Api.Scans.Started.{Accepted, create_scan-Kept, rerun_scan-Kept}
use vullify_backend.Api.Targets.{trigger_target_scan}
use vullify_backend.Api.Targets.Started.{trigger-Kept}
use vullify_backend.Api.Adhoc.{create_adhoc_scan}
use vullify_backend.Api.Adhoc.Started.{adhoc-Kept}

-- Whatever fails on the way, the handlers that create a scan, run one again, scan a target and
-- scan a reference ad hoc answer with an error or with a scan, and where it is a scan, exactly one
-- pending manual scan was added to the table, its job was pushed to the server's queue, and the
-- answer shows that scan.
pub scans-Accepted :
    (parse_uuid : Text → Option ℕ) (field : Text) (req : Option CreateScanReq)
    (scan_id target_id : Option ℕ) (image_ref : Option Text) (env : Env) (w : World)
    → let promise = Accepted (queue_key field env) w.db.scans w.redis.queue in
      Post promise (λ w. ⊥) (create_scan parse_uuid field req env w)
      × Post promise (λ w. ⊥) (rerun_scan field scan_id env w)
      × Post promise (λ w. ⊥) (trigger_target_scan field target_id env w)
      × Post promise (λ w. ⊥) (create_adhoc_scan field image_ref env w)
scans-Accepted parse_uuid field req scan_id target_id image_ref env w = (
  (create_scan-Kept field env w.db.scans w.redis.queue parse_uuid req).apply w (refl, refl),
  (rerun_scan-Kept field env w.db.scans w.redis.queue scan_id).apply w (refl, refl),
  (trigger-Kept field env w.db.scans w.redis.queue target_id).apply w (refl, refl),
  (adhoc-Kept field env w.db.scans w.redis.queue image_ref).apply w (refl, refl),
)
