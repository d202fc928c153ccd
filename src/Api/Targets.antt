-- ===== src/Api/Targets.antt =====
-- The handlers of targets: internal/api/handlers_targets.go. The decoding of a body and
-- `uuid.Parse` are arguments; an answer has the target that `targetToResp` prints.
pub mod Unique
pub mod Started
use vullify_backend.Prelude.{ℕ, Bool, true, false, Option, none, some, List, if◌then◌else◌}
use vullify_backend.Text.{Text, codes, trim_space}
use vullify_backend.World.{M, pure, ◌>>=◌, ◌>>◌, attempt, ignore, Env, World}
use vullify_backend.Scanqueue.{enqueue, build_image_pull_ref}
use vullify_backend.Db.Scans.{insert_manual_scan}
use vullify_backend.Db.Images.{get_image_by_id, get_registry_by_id, ImageDetail}
use vullify_backend.Db.Details.{image_is_active, get_scan_detail}
use vullify_backend.Db.Targets.{
  Target, create_target, list_targets, get_target_by_id, update_target_latest_scan,
  soft_delete_target, update_target, target_exists, or_daily,
}
use vullify_backend.Api.Reply.{
  Reply, api_error, envelope, invalid, not_found, internal, or_answer, with_id, with_body,
  by_no_rows,
}
use vullify_backend.Api.Scans.{Answer, queue_key, credentials_of}

-- `createTargetReq`.
pub record CreateTargetReq : Type 0 where
  pub image_id : Text
  pub scan_frequency : Text

store_target : Text → ℕ → M (Reply Target)
store_target freq image_id =
    or_answer (create_target image_id (or_daily (trim_space freq))) (λ e. internal "create failed")
      (λ id.
        or_answer (get_target_by_id id) (λ e. internal "load failed") (λ t. pure (envelope 201 t)))

create_unmonitored : Text → ℕ → M (Reply Target)
unfolding store_target
create_unmonitored freq image_id =
    or_answer (target_exists image_id) (λ e. internal "check failed")
      (λ exists.
        if exists
        then pure (api_error 409 (codes "ALREADY_EXISTS") (codes "this image is already monitored"))
        else store_target freq image_id)

create_active_target : Text → ℕ → M (Reply Target)
unfolding create_unmonitored
create_active_target freq image_id =
    or_answer (image_is_active image_id) (λ e. not_found "image not found")
      (λ active.
        if active then create_unmonitored freq image_id else pure (not_found "image not found"))

create_parsed_target : Text → Option ℕ → M (Reply Target)
unfolding create_active_target
create_parsed_target freq none = pure (invalid "invalid image_id")
create_parsed_target freq (some image_id) = create_active_target freq image_id

-- `createTarget`.
unfoldable pub add_target : (Text → Option ℕ) → Option CreateTargetReq → M (Reply Target)
unfolding create_parsed_target
add_target parse_uuid req =
    with_body req
      (λ req. create_parsed_target req.scan_frequency (parse_uuid (trim_space req.image_id)))

-- `listTargets`, of the query's value of "severity_min".
unfoldable pub targets_page : Text → M (Reply (List Target))
targets_page severity_min =
    or_answer (list_targets severity_min) (λ e. internal "list failed")
      (λ rows. pure (envelope 200 rows))

-- `deleteTarget`.
unfoldable pub remove_target : Option ℕ → M (Reply (Unit {0}))
remove_target id = with_id id (λ id.
    or_answer (soft_delete_target id) (λ e. internal "delete failed") (λ u. pure (envelope 204 tt)))

-- `updateTarget`.
unfoldable pub change_target : Option ℕ → Option CreateTargetReq → M (Reply Target)
change_target id req = with_id id (λ id. with_body req (λ req.
    or_answer (update_target id (or_daily (trim_space req.scan_frequency)))
      (by_no_rows (not_found "target not found") (internal "update failed"))
      (λ u.
        or_answer (get_target_by_id id) (λ e. internal "load failed")
          (λ t. pure (envelope 200 t)))))

-- `triggerTargetScan`, once its scan is inserted.
trigger_pushed : ℕ → ℕ → M Answer
trigger_pushed target_id scan_id =
    ignore (update_target_latest_scan target_id scan_id (codes "pending"))
    >> or_answer (get_scan_detail scan_id) (λ e. internal "scan load failed")
        (λ d. pure (envelope 202 (some d)))

trigger_inserted : Text → ℕ → ImageDetail → ℕ → M Answer
unfolding trigger_pushed
trigger_inserted field target_id d scan_id env w =
    (attempt (get_registry_by_id d.image.registry_id) >>= λ reg.
    or_answer
      (enqueue (queue_key field env) scan_id
        (build_image_pull_ref env d.registry_url d.image.repository d.image.tag)
        (credentials_of env reg))
      (λ e. internal "enqueue failed") (λ u. trigger_pushed target_id scan_id))
      env w

trigger_found : Text → Target → M Answer
unfolding trigger_inserted
trigger_found field t =
    or_answer (get_image_by_id t.row.image_id) (λ e. internal "image load failed")
      (λ d.
        or_answer (insert_manual_scan t.row.image_id) (λ e. internal "scan create failed")
          (trigger_inserted field t.row.id d))

unfoldable pub trigger_target_scan : Text → Option ℕ → M Answer
unfolding trigger_found
trigger_target_scan field id = with_id id (λ id.
    or_answer (get_target_by_id id)
      (by_no_rows (not_found "target not found") (internal "load failed")) (trigger_found field))
