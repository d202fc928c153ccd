-- ===== src/Api/Targets/Unique.antt =====
-- At most one live target of an image: the guard `TargetExists` of internal/api/handlers_targets.go.
use vullify_backend.Prelude.{
  ℕ, ◌≡◌, refl, Bool, true, false, Option, none, some, if◌then◌else◌, any,
}
use vullify_backend.Text.{Text, codes, trim_space}
use vullify_backend.World.{
  pure, World, Env, Invariant, Invariant-pure, Invariant-attempt, Invariant-ignore, Triple,
  Triple-bind, Triple-if, Post-world,
}
use vullify_backend.Scanqueue.{enqueue, build_image_pull_ref}
use vullify_backend.Db.Images.{ImageDetail}
use vullify_backend.Db.Details.{get_scan_detail}
use vullify_backend.Db.Reads.{
  get_image_by_id-Keeps, get_registry_by_id-Keeps, image_is_active-Keeps, get_scan_detail-Keeps,
  get_target_by_id-Keeps,
}
use vullify_backend.Db.Targets.{Target, is_live_target_of, or_daily}
use vullify_backend.Api.Reply.{or_answer, api_error, envelope, internal}
use vullify_backend.Api.Reply.Gives.{or_answer-Invariant, or_answer-Triple}
use vullify_backend.Api.Scans.{queue_key, credentials_of}
use vullify_backend.Api.Targets.{
  CreateTargetReq, add_target, create_parsed_target, create_active_target, create_unmonitored,
  store_target, remove_target, change_target, trigger_target_scan, trigger_found, trigger_inserted,
  trigger_pushed,
}
use vullify_backend.Db.Targets.Unique.{
  UniqueTargets, AllUnique, kept, create_target-AllUnique, target_exists_tells,
  soft_delete_target-AllUnique, update_target-AllUnique, update_target_latest_scan-AllUnique,
  enqueue-targets, insert_manual_scan-targets,
}

store_target-AllUnique :
    (freq : Text) (image_id : ℕ)
    → Triple
        (λ w. AllUnique w × (any (is_live_target_of image_id) w.db.targets ≡ false))
        (store_target freq image_id)
        (λ r. AllUnique)
        AllUnique
unfolding store_target
store_target-AllUnique freq image_id =
    or_answer-Triple {Q = λ id. AllUnique} _
      (create_target-AllUnique image_id (or_daily (trim_space freq)))
      (λ id.
        or_answer-Invariant _ (kept (get_target_by_id-Keeps (λ w. refl) id)) (λ t. Invariant-pure))

create_unmonitored-AllUnique :
    (freq : Text) (image_id : ℕ) → Invariant AllUnique (create_unmonitored freq image_id)
unfolding create_unmonitored
create_unmonitored-AllUnique freq image_id = or_answer-Triple _ (target_exists_tells image_id) told
  where
    told :
        (exists : Bool)
        → Triple
            (λ w. AllUnique w × (any (is_live_target_of image_id) w.db.targets ≡ exists))
            (if exists
              then pure
                  (api_error 409 (codes "ALREADY_EXISTS") (codes "this image is already monitored"))
              else store_target freq image_id)
            (λ r. AllUnique)
            AllUnique
    told true = record { apply = λ env w h. h.0 }
    told false = store_target-AllUnique freq image_id

create_active-AllUnique :
    (freq : Text) (image_id : ℕ) → Invariant AllUnique (create_active_target freq image_id)
unfolding create_active_target
create_active-AllUnique freq image_id =
    or_answer-Invariant _ (kept (image_is_active-Keeps (λ w. refl) image_id))
      (λ active. Triple-if active (create_unmonitored-AllUnique freq image_id) Invariant-pure)

create_parsed-AllUnique :
    (freq : Text) (id : Option ℕ) → Invariant AllUnique (create_parsed_target freq id)
unfolding create_parsed_target
create_parsed-AllUnique freq none = Invariant-pure
create_parsed-AllUnique freq (some id) = create_active-AllUnique freq id

add-AllUnique :
    (parse_uuid : Text → Option ℕ) (req : Option CreateTargetReq)
    → Invariant AllUnique (add_target parse_uuid req)
unfolding add_target
add-AllUnique parse_uuid none = Invariant-pure
add-AllUnique parse_uuid (some req) =
    create_parsed-AllUnique req.scan_frequency (parse_uuid (trim_space req.image_id))

remove-AllUnique : (id : Option ℕ) → Invariant AllUnique (remove_target id)
unfolding remove_target
remove-AllUnique none = Invariant-pure
remove-AllUnique (some id) =
    or_answer-Invariant _ (soft_delete_target-AllUnique id) (λ u. Invariant-pure)

change-AllUnique :
    (id : Option ℕ) (req : Option CreateTargetReq) → Invariant AllUnique (change_target id req)
unfolding change_target
change-AllUnique none req = Invariant-pure
change-AllUnique (some id) none = Invariant-pure
change-AllUnique (some id) (some req) =
    or_answer-Invariant _ (update_target-AllUnique id (or_daily (trim_space req.scan_frequency)))
      (λ u.
        or_answer-Invariant _ (kept (get_target_by_id-Keeps (λ w. refl) id)) (λ t. Invariant-pure))

trigger_pushed-AllUnique :
    (target_id scan_id : ℕ) → Invariant AllUnique (trigger_pushed target_id scan_id)
unfolding trigger_pushed
trigger_pushed-AllUnique target_id scan_id =
    Triple-bind {Q = λ u. AllUnique}
      {k = λ u.
        or_answer (get_scan_detail scan_id) (λ e. internal "scan load failed")
          (λ d. pure (envelope 202 (some d)))}
      (Invariant-ignore (update_target_latest_scan-AllUnique target_id scan_id (codes "pending")))
      (λ u.
        or_answer-Invariant (λ e. internal "scan load failed")
          (kept (get_scan_detail-Keeps (λ w. refl) scan_id))
          (λ d. Invariant-pure {a = envelope 202 (some d)}))

trigger_inserted-AllUnique :
    (field : Text) (target_id : ℕ) (d : ImageDetail) (scan_id : ℕ)
    → Invariant AllUnique (trigger_inserted field target_id d scan_id)
unfolding trigger_inserted
trigger_inserted-AllUnique field target_id d scan_id = record {
  apply = λ env w h.
      (Triple-bind {Q = λ r. AllUnique}
          {k = λ reg.
            or_answer
              (enqueue (queue_key field env) scan_id
                (build_image_pull_ref env d.registry_url d.image.repository d.image.tag)
                (credentials_of env reg))
              (λ e. internal "enqueue failed") (λ u. trigger_pushed target_id scan_id)}
          (Invariant-attempt (kept (get_registry_by_id-Keeps (λ w. refl) d.image.registry_id)))
          (λ reg.
            or_answer-Invariant (λ e. internal "enqueue failed")
              (enqueue-targets (queue_key field env) scan_id
                (build_image_pull_ref env d.registry_url d.image.repository d.image.tag)
                (credentials_of env reg))
              (λ u. trigger_pushed-AllUnique target_id scan_id))).apply
        env w h;
}

trigger_found-AllUnique : (field : Text) (t : Target) → Invariant AllUnique (trigger_found field t)
unfolding trigger_found
trigger_found-AllUnique field t =
    or_answer-Invariant _ (kept (get_image_by_id-Keeps (λ w. refl) t.row.image_id)) (λ d.
      or_answer-Invariant _ (insert_manual_scan-targets t.row.image_id)
        (trigger_inserted-AllUnique field t.row.id d))

trigger-AllUnique :
    (field : Text) (id : Option ℕ) → Invariant AllUnique (trigger_target_scan field id)
unfolding trigger_target_scan
trigger-AllUnique field none = Invariant-pure
trigger-AllUnique field (some id) =
    or_answer-Invariant _ (kept (get_target_by_id-Keeps (λ w. refl) id))
      (trigger_found-AllUnique field)

-- Whatever fails on the way, where no image has two live targets, none has after each of the
-- handlers that create, delete, change and scan a target.
pub targets-UniqueTargets :
    (parse_uuid : Text → Option ℕ) (field : Text) (req : Option CreateTargetReq) (id : Option ℕ)
    (env : Env) (w : World)
    → UniqueTargets w.db.targets
    → UniqueTargets (add_target parse_uuid req env w).1.db.targets
      × UniqueTargets (remove_target id env w).1.db.targets
      × UniqueTargets (change_target id req env w).1.db.targets
      × UniqueTargets (trigger_target_scan field id env w).1.db.targets
targets-UniqueTargets parse_uuid field req id env w h = (
  Post-world AllUnique _ ((add-AllUnique parse_uuid req).apply env w h),
  Post-world AllUnique _ ((remove-AllUnique id).apply env w h),
  Post-world AllUnique _ ((change-AllUnique id req).apply env w h),
  Post-world AllUnique _ ((trigger-AllUnique field id).apply env w h),
)
