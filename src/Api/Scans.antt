-- ===== src/Api/Scans.antt =====
-- The handlers that start, run again and cancel a scan: internal/api/handlers_scans.go. The
-- decoding of a request's body and `uuid.Parse` are arguments.
pub mod Steps
pub mod Started
use vullify_backend.Prelude.{
  ℕ, Bool, true, false, not, Option, none, some, List, [], ◌∷◌, if◌then◌else◌,
}
use Prim.Native.String.{String}
use vullify_backend.Text.{Text, codes, is_empty, trim_space}
use vullify_backend.Scanner.{
  Error, plain, wrapped, context_done, no_rows, trivy, trivy_caused, error_text,
}
use vullify_backend.World.{
  M, ok, err, Result, pure, ◌>>=◌, attempt, on_result, Env, World, RegistryRow, RegistryCredentials,
}
use vullify_backend.Scanqueue.{
  enqueue, build_image_pull_ref, credentials_from_registry_json, default_key,
}
use vullify_backend.Api.Reply.{
  Reply, api_error, envelope, invalid, not_found, internal, or_answer, with_id, by_no_rows,
}
use vullify_backend.Db.Scans.{insert_manual_scan, cancel_scan}
use vullify_backend.Db.Images.{get_image_by_id, get_registry_by_id, ImageDetail}
use vullify_backend.Db.Details.{
  ScanDetail, image_is_active, get_scan_detail, find_image_id_by_pull_ref,
}

-- `createScanReq`.
pub record CreateScanReq : Type 0 where
  pub image_id : Text
  pub image_ref : Text

-- A scan with a status; `none` stands for the empty scan that is written where the scan cannot
-- be read.
abbrev pub Answer : Type 0
Answer = Reply (Option ScanDetail)

-- `Server.queueKey`, of the server's field.
abbrev pub queue_key : Text → Env → Text
queue_key field env =
    if not (is_empty env.scan_queue_key_env)
    then env.scan_queue_key_env
    else if not (is_empty field)
    then field
    else default_key

-- `extractRegistryCredentials`, where the registry was found.
abbrev pub credentials_of : Env → Result RegistryRow → Option RegistryCredentials
credentials_of env (ok reg) = credentials_from_registry_json env reg.type reg.credentials
credentials_of env (err e) = none

-- The end that `createScan` and `rerunScan` share.
enqueue_scan : Text → ImageDetail → ℕ → M Answer
enqueue_scan field d scan_id env w =
    (attempt (get_registry_by_id d.image.registry_id) >>= λ reg.
    or_answer
      (enqueue (queue_key field env) scan_id
        (build_image_pull_ref env d.registry_url d.image.repository d.image.tag)
        (credentials_of env reg))
      (λ e. internal "failed to enqueue scan")
      (λ u.
        or_answer (get_scan_detail scan_id) (λ e. internal "failed to load scan")
          (λ detail. pure (envelope 201 (some detail)))))
      env w

-- `createScan`, with the image's id at hand.
create_active : Text → ℕ → M Answer
unfolding enqueue_scan
create_active field image_id =
    or_answer (get_image_by_id image_id) (λ e. not_found "image not found")
      (λ d.
        or_answer (insert_manual_scan image_id) (λ e. internal "failed to create scan")
          (enqueue_scan field d))

create_for : Text → ℕ → M Answer
unfolding create_active
create_for field image_id =
    or_answer (image_is_active image_id) (λ e. not_found "image not found")
      (λ active.
        if active then create_active field image_id else pure (not_found "image not found"))

create_parsed : Text → Option ℕ → M Answer
unfolding create_for
create_parsed field none = pure (invalid "invalid image_id")
create_parsed field (some image_id) = create_for field image_id

abbrev pub lookup_error : Error → Answer
lookup_error = by_no_rows (not_found "no image matches image_ref") (internal "lookup failed")

unfoldable pub create_scan : (Text → Option ℕ) → Text → Option CreateScanReq → M Answer
unfolding create_parsed create_for
create_scan parse_uuid field none = pure (invalid "invalid JSON body")
create_scan parse_uuid field (some req) =
    if not (is_empty (trim_space req.image_id))
    then create_parsed field (parse_uuid (trim_space req.image_id))
    else if not (is_empty (trim_space req.image_ref))
    then or_answer (find_image_id_by_pull_ref req.image_ref) lookup_error (create_for field)
    else pure (invalid "image_id or image_ref is required")

-- `rerunScan`: the scan is inserted before its image is read.
rerun_inserted : Text → ℕ → ℕ → M Answer
unfolding enqueue_scan
rerun_inserted field image_id scan_id =
    or_answer (get_image_by_id image_id) (λ e. internal "failed to load image")
      (λ d. enqueue_scan field d scan_id)

rerun_active : Text → ℕ → M Answer
unfolding rerun_inserted
rerun_active field image_id =
    or_answer (insert_manual_scan image_id) (λ e. internal "failed to create scan")
      (rerun_inserted field image_id)

rerun_found : Text → ScanDetail → M Answer
unfolding rerun_active
rerun_found field prev =
    or_answer (image_is_active prev.scan.image_id) (λ e. not_found "image not found or inactive")
      (λ active.
        if active
        then rerun_active field prev.scan.image_id
        else pure (not_found "image not found or inactive"))

-- The argument is the id of the path, `none` where it is not a UUID.
unfoldable pub rerun_scan : Text → Option ℕ → M Answer
unfolding rerun_found
rerun_scan field none = pure (invalid "invalid id")
rerun_scan field (some id) =
    or_answer (get_scan_detail id) (λ e. not_found "scan not found") (rerun_found field)

abbrev detail_or_empty : Result ScanDetail → Option ScanDetail
detail_or_empty (ok d) = some d
detail_or_empty (err e) = none

-- `cancelScan`: an error of the reading is dropped.
unfoldable pub cancel_scan_by_id : Option ℕ → M Answer
cancel_scan_by_id none = pure (invalid "invalid id")
cancel_scan_by_id (some id) =
    or_answer (cancel_scan id) (λ e. api_error 400 (codes "CANCEL_FAILED") (error_text e))
      (λ u. attempt (get_scan_detail id) >>= λ d. pure (envelope 200 (detail_or_empty d)))
