-- ===== src/Api/Adhoc.antt =====
-- The handler of ad-hoc scans: internal/api/handlers_adhoc.go. The decoding of a body is an
-- argument.
pub mod RoundTrip
pub mod Started
use vullify_backend.Prelude.{
  ℕ, Bool, true, false, ◌&&◌, ◌||◌, not, Option, none, some, List, [], ◌∷◌, ◌++◌, if◌then◌else◌,
  ◌==◌, find_row,
}
use vullify_backend.Text.Cut.{cut_first, cut_last}
use vullify_backend.Text.{Text, codes, text_eq, is_empty, trim_space, to_lower, contains}
use vullify_backend.Scanner.{Error, no_rows}
use vullify_backend.World.{
  M, pure, ◌>>=◌, attempt, on_result, Env, World, RegistryRow, RegistryCredentials,
}
use vullify_backend.Scanqueue.{enqueue, build_image_pull_ref, credentials_from_registry_json}
use vullify_backend.Db.Scans.{insert_manual_scan}
use vullify_backend.Db.Images.{get_image_by_id, get_registry_by_id, ImageDetail, or_no_rows}
use vullify_backend.Db.Webhooks.{upsert_image}
use vullify_backend.Db.Registries.{list_registries}
use vullify_backend.Db.Details.{image_is_active, get_scan_detail, find_image_id_by_pull_ref}
use vullify_backend.Api.Reply.{
  Reply, api_error, envelope, invalid, not_found, internal, or_answer, with_body, by_no_rows,
}
use vullify_backend.Api.Scans.{Answer, queue_key}

-- What `parseImageRef` returns.
pub record ParsedRef : Type 0 where
  pub host : Text
  pub repo : Text
  pub tag : Text

-- The tag, and the reference without it.
abbrev pub tagged : Text → Option (Text × Text) → Text × Text
tagged ref none = (ref, codes "latest")
tagged ref (some p) = p

abbrev pub is_host : Text → Bool
is_host first =
    contains first (codes ".") || (contains first (codes ":") || text_eq first (codes "localhost"))

abbrev pub docker_io : Text
docker_io = codes "docker.io"

-- The host and the repository.
abbrev pub located : Text → Option (Text × Text) → Text × Text
located ref none = (docker_io, codes "library/" ++ ref)
located ref (some (first, rest)) = if is_host first then (first, rest) else (docker_io, ref)

abbrev pub official : Text → Text → Text
official host repo =
    if text_eq host docker_io && not (contains repo (codes "/"))
    then codes "library/" ++ repo
    else repo

abbrev pub parsed_ref : Text → Text × Text → ParsedRef
parsed_ref tag (host, repo) = record { host = host; repo = official host repo; tag = tag }

abbrev pub parsed_tagged : Text × Text → ParsedRef
parsed_tagged (ref, tag) = parsed_ref tag (located ref (cut_first b'/' ref))

unfoldable pub parse_image_ref : Text → ParsedRef
unfolding cut_first cut_last contains text_eq trim_space
parse_image_ref ref = parsed_tagged (tagged (trim_space ref) (cut_last b':' (trim_space ref)))

-- The first of 100 registries whose URL has the host in it.
abbrev serves_host : Text → RegistryRow → Bool
serves_host host r = contains (to_lower r.url) (to_lower host)

unfoldable pub find_registry_by_host : Text → M RegistryRow
find_registry_by_host host = do
  regs ← list_registries 0 100
  or_no_rows (find_row (serves_host host) regs.0)

-- The last part, for an image, a reference and credentials.
adhoc_inserted : Text → Text → Option RegistryCredentials → ℕ → M Answer
adhoc_inserted field ref creds scan_id env w =
    or_answer (enqueue (queue_key field env) scan_id ref creds)
      (λ e. internal "failed to enqueue scan")
      (λ u.
        or_answer (get_scan_detail scan_id) (λ e. internal "failed to load scan")
          (λ d. pure (envelope 202 (some d))))
      env w

adhoc_start : Text → Text → Option RegistryCredentials → ℕ → M Answer
unfolding adhoc_inserted
adhoc_start field ref creds image_id =
    or_answer (image_is_active image_id) (λ e. not_found "image not found or inactive")
      (λ active.
        if active
        then or_answer (insert_manual_scan image_id) (λ e. internal "failed to create scan")
            (adhoc_inserted field ref creds)
        else pure (not_found "image not found or inactive"))

adhoc_upserted : Text → RegistryRow → ParsedRef → ℕ → M Answer
unfolding adhoc_start
adhoc_upserted field reg p image_id env w =
    adhoc_start field (build_image_pull_ref env reg.url p.repo p.tag)
      (credentials_from_registry_json env reg.type reg.credentials) image_id env w

-- An image that is not known is created in the registry of its host.
adhoc_new : Text → ParsedRef → M Answer
unfolding adhoc_upserted
adhoc_new field p =
    or_answer (find_registry_by_host p.host)
      (λ e.
        api_error 400 (codes "VALIDATION_ERROR")
          (codes "no registry configured for " ++ (p.host ++ codes "; register one first")))
      (λ reg.
        or_answer (upsert_image reg.id p.repo p.tag) (λ e. internal "failed to create image")
          (adhoc_upserted field reg p))

adhoc_registry : Text → ImageDetail → ℕ → RegistryRow → M Answer
unfolding adhoc_start
adhoc_registry field d image_id reg env w =
    adhoc_start field (build_image_pull_ref env reg.url d.image.repository d.image.tag)
      (credentials_from_registry_json env reg.type reg.credentials) image_id env w

adhoc_known : Text → Text → ℕ → M Answer
unfolding adhoc_registry adhoc_start
adhoc_known field ref image_id =
    or_answer (get_image_by_id image_id) (λ e. internal "failed to load image")
      (λ d. attempt (get_registry_by_id d.image.registry_id) >>= λ reg.
        on_result reg (adhoc_registry field d image_id) (λ e. adhoc_start field ref none image_id))

adhoc_for : Text → Text → M Answer
unfolding adhoc_new adhoc_known parse_image_ref
adhoc_for field ref = attempt (find_image_id_by_pull_ref ref) >>= λ found.
    on_result found (adhoc_known field ref)
      (by_no_rows (adhoc_new field (parse_image_ref ref)) (pure (internal "lookup failed")))

-- `createAdhocScan`, of the field `image_ref`.
unfoldable pub create_adhoc_scan : Text → Option Text → M Answer
unfolding adhoc_for
create_adhoc_scan field req = with_body req (λ image_ref.
    if is_empty (trim_space image_ref)
    then pure (invalid "image_ref is required")
    else adhoc_for field (trim_space image_ref))
