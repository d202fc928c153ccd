-- ===== src/Scheduler/Sync.antt =====
-- The tasks that ask registries: `runRegistrySync` and `runChangeDetection` of
-- internal/scheduler/tasks.go.
pub mod Exact
pub mod Changed
use vullify_backend.Prelude.{Bool, true, false, Option, none, some, List, [], ◌∷◌, if◌then◌else◌}
use vullify_backend.Text.{Text, text_eq}
use vullify_backend.World.{
  M, ok, err, Result, pure, ◌>>=◌, ◌>>◌, attempt, ignore, on_result, ctx_done, RegistryRow,
}
use vullify_backend.Registry.{RegistryConnector, NewConnector, ask, of_result}
use vullify_backend.Db.Webhooks.{upsert_image}
use vullify_backend.Db.SoftDelete.{
  soft_delete_image_tags_not_in, soft_delete_images_for_repositories_not_in,
}
use vullify_backend.Db.Changes.{
  ImageChangeRow, list_active_registries, list_images_for_change_detection, update_image_digest,
}
use vullify_backend.Scheduler.{
  Config, config_key, for_each, enqueue_scheduled_scan, normalize_digest,
}

-- The tags of a repository: an error of an upsert is logged only.
upsert_tags : RegistryRow → Text → List Text → M (Unit {0})
upsert_tags reg repo [] = pure tt
upsert_tags reg repo (tag ∷ tags) =
    ignore (upsert_image reg.id repo tag) >> upsert_tags reg repo tags

sync_tags : RegistryRow → Text → List Text → M (Unit {0})
unfolding upsert_tags
sync_tags reg repo tags =
    upsert_tags reg repo tags >> ignore (soft_delete_image_tags_not_in reg.id repo tags)

-- The body of the loop over the repositories.
sync_repository : RegistryConnector → RegistryRow → Text → M (Unit {0})
unfolding sync_tags
sync_repository conn reg repo = do
  tags ← attempt (ask (conn.list_tags repo))
  on_result tags (sync_tags reg repo) (λ e. pure tt)

-- A loop whose body stands before the test of the context again. It says whether it was not
-- stopped by the context.
sync_repositories : RegistryConnector → RegistryRow → List Text → M Bool
unfolding sync_repository
sync_repositories conn reg [] = pure true
sync_repositories conn reg (repo ∷ repos) = do
  done ← ctx_done
  if done then pure false else (sync_repository conn reg repo >> sync_repositories conn reg repos)

-- The rest of the round of a registry; the context ends the whole task.
sync_listed : RegistryConnector → RegistryRow → List Text → M Bool
unfolding sync_repositories
sync_listed conn reg repos = do
  finished ← sync_repositories conn reg repos
  if finished
      then (ignore (soft_delete_images_for_repositories_not_in reg.id repos) >> pure true)
      else pure false

sync_with : RegistryRow → RegistryConnector → M Bool
unfolding sync_listed
sync_with reg conn = do
  repos ← attempt (ask conn.list_repositories)
  on_result repos (sync_listed conn reg) (λ e. pure true)

pub sync_registry : NewConnector → RegistryRow → M Bool
unfolding sync_with
sync_registry connect reg =
    on_result (connect reg.type reg.credentials) (sync_with reg) (λ e. pure true)

sync_registries : NewConnector → List RegistryRow → M (Unit {0})
unfolding sync_registry
sync_registries connect [] = pure tt
sync_registries connect (reg ∷ regs) = do
  done ← ctx_done
  if done then pure tt else (do
    finished ← sync_registry connect reg
    if finished then sync_registries connect regs else pure tt)

unfoldable pub run_registry_sync : NewConnector → M (Unit {0})
unfolding sync_registries
run_registry_sync connect = do
  regs ← attempt list_active_registries
  on_result regs (sync_registries connect) (λ e. pure tt)

-- `row.Digest != nil && normalizeDigest(*row.Digest) == remoteNorm`.
abbrev is_unchanged : Option Text → Text → Bool
is_unchanged none remote = false
is_unchanged (some digest) remote = text_eq (normalize_digest digest) (normalize_digest remote)

-- A change is scheduled for a scan, and the digest is stored unless that gives an error.
record_change : Text → ImageChangeRow → Text → M (Unit {0})
record_change qk row remote =
    enqueue_scheduled_scan qk row.image.id >> ignore (update_image_digest row.image.id remote)

pub detect_change : NewConnector → Text → ImageChangeRow → M (Unit {0})
unfolding record_change
detect_change connect qk row = do
  conn ← of_result (connect row.registry.type row.registry.credentials)
  remote ← ask (conn.get_digest row.image.repository row.image.tag)
  if is_unchanged row.image.digest remote then pure tt else record_change qk row remote

unfoldable pub run_change_detection : NewConnector → Config → M (Unit {0})
unfolding detect_change for_each
run_change_detection connect cfg = do
  rows ← attempt list_images_for_change_detection
  on_result rows (for_each (detect_change connect (config_key cfg))) (λ e. pure tt)
