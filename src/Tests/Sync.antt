-- ===== src/Tests/Sync.antt =====
-- The theorems on the scheduler's tasks that ask registries, applied at concrete data.
use vullify_backend.Prelude.{◌≡◌, refl, false, List, [], ◌∷◌, ◌&&◌, ◌==◌, arith, update_where}
use vullify_backend.Text.{Text, codes, text_eq}
use vullify_backend.World.{ok, tick, World, schedule}
use vullify_backend.Registry.{RegistryConnector, NewConnector}
use vullify_backend.Db.Images.{is_live}
use vullify_backend.Db.Active.{OneActive}
use vullify_backend.Db.Changes.{ImageChangeRow, with_digest}
use vullify_backend.Db.Scans.{new_scan}
use vullify_backend.Db.SoftDelete.Present.{present}
use vullify_backend.Scheduler.Sync.{sync_registry, detect_change, run_change_detection}
use vullify_backend.Scheduler.Sync.Exact.{sync_registry-Exact}
use vullify_backend.Scheduler.Sync.Changed.{run_change_detection-OneActive, detect_change-busy}
use vullify_backend.Tests.Data.{healthy_env, some_world, one_registry, one_image, rescan_config}

-- A registry with one repository of one tag.
abbrev tags_of : Text → List Text
tags_of repo = codes "v2" ∷ []

abbrev some_connector : RegistryConnector
some_connector = record {
  test_connection = λ t. ok tt;
  list_repositories = λ t. ok (codes "team/app" ∷ []);
  list_tags = λ repo t. ok (tags_of repo);
  get_digest = λ repo tag t. ok (codes "sha256:bb");
}

abbrev some_connect : NewConnector
some_connect type credentials = ok some_connector

sync_registry-Exact_example :
    present 9
      (codes "team/app")
      (codes "latest")
      (sync_registry some_connect one_registry healthy_env some_world).1.db.images
    ≡ false
unfolding text_eq
sync_registry-Exact_example =
    sync_registry-Exact healthy_env (λ t. refl) (λ t. refl) some_connect one_registry some_connector
      (codes "team/app" ∷ []) tags_of refl (λ t. refl) (λ repo t. refl) some_world 9
      (codes "team/app") (codes "latest")

run_change_detection-OneActive_example :
    OneActive (run_change_detection some_connect rescan_config healthy_env some_world).1.db
run_change_detection-OneActive_example =
    run_change_detection-OneActive some_connect rescan_config healthy_env some_world
      (λ i. ground arith)

abbrev busy_world : World
busy_world = record some_world {
  db = record (some_world.db) { scans = new_scan 5 1 schedule ∷ [] };
}

abbrev some_row : ImageChangeRow
some_row = record { image = one_image; registry = one_registry }

detect_change-busy_example :
    let after = detect_change some_connect (codes "q") some_row healthy_env busy_world in
    let later = record some_row { image = with_digest (codes "sha256:bb") one_image } in
    (after.1.db.scans ≡ busy_world.db.scans)
    × ((after.1.redis ≡ busy_world.redis)
        × ((after.1.db.images
              ≡ update_where
                  (λ i. i.id == 1 && is_live i.deleted_at)
                  (with_digest (codes "sha256:bb"))
                  busy_world.db.images)
            × (detect_change some_connect (codes "q") later healthy_env some_world
                ≡ (ok tt, tick some_world))))
detect_change-busy_example =
    detect_change-busy some_connect (codes "q") some_row some_connector (codes "sha256:bb")
      healthy_env healthy_env busy_world some_world (λ t. refl) refl refl refl refl refl
