-- ===== src/Tests/Handlers.antt =====
-- The theorems on the handlers of suppressions, targets, registries and ad-hoc scans
-- applied at concrete data.
use vullify_backend.Prelude.{
  map, refl, ◌∷◌, ℕ, Option, none, some, [], ◌≤◌, ◌<◌, ◌⊎◌, ◌≡◌, List, arith, if◌then◌else◌, ◌*◌,
  ◌-◌, ◌%◌,
}
use vullify_backend.Text.{contains, has_prefix, trim_space, trim_slashes, Text, codes, text_eq}
use vullify_backend.World.{Post, World, SuppressionRow, err}
use vullify_backend.Db.Paging.{two_63}
use vullify_backend.Severity.{null_if_empty}
use vullify_backend.Db.Suppressions.{insert_suppression, get_suppression_by_id}
use vullify_backend.Db.Targets.Unique.{UniqueTargets}
use vullify_backend.Api.{Pagination, parse_pagination, two_64}
use vullify_backend.Api.Suppressions.{
  CreateSuppressionReq, UpdateSuppressionReq, create_suppression, change_suppression,
  remove_suppression,
}
use vullify_backend.Api.Suppressions.Narrow.{AllNarrow, IsUnnamed, suppressions-AllNarrow}
use vullify_backend.Api.Targets.{
  CreateTargetReq, add_target, remove_target, change_target, trigger_target_scan,
}
use vullify_backend.Api.Targets.Unique.{targets-UniqueTargets}
use vullify_backend.Api.Registries.{delete_registry, tags_page, out_of_range}
use vullify_backend.Api.Registries.Deleted.{DeletedOrKept, delete_registry-DeletedOrKept}
use vullify_backend.Api.Registries.Tags.{page_from, tags_page-page}
use vullify_backend.Scanqueue.{build_image_pull_ref}
use vullify_backend.Api.Adhoc.{parse_image_ref}
use vullify_backend.Api.Adhoc.RoundTrip.{parse_image_ref-build_image_pull_ref}
use vullify_backend.Tests.Data.{healthy_env, some_world}

abbrev parse_one : Text → Option ℕ
parse_one t = if text_eq t (codes "1") then some 1 else none

abbrev accepted_cve : SuppressionRow
accepted_cve = record {
  id = 2;
  cve_id = some (codes "CVE-2024-1");
  pkg_name = none;
  image_id = none;
  reason = codes "no fix";
  accepted_by = none;
  expires_at = none;
  created_at = 0;
}

abbrev suppressed_world : World
suppressed_world = record some_world {
  db = record (some_world.db) { suppressions = accepted_cve ∷ [] };
}

abbrev of_package : CreateSuppressionReq
of_package = record {
  cve_id = [];
  pkg_name = codes "openssl";
  image_id = some (codes "1");
  reason = codes "not reachable";
  expires_at = none;
}

abbrev later : UpdateSuppressionReq
later = record { reason = []; expires_at = some 500 }

suppressions-AllNarrow_example :
    (AllNarrow (create_suppression parse_one (some of_package) healthy_env suppressed_world).1
      ⊎ IsUnnamed (some of_package))
    × AllNarrow (change_suppression (some 2) (some later) healthy_env suppressed_world).1
    × AllNarrow (remove_suppression (some 2) healthy_env suppressed_world).1
suppressions-AllNarrow_example =
    suppressions-AllNarrow parse_one (some of_package) (some 2) (some later) healthy_env
      suppressed_world (refl, tt)

abbrev daily : CreateTargetReq
daily = record { image_id = codes " 1"; scan_frequency = [] }

one_target : UniqueTargets some_world.db.targets
one_target i = ground arith

targets-UniqueTargets_example :
    UniqueTargets (add_target parse_one (some daily) healthy_env some_world).1.db.targets
    × UniqueTargets (remove_target (some 3) healthy_env some_world).1.db.targets
    × UniqueTargets (change_target (some 3) (some daily) healthy_env some_world).1.db.targets
    × UniqueTargets (trigger_target_scan [] (some 3) healthy_env some_world).1.db.targets
targets-UniqueTargets_example =
    targets-UniqueTargets parse_one [] (some daily) (some 3) healthy_env some_world one_target

delete_registry-DeletedOrKept_example :
    Post
      (DeletedOrKept (some 9) some_world.db)
      (λ w. ⊥)
      (delete_registry (some 9) healthy_env some_world)
delete_registry-DeletedOrKept_example =
    delete_registry-DeletedOrKept (some 9) healthy_env some_world

-- A request for a suppression of a name of spaces is answered with one that names nothing.
abbrev of_spaces : CreateSuppressionReq
of_spaces = record (of_package) { cve_id = codes " "; pkg_name = [] }

spaces_test :
    map {B = Option Text × Option Text}
      (λ s. (s.cve_id, s.pkg_name))
      (create_suppression parse_one (some of_spaces) healthy_env some_world).1.db.suppressions
    ≡ (none, none) ∷ []
unfolding create_suppression insert_suppression get_suppression_by_id text_eq trim_space
    null_if_empty
spaces_test = refl

abbrev three_tags : List Text
three_tags = codes "1.0" ∷ codes "1.1" ∷ codes "latest" ∷ []

abbrev second_page : Pagination
second_page = parse_pagination (codes "2") (codes "2")

abbrev second_first : ℕ
second_first = (second_page.page - 1) * second_page.per_page

tags_page-page_example :
    (second_first < two_63)
      × (tags_page second_page three_tags healthy_env some_world
          ≡ page_from second_first second_page three_tags some_world)
    ⊎ (two_63 ≤ second_first)
      × ((second_first % two_64 < two_63)
            × (tags_page second_page three_tags healthy_env some_world
                ≡ page_from (second_first % two_64) second_page three_tags some_world)
          ⊎ (two_63 ≤ second_first % two_64)
            × (tags_page second_page three_tags healthy_env some_world
                ≡ (err out_of_range, some_world)))
tags_page-page_example =
    tags_page-page (codes "2") (codes "2") three_tags healthy_env some_world (omega arith)

parse_image_ref-build_image_pull_ref_example :
    parse_image_ref (
      build_image_pull_ref healthy_env (codes "https://ghcr.io") (codes "/team/app ") (codes "1.0"))
    ≡ record { host = codes "ghcr.io"; repo = codes "team/app"; tag = codes "1.0" }
unfolding build_image_pull_ref trim_space trim_slashes contains text_eq has_prefix
parse_image_ref-build_image_pull_ref_example =
    parse_image_ref-build_image_pull_ref healthy_env (codes "https://ghcr.io") (codes "/team/app ")
      (codes "1.0") (refl, refl) refl refl refl
