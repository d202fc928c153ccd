-- ===== src/Db/Reads.antt =====
-- The statements of internal/db that only read: any view of the world that ticks do not change is
-- as before.
use vullify_backend.Prelude.{ℕ, ◌≡◌, refl, Option, none, some}
use vullify_backend.Text.{Text, is_empty, trim_space}
use vullify_backend.World.{
  World, M, call, tick, Keeps, Keeps-bind, Keeps-call, Keeps-pure, Keeps-raise, Keeps-if,
}
use vullify_backend.Db.Images.{get_image_by_id, get_registry_by_id, or_no_rows}
use vullify_backend.Db.Details.{
  image_is_active, find_image_id_by_pull_ref, get_scan_detail, has_counts,
}
use vullify_backend.Db.Registries.{list_registries}
use vullify_backend.Db.Targets.{get_target_by_id, target_exists}
use vullify_backend.Db.Suppressions.{get_suppression_by_id}

module _ {X : Type 0} {f : World → X} (still : (w : World) → f (tick w) ≡ f w) where
  pub or_no_rows-Keeps : {A : Type 0} (o : Option A) → Keeps f (or_no_rows o)
  or_no_rows-Keeps none = Keeps-raise
  or_no_rows-Keeps (some a) = Keeps-pure

  select : {A : Type 0} {m : M A} → Keeps f m → Keeps f (call m)
  select = Keeps-call still

  pub get_image_by_id-Keeps : (id : ℕ) → Keeps f (get_image_by_id id)
  unfolding get_image_by_id
  get_image_by_id-Keeps id = Keeps-bind (select (record { apply = λ env w. refl })) (λ found.
      Keeps-bind (or_no_rows-Keeps found)
        (λ row. Keeps-bind (select (record { apply = λ env w. refl })) (λ latest. Keeps-pure)))

  pub get_registry_by_id-Keeps : (id : ℕ) → Keeps f (get_registry_by_id id)
  unfolding get_registry_by_id
  get_registry_by_id-Keeps id =
      Keeps-bind (select (record { apply = λ env w. refl })) or_no_rows-Keeps

  pub image_is_active-Keeps : (id : ℕ) → Keeps f (image_is_active id)
  unfolding image_is_active
  image_is_active-Keeps id = select (record { apply = λ env w. refl })

  pub find_image_id_by_pull_ref-Keeps : (want : Text) → Keeps f (find_image_id_by_pull_ref want)
  unfolding find_image_id_by_pull_ref
  find_image_id_by_pull_ref-Keeps want =
      Keeps-if (is_empty (trim_space want)) Keeps-raise
        (Keeps-bind (select (record { apply = λ env w. refl })) or_no_rows-Keeps)

  pub get_scan_detail-Keeps : (id : ℕ) → Keeps f (get_scan_detail id)
  unfolding get_scan_detail
  get_scan_detail-Keeps id = Keeps-bind (select (record { apply = λ env w. refl })) (λ found.
      Keeps-bind (or_no_rows-Keeps found) (λ d.
        Keeps-if (has_counts d.severity_count) Keeps-pure
          (select (record { apply = λ env w. refl }))))

  pub list_registries-Keeps : (offset limit : ℕ) → Keeps f (list_registries offset limit)
  unfolding list_registries
  list_registries-Keeps offset limit =
      Keeps-bind (select (record { apply = λ env w. refl }))
        (λ n. Keeps-bind (select (record { apply = λ env w. refl })) (λ rows. Keeps-pure))

  pub get_target_by_id-Keeps : (id : ℕ) → Keeps f (get_target_by_id id)
  unfolding get_target_by_id
  get_target_by_id-Keeps id =
      Keeps-bind (select (record { apply = λ env w. refl })) or_no_rows-Keeps

  pub target_exists-Keeps : (id : ℕ) → Keeps f (target_exists id)
  unfolding target_exists
  target_exists-Keeps id = select (record { apply = λ env w. refl })

  pub get_suppression_by_id-Keeps : (id : ℕ) → Keeps f (get_suppression_by_id id)
  unfolding get_suppression_by_id
  get_suppression_by_id-Keeps id =
      Keeps-bind (select (record { apply = λ env w. refl })) or_no_rows-Keeps
