-- ===== src/Scheduler/Sync/Exact.antt =====
-- What a registry sync leaves: `runRegistrySync` of internal/scheduler/tasks.go.
use vullify_backend.Prelude.{
  ℕ, ◌≡◌, refl, sym, ap, ◌∙◌, Bool, true, false, ◌&&◌, ◌||◌, not, none, List, [], ◌∷◌,
  if◌then◌else◌, ◌==◌, any, arith, Bool-cases, inl, inr,
}
use vullify_backend.Text.{Text, text_eq}
use vullify_backend.Text.Laws.{text_eq_sound}
use vullify_backend.World.{
  World, Env, M, Result, ok, err, RegistryRow, after, ◌>>=◌, ◌>>◌, pure, ignore, attempt, on_result,
  ctx_done,
}
use vullify_backend.Registry.{RegistryConnector, NewConnector, ask}
use vullify_backend.Db.Webhooks.{upsert_image}
use vullify_backend.Db.Webhooks.Present.{same_key, upsert_image-present}
use vullify_backend.Db.SoftDelete.{
  soft_delete_image_tags_not_in, soft_delete_images_for_repositories_not_in,
}
use vullify_backend.Db.SoftDelete.Present.{
  present, is_cons, soft_delete_image_tags_not_in-present,
  soft_delete_images_for_repositories_not_in-present,
}
use vullify_backend.Scheduler.Sync.{
  upsert_tags, sync_tags, sync_repository, sync_repositories, sync_listed, sync_with, sync_registry,
}

-- How an operation changes whether an image is there, by its registry, repository and tag.
abbrev Change : Type 0
Change = ℕ → Text → Text → Bool → Bool

record Turns (env : Env) {A : Type 0} (m : M A) (a : A) (g : Change) : Type 0 where
  value : (w : World) → (m env w).0 ≡ ok a
  view :
      (w : World) (r : ℕ) (repo tag : Text)
      → present r repo tag (m env w).1.db.images ≡ g r repo tag (present r repo tag w.db.images)

after-at :
    {A B : Type 0} {a : A} (k : A → M B) (env : Env) (x : Result A × World)
    → x.0 ≡ ok a
    → after k env x ≡ k a env x.1
after-at k env (ok b, w) h = ap (λ c. k c env w) (ground arith)
after-at k env (err e, w) h = absurd (ground arith)

module _ {env : Env} {A B : Type 0} where
  Turns-bind :
      {m : M A} {a : A} {b : B} (g h : Change) (k : A → M B)
      → Turns env m a g
      → Turns env (k a) b h
      → Turns env (m >>= k) b (λ r p t x. h r p t (g r p t x))
  Turns-bind {m} {a} {b} g h k hm hk = record {
    value = λ w. ap (λ x. x.0) (after-at k env (m env w) (hm.value w)) ∙ hk.value (m env w).1;
    view = λ w r p t.
        ap (λ x. present r p t x.1.db.images) (after-at k env (m env w) (hm.value w))
        ∙ (hk.view (m env w).1 r p t ∙ ap (h r p t) (hm.view w r p t));
  }

Turns-as :
    {env : Env} {A : Type 0} {m : M A} {a : A} {g h : Change}
    → Turns env m a g
    → ((r : ℕ) (p t : Text) (x : Bool) → g r p t x ≡ h r p t x)
    → Turns env m a h
Turns-as hm e = record { value = hm.value; view = λ w r p t. hm.view w r p t ∙ e r p t _ }

abbrev as_before : Change
as_before r p t x = x

Turns-pure : {env : Env} {A : Type 0} {a : A} → Turns env (pure a) a as_before
Turns-pure = record { value = λ w. refl; view = λ w r p t. refl }

-- A test of the context that is not done.
Turns-ctx_done :
    (env : Env) → ((t : ℕ) → env.cancelled t ≡ false) → Turns env ctx_done false as_before
Turns-ctx_done env patient = record { value = λ w. ap ok (patient w.ticks); view = λ w r p t. refl }

-- A call of a connector that always gives the same.
Turns-ask :
    {A : Type 0} (env : Env) (f : ℕ → Result A) (a : A)
    → ((t : ℕ) → f t ≡ ok a)
    → Turns env (attempt (ask f)) (ok a) as_before
Turns-ask env f a h = record { value = λ w. ap ok (h w.ticks); view = λ w r p t. refl }

module _ (env : Env) (healthy : (t : ℕ) → env.fault t ≡ none)
    (patient : (t : ℕ) → env.cancelled t ≡ false) (reg : RegistryRow)
    (tags_of : Text → List Text) where
  -- A repository's images are those of its tags.
  abbrev set_tags : Text → Change
  set_tags repo r p t x =
      if r == reg.id && text_eq p repo then any (text_eq t) (tags_of repo) else x

  abbrev add_tags : Text → List Text → Change
  add_tags repo tags r p t x = x || (r == reg.id && (text_eq p repo && any (text_eq t) tags))

  abbrev set_repositories : List Text → Change
  set_repositories repos r p t x =
      if r == reg.id && any (text_eq p) repos then any (text_eq t) (tags_of p) else x

  abbrev set_registry : List Text → Change
  set_registry repos r p t x =
      if r == reg.id && is_cons repos
      then any (text_eq p) repos && any (text_eq t) (tags_of p)
      else x

  upsert_image-Turns :
      (repo tag : Text)
      → Turns env
          (ignore (upsert_image reg.id repo tag))
          tt
          (λ r p t x. x || same_key r p t reg.id repo tag)
  upsert_image-Turns repo tag = record {
    value = λ w. refl;
    view = λ w r p t. upsert_image-present r p t reg.id repo tag env w healthy;
  }

  soft_delete_image_tags_not_in-Turns :
      (repo : Text) (tags : List Text)
      → Turns env
          (ignore (soft_delete_image_tags_not_in reg.id repo tags))
          tt
          (λ r p t x. x && not (r == reg.id && (text_eq p repo && not (any (text_eq t) tags))))
  soft_delete_image_tags_not_in-Turns repo tags = record {
    value = λ w. refl;
    view = λ w r p t.
        soft_delete_image_tags_not_in-present r p t env w (healthy w.ticks) reg.id repo tags;
  }

  delete_then_true-Turns :
      (repos : List Text)
      → Turns env
          (ignore (soft_delete_images_for_repositories_not_in reg.id repos) >> pure true)
          true
          (λ r p t x. x && not (r == reg.id && (is_cons repos && not (any (text_eq p) repos))))
  delete_then_true-Turns repos = record {
    value = λ w. refl;
    view = λ w r p t.
        soft_delete_images_for_repositories_not_in-present r p t env w (healthy w.ticks) reg.id
          repos;
  }

  upsert_tags-Turns :
      (repo : Text) (tags : List Text)
      → Turns env (upsert_tags reg repo tags) tt (add_tags repo tags)
  unfolding upsert_tags
  upsert_tags-Turns repo [] = Turns-as Turns-pure (λ r p t x. ground arith)
  upsert_tags-Turns repo (tag ∷ tags) =
      Turns-as
        (Turns-bind (λ r p t x. x || same_key r p t reg.id repo tag) (add_tags repo tags)
          (λ u. upsert_tags reg repo tags) (upsert_image-Turns repo tag)
          (upsert_tags-Turns repo tags))
        (λ r p t x. ground arith)

  sync_tags-Turns : (repo : Text) → Turns env (sync_tags reg repo (tags_of repo)) tt (set_tags repo)
  unfolding sync_tags
  sync_tags-Turns repo =
      Turns-as
        (Turns-bind (add_tags repo (tags_of repo))
          (λ r p t x.
            x && not (r == reg.id && (text_eq p repo && not (any (text_eq t) (tags_of repo)))))
          (λ u. ignore (soft_delete_image_tags_not_in reg.id repo (tags_of repo)))
          (upsert_tags-Turns repo (tags_of repo))
          (soft_delete_image_tags_not_in-Turns repo (tags_of repo)))
        (λ r p t x. ground arith)

  set_repositories-cons :
      (repo : Text) (repos : List Text) (r : ℕ) (p t : Text) (x : Bool)
      → set_repositories repos r p t (set_tags repo r p t x)
        ≡ set_repositories (repo ∷ repos) r p t x
  set_repositories-cons repo repos r p t x = elim (Bool-cases (text_eq p repo)) [
    | inl same ↦
        let e : any (text_eq t) (tags_of repo) ≡ any (text_eq t) (tags_of p) =
          ap (λ q. any (text_eq t) (tags_of q)) (sym (text_eq_sound p repo same)) in
        rw e (ground arith)
    | inr other ↦ ground arith
  ]

  module _ (conn : RegistryConnector)
      (lists : (repo : Text) (t : ℕ) → conn.list_tags repo t ≡ ok (tags_of repo)) where
    sync_repository-Turns :
        (repo : Text) → Turns env (sync_repository conn reg repo) tt (set_tags repo)
    unfolding sync_repository
    sync_repository-Turns repo =
        Turns-bind as_before (set_tags repo)
          (λ tags. on_result tags (sync_tags reg repo) (λ e. pure tt))
          (Turns-ask env (conn.list_tags repo) (tags_of repo) (lists repo)) (sync_tags-Turns repo)

    sync_repositories-Turns :
        (repos : List Text)
        → Turns env (sync_repositories conn reg repos) true (set_repositories repos)
    unfolding sync_repositories
    sync_repositories-Turns [] = Turns-as Turns-pure (λ r p t x. ground arith)
    sync_repositories-Turns (repo ∷ repos) =
        Turns-bind as_before (set_repositories (repo ∷ repos))
          (λ done.
            if done
            then pure false
            else (sync_repository conn reg repo >> sync_repositories conn reg repos))
          (Turns-ctx_done env patient)
          (Turns-as
            (Turns-bind (set_tags repo) (set_repositories repos)
              (λ u. sync_repositories conn reg repos) (sync_repository-Turns repo)
              (sync_repositories-Turns repos))
            (set_repositories-cons repo repos))

    sync_listed-Turns :
        (repos : List Text) → Turns env (sync_listed conn reg repos) true (set_registry repos)
    unfolding sync_listed
    sync_listed-Turns repos =
        Turns-as
          (Turns-bind (set_repositories repos)
            (λ r p t x. x && not (r == reg.id && (is_cons repos && not (any (text_eq p) repos))))
            (λ finished.
              if finished
              then (ignore (soft_delete_images_for_repositories_not_in reg.id repos) >> pure true)
              else pure false)
            (sync_repositories-Turns repos) (delete_then_true-Turns repos))
          (λ r p t x. set_registry-of_repositories repos r p t x)
      where
        set_registry-of_repositories :
            (repos : List Text) (r : ℕ) (p t : Text) (x : Bool)
            → set_repositories repos r p t x
                && not (r == reg.id && (is_cons repos && not (any (text_eq p) repos)))
              ≡ set_registry repos r p t x
        set_registry-of_repositories [] r p t x = ground arith
        set_registry-of_repositories (q ∷ repos) r p t x = ground arith

    sync_with-Turns :
        (repos : List Text)
        → ((t : ℕ) → conn.list_repositories t ≡ ok repos)
        → Turns env (sync_with reg conn) true (set_registry repos)
    unfolding sync_with
    sync_with-Turns repos listed =
        Turns-bind as_before (set_registry repos)
          (λ found. on_result found (sync_listed conn reg) (λ e. pure true))
          (Turns-ask env conn.list_repositories repos listed) (sync_listed-Turns repos)

-- Suppose no call fails, the context is not done, and the connector of a registry gives `repos`, and
-- `tags_of` for each repository. If `repos` is not empty, then after the sync of the registry it has
-- a live image of a repository and a tag if and only if these are among those that the connector
-- gave; the images of the other registries are as they were. If `repos` is empty, all images are as
-- they were.
pub sync_registry-Exact :
    (env : Env)
    → ((t : ℕ) → env.fault t ≡ none)
    → ((t : ℕ) → env.cancelled t ≡ false)
    → (connect : NewConnector) (reg : RegistryRow) (conn : RegistryConnector) (repos : List Text)
      (tags_of : Text → List Text)
    → connect reg.type reg.credentials ≡ ok conn
    → ((t : ℕ) → conn.list_repositories t ≡ ok repos)
    → ((repo : Text) (t : ℕ) → conn.list_tags repo t ≡ ok (tags_of repo))
    → (w : World) (r : ℕ) (repo tag : Text)
    → present r repo tag (sync_registry connect reg env w).1.db.images ≡ (
        if r == reg.id && is_cons repos
        then any (text_eq repo) repos && any (text_eq tag) (tags_of repo)
        else present r repo tag w.db.images)
unfolding sync_registry
sync_registry-Exact env healthy patient connect reg conn repos tags_of e listed lists w r repo tag =
    rw e
      ((sync_with-Turns env healthy patient reg tags_of conn lists repos listed).view w r repo tag)
