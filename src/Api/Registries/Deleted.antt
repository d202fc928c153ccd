-- ===== src/Api/Registries/Deleted.antt =====
-- What `deleteRegistry` of internal/api/server.go leaves.
use vullify_backend.Prelude.{
  ℕ, ◌≡◌, refl, Bool, true, false, Option, none, some, List, [], ◌∷◌, any, update_where,
  if◌then◌else◌, arith,
}
use vullify_backend.Scanner.{Error, plain, wrapped, context_done, no_rows, trivy, trivy_caused}
use vullify_backend.World.{
  ok, err, Env, World, Db, now, ImageRow, RegistryRow, Triple, Triple-bind, Triple-call,
  Triple-transaction, Post,
}
use vullify_backend.Db.SoftDelete.{
  delete_image_at, delete_registry_at, is_live_image_of, is_live_registry, soft_delete_registry,
  delete_registry_row,
}
use vullify_backend.Api.Reply.{Reply, api_error, envelope, not_found, internal, by_no_rows}
use vullify_backend.Api.Reply.Gives.{from_triple, or_answer-Gives}
use vullify_backend.Api.Registries.{delete_registry}

-- The registry and its images are gone.
abbrev pub Gone : ℕ → Db → Type 0
Gone id db =
    (any (is_live_registry id) db.registries ≡ false)
    × (any (is_live_image_of id) db.images ≡ false)

none_live-delete_images :
    (id t : ℕ) (images : List ImageRow)
    → any (is_live_image_of id) (update_where (is_live_image_of id) (delete_image_at t) images)
      ≡ false
none_live-delete_images id t [] = refl
none_live-delete_images id t (i ∷ images) = ground (arith, none_live-delete_images id t images)

none_live-delete_registry :
    (id t : ℕ) (rows : List RegistryRow)
    → any (is_live_registry id) (update_where (is_live_registry id) (delete_registry_at t) rows)
      ≡ false
none_live-delete_registry id t [] = refl
none_live-delete_registry id t (r ∷ rows) = ground (arith, none_live-delete_registry id t rows)

module _ (id : ℕ) where
  abbrev ImagesGone : World → Type 0
  ImagesGone w = any (is_live_image_of id) w.db.images ≡ false

  delete_registry_row-Gone :
      Triple ImagesGone (delete_registry_row id) (λ u w. Gone id w.db) (λ w. Unit)
  unfolding delete_registry_row
  delete_registry_row-Gone =
      Triple-call (λ w h. (h, tt)) (record { apply = λ env w h. chosen env w h _ })
    where
      chosen :
          (env : Env) (w : World)
          → ImagesGone w
          → (b : Bool)
          → Post
              (λ u w. Gone id w.db)
              (λ w. Unit)
              (if b then (err no_rows, w) else (
                ok tt,
                record w {
                  db = record (w.db) {
                    registries =
                        update_where
                          (is_live_registry id)
                          (delete_registry_at (now env w))
                          w.db.registries;
                  };
                },
              ))
      chosen env w h true = tt
      chosen env w h false = (none_live-delete_registry id (now env w) w.db.registries, h)

  soft_delete_registry-Gone :
      (d : Db)
      → Triple (λ w. w.db ≡ d) (soft_delete_registry id) (λ u w. Gone id w.db) (λ w. w.db ≡ d)
  unfolding soft_delete_registry
  soft_delete_registry-Gone d =
      Triple-transaction d (λ u w h. h)
        (Triple-bind {Q = λ u. ImagesGone}
          (Triple-call (λ w e. (e, tt))
            (record { apply = λ env w e. none_live-delete_images id (now env w) w.db.images }))
          (λ u. delete_registry_row-Gone))

-- The answer 204 says that the registry is gone; another answer changed nothing.
abbrev pub DeletedOrKept : Option ℕ → Db → Reply (Unit {0}) → World → Type 0
DeletedOrKept id d (api_error status code msg) w = w.db ≡ d
DeletedOrKept none d (envelope status u) w = ⊥
DeletedOrKept (some id) d (envelope status u) w = Gone id w.db

deletion_error :
    (id : ℕ) (d : Db) (e : Error) (w : World)
    → w.db ≡ d
    → DeletedOrKept
        (some id)
        d
        (by_no_rows (not_found "registry not found") (internal "delete failed") e)
        w
deletion_error id d (plain msg) w h = h
deletion_error id d (wrapped msg e) w h = h
deletion_error id d context_done w h = h
deletion_error id d no_rows w h = h
deletion_error id d (trivy kind phase stderr code) w h = h
deletion_error id d (trivy_caused kind phase stderr code e) w h = h

-- Whatever fails on the way, a deletion that is answered without an error leaves neither the
-- registry nor an image of it, and one that is answered with an error leaves the tables as they
-- were.
pub delete_registry-DeletedOrKept :
    (id : Option ℕ) (env : Env) (w : World)
    → Post (DeletedOrKept id w.db) (λ w. ⊥) (delete_registry id env w)
unfolding delete_registry
delete_registry-DeletedOrKept none env w = refl
delete_registry-DeletedOrKept (some id) env w =
    (or_answer-Gives {env = env} (DeletedOrKept (some id) w.db) _ _
        (from_triple (soft_delete_registry-Gone id w.db)) (deletion_error id w.db)
        (λ u. record { apply = λ w h. h })).apply
      w refl
