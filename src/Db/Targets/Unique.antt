-- ===== src/Db/Targets/Unique.antt =====
-- At most one live target of an image: the statements of internal/db/targets_store.go.
use vullify_backend.Prelude.{
  ℕ, ◌≡◌, refl, ◌≤◌, Bool, true, false, Option, List, [], ◌∷◌, ◌++◌, if◌then◌else◌, ◌==◌, any,
  update_where, count_where, count_where-append, count_where-update_blind, arith,
}
use vullify_backend.Text.{Text}
use vullify_backend.Scanner.{no_rows}
use vullify_backend.World.{
  M, err, RegistryCredentials, World, Env, TargetRow, Invariant, Triple, Triple-call, Keeps,
  Keeps-Invariant, Keeps-call, Post, now, modify_db,
}
use vullify_backend.Scanqueue.{enqueue, lpush}
use vullify_backend.Db.Scans.{insert_manual_scan, insert_scan}
use vullify_backend.Db.Active.{none_counted}
use vullify_backend.Db.Targets.{
  create_target, update_target_latest_scan, soft_delete_target, update_target, target_exists,
  is_live_target_of, is_live_target, with_latest, with_frequency, delete_target_at, update_targets,
}

abbrev pub UniqueTargets : List TargetRow → Type 0
UniqueTargets rows = (image_id : ℕ) → count_where (is_live_target_of image_id) rows ≤ 1

abbrev pub AllUnique : World → Type 0
AllUnique w = UniqueTargets w.db.targets

pub kept : {A : Type 0} {m : M A} → Keeps (λ w. w.db.targets) m → Invariant AllUnique m
kept h = Keeps-Invariant (λ w. w.db.targets) UniqueTargets h

one_more_target :
    (image_id i : ℕ) (rows : List TargetRow) (t : TargetRow)
    → t.image_id ≡ image_id
    → any (is_live_target_of image_id) rows ≡ false
    → count_where (is_live_target_of i) rows ≤ 1
    → count_where (is_live_target_of i) (rows ++ t ∷ []) ≤ 1
one_more_target image_id i rows t e free h = ground (
  arith,
  none_counted (is_live_target_of image_id) rows free,
  count_where-append (is_live_target_of i) rows (t ∷ []),
)

pub create_target-AllUnique :
    (image_id : ℕ) (freq : Text)
    → Triple
        (λ w. AllUnique w × (any (is_live_target_of image_id) w.db.targets ≡ false))
        (create_target image_id freq)
        (λ id. AllUnique)
        AllUnique
unfolding create_target
create_target-AllUnique image_id freq =
    Triple-call (λ w h. (h, h.0))
      (record { apply = λ env w h i. one_more_target image_id i w.db.targets _ refl h.1 (h.0 i) })

pub target_exists_tells :
    (image_id : ℕ)
    → Triple AllUnique
        (target_exists image_id)
        (λ exists w. AllUnique w × (any (is_live_target_of image_id) w.db.targets ≡ exists))
        AllUnique
unfolding target_exists
target_exists_tells image_id = Triple-call (λ w h. (h, h)) (record { apply = λ env w h. (h, refl) })

-- An update that does not see the image and the deletion of a target.
update_targets-Unique :
    (id : ℕ) (f : TargetRow → TargetRow) (rows : List TargetRow)
    → ((i : ℕ) (t : TargetRow) → is_live_target_of i (f t) ≡ is_live_target_of i t)
    → UniqueTargets rows
    → UniqueTargets (update_where (is_live_target id) f rows)
update_targets-Unique id f rows blind u i = omega (
  arith,
  count_where-update_blind (is_live_target_of i) (is_live_target id) f (blind i) rows,
  u i,
)

deleted-Unique :
    (id t i : ℕ) (rows : List TargetRow)
    → count_where (is_live_target_of i) (update_where (is_live_target id) (delete_target_at t) rows)
      ≤ count_where (is_live_target_of i) rows
deleted-Unique id t i [] = omega arith
deleted-Unique id t i (r ∷ rows) = ground (arith, deleted-Unique id t i rows)

pub soft_delete_target-AllUnique : (id : ℕ) → Invariant AllUnique (soft_delete_target id)
unfolding soft_delete_target
soft_delete_target-AllUnique id =
    Triple-call (λ w h. (h, h))
      (record {
        apply = λ env w h i. omega (arith, deleted-Unique id (now env w) i w.db.targets, h i);
      })

pub update_target-AllUnique : (id : ℕ) (freq : Text) → Invariant AllUnique (update_target id freq)
unfolding update_target
update_target-AllUnique id freq =
    Triple-call (λ w h. (h, h))
      (record {
        apply = λ env w h. chosen env w h (count_where (is_live_target id) w.db.targets == 0);
      })
  where
    chosen :
        (env : Env) (w : World)
        → AllUnique w
        → (b : Bool)
        → Post
            (λ u. AllUnique)
            AllUnique
            (if b
              then (err no_rows, w)
              else modify_db (update_targets id (with_frequency freq)) env w)
    chosen env w h true = h
    chosen env w h false =
        update_targets-Unique id (with_frequency freq) w.db.targets (λ i t. refl) h

pub update_target_latest_scan-AllUnique :
    (target_id scan_id : ℕ) (status : Text)
    → Invariant AllUnique (update_target_latest_scan target_id scan_id status)
unfolding update_target_latest_scan
update_target_latest_scan-AllUnique target_id scan_id status =
    Triple-call (λ w h. (h, h))
      (record {
        apply = λ env w h.
            update_targets-Unique target_id (with_latest scan_id status) w.db.targets (λ i t. refl)
              h;
      })

pub enqueue-targets :
    (key : Text) (id : ℕ) (ref : Text) (creds : Option RegistryCredentials)
    → Invariant AllUnique (enqueue key id ref creds)
unfolding enqueue lpush
enqueue-targets key id ref creds = kept (Keeps-call (λ w. refl) (record { apply = λ env w. refl }))

pub insert_manual_scan-targets : (image_id : ℕ) → Invariant AllUnique (insert_manual_scan image_id)
unfolding insert_manual_scan insert_scan
insert_manual_scan-targets image_id =
    kept (Keeps-call (λ w. refl) (record { apply = λ env w. refl }))
