-- ===== src/Scheduler/Single.antt =====
-- The guard against double scans: `ImageHasPendingOrRunningScan` before every insert of the
-- scheduler, internal/scheduler/tasks.go.
use vullify_backend.Prelude.{
  ℕ, ◌≡◌, Bool, true, false, if◌then◌else◌, List, [], ◌∷◌, Option, none, some, any,
}
use vullify_backend.Text.{Text}
use vullify_backend.World.{
  M, World, Env, Triple, Triple-bind, Triple-if, Invariant, Invariant-attempt, Invariant-ignore,
  Invariant-on_result, Invariant-pure, RegistryRow, Duration, now, Post, Post-world, Result, ok,
  err, pure, ctx_done,
}
use vullify_backend.Scanqueue.{enqueue}
use vullify_backend.Db.Scans.{is_busy_with}
use vullify_backend.Db.Images.{
  ImageDetail, TargetRescanRow, list_image_ids_stale_for_rescan, list_targets_due_for_rescan,
}
use vullify_backend.Db.Active.{
  OneActive, Free, InDb, call-reads, get_registry_by_id-reads, get_image_by_id-reads,
  image_has_pending_or_running_scan-tells, insert_scheduled_scan-OneActive, lpush-OneActive,
}
use vullify_backend.Scheduler.{
  Config, config_key, enqueue_scheduled_scan, enqueue_idle, enqueue_for, for_each,
  run_periodic_rescan, run_target_rescan, rescan_target, rescan_with, parse_frequency,
}

enqueue_for-OneActive :
    (qk : Text) (detail : ImageDetail) (reg : RegistryRow) (id : ℕ)
    → Invariant (InDb OneActive) (enqueue_for qk detail reg id)
unfolding enqueue_for enqueue
enqueue_for-OneActive qk detail reg id = record {
  apply = λ env w h. (lpush-OneActive _ _).apply env w h;
}

enqueue_idle-OneActive :
    (qk : Text) (image_id : ℕ)
    → Triple
        (InDb (Free image_id))
        (enqueue_idle qk image_id)
        (λ a. InDb OneActive)
        (InDb OneActive)
unfolding enqueue_idle
enqueue_idle-OneActive qk image_id =
    Triple-bind (get_image_by_id-reads (λ db h. h.0) image_id) (λ detail.
      Triple-bind (get_registry_by_id-reads (λ db h. h.0) detail.image.registry_id) (λ reg.
        Triple-bind (insert_scheduled_scan-OneActive image_id)
          (enqueue_for-OneActive qk detail reg)))

pub enqueue_scheduled_scan-OneActive :
    (qk : Text) (image_id : ℕ) → Invariant (InDb OneActive) (enqueue_scheduled_scan qk image_id)
unfolding enqueue_scheduled_scan
enqueue_scheduled_scan-OneActive qk image_id =
    Triple-bind (image_has_pending_or_running_scan-tells image_id) answered
  where
    answered :
        (busy : Bool)
        → Triple
            (InDb λ db. OneActive db × (any (is_busy_with image_id) db.scans ≡ busy))
            (if busy then pure tt else enqueue_idle qk image_id)
            (λ a. InDb OneActive)
            (InDb OneActive)
    answered true = record { apply = λ env w h. h.0 }
    answered false = enqueue_idle-OneActive qk image_id

ctx_done-OneActive : Invariant (InDb OneActive) ctx_done
ctx_done-OneActive = record { apply = λ env w h. h }

pub for_each-OneActive :
    {A : Type 0} (f : A → M (Unit {0})) (xs : List A)
    → ((x : A) → Invariant (InDb OneActive) (f x))
    → Invariant (InDb OneActive) (for_each f xs)
unfolding for_each
for_each-OneActive f [] h = Invariant-pure
for_each-OneActive f (x ∷ xs) h = Triple-bind ctx_done-OneActive (λ done.
    Triple-if done Invariant-pure
      (Triple-bind (Invariant-ignore (h x)) (λ u. for_each-OneActive f xs h)))

stale-OneActive : (cutoff : ℕ) → Invariant (InDb OneActive) (list_image_ids_stale_for_rescan cutoff)
unfolding list_image_ids_stale_for_rescan
stale-OneActive cutoff = call-reads (λ db h. h) (record { apply = λ env w h. h })

targets-OneActive : Invariant (InDb OneActive) list_targets_due_for_rescan
unfolding list_targets_due_for_rescan
targets-OneActive = call-reads (λ db h. h) (record { apply = λ env w h. h })

rescan_with-OneActive :
    (qk : Text) (t : ℕ) (tr : TargetRescanRow) (dur : Option Duration)
    → Invariant (InDb OneActive) (rescan_with qk t tr dur)
unfolding rescan_with
rescan_with-OneActive qk t tr none = Invariant-pure
rescan_with-OneActive qk t tr (some dur) =
    Triple-if _
      (Triple-bind
        (record {
          apply = λ env w h.
              forget _ ((image_has_pending_or_running_scan-tells tr.image_id).apply env w h);
        })
        (λ busy. Triple-if busy Invariant-pure (enqueue_scheduled_scan-OneActive qk tr.image_id)))
      Invariant-pure
  where
    forget :
        (x : Result Bool × World)
        → Post
            (λ busy. InDb λ db. OneActive db × (any (is_busy_with tr.image_id) db.scans ≡ busy))
            (InDb OneActive)
            x
        → Post (λ busy. InDb OneActive) (InDb OneActive) x
    forget (ok b, w) h = h.0
    forget (err e, w) h = h

rescan_target-OneActive :
    (qk : Text) (t : ℕ) (tr : TargetRescanRow) → Invariant (InDb OneActive) (rescan_target qk t tr)
unfolding rescan_target
rescan_target-OneActive qk t tr = record {
  apply = λ env w h.
      (rescan_with-OneActive qk t tr (parse_frequency env tr.scan_frequency)).apply env w h;
}

periodic-OneActive : (cfg : Config) → Invariant (InDb OneActive) (run_periodic_rescan cfg)
unfolding run_periodic_rescan
periodic-OneActive cfg = record {
  apply = λ env w h.
      (Triple-bind (Invariant-attempt (stale-OneActive _)) (λ ids.
          Invariant-on_result ids
            (λ xs. for_each-OneActive _ xs (enqueue_scheduled_scan-OneActive (config_key cfg)))
            (λ e. Invariant-pure))).apply
        env w h;
}

rescan_rows-OneActive :
    (cfg : Config) (rows : List TargetRescanRow)
    → Invariant
        (InDb OneActive)
        (λ env w. for_each (rescan_target (config_key cfg) (now env w)) rows env w)
rescan_rows-OneActive cfg rows = record {
  apply = λ env w h.
      (for_each-OneActive _ rows (rescan_target-OneActive (config_key cfg) (now env w))).apply env w
        h;
}

target-OneActive : (cfg : Config) → Invariant (InDb OneActive) (run_target_rescan cfg)
unfolding run_target_rescan
target-OneActive cfg =
    Triple-bind (Invariant-attempt targets-OneActive)
      (λ targets. Invariant-on_result targets (rescan_rows-OneActive cfg) (λ e. Invariant-pure))

-- Whatever fails on the way, where no image has two scans that are pending or running, none has
-- after a periodic rescan or after a rescan of the targets.
pub rescans-OneActive :
    (cfg : Config) (env : Env) (w : World)
    → OneActive w.db
    → OneActive (run_periodic_rescan cfg env w).1.db × OneActive (run_target_rescan cfg env w).1.db
rescans-OneActive cfg env w h = (
  Post-world (InDb OneActive) _ ((periodic-OneActive cfg).apply env w h),
  Post-world (InDb OneActive) _ ((target-OneActive cfg).apply env w h),
)
