-- ===== src/Scheduler/Enqueues.antt =====
-- What `enqueueScheduledScan` of internal/scheduler/tasks.go does where nothing fails.
use vullify_backend.Prelude.{
  ℕ, suc, ◌≡◌, refl, sym, Bool-cases, inl, inr, false, if◌then◌else◌, [], ◌∷◌, ◌++◌, Option, none,
  some, any,
}
use mathlib.Core.List.{append-nil}
use vullify_backend.Text.{Text, is_empty}
use vullify_backend.World.{
  World, Env, ScanRow, ◌>>=◌, ok, ImageRow, RegistryRow, ScanJob, call-ok, tick, schedule,
}
use vullify_backend.Scanqueue.{enqueue, lpush, build_image_pull_ref, credentials_from_registry_json}
use vullify_backend.Db.Scans.{
  is_busy_with, image_has_pending_or_running_scan, insert_scheduled_scan, new_scan,
}
use vullify_backend.Db.Images.{
  get_image_by_id, get_registry_by_id, live_image, live_registry, latest_of,
}
use vullify_backend.Scheduler.{enqueue_scheduled_scan, enqueue_idle, enqueue_for}

-- The job of a scheduled scan.
abbrev pub scheduled_job : Env → ℕ → ImageRow → RegistryRow → ScanJob
scheduled_job env id i r = record {
  scan_id = id;
  image_ref = build_image_pull_ref env r.url i.repository i.tag;
  reg_creds = credentials_from_registry_json env r.type r.credentials;
}

module _ (image_id : ℕ) (i : ImageRow) (r : RegistryRow) (env : Env) (w : World) where
  get_image_by_id-ok :
      ((t : ℕ) → env.fault t ≡ none)
      → live_image image_id w.db ≡ some i
      → live_registry i.registry_id w.db ≡ some r
      → get_image_by_id image_id env w ≡ (
        ok (record {
          image = i;
          registry_url = r.url;
          latest_scan = latest_of env image_id w.db.scans;
        }),
        tick (tick w),
      )
  unfolding get_image_by_id
  get_image_by_id-ok healthy found registered =
      rw (call-ok _ env w (healthy w.ticks), found, registered)
        (rw (call-ok _ env (tick w) (healthy (suc w.ticks))) refl)

  get_registry_by_id-ok :
      ((t : ℕ) → env.fault t ≡ none)
      → live_registry i.registry_id w.db ≡ some r
      → get_registry_by_id i.registry_id env w ≡ (ok r, tick w)
  unfolding get_registry_by_id
  get_registry_by_id-ok healthy registered = rw (call-ok _ env w (healthy w.ticks), registered) refl

-- The world after the scan of an idle image is scheduled.
abbrev scheduled : Text → ℕ → ImageRow → RegistryRow → Env → World → World
scheduled qk image_id i r env w = record w {
  db = record (w.db) {
    scans = w.db.scans ++ new_scan w.db.next_id image_id schedule ∷ [];
    next_id = suc w.db.next_id;
  };
  redis = record (w.redis) { queue = (qk, scheduled_job env w.db.next_id i r) ∷ w.redis.queue };
  ticks = suc w.ticks;
}

module _ (qk : Text) (image_id : ℕ) (i : ImageRow) (r : RegistryRow) (env : Env) where
  insert_and_push-ok :
      (w : World) (latest : Option ScanRow)
      → ((t : ℕ) → env.fault t ≡ none)
      → is_empty qk ≡ false
      → (insert_scheduled_scan image_id
            >>= enqueue_for qk (record { image = i; registry_url = r.url; latest_scan = latest }) r)
          env w
        ≡ (ok tt, scheduled qk image_id i r env (tick w))
  unfolding enqueue_for insert_scheduled_scan enqueue lpush
  insert_and_push-ok w latest healthy named =
      rw (call-ok _ env w (healthy w.ticks), named) (rw (healthy (suc w.ticks)) refl)

  enqueue_idle-ok :
      (w : World)
      → ((t : ℕ) → env.fault t ≡ none)
      → is_empty qk ≡ false
      → live_image image_id w.db ≡ some i
      → live_registry i.registry_id w.db ≡ some r
      → enqueue_idle qk image_id env w
        ≡ (ok tt, scheduled qk image_id i r env (tick (tick (tick (tick w)))))
  unfolding enqueue_idle
  enqueue_idle-ok w healthy named found registered =
      rw (get_image_by_id-ok image_id i r env w healthy found registered) (
        rw (get_registry_by_id-ok image_id i r env (tick (tick w)) healthy registered) (
          insert_and_push-ok (tick (tick (tick w))) (latest_of env image_id w.db.scans) healthy
            named))

-- Where no call fails and the image and its registry are not deleted, scheduling a scan of an idle
-- image adds one pending scan of it to the table and the job of that scan, with the reference and
-- the credentials of its registry, to the queue of the key; of an image with an active scan it
-- changes neither. The call returns nil in both cases.
pub enqueue_scheduled_scan-Adds :
    (qk : Text) (image_id : ℕ) (i : ImageRow) (r : RegistryRow) (env : Env) (w : World)
    → ((t : ℕ) → env.fault t ≡ none)
    → is_empty qk ≡ false
    → live_image image_id w.db ≡ some i
    → live_registry i.registry_id w.db ≡ some r
    → let after = enqueue_scheduled_scan qk image_id env w in
      let busy = any (is_busy_with image_id) w.db.scans in
      (after.0 ≡ ok tt)
      × (after.1.db.scans
          ≡ w.db.scans ++ (if busy then [] else new_scan w.db.next_id image_id schedule ∷ []))
      × (after.1.redis.queue
          ≡ (if busy then [] else (qk, scheduled_job env w.db.next_id i r) ∷ []) ++ w.redis.queue)
unfolding enqueue_scheduled_scan image_has_pending_or_running_scan
enqueue_scheduled_scan-Adds qk image_id i r env w healthy named found registered =
    elim (Bool-cases (any (is_busy_with image_id) w.db.scans)) [
      | inl busy ↦ rw (call-ok _ env w (healthy w.ticks), busy) (refl, sym (append-nil _), refl)
      | inr idle ↦
          rw
            (
              call-ok _ env w (healthy w.ticks),
              idle,
              enqueue_idle-ok qk image_id i r env (tick w) healthy named found registered,
            )
            (refl, refl, refl)
    ]
