-- ===== src/Scheduler.antt =====
-- The scheduler: internal/scheduler (lock.go, the body of a tick of run.go, tasks.go). The tasks
-- that ask a registry are in Scheduler/Sync.antt; logging is left out.
pub mod Single
pub mod Enqueues
pub mod Lock
pub mod Sync
use vullify_backend.Prelude.{
  ℕ, ◌+◌, ◌-◌, ◌*◌, ◌/◌, Bool, true, false, ◌||◌, ◌&&◌, Option, none, some, List, [], ◌∷◌, ◌++◌,
  if◌then◌else◌, ltb, any,
}
use vullify_backend.Text.{Text, codes, text_eq, is_empty, trim_space, to_lower}
use vullify_backend.World.{
  M, ok, err, Result, pure, raise, ◌>>=◌, ◌>>◌, attempt, on_result, ignore, call, ctx_done, now,
  World, Env, RegistryRow, LockKey, Duration, ahead, back,
}
use vullify_backend.Scanqueue.{
  enqueue, build_image_pull_ref, credentials_from_registry_json, default_key,
}
use vullify_backend.Db.Scans.{image_has_pending_or_running_scan, insert_scheduled_scan}
use vullify_backend.Db.Images.{
  get_image_by_id, get_registry_by_id, list_image_ids_stale_for_rescan, list_targets_due_for_rescan,
  ImageDetail, TargetRescanRow,
}

-- The fields of `Config` that the tasks read.
pub record Config : Type 0 where
  pub stale_scan_age : Duration
  pub queue_key : Text

abbrev pub config_key : Config → Text
config_key cfg = if is_empty cfg.queue_key then default_key else cfg.queue_key

abbrev pub second : ℕ
second = 1_000_000_000

abbrev pub minute : ℕ
minute = 60 * second

-- `jobTimeoutFor`.
unfoldable pub job_timeout_for : Duration → ℕ
job_timeout_for (back d) = 30 * minute
job_timeout_for (ahead d) =
    if ltb d (30 * minute) then 30 * minute else if ltb (120 * minute) d then 120 * minute else d

-- `lockTTLForInterval`.
unfoldable pub lock_ttl_for_interval : Duration → ℕ
lock_ttl_for_interval (back d) = minute
lock_ttl_for_interval (ahead d) =
    if ltb 0 d then (if ltb (d * 9 / 10) (2 * second) then 2 * second else d * 9 / 10) else minute

-- SET NX with a time to live: the key is taken while its instant is not reached.
abbrev pub is_held : ℕ → Text → LockKey → Bool
is_held t name l = text_eq l.name name && ltb t l.expires_at

abbrev pub lock_name : Text → Text
lock_name name = codes "vullify:scheduler:lock:" ++ name

abbrev pub at_least_second : ℕ → ℕ
at_least_second ttl = if ltb ttl second then second else ttl

unfoldable pub try_lock : Text → ℕ → M Bool
try_lock name ttl = call λ env w.
    if any (is_held (now env w) (lock_name name)) w.redis.locks then (ok false, w) else (
      ok true,
      record w {
        redis = record (w.redis) {
          locks =
              record { name = lock_name name; expires_at = now env w + at_least_second ttl }
              ∷ w.redis.locks;
        };
      },
    )

-- `runJob` of `runTicker`.
unfoldable pub run_job : Text → ℕ → M (Unit {0}) → M (Unit {0})
run_job name lock_ttl fn = do
  got ← attempt (try_lock name lock_ttl)
  on_result got (λ mine. if mine then fn else pure tt) (λ e. pure tt)

unfoldable pub normalize_digest : Text → Text
normalize_digest s = to_lower (trim_space s)

-- The last calls of `enqueueScheduledScan`.
enqueue_for : Text → ImageDetail → RegistryRow → ℕ → M (Unit {0})
enqueue_for qk detail reg scan_id env w =
    enqueue qk scan_id
      (build_image_pull_ref env detail.registry_url detail.image.repository detail.image.tag)
      (credentials_from_registry_json env reg.type reg.credentials) env w

enqueue_idle : Text → ℕ → M (Unit {0})
unfolding enqueue_for
enqueue_idle qk image_id = do
  detail ← get_image_by_id image_id
  reg ← get_registry_by_id detail.image.registry_id
  scan_id ← insert_scheduled_scan image_id
  enqueue_for qk detail reg scan_id

unfoldable pub enqueue_scheduled_scan : Text → ℕ → M (Unit {0})
unfolding enqueue_idle
enqueue_scheduled_scan qk image_id = do
  busy ← image_has_pending_or_running_scan image_id
  if busy then pure tt else enqueue_idle qk image_id

-- A loop that stops when the context is done; an error of its body is logged only.
pub for_each : {A : Type 0} → (A → M (Unit {0})) → List A → M (Unit {0})
for_each f [] = pure tt
for_each f (x ∷ xs) = do done ← ctx_done; if done then pure tt else (ignore (f x) >> for_each f xs)

-- `time.Now().Add(-cfg.StaleScanAge)`.
abbrev cutoff_at : ℕ → Duration → ℕ
cutoff_at t (ahead d) = t - d
cutoff_at t (back d) = t + d

unfoldable pub run_periodic_rescan : Config → M (Unit {0})
unfolding for_each
run_periodic_rescan cfg env w =
    (do
      ids ← attempt (list_image_ids_stale_for_rescan (cutoff_at (now env w) cfg.stale_scan_age))
      on_result ids (for_each (enqueue_scheduled_scan (config_key cfg))) (λ e. pure tt))
      env w

-- `parseFrequency`.
unfoldable pub parse_frequency : Env → Text → Option Duration
parse_frequency env s =
    if is_empty (trim_space s)
    then some (ahead (24 * 60 * minute))
    else env.parse_duration (trim_space s)

-- `now.Sub(*tr.LastScannedAt) > dur`.
abbrev is_due : ℕ → Option ℕ → Duration → Bool
is_due t none dur = true
is_due t (some last) (ahead d) = ltb (last + d) t
is_due t (some last) (back d) = ltb last (t + d)

-- The body of the loop of `runTargetRescan`, on a frequency that is parsed.
rescan_with : Text → ℕ → TargetRescanRow → Option Duration → M (Unit {0})
rescan_with qk t tr none = pure tt
rescan_with qk t tr (some dur) =
    if is_due t tr.last_scanned_at dur
    then (do
      busy ← image_has_pending_or_running_scan tr.image_id
      if busy then pure tt else enqueue_scheduled_scan qk tr.image_id)
    else pure tt

rescan_target : Text → ℕ → TargetRescanRow → M (Unit {0})
unfolding rescan_with
rescan_target qk t tr env w = rescan_with qk t tr (parse_frequency env tr.scan_frequency) env w

unfoldable pub run_target_rescan : Config → M (Unit {0})
unfolding for_each rescan_target
run_target_rescan cfg = do
  targets ← attempt list_targets_due_for_rescan
  on_result targets (λ rows env w. for_each (rescan_target (config_key cfg) (now env w)) rows env w)
      (λ e. pure tt)
