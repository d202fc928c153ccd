-- ===== src/Worker.antt =====
-- The scan worker: internal/worker/job.go and runner.go, and the queue's other end,
-- `scanqueue.Enqueue`. Logging and `probeTrivyVersion`'s subprocess plumbing are
-- left out.
pub mod Frame
pub mod Queue
pub mod Outcome
pub mod Pool
use vullify_backend.Prelude.{
  ℕ, zero, suc, ◌+◌, ◌*◌, ◌-◌, ◌^◌, Bool, true, false, ◌||◌, not, Option, none, some, List, [], ◌∷◌,
  ◌++◌, if◌then◌else◌, ◌==◌, ltb, leb, reverse,
}
use vullify_backend.Text.{Text, codes, trim_space, is_empty, text_eq}
use vullify_backend.Scanner.{
  ScanResult, ScanImageOpts, Error, plain, error_text, is_pull_failure, context_done,
}
use vullify_backend.Scanner.Trivy.{scan_image, failed_run}
use vullify_backend.World.{
  M, Result, ok, err, pure, raise, ◌>>=◌, ◌>>◌, attempt, on_result, ignore, call, tick, ExecOut,
  ctx_done, now, modify_redis, World, Env, Redis, ScanJob, ScanEvent, Phase, initializing, scanning,
  persisting, RegistryCredentials, PhaseKey,
}
use vullify_backend.Scanqueue.{lpush, default_key}
use vullify_backend.Db.Scans.{update_scan_running, update_scan_failed}
use vullify_backend.Db.Persist.{persist_scan_results}

-- The fields of `Runner` that a job reads, after `initDefaults`.
pub record Runner : Type 0 where
  pub queue_key : Text
  pub events_channel : Text
  pub pool_size : ℕ
  pub max_retries : ℕ

abbrev default_to : Text → Text → Text
default_to d t = if is_empty t then d else t

-- `initDefaults`; a size of 0 stands for any size that is not positive.
unfoldable pub init_defaults : Runner → Runner
init_defaults r = record {
  queue_key = default_to default_key r.queue_key;
  events_channel = default_to (codes "vullify:scan:events") r.events_channel;
  pool_size = if r.pool_size == 0 then 3 else r.pool_size;
  max_retries = if r.max_retries == 0 then 3 else r.max_retries;
}

-- `queueKey` and `eventsChannel`.
abbrev pub queue_key_of : Runner → Text
queue_key_of r = default_to default_key r.queue_key

abbrev pub events_channel_of : Runner → Text
events_channel_of r = default_to (codes "vullify:scan:events") r.events_channel

-- `EnqueueScan`.
unfoldable pub enqueue_scan : Runner → ℕ → Text → M (Unit {0})
enqueue_scan r scan_id image_ref env w =
    if is_empty (trim_space image_ref)
    then (err (plain (codes "worker: empty image_ref")), w)
    else lpush (queue_key_of (init_defaults r))
        (record { scan_id = scan_id; image_ref = trim_space image_ref; reg_creds = none }) env w

abbrev thirty_minutes : ℕ
thirty_minutes = 1_800_000_000_000

unfoldable pub set_scan_phase : ℕ → Phase → M (Unit {0})
set_scan_phase id phase = call λ env w.
    modify_redis
      (λ redis. record redis {
        phases =
            record { scan_id = id; phase = phase; expires_at = now env w + thirty_minutes }
            ∷ redis.phases;
      })
      env w

unfoldable pub publish_scan_event : Runner → ℕ → Text → Text → M (Unit {0})
publish_scan_event r id status msg = call (
    modify_redis λ redis. record redis {
      events =
          (events_channel_of r, record { scan_id = id; status = status; error = msg })
          ∷ redis.events;
    })

-- `scanOptsFromJob`.
abbrev creds_user : Option RegistryCredentials → Text
creds_user none = []
creds_user (some c) = c.username

abbrev creds_password : Option RegistryCredentials → Text
creds_password none = []
creds_password (some c) = c.password

unfoldable pub scan_opts_from_job : Env → ScanJob → ScanImageOpts
scan_opts_from_job env job = record {
  registry_username = creds_user job.reg_creds;
  registry_password = creds_password job.reg_creds;
  cache_dir = env.temp_dir ++ (codes "/trivy-cache/" ++ env.uuid_text job.scan_id);
}

abbrev version_args : List Text
version_args = codes "version" ∷ codes "--format" ∷ codes "json" ∷ []

abbrev version_result : Env → ExecOut → Text
version_result env o = if failed_run o then [] else env.decode_version o.stdout

-- The variable TRIVY_VERSION, or what `trivy version` says; a failure gives the empty text.
unfoldable pub probe_trivy_version : M Text
probe_trivy_version env w = (
  ok (
      if is_empty env.trivy_version_env
      then version_result env (env.exec w.ticks version_args [])
      else env.trivy_version_env),
  if is_empty env.trivy_version_env then tick w else w,
)

abbrev tips : Text
tips =
    codes
      "\n---TIPS---\nThe image could not be pulled. Possible causes:\n• The image does not exist on this registry (check you're scanning against the correct one)\n• The image is private and requires authentication\n• The repository or tag name is incorrect"

abbrev failure_message : Error → Text
failure_message e = if is_pull_failure e then error_text e ++ tips else error_text e

-- The last part of `runPipeline`, once the results are stored.
finish_ok : Runner → ℕ → M (Unit {0})
unfolding set_scan_phase publish_scan_event
finish_ok r id = do
  ignore (set_scan_phase id Phase.completed)
  ignore (publish_scan_event r id (codes "completed") [])

fail_scanning : Runner → ℕ → Error → M (Unit {0})
unfolding set_scan_phase publish_scan_event update_scan_failed
fail_scanning r id e = do
  ignore (set_scan_phase id Phase.failed)
  ignore (update_scan_failed id (failure_message e))
  ignore (publish_scan_event r id (codes "failed") (failure_message e))
  raise e

fail_persisting : Runner → ℕ → Error → M (Unit {0})
unfolding set_scan_phase publish_scan_event update_scan_failed
fail_persisting r id e = do
  ignore (set_scan_phase id Phase.failed)
  ignore (update_scan_failed id (error_text e))
  ignore (publish_scan_event r id (codes "failed") (error_text e))
  raise e

fail_starting : Runner → ℕ → Error → M (Unit {0})
unfolding set_scan_phase publish_scan_event update_scan_failed
fail_starting r id e = do
  ignore (set_scan_phase id Phase.failed)
  ignore (publish_scan_event r id (codes "failed") (error_text e))
  ignore (update_scan_failed id (error_text e))
  raise e

-- The third part of `runPipeline`.
persist_part : Runner → ℕ → Text → ScanResult → M (Unit {0})
persist_part r id version res = do
  ignore (set_scan_phase id persisting)
  stored ← attempt (persist_scan_results id res version)
  on_result stored (λ u. finish_ok r id) (λ e. fail_persisting r id e)

-- The second part of `runPipeline`.
scan_part : Runner → ScanJob → Text → M (Unit {0})
scan_part r job version env w =
    (do
      ignore (set_scan_phase job.scan_id scanning)
      scanned ← attempt (scan_image job.image_ref (some (scan_opts_from_job env job)))
      on_result scanned (λ res. persist_part r job.scan_id version res)
          (λ e. fail_scanning r job.scan_id e))
      env w

pub run_pipeline : Runner → ScanJob → M (Unit {0})
run_pipeline r job = do
  version ← probe_trivy_version
  ignore (set_scan_phase job.scan_id initializing)
  started ← attempt (update_scan_running job.scan_id)
  on_result started (λ u. scan_part r job version) (λ e. fail_starting r job.scan_id e)

-- What the loop returns when its rounds are used up.
abbrev last_error : Option Error → M (Unit {0})
last_error none = pure tt
last_error (some e) = raise e

-- The `select` before a retry; it is left by `ctx.Done()` or by the timer, whose length (100 ms
-- times a power of two) changes nothing else.
wait_backoff : ℕ → M (Unit {0})
wait_backoff zero = pure tt
wait_backoff (suc n) = do done ← ctx_done; if done then raise context_done else pure tt

-- One attempt, and what follows an error that a retry may mend.
attempt_job : Runner → ScanJob → (Error → M (Unit {0})) → M (Unit {0})
attempt_job r job next = do
  res ← attempt (run_pipeline r job)
  on_result res (λ u. pure tt) (λ e. if is_pull_failure e then raise e else next e)

-- The loop of `processJobWithRetry`; `left` counts the rounds that `attempt < r.MaxRetries` allows.
retry_loop : Runner → ScanJob → ℕ → ℕ → Option Error → M (Unit {0})
retry_loop r job n zero last = last_error last
retry_loop r job n (suc left) last = do
  wait_backoff n
  attempt_job r job (λ e. retry_loop r job (suc n) left (some e))

pub process_job_with_retry : Runner → ScanJob → M (Unit {0})
unfolding retry_loop attempt_job
process_job_with_retry r job = retry_loop r job 0 r.max_retries none

-- BRPOP: the oldest entry of the key, and the list without it.
unfoldable pub brpop : Text → List (Text × ScanJob) → Option (ScanJob × List (Text × ScanJob))
brpop key [] = none
brpop key ((k, job) ∷ q) = elim (brpop key q) [
  | some (j, q') ↦ some (j, (k, job) ∷ q')
  | none ↦ if text_eq k key then some (job, q) else none
]

take_job : Text → M (Option ScanJob)
take_job key = call λ env w. elim (brpop key w.redis.queue) [
  | none ↦ (ok none, w)
  | some (j, q) ↦ (ok (some j), record w { redis = record (w.redis) { queue = q } })
]

-- One round of `workerLoop`: `false` when the loop ends. BRPOP blocks on an empty list; the round
-- then ends with nothing taken. A job that fails is logged only.
pub worker_round : Runner → M Bool
unfolding take_job
worker_round r = do
  done ← ctx_done
  if done then pure false else (do
    popped ← attempt (take_job (queue_key_of r))
    on_result popped
        (λ found. elim found [
          | none ↦ pure true
          | some job ↦ ignore (process_job_with_retry r job) >> pure true
        ])
        (λ e. ctx_done >>= λ stop. pure (not stop)))
