-- ===== src/Worker/Outcome.antt =====
-- How a job ends: internal/worker/runner.go and the last statement of internal/db/persist_scan.go.
use vullify_backend.Prelude.{
  ℕ, zero, suc, ◌≡◌, refl, sym, subst, none, some, Bool, true, false, if◌then◌else◌, inl, inr,
  Bool-cases, ◌==◌, arith,
}
use vullify_backend.Text.{Text}
use vullify_backend.Scanner.{Error, ScanResult, is_pull_failure, context_done}
use vullify_backend.Scanner.Trivy.{scan_image}
use vullify_backend.World.{
  World, M, Env, Result, ok, err, ScanJob, Phase, Keeps, Keeps-call, OnOk, tick, completed, failed,
  ScanRow, after, on_result, raise, pure,
}
use mathlib.Core.List.{List}
use vullify_backend.Db.Scans.{update_scan_running}
use vullify_backend.Db.Scans.Lifecycle.{HasStatus, update_scan_failed-HasStatus}
use vullify_backend.Db.Persist.{persist_scan_results}
use vullify_backend.Db.Persist.Completes.{persist_scan_results-completes}
use vullify_backend.Worker.{
  init_defaults, Runner, set_scan_phase, publish_scan_event, probe_trivy_version, finish_ok,
  fail_scanning, fail_persisting, fail_starting, persist_part, scan_part, run_pipeline,
  wait_backoff, retry_loop, attempt_job, process_job_with_retry,
}

abbrev scans_of : World → List ScanRow
scans_of w = w.db.scans

phase-scans : (id : ℕ) (p : Phase) → Keeps scans_of (set_scan_phase id p)
unfolding set_scan_phase
phase-scans id p = Keeps-call (λ w. refl) (record { apply = λ env w. refl })

event-scans :
    (r : Runner) (id : ℕ) (status msg : Text) → Keeps scans_of (publish_scan_event r id status msg)
unfolding publish_scan_event
event-scans r id status msg = Keeps-call (λ w. refl) (record { apply = λ env w. refl })

-- A job has settled its scan: it returned nil and the scan is completed, or it returned an error and
-- the scan is failed.
abbrev pub Settled : ℕ → Result (Unit {0}) × World → Type 0
Settled id (ok u, w) = HasStatus id completed w.db.scans
Settled id (err e, w) = HasStatus id failed w.db.scans

module _ (r : Runner) (id : ℕ) (env : Env) where
  finish_ok-Settled :
      (w : World) → HasStatus id completed w.db.scans → Settled id (finish_ok r id env w)
  unfolding finish_ok
  finish_ok-Settled w h =
      subst (HasStatus id completed) (sym ((event-scans r id _ _).apply env _))
        (subst (HasStatus id completed) (sym ((phase-scans id Phase.completed).apply env w)) h)

  module _ (healthy : (t : ℕ) → env.fault t ≡ none) where
    fail_scanning-Settled : (e : Error) (w : World) → Settled id (fail_scanning r id e env w)
    unfolding fail_scanning
    fail_scanning-Settled e w =
        subst (HasStatus id failed) (sym ((event-scans r id _ _).apply env _))
          (update_scan_failed-HasStatus id _ env _ (healthy _))

    fail_persisting-Settled : (e : Error) (w : World) → Settled id (fail_persisting r id e env w)
    unfolding fail_persisting
    fail_persisting-Settled e w =
        subst (HasStatus id failed) (sym ((event-scans r id _ _).apply env _))
          (update_scan_failed-HasStatus id _ env _ (healthy _))

    fail_starting-Settled : (e : Error) (w : World) → Settled id (fail_starting r id e env w)
    unfolding fail_starting
    fail_starting-Settled e w = update_scan_failed-HasStatus id _ env _ (healthy _)

    stored-Settled :
        (x : Result (Unit {0}) × World)
        → OnOk (λ w. HasStatus id completed w.db.scans) x
        → Settled id (on_result x.0 (λ u. finish_ok r id) (λ e. fail_persisting r id e) env x.1)
    stored-Settled (ok u, w) h = finish_ok-Settled w h
    stored-Settled (err e, w) h = fail_persisting-Settled e w

    persist_part-Settled :
        (version : Text) (res : ScanResult) (w : World)
        → Settled id (persist_part r id version res env w)
    unfolding persist_part
    persist_part-Settled version res w =
        stored-Settled (persist_scan_results id res version env _)
          ((persist_scan_results-completes id res version).apply env _)

module _ (r : Runner) (job : ScanJob) (env : Env) (healthy : (t : ℕ) → env.fault t ≡ none) where
  scanned-Settled :
      (version : Text) (x : Result ScanResult × World)
      → Settled job.scan_id (
          on_result x.0
            (λ res. persist_part r job.scan_id version res)
            (λ e. fail_scanning r job.scan_id e)
            env
            x.1)
  scanned-Settled version (ok res, w) = persist_part-Settled r job.scan_id env healthy version res w
  scanned-Settled version (err e, w) = fail_scanning-Settled r job.scan_id env healthy e w

  scan_part-Settled :
      (version : Text) (w : World) → Settled job.scan_id (scan_part r job version env w)
  unfolding scan_part
  scan_part-Settled version w = scanned-Settled version (scan_image job.image_ref _ env _)

  started-Settled :
      (version : Text) (x : Result (Unit {0}) × World)
      → Settled job.scan_id (
          on_result x.0 (λ u. scan_part r job version) (λ e. fail_starting r job.scan_id e) env x.1)
  started-Settled version (ok u, w) = scan_part-Settled version w
  started-Settled version (err e, w) = fail_starting-Settled r job.scan_id env healthy e w

  run_pipeline-Settled : (w : World) → Settled job.scan_id (run_pipeline r job env w)
  unfolding run_pipeline probe_trivy_version
  run_pipeline-Settled w = started-Settled _ (update_scan_running job.scan_id env _)

  -- What the loop does with the outcome of one attempt.
  attempted-Settled :
      (k : Error → M (Unit {0})) (x : Result (Unit {0}) × World)
      → Settled job.scan_id x
      → ((e : Error) (w : World)
          → HasStatus job.scan_id failed w.db.scans
          → Settled job.scan_id (k e env w))
      → Settled job.scan_id
          (on_result x.0 (λ u. pure tt) (λ e. if is_pull_failure e then raise e else k e) env x.1)
  attempted-Settled k (ok u, w) h next = h
  attempted-Settled k (err e, w) h next = elim (Bool-cases (is_pull_failure e)) [
    | inl pull ↦ rw pull h
    | inr other ↦ rw other (next e w h)
  ]

  waited-Settled :
      (b : Bool) (k : M (Unit {0})) (w : World)
      → HasStatus job.scan_id failed w.db.scans
      → Settled job.scan_id (k env w)
      → Settled job.scan_id (after (λ _. k) env ((if b then raise context_done else pure tt) env w))
  waited-Settled true k w h hk = h
  waited-Settled false k w h hk = hk

  retry_loop-Settled :
      (n left : ℕ) (e : Error) (w : World)
      → HasStatus job.scan_id failed w.db.scans
      → Settled job.scan_id (retry_loop r job (suc n) left (some e) env w)
  unfolding retry_loop wait_backoff attempt_job
  retry_loop-Settled n zero e w h = h
  retry_loop-Settled n (suc left) e w h =
      waited-Settled (env.cancelled w.ticks)
        (attempt_job r job (λ x. retry_loop r job (suc (suc n)) left (some x))) (tick w) h
        (attempted-Settled (λ x. retry_loop r job (suc (suc n)) left (some x))
          (run_pipeline r job env (tick w)) (run_pipeline-Settled (tick w))
          (retry_loop-Settled (suc n) left))

  first_round-Settled :
      (left : ℕ) (w : World) → Settled job.scan_id (retry_loop r job 0 (suc left) none env w)
  unfolding retry_loop wait_backoff attempt_job
  first_round-Settled left w =
      attempted-Settled (λ x. retry_loop r job 1 left (some x)) (run_pipeline r job env w)
        (run_pipeline-Settled w) (retry_loop-Settled 0 left)

rounds-suc : (r : Runner) → (k : ℕ) × ((init_defaults r).max_retries ≡ suc k)
unfolding init_defaults
rounds-suc r = positive r.max_retries
  where
    positive : (n : ℕ) → (k : ℕ) × ((if n == 0 then 3 else n) ≡ suc k)
    positive zero = (2, refl)
    positive (suc n) = (n, ground arith)

-- Where no call of Postgres or Redis fails, a job with all its attempts settles its scan, whatever
-- the status was before, whatever trivy answers and whether or not the context is cancelled between
-- two attempts: it returns nil and the scan is completed, or an error and the scan is failed. No
-- scan is left running.
pub process_job_with_retry-Settled :
    (r : Runner) (job : ScanJob) (env : Env) (w : World)
    → ((t : ℕ) → env.fault t ≡ none)
    → Settled job.scan_id (process_job_with_retry (init_defaults r) job env w)
unfolding process_job_with_retry
process_job_with_retry-Settled r job env w healthy =
    let (k, e) = rounds-suc r in
    subst (λ n. Settled job.scan_id (retry_loop (init_defaults r) job 0 n none env w)) (sym e)
      (first_round-Settled (init_defaults r) job env healthy k w)
