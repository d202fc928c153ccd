-- ===== src/Worker/Frame.antt =====
-- What a job leaves alone, whatever fails on the way: internal/worker/runner.go.
use vullify_backend.Prelude.{ℕ, zero, suc, ◌≡◌, refl, Option, none, some, Bool-cases, inl, inr}
use vullify_backend.Text.{Text, is_empty}
use vullify_backend.Scanner.{Error, ScanResult, is_pull_failure, context_done}
use vullify_backend.Scanner.Trivy.Frame.{scan_image-Keeps}
use vullify_backend.World.{
  World, Env, ScanJob, Phase, Keeps, Keeps-bind, Keeps-then, Keeps-if, Keeps-pure, Keeps-raise,
  Keeps-ignore, Keeps-attempt, Keeps-on_result, Keeps-ctx_done,
}
use vullify_backend.Db.Others.{others, still, call-frame}
use vullify_backend.Db.Scans.Frame.{update_scan_failed-frame, update_scan_running-frame}
use vullify_backend.Db.Persist.Frame.{persist_scan_results-frame}
use vullify_backend.Worker.{
  Runner, set_scan_phase, publish_scan_event, probe_trivy_version, finish_ok, fail_scanning,
  fail_persisting, fail_starting, persist_part, scan_part, run_pipeline, last_error, wait_backoff,
  retry_loop, attempt_job, process_job_with_retry,
}

module _ (r : Runner) (id : ℕ) where
  phase-frame : (p : Phase) → Keeps (others id) (set_scan_phase id p)
  unfolding set_scan_phase
  phase-frame p = call-frame id (record { apply = λ env w. refl })

  event-frame : (status msg : Text) → Keeps (others id) (publish_scan_event r id status msg)
  unfolding publish_scan_event
  event-frame status msg = call-frame id (record { apply = λ env w. refl })

  probe-frame : Keeps (others id) probe_trivy_version
  unfolding probe_trivy_version
  probe-frame = record {
    apply =
        λ env w. elim (Bool-cases (is_empty env.trivy_version_env)) [ inl e ↦ rw e | inr e ↦ rw e ];
  }

  finish_ok-frame : Keeps (others id) (finish_ok r id)
  unfolding finish_ok
  finish_ok-frame = Keeps-then (Keeps-ignore (phase-frame _)) (Keeps-ignore (event-frame _ _))

  fail_scanning-frame : (e : Error) → Keeps (others id) (fail_scanning r id e)
  unfolding fail_scanning
  fail_scanning-frame e = Keeps-then (Keeps-ignore (phase-frame _)) (
      Keeps-then (Keeps-ignore (update_scan_failed-frame id _))
        (Keeps-then (Keeps-ignore (event-frame _ _)) Keeps-raise))

  fail_persisting-frame : (e : Error) → Keeps (others id) (fail_persisting r id e)
  unfolding fail_persisting
  fail_persisting-frame e = Keeps-then (Keeps-ignore (phase-frame _)) (
      Keeps-then (Keeps-ignore (update_scan_failed-frame id _))
        (Keeps-then (Keeps-ignore (event-frame _ _)) Keeps-raise))

  fail_starting-frame : (e : Error) → Keeps (others id) (fail_starting r id e)
  unfolding fail_starting
  fail_starting-frame e = Keeps-then (Keeps-ignore (phase-frame _)) (
      Keeps-then (Keeps-ignore (event-frame _ _))
        (Keeps-then (Keeps-ignore (update_scan_failed-frame id _)) Keeps-raise))

  persist_part-frame :
      (version : Text) (res : ScanResult) → Keeps (others id) (persist_part r id version res)
  unfolding persist_part
  persist_part-frame version res = Keeps-then (Keeps-ignore (phase-frame _)) (
      Keeps-bind (Keeps-attempt (persist_scan_results-frame id res version))
        (λ x. Keeps-on_result x (λ u. finish_ok-frame) fail_persisting-frame))

module _ (r : Runner) (job : ScanJob) where
  scan_part-frame : (version : Text) → Keeps (others job.scan_id) (scan_part r job version)
  unfolding scan_part
  scan_part-frame version = record {
    apply = λ env w.
        (Keeps-then (Keeps-ignore (phase-frame r job.scan_id _)) (
            Keeps-bind (Keeps-attempt (scan_image-Keeps (still job.scan_id) job.image_ref _)) (λ x.
              Keeps-on_result x (persist_part-frame r job.scan_id version)
                (fail_scanning-frame r job.scan_id)))).apply
          env w;
  }

  run_pipeline-frame : Keeps (others job.scan_id) (run_pipeline r job)
  unfolding run_pipeline
  run_pipeline-frame = Keeps-bind (probe-frame r job.scan_id) (λ version.
      Keeps-then (Keeps-ignore (phase-frame r job.scan_id _)) (
        Keeps-bind (Keeps-attempt (update_scan_running-frame job.scan_id)) (λ x.
          Keeps-on_result x (λ u. scan_part-frame version) (fail_starting-frame r job.scan_id))))

  wait_backoff-frame : (n : ℕ) → Keeps (others job.scan_id) (wait_backoff n)
  unfolding wait_backoff
  wait_backoff-frame zero = Keeps-pure
  wait_backoff-frame (suc n) =
      Keeps-bind (Keeps-ctx_done (still job.scan_id))
        (λ done. Keeps-if done (Keeps-raise {e = context_done}) Keeps-pure)

  last_error-frame : (last : Option Error) → Keeps (others job.scan_id) (last_error last)
  last_error-frame none = Keeps-pure
  last_error-frame (some e) = Keeps-raise

  retry_loop-frame :
      (n left : ℕ) (last : Option Error) → Keeps (others job.scan_id) (retry_loop r job n left last)
  unfolding retry_loop attempt_job
  retry_loop-frame n zero last = last_error-frame last
  retry_loop-frame n (suc left) last = Keeps-then (wait_backoff-frame n) (
      Keeps-bind (Keeps-attempt run_pipeline-frame) (λ x.
        Keeps-on_result x (λ u. Keeps-pure)
          (λ e.
            Keeps-if (is_pull_failure e) (Keeps-raise {e = e})
              (retry_loop-frame (suc n) left (some e)))))

-- Whatever fails on the way, a job with all its attempts changes no scan but its own, no result of
-- another scan, no registry, image, webhook event or target, no queued job and no lock.
pub process_job_with_retry-frame :
    (r : Runner) (job : ScanJob) (env : Env) (w : World)
    → others job.scan_id (process_job_with_retry r job env w).1 ≡ others job.scan_id w
unfolding process_job_with_retry
process_job_with_retry-frame r job env w = (retry_loop-frame r job 0 r.max_retries none).apply env w
