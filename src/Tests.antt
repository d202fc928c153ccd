-- ===== src/Tests.antt =====
-- Each theorem applied at concrete data.
pub mod Data
mod Webhooks
mod Cli
mod Sync
mod Scans
mod Handlers
mod Pool
mod Registry
use vullify_backend.Prelude.{
  List, ◌≡◌, refl, ◌≤◌, ◌<◌, ◌+◌, ◌*◌, ◌==◌, ◌||◌, min, max, true, false, none, some, [], ◌∷◌, ◌++◌,
  ◌⊎◌, All, ltb, arith, count_where, any, ◌-◌, if◌then◌else◌,
}
use vullify_backend.Text.{to_upper, Text, codes, text_eq, to_lower, trim_space, get_text}
use vullify_backend.Severity.{
  Severity, rank_word, severity_rank, normalize_severity, severity_cast, meets_fail_threshold,
  parse_fail_on,
}
use vullify_backend.Severity.Laws.{
  severity_cast-normalize_severity, severity_rank-normalize_severity,
  meets_fail_threshold-normalize_severity,
}
use vullify_backend.Scanner.{exited, Error}
use vullify_backend.Scanner.Report.{Report, ReportEntry, ReportVuln, absent, report_to_result}
use vullify_backend.Scanner.Report.Laws.{
  IsFlat, report_to_result-IsFlat, report_to_result-collects, collect, is_package_class,
  is_config_class, is_secret_class, vulns_of, packages_of, misconfigs_of, secrets_of,
}
use vullify_backend.World.{
  err, Env, World, ok, schedule, manual, ScanJob, RegistryRow, ImageRow, ahead, tick, now,
}
use vullify_backend.Db.Scans.{new_scan}
use vullify_backend.Api.{Pagination, parse_pagination, max_int}
use vullify_backend.Api.Bounds.{parse_pagination-bounds, last_safe}
use vullify_backend.Enrichment.{EpssRow, epss_batches, fetch_epss_batched, get_row}
use vullify_backend.Enrichment.Answers.{fetch_epss_batched-Answers, IsNormal, answers}
use vullify_backend.Enrichment.Batches.{epss_batches-once, concat, IsBatch}
use vullify_backend.Db.Persist.{persist_scan_results}
use vullify_backend.Db.Persist.Counts.{CountsAgree}
use vullify_backend.Db.Persist.Succeeds.{lacks_value, persist_scan_results-Stores}
use vullify_backend.Db.Others.{others}
use vullify_backend.Scanqueue.{lpush, creds_from_map, credentials_from_registry_json}
use vullify_backend.Scanqueue.Credentials.{
  ghcr, type_text, IsServed, credentials_from_registry_json-IsServed,
}
use vullify_backend.Worker.{Runner, init_defaults, process_job_with_retry, brpop}
use vullify_backend.Worker.Frame.{process_job_with_retry-frame}
use vullify_backend.Worker.Outcome.{Settled, process_job_with_retry-Settled}
use vullify_backend.Worker.Queue.{jobs, Popped, brpop-lpush_fifo}
use vullify_backend.Scheduler.{
  Config, run_periodic_rescan, run_target_rescan, enqueue_scheduled_scan, try_lock, second, minute,
  lock_ttl_for_interval, job_timeout_for,
}
use vullify_backend.Db.Active.{OneActive}
use vullify_backend.Scheduler.Single.{rescans-OneActive}
use vullify_backend.Scheduler.Enqueues.{scheduled_job, enqueue_scheduled_scan-Adds}
use vullify_backend.Scheduler.Lock.{try_lock-exclusive, times-bounds}
use vullify_backend.Tests.Data.{
  vuln, os_entry, secret_entry, two_entries, healthy_env, one_image, one_registry, some_world,
  some_runner, some_job, rescan_config,
}

process_job_with_retry-Settled_example :
    Settled 4 (process_job_with_retry (init_defaults some_runner) some_job healthy_env some_world)
process_job_with_retry-Settled_example =
    process_job_with_retry-Settled some_runner some_job healthy_env some_world (λ t. refl)

process_job_with_retry-frame_example :
    others 4 (process_job_with_retry some_runner some_job healthy_env some_world).1
    ≡ others 4 some_world
process_job_with_retry-frame_example =
    process_job_with_retry-frame some_runner some_job healthy_env some_world

some_world-OneActive : OneActive some_world.db
some_world-OneActive image_id = ground arith

rescans-OneActive_example :
    OneActive (run_periodic_rescan rescan_config healthy_env some_world).1.db
    × OneActive (run_target_rescan rescan_config healthy_env some_world).1.db
rescans-OneActive_example =
    rescans-OneActive rescan_config healthy_env some_world some_world-OneActive

brpop-lpush_fifo_example :
    (jobs (codes "q") (lpush (codes "q") some_job healthy_env some_world).1.redis.queue
      ≡ jobs (codes "q") [] ++ some_job ∷ [])
    × ((lpush (codes "q") some_job healthy_env some_world).1.db ≡ some_world.db)
    × Popped (codes "q") [] (brpop (codes "q") [])
brpop-lpush_fifo_example = brpop-lpush_fifo (codes "q") some_job healthy_env some_world refl

report_to_result-collects_example :
    ((report_to_result two_entries).vulnerabilities
      ≡ collect is_package_class vulns_of two_entries.results)
    × ((report_to_result two_entries).packages
        ≡ collect is_package_class packages_of two_entries.results)
    × ((report_to_result two_entries).misconfigurations
        ≡ collect is_config_class misconfigs_of two_entries.results)
    × ((report_to_result two_entries).secrets
        ≡ collect is_secret_class secrets_of two_entries.results)
report_to_result-collects_example = report_to_result-collects two_entries

severity_cast-normalize_severity_example :
    ((v : Severity) × (severity_cast (normalize_severity (codes " HIGH ")) ≡ some v))
    × (normalize_severity (normalize_severity (codes " HIGH "))
        ≡ normalize_severity (codes " HIGH "))
severity_cast-normalize_severity_example = severity_cast-normalize_severity (codes " HIGH ")

parse_high : parse_fail_on (codes "high") ≡ some 4
unfolding parse_fail_on severity_rank to_lower trim_space rank_word text_eq
parse_high = refl

meets_fail_threshold-normalize_severity_example :
    meets_fail_threshold (normalize_severity (codes "Critical")) 4
    ≡ (meets_fail_threshold (codes "Critical") 4 || 4 == 1)
meets_fail_threshold-normalize_severity_example =
    meets_fail_threshold-normalize_severity (codes "Critical") (codes "high") 4 parse_high

ghcr_creds :
    credentials_from_registry_json healthy_env (type_text ghcr) (codes "{}")
    ≡ some (record { username = codes "pat"; password = codes "token" })
unfolding credentials_from_registry_json creds_from_map text_eq get_text
ghcr_creds = refl

credentials_from_registry_json-IsServed_example : IsServed ghcr
credentials_from_registry_json-IsServed_example =
    credentials_from_registry_json-IsServed healthy_env ghcr (codes "{}")
      (record { username = codes "pat"; password = codes "token" }) ghcr_creds

enqueue_scheduled_scan-Adds_example :
    ((enqueue_scheduled_scan (codes "q") 1 healthy_env some_world).0 ≡ ok tt)
    × ((enqueue_scheduled_scan (codes "q") 1 healthy_env some_world).1.db.scans
        ≡ some_world.db.scans ++ new_scan 10 1 schedule ∷ [])
    × ((enqueue_scheduled_scan (codes "q") 1 healthy_env some_world).1.redis.queue
        ≡ (codes "q", scheduled_job healthy_env 10 one_image one_registry) ∷ [])
enqueue_scheduled_scan-Adds_example =
    enqueue_scheduled_scan-Adds (codes "q") 1 one_image one_registry healthy_env some_world
      (λ t. refl) refl refl refl

-- The world after the task "sync" took its lock.
abbrev locked_world : World
locked_world = (try_lock (codes "sync") minute healthy_env some_world).1

sync_taken : (try_lock (codes "sync") minute healthy_env some_world).0 ≡ ok true
unfolding try_lock
sync_taken = refl

still_running : now healthy_env (tick locked_world) < now healthy_env (tick some_world) + minute
unfolding try_lock
still_running = omega arith

try_lock-exclusive_example :
    ((try_lock (codes "sync") second healthy_env locked_world).0 ≡ ok false)
    × ((try_lock (codes "sync") second healthy_env locked_world).1.redis.locks
        ≡ locked_world.redis.locks)
try_lock-exclusive_example =
    try_lock-exclusive (codes "sync") minute second healthy_env some_world locked_world [] refl refl
      sync_taken refl still_running

persist_scan_results-Stores_example :
    (lacks_value (report_to_result two_entries) ≡ false)
      × ((persist_scan_results 4 (report_to_result two_entries) [] healthy_env some_world).0
          ≡ ok tt)
      × CountsAgree 4
          (persist_scan_results 4 (report_to_result two_entries) [] healthy_env some_world).1.db
    ⊎ (lacks_value (report_to_result two_entries) ≡ true)
      × ((e : Error) × ((persist_scan_results 4
              (report_to_result two_entries)
              []
              healthy_env
              some_world).0
            ≡ err e))
      × ((persist_scan_results 4 (report_to_result two_entries) [] healthy_env some_world).1.db
          ≡ some_world.db)
persist_scan_results-Stores_example =
    persist_scan_results-Stores 4 (report_to_result two_entries) [] healthy_env some_world
      (λ t. refl)

abbrev third_page : Pagination
third_page = parse_pagination (codes "3") (codes "50")

parse_pagination-bounds_example :
    (1 ≤ third_page.page)
    × (third_page.page ≤ max_int)
    × (1 ≤ third_page.per_page)
    × (third_page.per_page ≤ 100)
    × ((last_safe < third_page.page)
        ⊎ (third_page.offset ≡ (third_page.page - 1) * third_page.per_page)
          × (third_page.offset ≤ max_int))
parse_pagination-bounds_example = parse_pagination-bounds (codes "3") (codes "50")

-- The last page of an int has an offset that stands for -40.
overflow_test :
    (parse_pagination (codes "9223372036854775807") []).offset ≡ 18_446_744_073_709_551_576
unfolding parse_pagination
overflow_test = refl

abbrev three_cves : List Text
three_cves = codes "CVE-1" ∷ codes "CVE-2" ∷ codes "CVE-1" ∷ []

epss_batches-once_example :
    (count_where (text_eq (codes "CVE-1")) (concat (epss_batches three_cves))
      ≡ (if any (text_eq (codes "CVE-1")) three_cves then 1 else 0))
    × All IsBatch (epss_batches three_cves)
epss_batches-once_example = epss_batches-once three_cves (codes "CVE-1")

abbrev one_answer : Text → EpssRow
one_answer c = record { score = some 5; percentile = none }

three_cves-IsNormal : All IsNormal three_cves
unfolding to_upper trim_space
three_cves-IsNormal = ((refl, refl), ((refl, refl), ((refl, refl), tt)))

fetch_epss_batched-Answers_example :
    get_row
      (codes "CVE-2")
      (fetch_epss_batched (λ n. true) (λ n b. ok (answers one_answer b)) three_cves)
    ≡ (if any (text_eq (codes "CVE-2")) three_cves then some (one_answer (codes "CVE-2")) else none)
fetch_epss_batched-Answers_example =
    fetch_epss_batched-Answers one_answer (λ n. true) (λ n b. ok (answers one_answer b)) three_cves
      (codes "CVE-2") (λ n. refl) (λ n b. refl) three_cves-IsNormal
