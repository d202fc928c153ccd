-- ===== src/Api/Progress.antt =====
-- `scanProgress` of internal/api/handlers_scans.go.
pub mod Status
use vullify_backend.Prelude.{
  ℕ, Bool, true, false, ◌&&◌, ◌||◌, Option, none, some, List, [], ◌∷◌, if◌then◌else◌, ◌==◌, ltb,
  find_row,
}
use vullify_backend.Text.{Text, codes, text_eq}
use vullify_backend.World.{
  M, ok, err, Result, pure, raise, ◌>>=◌, call, attempt, on_result, now, World, Env, PhaseKey,
  Phase, initializing, scanning, persisting, ScanStatus, pending, running, cancelled,
}
use vullify_backend.Scanner.{plain}
use vullify_backend.Db.Details.{ScanDetail, get_scan_detail}

-- The words that the worker writes into the key, and those of the enum `scan_status`.
abbrev pub phase_text : Phase → Text
phase_text initializing = codes "initializing"
phase_text scanning = codes "scanning"
phase_text persisting = codes "persisting"
phase_text Phase.completed = codes "completed"
phase_text Phase.failed = codes "failed"

abbrev pub status_text : ScanStatus → Text
status_text pending = codes "pending"
status_text running = codes "running"
status_text ScanStatus.completed = codes "completed"
status_text ScanStatus.failed = codes "failed"
status_text cancelled = codes "cancelled"

-- GET of the key of a scan: the newest value, where it has not expired; else `redis.Nil`.
abbrev pub is_phase_of : ℕ → PhaseKey → Bool
is_phase_of id k = k.scan_id == id

abbrev live_phase : ℕ → Option PhaseKey → Result Text
live_phase t none = err (plain (codes "redis: nil"))
live_phase t (some k) =
    if ltb t k.expires_at then ok (phase_text k.phase) else err (plain (codes "redis: nil"))

unfoldable pub get_phase : ℕ → M Text
get_phase id = call λ env w. (live_phase (now env w) (find_row (is_phase_of id) w.redis.phases), w)

unfoldable pub phase_to_status : Text → Text
phase_to_status phase =
    if text_eq phase (codes "initializing")
      || (text_eq phase (codes "scanning") || text_eq phase (codes "persisting"))
    then codes "running"
    else if text_eq phase (codes "completed")
    then codes "completed"
    else if text_eq phase (codes "failed")
    then codes "failed"
    else codes "running"

-- The body of the answer; the time is empty where the scan has none or cannot be read.
pub record Progress : Type 0 where
  pub phase : Text
  pub status : Text
  pub started_at : Option ℕ

abbrev started_of : Result ScanDetail → Option ℕ
started_of (ok d) = d.scan.started_at
started_of (err e) = none

progress_of : ℕ → Text → M Progress
unfolding phase_to_status
progress_of id phase = attempt (get_scan_detail id) >>= λ scan.
    pure (record { phase = phase; status = phase_to_status phase; started_at = started_of scan })

-- Without a key the status of the scan stands for the phase; an error is the answer 404.
phase_or_status : ℕ → M Text
phase_or_status id = attempt (get_phase id) >>= λ r.
    on_result r pure (λ e. get_scan_detail id >>= λ d. pure (status_text d.scan.status))

unfoldable pub scan_progress : ℕ → M Progress
unfolding progress_of phase_or_status
scan_progress id = phase_or_status id >>= progress_of id
