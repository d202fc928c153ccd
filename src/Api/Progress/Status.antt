-- ===== src/Api/Progress/Status.antt =====
-- Which status `scanProgress` gives: internal/api/handlers_scans.go.
use vullify_backend.Prelude.{ℕ, ◌≡◌, refl, none, find_row}
use vullify_backend.Text.{text_eq}
use vullify_backend.World.{
  World, Env, ok, err, Result, tick, call-ok, ScanStatus, pending, running, cancelled,
}
use vullify_backend.Db.Details.{ScanDetail, get_scan_detail}
use vullify_backend.Api.Progress.{
  phase_to_status, status_text, scan_progress, progress_of, phase_or_status, get_phase, is_phase_of,
  Progress,
}

-- The statuses that are shown as running.
abbrev pub shown_as : ScanStatus → ScanStatus
shown_as pending = running
shown_as running = running
shown_as ScanStatus.completed = ScanStatus.completed
shown_as ScanStatus.failed = ScanStatus.failed
shown_as cancelled = running

phase_to_status-status_text :
    (s : ScanStatus) → phase_to_status (status_text s) ≡ status_text (shown_as s)
unfolding phase_to_status text_eq
phase_to_status-status_text pending = refl
phase_to_status-status_text running = refl
phase_to_status-status_text ScanStatus.completed = refl
phase_to_status-status_text ScanStatus.failed = refl
phase_to_status-status_text cancelled = refl

abbrev pub StatusIs : ScanStatus → Result Progress × World → Type 0
StatusIs s (ok p, w) = p.status ≡ status_text (shown_as s)
StatusIs s (err e, w) = ⊥

-- Suppose the reading of the phase does not fail, no phase of the scan is stored, and the scan can
-- be read. Then the progress has the status of the scan if that is running, completed or failed, and the status
-- running if the scan is pending or cancelled.
pub scan_progress-StatusIs :
    (id : ℕ) (env : Env) (w : World) (d : ScanDetail) (w' : World)
    → env.fault w.ticks ≡ none
    → find_row (is_phase_of id) w.redis.phases ≡ none
    → get_scan_detail id env (tick w) ≡ (ok d, w')
    → StatusIs d.scan.status (scan_progress id env w)
unfolding scan_progress phase_or_status progress_of get_phase
scan_progress-StatusIs id env w d w' healthy absent read =
    rw (call-ok _ env w healthy, absent, read) (phase_to_status-status_text d.scan.status)
