-- ===== src/Db/Scans/Frame.antt =====
-- The statements on one scan leave the other rows alone: internal/db/scans.go.
use vullify_backend.Prelude.{ℕ, ◌≡◌, refl, ap, ◌==◌, delete_where-update_where, count_where}
use vullify_backend.Text.{Text}
use vullify_backend.World.{World, ScanRow, now, Keeps, view-if}
use vullify_backend.Db.Others.{call-frame, others}
use vullify_backend.Db.Scans.{
  has_id, update_scans, update_scan_running, update_scan_failed, mark_running, mark_failed,
}

module _ (id : ℕ) where
  pub update_scans-frame :
      (f : ScanRow → ScanRow) (w : World)
      → ((s : ScanRow) → (f s).id ≡ s.id)
      → others id (record w { db = update_scans (has_id id) f w.db }) ≡ others id w
  update_scans-frame f w h =
      ap (λ rows. record (others id w) { scans = rows })
        (delete_where-update_where (has_id id) f (λ s e. rw (h s) e) w.db.scans)

  pub update_scan_failed-frame : (msg : Text) → Keeps (others id) (update_scan_failed id msg)
  unfolding update_scan_failed
  update_scan_failed-frame msg =
      call-frame id
        (record { apply = λ env w. update_scans-frame (mark_failed (now env w) msg) w (λ s. refl) })

  pub update_scan_running-frame : Keeps (others id) (update_scan_running id)
  unfolding update_scan_running
  update_scan_running-frame = call-frame id (record {
    apply = λ env w.
        view-if (others id) (count_where (has_id id) w.db.scans == 0) _ _ refl
          (update_scans-frame (mark_running (now env w)) w (λ s. refl));
  })
