-- ===== src/Db/Persist/Completes.antt =====
-- When the transaction of `PersistScanResults` commits, its scan is completed:
-- internal/db/persist_scan.go.
use vullify_backend.Prelude.{ℕ, refl}
use vullify_backend.Text.{Text}
use vullify_backend.Scanner.{ScanResult}
use vullify_backend.World.{completed, Ensures, Ensures-then, Ensures-call, Ensures-transaction, now}
use vullify_backend.Db.Scans.Lifecycle.{HasStatus, HasStatus-update_where}
use vullify_backend.Db.Persist.{
  clear_results, insert_results, complete_scan, persist_scan_results, persisted,
}

module _ (id : ℕ) (res : ScanResult) (version : Text) where
  complete_scan-completes :
      Ensures (λ w. HasStatus id completed w.db.scans) (complete_scan id res version)
  unfolding complete_scan
  complete_scan-completes = Ensures-call (record {
    apply = λ env w.
        HasStatus-update_where id completed (persisted (now env w) res version) w.db.scans
          (λ s. refl);
  })

  pub persist_scan_results-completes :
      Ensures (λ w. HasStatus id completed w.db.scans) (persist_scan_results id res version)
  unfolding persist_scan_results
  persist_scan_results-completes =
      Ensures-transaction (λ w h. h)
        (Ensures-then (clear_results id)
          (Ensures-then (insert_results id res) complete_scan-completes))
