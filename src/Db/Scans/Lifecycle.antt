-- ===== src/Db/Scans/Lifecycle.antt =====
-- What the statements on `scans` make of a scan's status: internal/db/scans.go.
use vullify_backend.Prelude.{
  ℕ, ◌≡◌, ◌⊎◌, inl, inr, refl, Bool, true, false, List, [], ◌∷◌, All, update_where, none,
  if◌then◌else◌,
}
use vullify_backend.Text.{Text}
use vullify_backend.World.{World, Env, ScanRow, ScanStatus, failed, call-ok}
use vullify_backend.Db.Scans.{has_id, update_scan_failed}

-- Every row of the scan `id` (there is one, its key being primary) has the status.
abbrev pub HasStatus : ℕ → ScanStatus → List ScanRow → Type 0
HasStatus id st rows = All (λ s. (has_id id s ≡ false) ⊎ (s.status ≡ st)) rows

pub HasStatus-update_where :
    (id : ℕ) (st : ScanStatus) (f : ScanRow → ScanRow) (rows : List ScanRow)
    → ((s : ScanRow) → (f s).status ≡ st)
    → HasStatus id st (update_where (has_id id) f rows)
HasStatus-update_where id st f [] h = tt
HasStatus-update_where id st f (s ∷ rows) h =
    (row (has_id id s) refl, HasStatus-update_where id st f rows h)
  where
    row :
        (b : Bool)
        → has_id id s ≡ b
        → (has_id id (if b then f s else s) ≡ false) ⊎ ((if b then f s else s).status ≡ st)
    row true e = inr (h s)
    row false e = inl e

pub update_scan_failed-HasStatus :
    (id : ℕ) (msg : Text) (env : Env) (w : World)
    → env.fault w.ticks ≡ none
    → HasStatus id failed (update_scan_failed id msg env w).1.db.scans
unfolding update_scan_failed
update_scan_failed-HasStatus id msg env w e =
    rw (call-ok _ env w e) (HasStatus-update_where id failed _ w.db.scans (λ s. refl))
