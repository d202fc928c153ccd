-- ===== src/Db/Persist/Counts.antt =====
-- The counts that the last statement of `PersistScanResults` stores in the scan's row, against the
-- rows of its findings: internal/db/persist_scan.go.
use vullify_backend.Prelude.{
  ℕ, suc, ◌≡◌, refl, ap, sym, subst, ◌∙◌, ◌⊎◌, inl, inr, Bool, true, false, ◌==◌, if◌then◌else◌,
  Option, none, some, List, [], ◌∷◌, ◌++◌, map, arith, All, delete_where, update_where,
}
use vullify_backend.Db.Persist.Tally.{
  tally, severities, stored, or_unknown, compute_severity_counts-tally,
}
use mathlib.Core.List.{append_assoc, append-nil}
use vullify_backend.Text.{Text, codes, is_empty}
use vullify_backend.Severity.{Severity, severity_cast, normalize_severity, null_if_empty}
use vullify_backend.Scanner.{VulnResult, ScanResult}
use vullify_backend.World.{
  M, call, World, Db, Env, ScanRow, FindingRow, Triple, Triple-bind, Triple-call, Result, ok, err,
  Post, after, modify_db, SbomFormat, cyclonedx, spdx, Triple-if, OnOk, Ensures,
  Ensures-transaction, now,
}
use vullify_backend.Db.Scans.{has_id}
use vullify_backend.Db.Persist.{
  persist_scan_results, clear_results, insert_results, complete_scan, compute_severity_counts,
  insert_package, store_package, store_misconfig, store_secret, store_sbom, persisted,
  insert_misconfig, insert_secret, insert_sbom, batch, insert_finding, store_finding, finding_row,
  vuln_results_to_finding_rows, wrap_row, cast_result, cast_severity, not_null, column,
}

-- Every row of the scan shows how many of its findings have each severity.
abbrev pub CountsAgree : ℕ → Db → Type 0
CountsAgree id db =
    All (λ s. (has_id id s ≡ false) ⊎ (s.counts ≡ tally (severities id db.findings))) db.scans

abbrev Has : ℕ → List Severity → World → Type 0
Has id ss w = severities id w.db.findings ≡ ss

abbrev Any : World → Type 0
Any w = Unit

severities-delete_where :
    (id : ℕ) (rows : List FindingRow)
    → severities id (delete_where (λ r. r.scan_id == id) rows) ≡ []
severities-delete_where id [] = refl
severities-delete_where id (r ∷ rows) = ground (arith, severities-delete_where id rows)

severities-append :
    (id : ℕ) (rows more : List FindingRow)
    → severities id (rows ++ more) ≡ severities id rows ++ severities id more
severities-append id [] more = refl
severities-append id (r ∷ rows) more = ground (arith, severities-append id rows more)

wrap_row-Post :
    (Q : World → Type 0) (label : Text) (i : ℕ) (x : Result (Unit {0}) × World)
    → Post (λ u. Q) Any x
    → Post (λ u. Q) Any (wrap_row label i x)
unfolding wrap_row
wrap_row-Post Q label i (ok u, w) h = h
wrap_row-Post Q label i (err e, w) h = tt

wrapped-Triple :
    {P Q : World → Type 0} (label : Text) (i : ℕ) {m : M (Unit {0})}
    → Triple P m (λ u. Q) Any
    → Triple P (λ env w. wrap_row label i (m env w)) (λ u. Q) Any
wrapped-Triple {Q} label i {m} h = record {
  apply = λ env w p. wrap_row-Post Q label i (m env w) (h.apply env w p);
}

module _ (id : ℕ) where
  keeps-call :
      {ss : List Severity} {m : M (Unit {0})}
      → Triple (Has id ss) m (λ u. Has id ss) Any
      → Triple (Has id ss) (call m) (λ u. Has id ss) Any
  keeps-call = Triple-call (λ w h. (h, tt))

  clear_results-Has : Triple Any (clear_results id) (λ u. Has id []) Any
  unfolding clear_results
  clear_results-Has =
      Triple-bind
        (Triple-call (λ w h. (tt, tt))
          (record { apply = λ env w h. severities-delete_where id w.db.findings }))
        (λ a. Triple-bind (keeps-call (record { apply = λ env w h. h })) (λ b.
          Triple-bind (keeps-call (record { apply = λ env w h. h })) (λ c.
            Triple-bind (keeps-call (record { apply = λ env w h. h }))
              (λ d. keeps-call (record { apply = λ env w h. h })))))

  insert_finding-Has :
      (ss : List Severity) (r : VulnResult)
      → Triple (Has id ss) (insert_finding id r) (λ u. Has id (ss ++ stored r ∷ [])) Any
  unfolding insert_finding store_finding finding_row
  insert_finding-Has ss r =
      Triple-call (λ w h. (h, tt))
        (record {
          apply = λ env w h. cast_and_store (severity_cast (normalize_severity r.severity)) env w h;
        })
    where
      cast_and_store :
          (o : Option Severity) (env : Env) (w : World)
          → Has id ss w
          → Post
              (λ (u : Unit {0}). Has id (ss ++ or_unknown o ∷ []))
              Any
              (after (λ v. modify_db (store_finding id r v)) env (cast_result o, w))
      cast_and_store none env w h = tt
      cast_and_store (some v) env w h = severities-append id w.db.findings _ ∙ rw h (ground arith)

  batch-Has :
      (label : Text) (i : ℕ) (ss : List Severity) (rs : List VulnResult)
      → Triple
          (Has id ss)
          (batch label (insert_finding id) i rs)
          (λ u. Has id (ss ++ map stored rs))
          Any
  unfolding batch
  batch-Has label i ss [] = record { apply = λ env w h. h ∙ sym (append-nil ss) }
  batch-Has label i ss (r ∷ rs) =
      Triple-bind (wrapped-Triple label i (insert_finding-Has ss r)) (λ u.
        subst
          (λ x.
            Triple (Has id (ss ++ stored r ∷ [])) (batch label (insert_finding id) (suc i) rs)
              (λ u. Has id x) Any)
          (append_assoc ss (stored r ∷ []) (map stored rs))
          (batch-Has label (suc i) (ss ++ stored r ∷ []) rs))

  -- A batch of statements on another table.
  other-Has :
      {A : Type 0} (ss : List Severity) (label : Text) (insert : A → M (Unit {0})) (i : ℕ)
      (xs : List A)
      → ((a : A) → Triple (Has id ss) (insert a) (λ u. Has id ss) Any)
      → Triple (Has id ss) (batch label insert i xs) (λ u. Has id ss) Any
  unfolding batch
  other-Has ss label insert i [] h = record { apply = λ env w k. k }
  other-Has ss label insert i (x ∷ xs) h =
      Triple-bind (wrapped-Triple label i (h x)) (λ u. other-Has ss label insert (suc i) xs h)

  -- A cast, and a column that is not NULL, leave the findings alone.
  cast-Has :
      (ss : List Severity) (word : Text)
      → Triple (Has id ss) (cast_severity word) (λ v. Has id ss) Any
  cast-Has ss word = record { apply = λ env w h. casted (severity_cast word) w h }
    where
      casted :
          (o : Option Severity) (w : World)
          → Has id ss w
          → Post (λ (v : Severity). Has id ss) Any (cast_result o, w)
      casted none w h = tt
      casted (some v) w h = h

  column-Has : (ss : List Severity) (t : Text) → Triple (Has id ss) (column t) (λ v. Has id ss) Any
  column-Has ss t = record { apply = λ env w h. checked (null_if_empty t) w h }
    where
      checked :
          (o : Option Text) (w : World)
          → Has id ss w
          → Post (λ (v : Text). Has id ss) Any (not_null o, w)
      checked none w h = tt
      checked (some v) w h = h

  insert_sbom-Has :
      (ss : List Severity) (format : SbomFormat) (content : Text)
      → Triple (Has id ss) (insert_sbom id format content) (λ u. Has id ss) Any
  unfolding insert_sbom store_sbom
  insert_sbom-Has ss format content =
      Triple-if (is_empty content) (record { apply = λ env w h. h })
        (keeps-call (record { apply = λ env w h. h }))

  insert_results-Has :
      (res : ScanResult)
      → Triple
          (Has id [])
          (insert_results id res)
          (λ u. Has id (map stored (vuln_results_to_finding_rows res.vulnerabilities)))
          Any
  unfolding insert_results insert_package insert_misconfig insert_secret store_package
      store_misconfig store_secret
  insert_results-Has res =
      let ss = map stored (vuln_results_to_finding_rows res.vulnerabilities) in
      Triple-bind
        (batch-Has (codes "finding") 0 [] (vuln_results_to_finding_rows res.vulnerabilities))
        (λ a.
          Triple-bind
            (other-Has ss (codes "package") (insert_package id) 0 res.packages (λ p.
              keeps-call (
                Triple-bind (column-Has ss p.layer_digest) (λ d. record { apply = λ env w h. h }))))
            (λ b.
              Triple-bind
                (other-Has ss (codes "misconfiguration") (insert_misconfig id) 0
                  res.misconfigurations
                  (λ m. keeps-call (
                    Triple-bind (cast-Has ss (normalize_severity m.severity)) (λ v.
                      Triple-bind (column-Has ss m.resolution)
                        (λ t. record { apply = λ env w h. h })))))
                (λ c.
                  Triple-bind
                    (other-Has ss (codes "secret") (insert_secret id) 0 res.secrets (λ x.
                      keeps-call (
                        Triple-bind (cast-Has ss (normalize_severity x.severity)) (λ v.
                          Triple-bind (column-Has ss x.title) (λ t.
                            Triple-bind (column-Has ss x.layer_digest)
                              (λ d. record { apply = λ env w h. h }))))))
                    (λ d.
                      Triple-bind (insert_sbom-Has ss cyclonedx res.sbom_cyclonedx)
                        (λ e. insert_sbom-Has ss spdx res.sbom_spdx)))))

module _ (id : ℕ) (res : ScanResult) (version : Text) where
  updated-CountsAgree :
      (t : ℕ) (ss : List Severity) (rows : List ScanRow)
      → compute_severity_counts res.vulnerabilities ≡ tally ss
      → All
          (λ s. (has_id id s ≡ false) ⊎ (s.counts ≡ tally ss))
          (update_where (has_id id) (persisted t res version) rows)
  updated-CountsAgree t ss [] h = tt
  updated-CountsAgree t ss (s ∷ rows) h = (row (has_id id s) refl, updated-CountsAgree t ss rows h)
    where
      row :
          (b : Bool)
          → has_id id s ≡ b
          → let s2 = if b then persisted t res version s else s in
            (has_id id s2 ≡ false) ⊎ (s2.counts ≡ tally ss)
      row true e = inr h
      row false e = inl e

  complete_scan-CountsAgree :
      Triple
        (Has id (map stored (vuln_results_to_finding_rows res.vulnerabilities)))
        (complete_scan id res version)
        (λ u w. CountsAgree id w.db)
        Any
  unfolding complete_scan
  complete_scan-CountsAgree =
      Triple-call (λ w h. (h, tt))
        (record {
          apply = λ env w h.
              updated-CountsAgree (now env w) _ w.db.scans
                (compute_severity_counts-tally res.vulnerabilities ∙ ap tally (sym h));
        })

  body-Ensures :
      {A : Type 0} {Q : World → Type 0} {m : M A} → Triple Any m (λ u. Q) Any → Ensures Q m
  body-Ensures {A} {Q} {m} h = record { apply = λ env w. outcome (m env w) (h.apply env w tt) }
    where
      outcome : (x : Result A × World) → Post (λ u. Q) Any x → OnOk Q x
      outcome (ok a, w) h = h
      outcome (err e, w) h = tt

  persist-Ensures : Ensures (λ w. CountsAgree id w.db) (persist_scan_results id res version)
  unfolding persist_scan_results
  persist-Ensures =
      Ensures-transaction (λ w h. h)
        (body-Ensures (
          Triple-bind (clear_results-Has id)
            (λ a. Triple-bind (insert_results-Has id res) (λ b. complete_scan-CountsAgree))))

-- When the results of a scan are stored, which is when no error is returned, the scan's row shows
-- for each severity how many rows of the table `findings` the scan has of it: the counts agree with
-- a GROUP BY.
pub persist_scan_results-CountsAgree :
    (id : ℕ) (res : ScanResult) (version : Text) (env : Env) (w : World)
    → (persist_scan_results id res version env w).0 ≡ ok tt
    → CountsAgree id (persist_scan_results id res version env w).1.db
persist_scan_results-CountsAgree id res version env w h =
    on_ok (persist_scan_results id res version env w) ((persist-Ensures id res version).apply env w)
      h
  where
    on_ok :
        (x : Result (Unit {0}) × World)
        → OnOk (λ w. CountsAgree id w.db) x
        → x.0 ≡ ok tt
        → CountsAgree id x.1.db
    on_ok (ok u, w) k e = k
    on_ok (err e, w) k h = ground arith
