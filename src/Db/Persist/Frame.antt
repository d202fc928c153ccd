-- ===== src/Db/Persist/Frame.antt =====
-- `PersistScanResults` touches the rows of its own scan only: internal/db/persist_scan.go.
use vullify_backend.Prelude.{
  ℕ, suc, ◌≡◌, refl, ap, ◌∙◌, ◌==◌, List, [], ◌∷◌, ==_refl, delete_where_idem, delete_where-snoc,
}
use vullify_backend.Text.{Text, is_empty}
use vullify_backend.Severity.{normalize_severity, Severity}
use vullify_backend.Scanner.{VulnResult, PackageResult, MisconfigResult, SecretResult, ScanResult}
use vullify_backend.World.{
  M, World, transaction, Db, Result, ok, err, Keeps, Keeps-bind, Keeps-then, Keeps-pure, Keeps-if,
  modify_db, now, restore, ◌>>=◌, call, SbomFormat, cyclonedx, spdx, pure,
}
use vullify_backend.Db.Others.{call-frame, others}
use vullify_backend.Db.Scans.Frame.{update_scans-frame}
use vullify_backend.Db.Persist.{
  cast_severity, column, store_finding, store_package, store_misconfig, store_secret, store_sbom,
  wrap_row, insert_finding, insert_package, insert_misconfig, insert_secret, batch, insert_sbom,
  clear_results, insert_results, complete_scan, persist_scan_results, delete_findings, delete_sboms,
  delete_packages, delete_misconfigs, delete_secrets, persisted,
}

module _ (id : ℕ) where
  store_finding-frame :
      (r : VulnResult) (v : Severity) → Keeps (others id) (modify_db (store_finding id r v))
  unfolding store_finding
  store_finding-frame r v = record {
    apply = λ env w.
        ap (λ rows. record (others id w) { findings = rows })
          (delete_where-snoc (λ x. x.scan_id == id) w.db.findings _ (==_refl id));
  }

  store_package-frame :
      (r : PackageResult) (d : Text) → Keeps (others id) (modify_db (store_package id r d))
  unfolding store_package
  store_package-frame r d = record {
    apply = λ env w.
        ap (λ rows. record (others id w) { packages = rows })
          (delete_where-snoc (λ x. x.scan_id == id) w.db.packages _ (==_refl id));
  }

  store_misconfig-frame :
      (r : MisconfigResult) (v : Severity) (t : Text)
      → Keeps (others id) (modify_db (store_misconfig id r v t))
  unfolding store_misconfig
  store_misconfig-frame r v t = record {
    apply = λ env w.
        ap (λ rows. record (others id w) { misconfigurations = rows })
          (delete_where-snoc (λ x. x.scan_id == id) w.db.misconfigurations _ (==_refl id));
  }

  store_secret-frame :
      (r : SecretResult) (v : Severity) (t d : Text)
      → Keeps (others id) (modify_db (store_secret id r v t d))
  unfolding store_secret
  store_secret-frame r v t d = record {
    apply = λ env w.
        ap (λ rows. record (others id w) { secrets = rows })
          (delete_where-snoc (λ x. x.scan_id == id) w.db.secrets _ (==_refl id));
  }

  store_sbom-frame :
      (format : SbomFormat) (content : Text)
      → Keeps (others id) (modify_db (store_sbom id format content))
  unfolding store_sbom
  store_sbom-frame format content = record {
    apply = λ env w.
        ap (λ rows. record (others id w) { sboms = rows })
          (delete_where-snoc (λ x. x.scan_id == id) w.db.sboms _ (==_refl id));
  }

  insert_finding-frame : (r : VulnResult) → Keeps (others id) (insert_finding id r)
  unfolding insert_finding
  insert_finding-frame r = call-frame id (
      Keeps-bind {m = (cast_severity (normalize_severity r.severity))}
        (record { apply = λ env w. refl }) (store_finding-frame r))

  insert_misconfig-frame : (r : MisconfigResult) → Keeps (others id) (insert_misconfig id r)
  unfolding insert_misconfig
  insert_misconfig-frame r = call-frame id (
      Keeps-bind {m = (cast_severity (normalize_severity r.severity))}
        (record { apply = λ env w. refl })
        (λ v.
          Keeps-bind {m = column r.resolution} (record { apply = λ env w. refl })
            (store_misconfig-frame r v)))

  insert_secret-frame : (r : SecretResult) → Keeps (others id) (insert_secret id r)
  unfolding insert_secret
  insert_secret-frame r = call-frame id (
      Keeps-bind {m = (cast_severity (normalize_severity r.severity))}
        (record { apply = λ env w. refl })
        (λ v.
          Keeps-bind {m = column r.title} (record { apply = λ env w. refl })
            (λ t.
              Keeps-bind {m = column r.layer_digest} (record { apply = λ env w. refl })
                (store_secret-frame r v t))))

  insert_package-frame : (p : PackageResult) → Keeps (others id) (insert_package id p)
  unfolding insert_package
  insert_package-frame p = call-frame id (
      Keeps-bind {m = column p.layer_digest} (record { apply = λ env w. refl })
        (store_package-frame p))

  insert_sbom-frame :
      (format : SbomFormat) (content : Text) → Keeps (others id) (insert_sbom id format content)
  unfolding insert_sbom
  insert_sbom-frame format content =
      Keeps-if (is_empty content) Keeps-pure (call-frame id (store_sbom-frame format content))

  wrap_row-frame :
      (label : Text) (i : ℕ) (x : Result (Unit {0}) × World)
      → others id (wrap_row label i x).1 ≡ others id x.1
  unfolding wrap_row
  wrap_row-frame label i (ok u, w) = refl
  wrap_row-frame label i (err e, w) = refl

  batch-frame :
      {A : Type 0} (label : Text) (insert : A → M (Unit {0})) (i : ℕ) (xs : List A)
      → ((a : A) → Keeps (others id) (insert a))
      → Keeps (others id) (batch label insert i xs)
  unfolding batch
  batch-frame label insert i [] h = Keeps-pure
  batch-frame label insert i (a ∷ xs) h =
      Keeps-then
        (record { apply = λ env w. wrap_row-frame label i (insert a env w) ∙ (h a).apply env w })
        (batch-frame label insert (suc i) xs h)

  cleared :
      (f : Db → Db)
      → ((w : World) → others id (record w { db = f w.db }) ≡ others id w)
      → Keeps (others id) (call (modify_db f))
  cleared f h = call-frame id (record { apply = λ env w. h w })

  clear_results-frame : Keeps (others id) (clear_results id)
  unfolding clear_results
  clear_results-frame =
      Keeps-then
        (cleared (delete_findings id) λ w.
          ap (λ rows. record (others id w) { findings = rows }) (delete_where_idem _ w.db.findings))
        (Keeps-then
          (cleared (delete_sboms id) λ w.
            ap (λ rows. record (others id w) { sboms = rows }) (delete_where_idem _ w.db.sboms))
          (Keeps-then
            (cleared (delete_packages id) λ w.
              ap (λ rows. record (others id w) { packages = rows })
                (delete_where_idem _ w.db.packages))
            (Keeps-then
              (cleared (delete_misconfigs id) λ w.
                ap (λ rows. record (others id w) { misconfigurations = rows })
                  (delete_where_idem _ w.db.misconfigurations))
              (cleared (delete_secrets id) λ w.
                ap (λ rows. record (others id w) { secrets = rows })
                  (delete_where_idem _ w.db.secrets)))))

  insert_results-frame : (res : ScanResult) → Keeps (others id) (insert_results id res)
  unfolding insert_results
  insert_results-frame res = Keeps-then (batch-frame _ _ 0 _ insert_finding-frame) (
      Keeps-then (batch-frame _ _ 0 _ insert_package-frame) (
        Keeps-then (batch-frame _ _ 0 _ insert_misconfig-frame) (
          Keeps-then (batch-frame _ _ 0 _ insert_secret-frame)
            (Keeps-then (insert_sbom-frame cyclonedx _) (insert_sbom-frame spdx _)))))

  complete_scan-frame :
      (res : ScanResult) (version : Text) → Keeps (others id) (complete_scan id res version)
  unfolding complete_scan
  complete_scan-frame res version = call-frame id (record {
    apply = λ env w. update_scans-frame id (persisted (now env w) res version) w (λ s. refl);
  })

  -- A transaction over statements that leave the others alone does so, also when it is rolled back.
  restore-frame :
      {A : Type 0} (before : World) (x : Result A × World)
      → others id x.1 ≡ others id before
      → others id (restore before.db x).1 ≡ others id before
  restore-frame before (ok a, w) h = h
  restore-frame before (err e, w) h =
      λ i. record (others id before) { queue = (h i).queue; locks = (h i).locks }

  transaction-frame :
      {A : Type 0} {m : M A} → Keeps (others id) m → Keeps (others id) (transaction m)
  transaction-frame {m} h = Keeps-then (call-frame id Keeps-pure) (record {
    apply = λ env w.
        restore-frame w ((m >>= λ a. call (pure a)) env w)
          ((Keeps-bind {m = m} h (λ a. call-frame id Keeps-pure)).apply env w);
  })

  -- Whatever fails, storing the results of a scan changes no other scan and none of its results.
  pub persist_scan_results-frame :
      (res : ScanResult) (version : Text) → Keeps (others id) (persist_scan_results id res version)
  unfolding persist_scan_results
  persist_scan_results-frame res version = transaction-frame (
      Keeps-then clear_results-frame
        (Keeps-then (insert_results-frame res) (complete_scan-frame res version)))
