-- ===== src/Db/Persist/Succeeds.antt =====
-- Where no call fails, when `PersistScanResults` stores the results and commits:
-- internal/db/persist_scan.go.
use vullify_backend.Prelude.{
  ℕ, suc, ◌≡◌, refl, subst, Bool, true, false, if◌then◌else◌, none, List, [], ◌∷◌, arith, ◌||◌, ◌⊎◌,
  inl, inr, Bool-cases, any,
}
use vullify_backend.Text.{Text, is_empty, trim_space}
use vullify_backend.Severity.{Severity, normalize_severity, null_if_empty}
use vullify_backend.Severity.Laws.{severity_cast-normalize_severity}
use vullify_backend.Scanner.{
  Error, wrapped, VulnResult, PackageResult, MisconfigResult, SecretResult, ScanResult,
}
use vullify_backend.World.{
  M, call, World, Db, Env, Result, ok, err, after, modify_db, ◌>>=◌, ◌>>◌, pure, restore,
  transaction, tick, SbomFormat, cyclonedx, spdx,
}
use vullify_backend.Db.Persist.{
  persist_scan_results, clear_results, insert_results, complete_scan, batch, wrap_row,
  cast_severity, column, insert_finding, insert_package, insert_misconfig, insert_secret,
  insert_sbom, vuln_results_to_finding_rows,
}
use vullify_backend.Db.Persist.Counts.{CountsAgree, persist_scan_results-CountsAgree}

-- A text that `nullIfEmpty` turns into NULL.
abbrev pub is_blank : Text → Bool
is_blank t = is_empty (trim_space t)

-- A row of the results lacks a value for a column that is NOT NULL.
abbrev pub lacks_value : ScanResult → Bool
lacks_value res =
    any (λ (p : PackageResult). is_blank p.layer_digest) res.packages
    || (any (λ (m : MisconfigResult). is_blank m.resolution) res.misconfigurations
        || any (λ (s : SecretResult). is_blank s.layer_digest || is_blank s.title) res.secrets)

-- An error where the flag is true, else nil.
abbrev Ended : Bool → Result (Unit {0}) → Type 0
Ended true r = (e : Error) × (r ≡ err e)
Ended false r = r ≡ ok tt

-- In the environment the operation ends so.
record Ends (env : Env) (b : Bool) (m : M (Unit {0})) : Type 0 where
  apply : (w : World) → Ended b (m env w).0

wrap_row-Ended :
    (label : Text) (i : ℕ) (b : Bool) (x : Result (Unit {0}) × World)
    → Ended b x.0
    → Ended b (wrap_row label i x).0
unfolding wrap_row
wrap_row-Ended label i b (ok u, w) h = h
wrap_row-Ended label i true (err e, w) h = (wrapped _ e, refl)
wrap_row-Ended label i false (err e, w) h = ground arith

restore-Ended :
    (old : Db) (b : Bool) (x : Result (Unit {0}) × World) → Ended b x.0 → Ended b (restore old x).0
restore-Ended old b (ok u, w) h = h
restore-Ended old b (err e, w) h = h

restore-old :
    (old : Db) (x : Result (Unit {0}) × World)
    → Ended true (restore old x).0
    → (restore old x).1.db ≡ old
restore-old old (ok u, w) (e, h) = ground arith
restore-old old (err e, w) h = refl

no_lack : {A : Type 0} (xs : List A) → any (λ x. false) xs ≡ false
no_lack [] = refl
no_lack (x ∷ xs) = no_lack xs

or_false : (b : Bool) → b || false ≡ b
or_false true = refl
or_false false = refl

module _ {env : Env} where
  after-Ended :
      (k : M (Unit {0})) (a b : Bool) (x : Result (Unit {0}) × World)
      → Ended a x.0
      → Ends env b k
      → Ended (a || b) (after (λ u. k) env x).0
  after-Ended k true b (ok u, w) (e, h) hk = ground arith
  after-Ended k false b (ok u, w) h hk = hk.apply w
  after-Ended k true b (err e, w) h hk = h
  after-Ended k false b (err e, w) h hk = ground arith

  Ends-then :
      {a b : Bool} {m k : M (Unit {0})} → Ends env a m → Ends env b k → Ends env (a || b) (m >> k)
  Ends-then {a} {b} {m} {k} hm hk = record {
    apply = λ w. after-Ended k a b (m env w) (hm.apply w) hk;
  }

  -- The last operations do not fail.
  Ends-last :
      {b : Bool} {m k : M (Unit {0})} → Ends env b m → Ends env false k → Ends env b (m >> k)
  Ends-last {b} {m} {k} hm hk = subst (λ c. Ends env c (m >> k)) (or_false b) (Ends-then hm hk)

  Ends-if :
      (c : Bool) {m k : M (Unit {0})}
      → Ends env false m
      → Ends env false k
      → Ends env false (if c then m else k)
  Ends-if true hm hk = hm
  Ends-if false hm hk = hk

  batch-Ends :
      {A : Type 0} (label : Text) (insert : A → M (Unit {0})) (lacks : A → Bool) (i : ℕ)
      (xs : List A)
      → ((a : A) → Ends env (lacks a) (insert a))
      → Ends env (any lacks xs) (batch label insert i xs)
  unfolding batch
  batch-Ends label insert lacks i [] h = record { apply = λ w. refl }
  batch-Ends label insert lacks i (x ∷ xs) h =
      Ends-then
        (record { apply = λ w. wrap_row-Ended label i (lacks x) (insert x env w) ((h x).apply w) })
        (batch-Ends label insert lacks (suc i) xs h)

  cast-Ends :
      (s : Text) (k : Severity → M (Unit {0})) (b : Bool)
      → ((v : Severity) → Ends env b (k v))
      → Ends env b (cast_severity (normalize_severity s) >>= k)
  cast-Ends s k b h =
      let ((v, e), _) = severity_cast-normalize_severity s in
      record { apply = λ w. rw e ((h v).apply w) }

  column-Ends :
      (t : Text) (k : Text → M (Unit {0})) (b : Bool)
      → ((s : Text) → Ends env b (k s))
      → Ends env (b || is_blank t) (column t >>= k)
  unfolding null_if_empty
  column-Ends t k true h = record {
    apply = λ w. elim (Bool-cases (is_blank t)) [
      | inl blank ↦ rw blank (_, refl)
      | inr filled ↦ rw filled ((h t).apply w)
    ];
  }
  column-Ends t k false h = record {
    apply = λ w. elim (Bool-cases (is_blank t)) [
      | inl blank ↦ rw blank (_, refl)
      | inr filled ↦ rw filled ((h t).apply w)
    ];
  }

  module _ (healthy : (t : ℕ) → env.fault t ≡ none) where
    Ends-call : {b : Bool} {m : M (Unit {0})} → Ends env b m → Ends env b (call m)
    Ends-call h = record { apply = λ w. rw (healthy w.ticks) (h.apply (tick w)) }

    write-Ends : (f : Db → Db) → Ends env false (modify_db f)
    write-Ends f = record { apply = λ w. refl }

    written-Ends : (f : Db → Db) → Ends env false (call (modify_db f))
    written-Ends f = Ends-call (write-Ends f)

    clear_results-Ends : (id : ℕ) → Ends env false (clear_results id)
    unfolding clear_results
    clear_results-Ends id = Ends-then (written-Ends _) (
        Ends-then (written-Ends _)
          (Ends-then (written-Ends _) (Ends-then (written-Ends _) (written-Ends _))))

    insert_finding-Ends : (id : ℕ) (r : VulnResult) → Ends env false (insert_finding id r)
    unfolding insert_finding
    insert_finding-Ends id r = Ends-call (cast-Ends r.severity _ false (λ v. write-Ends _))

    insert_package-Ends :
        (id : ℕ) (p : PackageResult) → Ends env (is_blank p.layer_digest) (insert_package id p)
    unfolding insert_package
    insert_package-Ends id p = Ends-call (column-Ends p.layer_digest _ false (λ d. write-Ends _))

    insert_misconfig-Ends :
        (id : ℕ) (m : MisconfigResult) → Ends env (is_blank m.resolution) (insert_misconfig id m)
    unfolding insert_misconfig
    insert_misconfig-Ends id m = Ends-call (
        cast-Ends m.severity _ (is_blank m.resolution)
          (λ v. column-Ends m.resolution _ false (λ t. write-Ends _)))

    insert_secret-Ends :
        (id : ℕ) (s : SecretResult)
        → Ends env (is_blank s.layer_digest || is_blank s.title) (insert_secret id s)
    unfolding insert_secret
    insert_secret-Ends id s = Ends-call (
        cast-Ends s.severity _ (is_blank s.layer_digest || is_blank s.title) (λ v.
          column-Ends s.title _ (is_blank s.layer_digest)
            (λ t. column-Ends s.layer_digest _ false (λ d. write-Ends _))))

    insert_sbom-Ends :
        (id : ℕ) (format : SbomFormat) (content : Text)
        → Ends env false (insert_sbom id format content)
    unfolding insert_sbom
    insert_sbom-Ends id format content =
        Ends-if (is_empty content) (record { apply = λ w. refl }) (written-Ends _)

    insert_results-Ends :
        (id : ℕ) (res : ScanResult) → Ends env (lacks_value res) (insert_results id res)
    unfolding insert_results
    insert_results-Ends id res =
        let vulns = vuln_results_to_finding_rows res.vulnerabilities in
        let sboms =
          Ends-then (insert_sbom-Ends id cyclonedx res.sbom_cyclonedx)
            (insert_sbom-Ends id spdx res.sbom_spdx) in
        let secrets = Ends-last (batch-Ends _ _ _ 0 res.secrets (insert_secret-Ends id)) sboms in
        let misconfigs =
          Ends-then (batch-Ends _ _ _ 0 res.misconfigurations (insert_misconfig-Ends id)) secrets in
        let packages =
          Ends-then (batch-Ends _ _ _ 0 res.packages (insert_package-Ends id)) misconfigs in
        subst (λ b. Ends env (b || lacks_value res) (insert_results id res)) (no_lack vulns)
          (Ends-then (batch-Ends _ _ (λ r. false) 0 vulns (insert_finding-Ends id)) packages)

    complete_scan-Ends :
        (id : ℕ) (res : ScanResult) (version : Text) → Ends env false (complete_scan id res version)
    unfolding complete_scan
    complete_scan-Ends id res version = Ends-call (record { apply = λ w. refl })

    commit-Ends : Ends env false (call (pure tt))
    commit-Ends = Ends-call (record { apply = λ w. refl })

    body-Ends :
        (b : Bool) (m : M (Unit {0}))
        → Ends env b m
        → Ends env b (λ env w. restore w.db ((m >>= λ a. call (pure a)) env w))
    body-Ends b m h = record {
      apply = λ w.
          restore-Ended w.db b ((m >>= λ a. call (pure a)) env w)
            ((Ends-last {m = m} {k = call (pure tt)} h commit-Ends).apply w);
    }

    Ends-transaction : (b : Bool) (m : M (Unit {0})) → Ends env b m → Ends env b (transaction m)
    Ends-transaction b m h = Ends-then commit-Ends (body-Ends b m h)

    transaction-old :
        (m : M (Unit {0})) (w : World) → Ends env true m → (transaction m env w).1.db ≡ w.db
    transaction-old m w h = rw (healthy w.ticks) (
        restore-old w.db ((m >>= λ a. call (pure a)) env (tick w))
          ((body-Ends true m h).apply (tick w)))

    persist-Ends :
        (id : ℕ) (res : ScanResult) (version : Text)
        → Ends env
            (lacks_value res)
            (do clear_results id; insert_results id res; complete_scan id res version)
    persist-Ends id res version =
        Ends-then (clear_results-Ends id)
          (Ends-last (insert_results-Ends id res) (complete_scan-Ends id res version))

    persist_scan_results-Ends :
        (id : ℕ) (res : ScanResult) (version : Text)
        → Ends env (lacks_value res) (persist_scan_results id res version)
    unfolding persist_scan_results
    persist_scan_results-Ends id res version =
        Ends-transaction (lacks_value res) _ (persist-Ends id res version)

persist_scan_results-old :
    (id : ℕ) (res : ScanResult) (version : Text) (env : Env) (w : World)
    → ((t : ℕ) → env.fault t ≡ none)
    → lacks_value res ≡ true
    → (persist_scan_results id res version env w).1.db ≡ w.db
unfolding persist_scan_results
persist_scan_results-old id res version env w healthy lacks =
    let body = clear_results id >> (insert_results id res >> complete_scan id res version) in
    transaction-old {env = env} healthy body w
      (subst (λ b. Ends env b body) lacks (persist-Ends {env = env} healthy id res version))

-- Where no call fails, whatever words the scanner gave as severities, one of two things happens.
-- Either each package has a layer digest, each misconfiguration a resolution and each secret a title
-- and a layer digest: then the operation returns nil, and the scan's row shows for each severity how
-- many rows of the table `findings` the scan now has of it. Or one of these texts is blank: then the
-- operation returns an error, as the column is NOT NULL, and all tables are as they were.
pub persist_scan_results-Stores :
    (id : ℕ) (res : ScanResult) (version : Text) (env : Env) (w : World)
    → ((t : ℕ) → env.fault t ≡ none)
    → (lacks_value res ≡ false)
        × ((persist_scan_results id res version env w).0 ≡ ok tt)
        × CountsAgree id (persist_scan_results id res version env w).1.db
      ⊎ (lacks_value res ≡ true)
        × ((e : Error) × ((persist_scan_results id res version env w).0 ≡ err e))
        × ((persist_scan_results id res version env w).1.db ≡ w.db)
persist_scan_results-Stores id res version env w healthy =
    let answer = (persist_scan_results id res version env w).0 in
    let ended : Ended (lacks_value res) answer =
      (persist_scan_results-Ends {env = env} healthy id res version).apply w in
    elim (Bool-cases (lacks_value res)) [
      | inl lacks ↦ inr (
        lacks,
        subst (λ b. Ended b answer) lacks ended,
        persist_scan_results-old id res version env w healthy lacks,
      )
      | inr filled ↦
          let stored = subst (λ b. Ended b answer) filled ended in
          inl (filled, stored, persist_scan_results-CountsAgree id res version env w stored)
    ]
