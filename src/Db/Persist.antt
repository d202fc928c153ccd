-- ===== src/Db/Persist.antt =====
-- `PersistScanResults` (internal/db/persist_scan.go): one transaction that replaces the rows of a
-- scan and marks it completed.
pub mod Frame
pub mod Completes
pub mod Counts
pub mod Tally
pub mod Succeeds
use vullify_backend.Prelude.{
  ℕ, suc, ◌+◌, Bool, true, false, Option, none, some, List, [], ◌∷◌, ◌++◌, map, ltb, ◌==◌,
  if◌then◌else◌, delete_where,
}
use vullify_backend.Text.{Text, codes, is_empty, text_eq, decimal}
use vullify_backend.Severity.{Severity, normalize_severity, severity_cast, null_if_empty}
use vullify_backend.Scanner.{
  VulnResult, PackageResult, MisconfigResult, SecretResult, ScanMetadata, ScanResult, Error, plain,
  wrapped, Float64, is_zero,
}
use vullify_backend.World.{
  M, Result, ok, err, pure, raise, ◌>>=◌, ◌>>◌, call, now, modify_db, transaction, World, Env, Db,
  SeverityCounts, FindingRow, PackageRow, MisconfigRow, SecretRow, SbomRow, SbomFormat, cyclonedx,
  spdx, ScanRow, completed,
}
use vullify_backend.Db.Scans.{has_id, update_scans, null_if_blank, no_counts}

-- `nullIfZero`, for a float64 and for an int.
abbrev null_if_zero_float : Float64 → Option Float64
null_if_zero_float v = if is_zero v then none else some v

abbrev null_if_zero : ℕ → Option ℕ
null_if_zero v = if v == 0 then none else some v

-- One round of the loop of `computeSeverityCounts`.
count_one : Text → SeverityCounts → SeverityCounts
count_one sev c =
    if text_eq sev (codes "critical")
    then record c { critical = suc c.critical }
    else if text_eq sev (codes "high")
    then record c { high = suc c.high }
    else if text_eq sev (codes "medium")
    then record c { medium = suc c.medium }
    else if text_eq sev (codes "low")
    then record c { low = suc c.low }
    else record c { unknown = suc c.unknown }

count_from : SeverityCounts → List VulnResult → SeverityCounts
count_from c [] = c
count_from c (v ∷ vs) = count_from (count_one (normalize_severity v.severity) c) vs

unfoldable pub compute_severity_counts : List VulnResult → SeverityCounts
unfolding count_from count_one
compute_severity_counts vs = count_from no_counts vs

-- `vulnResultsToFindingRows`: the defaults for an empty id and an empty package.
default_names : VulnResult → VulnResult
default_names v = record v {
  vulnerability_id = if is_empty v.vulnerability_id then codes "UNKNOWN" else v.vulnerability_id;
  package_name = if is_empty v.package_name then codes "unknown" else v.package_name;
}

pub vuln_results_to_finding_rows : List VulnResult → List VulnResult
unfolding default_names
vuln_results_to_finding_rows vs = map default_names vs

-- The row that the INSERT stores, `sev` being the severity after its cast.
finding_row : ℕ → ℕ → Severity → VulnResult → FindingRow
finding_row id scan_id sev r = record {
  id = id;
  scan_id = scan_id;
  vulnerability_id = r.vulnerability_id;
  package_name = r.package_name;
  installed_version = null_if_empty r.installed_version;
  fixed_version = null_if_empty r.fixed_version;
  severity = sev;
  title = null_if_empty r.title;
  description = null_if_empty r.description;
  data_source = null_if_empty r.data_source;
  cvss_v3_score = null_if_zero_float r.cvss_v3_score;
  cvss_v3_vector = null_if_empty r.cvss_v3_vector;
  primary_url = null_if_empty r.primary_url;
  layer_digest = null_if_empty r.layer_digest;
  layer_index = null_if_zero r.layer_index;
}

abbrev pub cast_result : Option Severity → Result Severity
cast_result (some v) = ok v
cast_result none = err (plain (codes "invalid input value for enum severity"))

-- The cast of a severity word in a statement; Postgres refuses a word that the enum lacks.
abbrev pub cast_severity : Text → M Severity
cast_severity word env w = (cast_result (severity_cast word), w)

-- A value for a column that is NOT NULL (migrations/005); Postgres refuses NULL.
abbrev pub not_null : Option Text → Result Text
not_null (some t) = ok t
not_null none = err (plain (codes "null value in column violates not-null constraint"))

abbrev pub column : Text → M Text
column t env w = (not_null (null_if_empty t), w)

store_finding : ℕ → VulnResult → Severity → Db → Db
unfolding finding_row
store_finding scan_id r v db = record db {
  findings = db.findings ++ finding_row db.next_id scan_id v r ∷ [];
  next_id = suc db.next_id;
}

insert_finding : ℕ → VulnResult → M (Unit {0})
insert_finding scan_id r =
    call
      (cast_severity (normalize_severity r.severity) >>= λ v. modify_db (store_finding scan_id r v))

store_package : ℕ → PackageResult → Text → Db → Db
store_package scan_id p layer_digest db = record db {
  packages =
      db.packages
      ++ record {
        scan_id = scan_id;
        name = p.name;
        version = p.version;
        type = p.type;
        layer_digest = layer_digest;
        licenses = p.licenses;
        file_path = p.file_path;
      }
        ∷ [];
}

insert_package : ℕ → PackageResult → M (Unit {0})
insert_package scan_id p =
    call (column p.layer_digest >>= λ digest. modify_db (store_package scan_id p digest))

store_misconfig : ℕ → MisconfigResult → Severity → Text → Db → Db
store_misconfig scan_id m v resolution db = record db {
  misconfigurations =
      db.misconfigurations
      ++ record {
        scan_id = scan_id;
        type = m.type;
        check_id = m.check_id;
        title = m.title;
        description = m.description;
        severity = v;
        resolution = resolution;
        file_path = m.file_path;
        start_line = m.start_line;
        end_line = m.end_line;
      }
        ∷ [];
}

insert_misconfig : ℕ → MisconfigResult → M (Unit {0})
insert_misconfig scan_id m = call (
    cast_severity (normalize_severity m.severity) >>= λ v.
    column m.resolution >>= λ resolution. modify_db (store_misconfig scan_id m v resolution))

store_secret : ℕ → SecretResult → Severity → Text → Text → Db → Db
store_secret scan_id s v title layer_digest db = record db {
  secrets =
      db.secrets
      ++ record {
        scan_id = scan_id;
        rule_id = s.rule_id;
        category = s.category;
        severity = v;
        title = title;
        match_text = s.match_text;
        file_path = s.file_path;
        start_line = s.start_line;
        end_line = s.end_line;
        layer_digest = layer_digest;
      }
        ∷ [];
}

insert_secret : ℕ → SecretResult → M (Unit {0})
insert_secret scan_id s = call (
    cast_severity (normalize_severity s.severity) >>= λ v. column s.title >>= λ title.
    column s.layer_digest >>= λ digest. modify_db (store_secret scan_id s v title digest))

-- A batch: the statements in order, up to the first error, which is wrapped with its index.
wrap_row : Text → ℕ → Result (Unit {0}) × World → Result (Unit {0}) × World
wrap_row label i (ok u, w) = (ok u, w)
wrap_row label i (err e, w) = (err (wrapped (label ++ (codes " row " ++ decimal i)) e), w)

batch : {A : Type 0} → Text → (A → M (Unit {0})) → ℕ → List A → M (Unit {0})
batch label insert i [] = pure tt
batch label insert i (a ∷ xs) =
    (λ env w. wrap_row label i (insert a env w)) >> batch label insert (suc i) xs

store_sbom : ℕ → SbomFormat → Text → Db → Db
store_sbom scan_id format content db = record db {
  sboms = db.sboms ++ record { scan_id = scan_id; format = format; content = content } ∷ [];
}

insert_sbom : ℕ → SbomFormat → Text → M (Unit {0})
insert_sbom scan_id format content =
    if is_empty content then pure tt else call (modify_db (store_sbom scan_id format content))

abbrev delete_findings : ℕ → Db → Db
delete_findings id db = record db { findings = delete_where (λ r. r.scan_id == id) db.findings }

abbrev delete_sboms : ℕ → Db → Db
delete_sboms id db = record db { sboms = delete_where (λ r. r.scan_id == id) db.sboms }

abbrev delete_packages : ℕ → Db → Db
delete_packages id db = record db { packages = delete_where (λ r. r.scan_id == id) db.packages }

abbrev delete_misconfigs : ℕ → Db → Db
delete_misconfigs id db = record db {
  misconfigurations = delete_where (λ r. r.scan_id == id) db.misconfigurations;
}

abbrev delete_secrets : ℕ → Db → Db
delete_secrets id db = record db { secrets = delete_where (λ r. r.scan_id == id) db.secrets }

-- The image's data that the last statement stores.
abbrev meta_os : Option ScanMetadata → Text
meta_os none = []
meta_os (some m) = m.os

abbrev meta_arch : Option ScanMetadata → Text
meta_arch none = []
meta_arch (some m) = m.architecture

abbrev meta_size : Option ScanMetadata → Option ℕ
meta_size none = none
meta_size (some m) = if ltb 0 m.image_size then some m.image_size else none

abbrev meta_layers : Option ScanMetadata → Option ℕ
meta_layers none = none
meta_layers (some m) = if ltb 0 m.layer_count then some m.layer_count else none

abbrev pub persisted : ℕ → ScanResult → Text → ScanRow → ScanRow
persisted t res version s = record s {
  status = completed;
  completed_at = some t;
  error_message = none;
  trivy_version = null_if_blank version;
  counts = compute_severity_counts res.vulnerabilities;
  image_os = null_if_blank (meta_os res.metadata);
  image_arch = null_if_blank (meta_arch res.metadata);
  image_size = meta_size res.metadata;
  layer_count = meta_layers res.metadata;
}

-- The old rows go.
clear_results : ℕ → M (Unit {0})
clear_results id = do
  call (modify_db (delete_findings id))
  call (modify_db (delete_sboms id))
  call (modify_db (delete_packages id))
  call (modify_db (delete_misconfigs id))
  call (modify_db (delete_secrets id))

-- The new rows come.
insert_results : ℕ → ScanResult → M (Unit {0})
insert_results id res = do
  batch (codes "finding") (insert_finding id) 0 (vuln_results_to_finding_rows res.vulnerabilities)
  batch (codes "package") (insert_package id) 0 res.packages
  batch (codes "misconfiguration") (insert_misconfig id) 0 res.misconfigurations
  batch (codes "secret") (insert_secret id) 0 res.secrets
  insert_sbom id cyclonedx res.sbom_cyclonedx
  insert_sbom id spdx res.sbom_spdx

complete_scan : ℕ → ScanResult → Text → M (Unit {0})
complete_scan id res version =
    call λ env w. modify_db (update_scans (has_id id) (persisted (now env w) res version)) env w

pub persist_scan_results : ℕ → ScanResult → Text → M (Unit {0})
persist_scan_results id res version =
    transaction do clear_results id; insert_results id res; complete_scan id res version
