-- ===== src/Db/Listings.antt =====
-- The listings of a scan's packages, misconfigurations and secrets: internal/db/packages_store.go,
-- misconfigs_store.go and secrets_store.go. The rows' ids, which no handler shows, are left out.
use vullify_backend.Prelude.{
  ℕ, Bool, true, ◌&&◌, ◌||◌, Option, none, some, List, [], ◌∷◌, if◌then◌else◌, ◌==◌, ltb,
  count_where, map,
}
use vullify_backend.Text.{Text, codes, text_eq, is_empty}
use vullify_backend.Severity.{
  Severity, critical, high, medium, low, unknown, severity_cast, severity_text,
}
use vullify_backend.Scanner.{plain}
use vullify_backend.World.{
  M, Result, ok, err, pure, ◌>>=◌, call, gets_db, PackageRow, MisconfigRow, SecretRow,
}
use vullify_backend.Db.Paging.{paged}

-- `ORDER BY`, with a test that is true where the first row goes before the second.
abbrev insert_by : {A : Type 0} → (A → A → Bool) → A → List A → List A
insert_by before a [] = a ∷ []
insert_by before a (b ∷ rows) = if before b a then b ∷ insert_by before a rows else a ∷ b ∷ rows

abbrev pub ordered_by : {A : Type 0} → (A → A → Bool) → List A → List A
ordered_by before [] = []
ordered_by before (a ∷ rows) = insert_by before a (ordered_by before rows)

abbrev pub rows_where : {A : Type 0} → (A → Bool) → List A → List A
rows_where p [] = []
rows_where p (a ∷ rows) = if p a then a ∷ rows_where p rows else rows_where p rows

-- The rows of a query, each read into its record.
abbrev pub scanned : {A B : Type 0} → (A → B) → Result (List A) → Result (List B)
scanned scan (ok rows) = ok (map scan rows)
scanned scan (err e) = err e

-- `PackageListRow`.
pub record PackageListRow : Type 0 where
  pub name : Text
  pub version : Text
  pub type : Text
  pub layer_digest : Text
  pub licenses : List Text
  pub file_path : Text

abbrev pub scan_package : PackageRow → PackageListRow
scan_package r = record {
  name = r.name;
  version = r.version;
  type = r.type;
  layer_digest = r.layer_digest;
  licenses = r.licenses;
  file_path = r.file_path;
}

abbrev pub is_package_of : ℕ → Text → PackageRow → Bool
is_package_of scan_id typ r = r.scan_id == scan_id && (is_empty typ || text_eq r.type typ)

-- `ListPackagesForScanPaginated`.
unfoldable pub list_packages : ℕ → Text → ℕ → ℕ → M (List PackageListRow × ℕ)
unfolding text_eq
list_packages scan_id typ offset limit = do
  total ← call (gets_db λ db. count_where (is_package_of scan_id typ) db.packages)
  rows ← call (λ env w. (
    scanned scan_package (
        paged offset limit (
          ordered_by (λ a b. env.name_before a.name b.name)
            (rows_where (is_package_of scan_id typ) w.db.packages))),
    w,
  ))
  pure (rows, total)

-- `AND severity = $2::severity`, where the word is not empty; a cast of another word is an error.
abbrev cast_to : {A : Type 0} → Option Severity → (Option Severity → M A) → M A
cast_to none k = call (λ env w. (err (plain (codes "invalid input value for enum severity")), w))
cast_to (some s) k = k (some s)

abbrev filtered : {A : Type 0} → Text → (Option Severity → M A) → M A
filtered severity k = if is_empty severity then k none else cast_to (severity_cast severity) k

abbrev is_severe : Option Severity → Severity → Bool
is_severe none s = true
is_severe (some t) s = text_eq (severity_text s) (severity_text t)

-- The place of a value in the enum.
abbrev severity_order : Severity → ℕ
severity_order critical = 0
severity_order high = 1
severity_order medium = 2
severity_order low = 3
severity_order unknown = 4

-- `ORDER BY severity, title`.
abbrev severer : (Text → Text → Bool) → Severity → Text → Severity → Text → Bool
severer before s title t other =
    ltb (severity_order s) (severity_order t)
    || (severity_order s == severity_order t && before title other)

-- `MisconfigListRow`.
pub record MisconfigListRow : Type 0 where
  pub type : Text
  pub check_id : Text
  pub title : Text
  pub description : Text
  pub severity : Severity
  pub resolution : Text
  pub file_path : Text
  pub start_line : ℕ
  pub end_line : ℕ

abbrev scan_misconfig : MisconfigRow → MisconfigListRow
scan_misconfig r = record {
  type = r.type;
  check_id = r.check_id;
  title = r.title;
  description = r.description;
  severity = r.severity;
  resolution = r.resolution;
  file_path = r.file_path;
  start_line = r.start_line;
  end_line = r.end_line;
}

abbrev is_misconfig_of : ℕ → Option Severity → MisconfigRow → Bool
is_misconfig_of scan_id sev r = r.scan_id == scan_id && is_severe sev r.severity

-- `ListMisconfigsForScanPaginated`.
unfoldable pub list_misconfigs : ℕ → Text → ℕ → ℕ → M (List MisconfigListRow × ℕ)
unfolding severity_cast text_eq
list_misconfigs scan_id severity offset limit = filtered severity (λ sev. do
  total ← call (gets_db λ db. count_where (is_misconfig_of scan_id sev) db.misconfigurations)
  rows ← call (λ env w. (
    scanned scan_misconfig (
        paged offset limit (
          ordered_by (λ a b. severer env.name_before a.severity a.title b.severity b.title)
            (rows_where (is_misconfig_of scan_id sev) w.db.misconfigurations))),
    w,
  ))
  pure (rows, total))

-- `SecretListRow`.
pub record SecretListRow : Type 0 where
  pub rule_id : Text
  pub category : Text
  pub severity : Severity
  pub title : Text
  pub match_text : Text
  pub file_path : Text
  pub start_line : ℕ
  pub end_line : ℕ
  pub layer_digest : Text

abbrev scan_secret : SecretRow → SecretListRow
scan_secret r = record {
  rule_id = r.rule_id;
  category = r.category;
  severity = r.severity;
  title = r.title;
  match_text = r.match_text;
  file_path = r.file_path;
  start_line = r.start_line;
  end_line = r.end_line;
  layer_digest = r.layer_digest;
}

abbrev is_secret_of : ℕ → Option Severity → SecretRow → Bool
is_secret_of scan_id sev r = r.scan_id == scan_id && is_severe sev r.severity

-- `ListSecretsForScanPaginated`.
unfoldable pub list_secrets : ℕ → Text → ℕ → ℕ → M (List SecretListRow × ℕ)
unfolding severity_cast text_eq
list_secrets scan_id severity offset limit = filtered severity (λ sev. do
  total ← call (gets_db λ db. count_where (is_secret_of scan_id sev) db.secrets)
  rows ← call (λ env w. (
    scanned scan_secret (
        paged offset limit (
          ordered_by (λ a b. severer env.name_before a.severity a.title b.severity b.title)
            (rows_where (is_secret_of scan_id sev) w.db.secrets))),
    w,
  ))
  pure (rows, total))
