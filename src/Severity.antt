-- ===== src/Severity.antt =====
-- Severity words: `normalizeSeverity`, `nullIfEmpty` (internal/db/findings.go), `severityRank`,
-- `parseFailOn`, `MeetsFailThreshold` (internal/cli/severity.go), `sarifLevel`
-- (internal/cli/sarif.go) and the `severity` enum of the schema (migrations/001).
pub mod Laws
use vullify_backend.Prelude.{ℕ, Bool, ◌||◌, Option, none, some, leb, ◌==◌, if◌then◌else◌}
use vullify_backend.Text.{Text, codes, text_eq, to_lower, trim_space, is_empty}

-- The Postgres enum `severity`.
pub data Severity : Type 0 where
  critical high medium low unknown : Severity

abbrev pub severity_text : Severity → Text
severity_text critical = codes "critical"
severity_text high = codes "high"
severity_text medium = codes "medium"
severity_text low = codes "low"
severity_text unknown = codes "unknown"

-- The cast `$6::severity`; `none` is Postgres's error for a word that the enum lacks.
unfoldable pub severity_cast : Text → Option Severity
severity_cast t =
    if text_eq t (severity_text critical)
    then some critical
    else if text_eq t (severity_text high)
    then some high
    else if text_eq t (severity_text medium)
    then some medium
    else if text_eq t (severity_text low)
    then some low
    else if text_eq t (severity_text unknown)
    then some unknown
    else none

-- The test of the `switch` in `normalizeSeverity`.
unfoldable pub is_severity_word : Text → Bool
is_severity_word t =
    text_eq t (codes "critical")
    || text_eq t (codes "high")
    || text_eq t (codes "medium")
    || text_eq t (codes "low")
    || text_eq t (codes "unknown")

unfoldable pub normalize_severity : Text → Text
normalize_severity s =
    if is_severity_word (to_lower (trim_space s)) then to_lower (trim_space s) else codes "unknown"

unfoldable pub rank_word : Text → ℕ
rank_word t =
    if text_eq t (codes "critical")
    then 5
    else if text_eq t (codes "high")
    then 4
    else if text_eq t (codes "medium")
    then 3
    else if text_eq t (codes "low")
    then 2
    else if text_eq t (codes "unknown")
    then 1
    else 0

unfoldable pub severity_rank : Text → ℕ
severity_rank s = rank_word (to_lower (trim_space s))

-- `none` is the error "invalid --fail-on severity".
unfoldable pub parse_fail_on : Text → Option ℕ
parse_fail_on s =
    let t = to_lower (trim_space s) in
    let r = severity_rank t in if is_empty t then some 4 else if r == 0 then none else some r

unfoldable pub meets_fail_threshold : Text → ℕ → Bool
meets_fail_threshold finding_sev threshold_rank = leb threshold_rank (severity_rank finding_sev)

unfoldable pub sarif_level : Text → Text
sarif_level severity =
    let t = to_lower (trim_space severity) in
    if text_eq t (codes "critical")
    then codes "error"
    else if text_eq t (codes "high")
    then codes "warning"
    else codes "note"

-- `nullIfEmpty`: what a text column stores; `none` is SQL NULL.
unfoldable pub null_if_empty : Text → Option Text
null_if_empty s = if is_empty (trim_space s) then none else some s
