-- ===== src/Db/Persist/Tally.antt =====
-- The counts of `computeSeverityCounts` (internal/db/persist_scan.go) against a GROUP BY.
use vullify_backend.Prelude.{
  ℕ, suc, ◌≡◌, ◌∙◌, Bool, true, false, ◌==◌, ◌+◌, if◌then◌else◌, Option, none, some, List, [], ◌∷◌,
  map, arith, count_where,
}
use vullify_backend.Text.{Text}
use vullify_backend.Severity.{
  Severity, critical, high, medium, low, unknown, severity_cast, normalize_severity,
}
use vullify_backend.Scanner.{VulnResult}
use vullify_backend.World.{FindingRow, SeverityCounts}
use vullify_backend.Db.Scans.{no_counts}
use vullify_backend.Db.Persist.{
  compute_severity_counts, count_from, count_one, default_names, vuln_results_to_finding_rows,
}

abbrev pub is_critical : Severity → Bool
is_critical critical = true
is_critical _ = false

abbrev pub is_high : Severity → Bool
is_high high = true
is_high _ = false

abbrev pub is_medium : Severity → Bool
is_medium medium = true
is_medium _ = false

abbrev pub is_low : Severity → Bool
is_low low = true
is_low _ = false

abbrev pub is_unknown : Severity → Bool
is_unknown unknown = true
is_unknown _ = false

-- `SELECT severity, COUNT(*) … GROUP BY severity`.
abbrev pub tally : List Severity → SeverityCounts
tally ss = record {
  critical = count_where is_critical ss;
  high = count_where is_high ss;
  medium = count_where is_medium ss;
  low = count_where is_low ss;
  unknown = count_where is_unknown ss;
}

-- The severities of the findings of a scan.
abbrev pub severities : ℕ → List FindingRow → List Severity
severities id [] = []
severities id (r ∷ rows) =
    if r.scan_id == id then r.severity ∷ severities id rows else severities id rows

abbrev pub or_unknown : Option Severity → Severity
or_unknown none = unknown
or_unknown (some v) = v

abbrev pub stored : VulnResult → Severity
stored r = or_unknown (severity_cast (normalize_severity r.severity))

bump : Severity → SeverityCounts → SeverityCounts
bump critical c = record c { critical = suc c.critical }
bump high c = record c { high = suc c.high }
bump medium c = record c { medium = suc c.medium }
bump low c = record c { low = suc c.low }
bump unknown c = record c { unknown = suc c.unknown }

count_one-bump :
    (t : Text) (c : SeverityCounts) → count_one t c ≡ bump (or_unknown (severity_cast t)) c
unfolding count_one severity_cast bump
count_one-bump t c = ground arith

abbrev plus : SeverityCounts → List Severity → SeverityCounts
plus c ss = record {
  critical = c.critical + count_where is_critical ss;
  high = c.high + count_where is_high ss;
  medium = c.medium + count_where is_medium ss;
  low = c.low + count_where is_low ss;
  unknown = c.unknown + count_where is_unknown ss;
}

counts_ext :
    {a b : SeverityCounts}
    → a.critical ≡ b.critical
    → a.high ≡ b.high
    → a.medium ≡ b.medium
    → a.low ≡ b.low
    → a.unknown ≡ b.unknown
    → a ≡ b
counts_ext p q r s t i = record {
  critical = p i;
  high = q i;
  medium = r i;
  low = s i;
  unknown = t i;
}

plus-bump :
    (v : Severity) (c : SeverityCounts) (ss : List Severity) → plus (bump v c) ss ≡ plus c (v ∷ ss)
unfolding bump
plus-bump v c ss =
    counts_ext (ground arith) (ground arith) (ground arith) (ground arith) (ground arith)

count_from-plus :
    (c : SeverityCounts) (vs : List VulnResult)
    → count_from c vs ≡ plus c (map stored (vuln_results_to_finding_rows vs))
unfolding count_from vuln_results_to_finding_rows default_names
count_from-plus c [] =
    counts_ext (omega arith) (omega arith) (omega arith) (omega arith) (omega arith)
count_from-plus c (v ∷ vs) =
    rw (count_one-bump (normalize_severity v.severity) c)
      (count_from-plus (bump (stored v) c) vs ∙ plus-bump (stored v) c _)

pub compute_severity_counts-tally :
    (vs : List VulnResult)
    → compute_severity_counts vs ≡ tally (map stored (vuln_results_to_finding_rows vs))
unfolding compute_severity_counts
compute_severity_counts-tally vs =
    count_from-plus no_counts vs
    ∙ counts_ext (omega arith) (omega arith) (omega arith) (omega arith) (omega arith)
