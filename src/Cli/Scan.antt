-- ===== src/Cli/Scan.antt =====
-- The command `scan`: internal/cli/scan.go.
pub mod Gates
pub mod Polling
use vullify_backend.Prelude.{
  ℕ, zero, suc, Bool, true, false, ◌&&◌, ◌||◌, not, Option, none, some, List, [], ◌∷◌, ◌++◌,
  if◌then◌else◌,
}
use vullify_backend.Text.{Text, codes, text_eq, is_empty}
use vullify_backend.Json.{Members, lookup, as_text}
use vullify_backend.Scanner.{Error, plain, wrapped, Float64}
use vullify_backend.Severity.{parse_fail_on, meets_fail_threshold}
use vullify_backend.World.Monad.{Result, ok, err}
use vullify_backend.Cli.Http.{H, Server, pure, raise, ◌>>=◌}
use vullify_backend.Cli.Client.{
  Client, Wire, Finding, FindingWithEnrichment, create_scan_by_ref, get_scan, list_all_findings,
  list_all_findings_with_enrichment,
}
use vullify_backend.Cli.Sarif.{SarifRoot, write_sarif}

-- The flags of the command.
pub record Flags : Type 0 where
  pub fail_on : Text
  pub fail_on_kev : Bool
  pub fail_on_unfixed : Bool
  pub epss_threshold : Float64
  pub output_format : Text

-- `a > b` on floats.
abbrev pub Above : Type 0
Above = Float64 → Float64 → Bool

abbrev pub text_or_blank : Option Text → Text
text_or_blank none = []
text_or_blank (some t) = t

-- `m[key].(string)`.
abbrev pub member_text : Text → Members → Text
member_text key m = text_or_blank (as_text (lookup key m))

abbrev pub is_done : Text → Bool
is_done st = text_eq st (codes "completed") || text_eq st (codes "failed")

-- The wait between two requests: the context's error after the n-th request, if it is done then.
abbrev pub stopped : {A : Type 0} → Option Error → ℕ → Result A × ℕ → Result A × ℕ
stopped none n rest = rest
stopped (some e) n rest = (err e, n)

abbrev pub waited : {A : Type 0} → (ℕ → Option Error) → H A → H A
waited ctx rest srv n = stopped (ctx n) n (rest srv n)

-- `pollUntilDone`; `none` after as many rounds as the first argument says.
unfoldable pub poll_until_done : ℕ → (ℕ → Option Error) → Wire → Client → Text → H (Option Text)
poll_until_done zero ctx wire c scan_id = pure none
poll_until_done (suc rounds) ctx wire c scan_id = do
  m ← get_scan wire c scan_id
  let rest = poll_until_done rounds ctx wire c scan_id in
      if is_done (member_text (codes "status") m)
      then pure (some (member_text (codes "status") m))
      else waited ctx rest

-- The findings that a run lists.
pub data Listing : Type 0 where
  plain_findings : List Finding → Listing
  enriched_findings : List FindingWithEnrichment → Listing

-- A line under "Policy violations:".
pub data Violation : Type 0 where
  severity_threshold : Finding → Violation
  kev_listed unfixed epss_threshold : FindingWithEnrichment → Violation

abbrev when : Bool → Violation → List Violation
when b v = if b then v ∷ [] else []

severity_gate : ℕ → Finding → List Violation
severity_gate thr f = when (meets_fail_threshold f.severity thr) (severity_threshold f)

finding_gates : Above → Flags → ℕ → FindingWithEnrichment → List Violation
unfolding severity_gate
finding_gates above flags thr d =
    severity_gate thr d.finding
    ++ (when (flags.fail_on_kev && d.kev_listed) (Violation.kev_listed d)
        ++ (when (flags.fail_on_unfixed && is_empty d.finding.fixed_version) (unfixed d)
            ++ when (above flags.epss_threshold 0 && above d.epss_score flags.epss_threshold)
                (Violation.epss_threshold d)))

plain_violations : ℕ → List Finding → List Violation
unfolding severity_gate
plain_violations thr [] = []
plain_violations thr (f ∷ fs) = severity_gate thr f ++ plain_violations thr fs

enriched_violations : Above → Flags → ℕ → List FindingWithEnrichment → List Violation
unfolding finding_gates
enriched_violations above flags thr [] = []
enriched_violations above flags thr (d ∷ ds) =
    finding_gates above flags thr d ++ enriched_violations above flags thr ds

unfoldable pub policy_violations : Above → Flags → ℕ → Listing → List Violation
unfolding plain_violations enriched_violations
policy_violations above flags thr (plain_findings fs) = plain_violations thr fs
policy_violations above flags thr (enriched_findings ds) = enriched_violations above flags thr ds

abbrev pub needs_enrichment : Above → Flags → Bool
needs_enrichment above flags =
    flags.fail_on_kev
    || (flags.fail_on_unfixed
        || (above flags.epss_threshold 0
            || (text_eq flags.output_format (codes "json")
                || text_eq flags.output_format (codes "sarif"))))

listing : Bool → Wire → Client → Text → H Listing
listing true wire c scan_id = do
  ds ← list_all_findings_with_enrichment wire c scan_id
  pure (enriched_findings ds)
listing false wire c scan_id = do fs ← list_all_findings wire c scan_id; pure (plain_findings fs)

-- What is written to the standard output.
pub data Output : Type 0 where
  json_output : List FindingWithEnrichment → Output
  sarif_output : SarifRoot → Output
  table_output : Listing → Output

abbrev rows_of : Listing → List FindingWithEnrichment
rows_of (plain_findings fs) = []
rows_of (enriched_findings ds) = ds

output_of : Flags → Text → Listing → Output
output_of flags image_ref l =
    if text_eq flags.output_format (codes "json")
    then json_output (rows_of l)
    else if text_eq flags.output_format (codes "sarif")
    then sarif_output (write_sarif (rows_of l) image_ref)
    else table_output l

-- How the command ends, but for an error: with code 0, with code 1 and the violations, with code 1
-- for a failed scan, or still waiting after the rounds of polling.
pub data Ending : Type 0 where
  passes : Output → Ending
  violates : Output → List Violation → Ending
  scan_failed : Text → Ending
  waiting : Ending

abbrev gated : Output → List Violation → Ending
gated out [] = passes out
gated out (v ∷ vs) = violates out (v ∷ vs)

-- After a scan failed: an error of GetScan leaves the message blank.
failure_of : Wire → Client → Text → H Ending
failure_of wire c scan_id srv n = told (get_scan wire c scan_id srv n)
  where
    told : Result Members × ℕ → Result Ending × ℕ
    told (ok m, k) = (ok (scan_failed (member_text (codes "error_message") m)), k)
    told (err e, k) = (ok (scan_failed []), k)

report : Above → Flags → ℕ → Wire → Client → Text → Text → H Ending
unfolding listing output_of
report above flags thr wire c image_ref scan_id = do
  l ← listing (needs_enrichment above flags) wire c scan_id
  pure (gated (output_of flags image_ref l) (policy_violations above flags thr l))

after_poll : Above → Flags → ℕ → Wire → Client → Text → Text → Option Text → H Ending
unfolding report failure_of
after_poll above flags thr wire c image_ref scan_id none = pure waiting
after_poll above flags thr wire c image_ref scan_id (some st) =
    if text_eq st (codes "failed")
    then failure_of wire c scan_id
    else report above flags thr wire c image_ref scan_id

abbrev wrap_scan : Text → Result (Option Text) × ℕ → Result (Option Text) × ℕ
wrap_scan scan_id (ok o, n) = (ok o, n)
wrap_scan scan_id (err e, n) = (err (wrapped (codes "scan " ++ scan_id) e), n)

abbrev is_format : Text → Bool
is_format t = text_eq t (codes "table") || (text_eq t (codes "json") || text_eq t (codes "sarif"))

run_scan : ℕ → (ℕ → Option Error) → Above → Flags → ℕ → Wire → Client → Text → H Ending
unfolding after_poll
run_scan rounds ctx above flags thr wire c image_ref = do
  scan_id ← create_scan_by_ref wire c image_ref
  polled ← (λ srv n. wrap_scan scan_id (poll_until_done rounds ctx wire c scan_id srv n))
  after_poll above flags thr wire c image_ref scan_id polled

checked_format : ℕ → (ℕ → Option Error) → Above → Flags → Option ℕ → Wire → Client → Text → H Ending
unfolding run_scan
checked_format rounds ctx above flags none wire c image_ref =
    raise (plain (codes "invalid --fail-on severity"))
checked_format rounds ctx above flags (some thr) wire c image_ref =
    if is_format flags.output_format
    then run_scan rounds ctx above flags thr wire c image_ref
    else raise (plain (codes "--output must be table, json, or sarif"))

-- The `RunE` of `newScanCmd`.
unfoldable pub scan_command :
    ℕ → (ℕ → Option Error) → Above → Flags → Wire → Client → Text → H Ending
unfolding checked_format
scan_command rounds ctx above flags wire c image_ref =
    checked_format rounds ctx above flags (parse_fail_on flags.fail_on) wire c image_ref
