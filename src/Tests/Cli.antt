-- ===== src/Tests/Cli.antt =====
-- The theorems on the command line applied at concrete data.
use vullify_backend.Prelude.{
  ℕ, ◌≡◌, refl, zero, suc, ◌<◌, ◌+◌, ◌==◌, inl, inr, ◌≤◌, true, false, none, some, List, [], ◌∷◌,
  arith, take, if◌then◌else◌, ltb,
}
use vullify_backend.Text.{Text, codes, text_eq, decimal, get_text, trim_space, to_lower}
use vullify_backend.Json.{Members, str, member, no_members, lookup}
use vullify_backend.Severity.{parse_fail_on, severity_rank, rank_word}
use vullify_backend.World.Monad.{Result, ok}
use vullify_backend.Cli.Http.{Server, HttpOut}
use vullify_backend.Cli.Client.{
  Client, Wire, Finding, FindingWithEnrichment, list_all_findings, get_scan, create_scan_by_ref,
  list_all_findings_with_enrichment,
}
use vullify_backend.Cli.Client.Pages.{Serves, api_page, list_all_findings-All}
use vullify_backend.Cli.Scan.{Flags, poll_until_done, scan_command}
use vullify_backend.Cli.Scan.Polling.{
  IsDone, Reports, poll_until_done-IsDone, poll_until_done-cancelled,
}
use vullify_backend.Cli.Scan.Gates.{AllAccepted, Verdict, scan_command-AllAccepted}

abbrev some_finding : Text → Text → Finding
some_finding id sev = record {
  id = id;
  vulnerability_id = codes "CVE-2024-1";
  package_name = codes "openssl";
  severity = sev;
  installed_version = codes "3.0.1";
  fixed_version = [];
  title = [];
}

abbrev two_findings : List Finding
two_findings = some_finding (codes "a") (codes "high") ∷ some_finding (codes "b") (codes "low") ∷ []

abbrev enriched : Finding → FindingWithEnrichment
enriched f = record {
  finding = f;
  epss_score = 0;
  kev_listed = false;
  exploit_exists = false;
  risk_score = 0;
}

-- The status of the scan in the n-th answer.
abbrev scan_members : Text → Members
scan_members st = member (codes "status") (str st) no_members

-- A page's body is its number, and a scan's body is its status.
abbrev some_wire : Wire
some_wire = record {
  path_escape = λ t. t;
  findings_page =
      λ t. ok (api_page two_findings ((codes "page", t) ∷ (codes "per_page", decimal 100) ∷ []));
  finding_detail = λ t. ok (enriched (some_finding t (codes "high")));
  scan_map = λ t. ok (scan_members t);
  scan_id = λ t. ok t;
  api_error = λ t. none;
  image_ref_body = λ t. t;
}

abbrev answer : Text → Result HttpOut
answer body = ok (record { status = 200; body = body; sbom_format = [] })

abbrev some_client : Client
some_client = record { base_url = codes "http://localhost:8080"; token = [] }

abbrev page_server : Server
page_server n req = answer (get_text (codes "page") req.query)

two-Serves : Serves some_wire some_client (codes "1") two_findings page_server
unfolding get_text text_eq
two-Serves n page = (_, refl, refl, refl)

list_all_findings-All_example :
    (list_all_findings some_wire some_client (codes "1") page_server 0).0
    ≡ ok (take 1_000_000 two_findings)
list_all_findings-All_example =
    list_all_findings-All some_wire some_client (codes "1") two_findings page_server 0 two-Serves

-- The scan runs for two requests.
abbrev status_at : ℕ → Text
status_at n = if ltb n 2 then codes "running" else codes "completed"

abbrev status_server : (ℕ → Text) → Server
status_server status n req = answer (status n)

status-Reports :
    (status : ℕ → Text) → Reports some_wire some_client (codes "1") status (status_server status)
unfolding get_scan lookup text_eq
status-Reports status n = (scan_members (status n), refl, refl)

running_on : ¬ IsDone (codes "running")
running_on (inl e) = ground arith
running_on (inr e) = ground arith

not_earlier : (i : ℕ) → 0 ≤ i → i < 0 + 2 → ¬ IsDone (status_at i)
not_earlier zero le lt = running_on
not_earlier (suc zero) le lt = running_on
not_earlier (suc (suc i)) le lt = absurd (omega (arith, lt))

poll_until_done-IsDone_example :
    poll_until_done 5 (λ k. none) some_wire some_client (codes "1") (status_server status_at) 0
    ≡ (ok (some (codes "completed")), 3)
poll_until_done-IsDone_example =
    poll_until_done-IsDone (λ k. none) some_wire some_client (codes "1") (status_server status_at)
      status_at 5 0 2 (status-Reports status_at) (λ k. refl) (omega arith) not_earlier (inl refl)

poll_until_done-cancelled_example :
    (poll_until_done 7
      (λ k. none)
      some_wire
      some_client
      (codes "1")
      (status_server (λ k. codes "cancelled"))
      0).0
    ≡ ok none
poll_until_done-cancelled_example =
    poll_until_done-cancelled (λ k. none) some_wire some_client (codes "1")
      (status_server (λ k. codes "cancelled")) 7 0 (status-Reports (λ k. codes "cancelled"))
      (λ k. refl)

-- A scan with one finding: its creation, one round of polling, one page and one detail.
abbrev gate_flags : Flags
gate_flags = record {
  fail_on = codes "critical";
  fail_on_kev = true;
  fail_on_unfixed = true;
  epss_threshold = 0;
  output_format = codes "json";
}

abbrev one_finding : Finding
one_finding = some_finding (codes "a") (codes "high")

abbrev scan_wire : Wire
scan_wire = record (some_wire) {
  findings_page = λ t. ok (record { batch = one_finding ∷ []; total = some 1 });
  finding_detail = λ t. ok (enriched one_finding);
}

abbrev scan_answer : ℕ → Text
scan_answer n = if n == 1 then codes "completed" else codes "1"

critical_threshold : parse_fail_on (codes "critical") ≡ some 5
unfolding parse_fail_on severity_rank to_lower trim_space rank_word text_eq
critical_threshold = refl

scan_created :
    create_scan_by_ref scan_wire some_client (codes "alpine") (status_server scan_answer) 0
    ≡ (ok (codes "1"), 1)
unfolding create_scan_by_ref
scan_created = refl

scan_polled :
    poll_until_done 3 (λ k. none) scan_wire some_client (codes "1") (status_server scan_answer) 1
    ≡ (ok (some (codes "completed")), 2)
unfolding poll_until_done get_scan lookup text_eq
scan_polled = refl

scan_listed :
    list_all_findings scan_wire some_client (codes "1") (status_server scan_answer) 2
    ≡ (ok (one_finding ∷ []), 3)
unfolding list_all_findings
scan_listed = refl

scan_detailed :
    list_all_findings_with_enrichment scan_wire some_client
      (codes "1")
      (status_server scan_answer)
      2
    ≡ (ok (enriched one_finding ∷ []), 4)
unfolding list_all_findings_with_enrichment
scan_detailed = refl

scan_command-AllAccepted_example :
    Verdict
      (AllAccepted (λ a b. false) gate_flags 5 (enriched one_finding ∷ []))
      (scan_command 3
        (λ k. none)
        (λ a b. false)
        gate_flags
        scan_wire
        some_client
        (codes "alpine")
        (status_server scan_answer)
        0).0
scan_command-AllAccepted_example =
    scan_command-AllAccepted 3 (λ k. none) (λ a b. false) gate_flags scan_wire some_client
      (codes "alpine") (codes "1") (status_server scan_answer) 0 1 2 3 4 5 (one_finding ∷ [])
      (enriched one_finding ∷ []) critical_threshold (inr (inl refl)) scan_created scan_polled
      scan_listed scan_detailed refl
