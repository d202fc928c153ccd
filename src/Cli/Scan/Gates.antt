-- ===== src/Cli/Scan/Gates.antt =====
-- The policy gates of the command `scan`: internal/cli/scan.go.
use vullify_backend.Prelude.{
  ℕ, ◌≡◌, refl, ◌↔◌, Bool, true, false, ◌&&◌, ◌||◌, ◌⊎◌, inl, inr, Option, some, map, subst,
  Bool-cases, List, [], ◌∷◌, ◌++◌, All, arith,
}
use vullify_backend.Text.{Text, codes, text_eq, is_empty}
use vullify_backend.Severity.{meets_fail_threshold, parse_fail_on}
use vullify_backend.Scanner.{Error}
use vullify_backend.World.Monad.{Result, ok}
use vullify_backend.Cli.Http.{Server}
use vullify_backend.Cli.Client.{
  Client, Wire, Finding, FindingWithEnrichment, create_scan_by_ref, list_all_findings,
  list_all_findings_with_enrichment,
}
use vullify_backend.Cli.Scan.{
  Above, Flags, Violation, severity_threshold, unfixed, when, severity_gate, finding_gates,
  plain_violations, enriched_violations, policy_violations, needs_enrichment, listing, report,
  after_poll, run_scan, checked_format, scan_command, is_format, gated, Output, Ending, passes,
  violates, poll_until_done,
}

-- A finding that no gate of the flags objects to.
abbrev pub IsMild : ℕ → Finding → Type 0
IsMild thr f = meets_fail_threshold f.severity thr ≡ false

abbrev pub IsAccepted : Above → Flags → ℕ → FindingWithEnrichment → Type 0
IsAccepted above flags thr d =
    IsMild thr d.finding
    × ((flags.fail_on_kev && d.kev_listed ≡ false)
        × ((flags.fail_on_unfixed && is_empty d.finding.fixed_version ≡ false)
            × (above flags.epss_threshold 0 && above d.epss_score flags.epss_threshold ≡ false)))

abbrev pub AllAccepted : Above → Flags → ℕ → List FindingWithEnrichment → Type 0
AllAccepted above flags thr ds = All (IsAccepted above flags thr) ds

-- The flag --output names a format.
abbrev pub IsFormat : Text → Type 0
IsFormat t = (t ≡ codes "table") ⊎ (t ≡ codes "json") ⊎ (t ≡ codes "sarif")

-- The command passes where the condition holds, and ends with violations where it does not.
abbrev pub Verdict : Type 0 → Result Ending → Type 0
Verdict P r =
    P × ((out : Output) × (r ≡ ok (passes out)))
    ⊎ (¬ P)
      × ((out : Output) × (v : Violation) × (vs : List Violation) × (r
            ≡ ok (violates out (v ∷ vs))))

append-empty : {A : Type 0} (xs ys : List A) → (xs ++ ys ≡ []) ↔ (xs ≡ []) × (ys ≡ [])
append-empty [] ys = (λ h. (refl, h), λ h. h.1)
append-empty (x ∷ xs) ys = (λ h. absurd (ground arith), λ h. absurd (ground arith))

when-empty : (b : Bool) (v : Violation) → (when b v ≡ []) ↔ (b ≡ false)
when-empty true v = (λ h. absurd (ground arith), λ h. absurd (ground arith))
when-empty false v = (λ h. refl, λ h. refl)

both_iff : {A B C D : Type 0} → A ↔ C → B ↔ D → (A × B) ↔ (C × D)
both_iff f g = (λ h. (f.0 h.0, g.0 h.1), λ h. (f.1 h.0, g.1 h.1))

then_iff : {A B C : Type 0} → A ↔ B → B ↔ C → A ↔ C
then_iff f g = (λ h. g.0 (f.0 h), λ h. f.1 (g.1 h))

plain_iff : (thr : ℕ) (fs : List Finding) → (plain_violations thr fs ≡ []) ↔ All (IsMild thr) fs
unfolding plain_violations severity_gate
plain_iff thr [] = (λ h. tt, λ h. refl)
plain_iff thr (f ∷ fs) = then_iff (append-empty _ _) (
    both_iff (when-empty (meets_fail_threshold f.severity thr) (severity_threshold f))
      (plain_iff thr fs))

gates_iff :
    (above : Above) (flags : Flags) (thr : ℕ) (d : FindingWithEnrichment)
    → (finding_gates above flags thr d ≡ []) ↔ IsAccepted above flags thr d
unfolding finding_gates severity_gate
gates_iff above flags thr d = then_iff (append-empty _ _) (
    both_iff (when-empty _ (severity_threshold d.finding)) (
      then_iff (append-empty _ _) (
        both_iff (when-empty _ (Violation.kev_listed d)) (
          then_iff (append-empty _ _)
            (both_iff (when-empty _ (unfixed d)) (when-empty _ (Violation.epss_threshold d)))))))

enriched_iff :
    (above : Above) (flags : Flags) (thr : ℕ) (ds : List FindingWithEnrichment)
    → (enriched_violations above flags thr ds ≡ []) ↔ All (IsAccepted above flags thr) ds
unfolding enriched_violations
enriched_iff above flags thr [] = (λ h. tt, λ h. refl)
enriched_iff above flags thr (d ∷ ds) =
    then_iff (append-empty _ _)
      (both_iff (gates_iff above flags thr d) (enriched_iff above flags thr ds))

gated-Verdict :
    {P : Type 0} (out : Output) (vs : List Violation)
    → (vs ≡ []) ↔ P
    → Verdict P (ok (gated out vs))
gated-Verdict out [] h = inl (h.0 refl, (out, refl))
gated-Verdict out (v ∷ vs) h = inr (λ p. let e = h.1 p in ground arith, (out, v, vs, refl))

or_off : (a b : Bool) → a || b ≡ false → (a ≡ false) × (b ≡ false)
or_off true b h = absurd (ground arith)
or_off false b h = (refl, h)

flags_off :
    (above : Above) (flags : Flags)
    → needs_enrichment above flags ≡ false
    → (flags.fail_on_kev ≡ false)
      × (flags.fail_on_unfixed ≡ false)
      × (above flags.epss_threshold 0 ≡ false)
flags_off above flags h =
    let (no_kev, rest) = or_off flags.fail_on_kev _ h in
    let (no_unfixed, more) = or_off flags.fail_on_unfixed _ rest in
    (no_kev, no_unfixed, (or_off (above flags.epss_threshold 0) _ more).0)

-- Where no flag asks for more than the severity, the plain findings decide.
details_iff :
    (above : Above) (flags : Flags) (thr : ℕ) (ds : List FindingWithEnrichment)
    → needs_enrichment above flags ≡ false
    → All (IsMild thr) (map (λ d. d.finding) ds) ↔ AllAccepted above flags thr ds
details_iff above flags thr [] h = (λ k. tt, λ k. tt)
details_iff above flags thr (d ∷ ds) h =
    let (no_kev, no_unfixed, no_epss) = flags_off above flags h in
    both_iff (λ m. (m, (rw no_kev refl, (rw no_unfixed refl, rw no_epss refl))), λ a. a.0)
      (details_iff above flags thr ds h)

IsFormat-is_format : (t : Text) → IsFormat t → is_format t ≡ true
unfolding text_eq
IsFormat-is_format t (inl e) = rw e refl
IsFormat-is_format t (inr (inl e)) = rw e refl
IsFormat-is_format t (inr (inr e)) = rw e refl

module _ (above : Above) (flags : Flags) (thr : ℕ) (wire : Wire) (c : Client)
    (image_ref scan_id : Text) (srv : Server) (n k j : ℕ) (fs : List Finding)
    (ds : List FindingWithEnrichment) (listed : list_all_findings wire c scan_id srv n ≡ (ok fs, k))
    (detailed : list_all_findings_with_enrichment wire c scan_id srv n ≡ (ok ds, j))
    (same : map (λ d. d.finding) ds ≡ fs) where
  report-Verdict :
      Verdict
        (AllAccepted above flags thr ds)
        (report above flags thr wire c image_ref scan_id srv n).0
  unfolding report listing policy_violations
  report-Verdict = elim (Bool-cases (needs_enrichment above flags)) [
    | inl enriched ↦
        rw (enriched, detailed)
          (gated-Verdict _ (enriched_violations above flags thr ds)
            (enriched_iff above flags thr ds))
    | inr plain ↦
        rw (plain, listed)
          (gated-Verdict _ (plain_violations thr fs) (
            then_iff (plain_iff thr fs) (
              subst (λ xs. All (IsMild thr) xs ↔ AllAccepted above flags thr ds) same
                (details_iff above flags thr ds plain))))
  ]

-- Where the flags --fail-on and --output are valid, the scan is created, its polling ends with
-- completed, and its findings can be listed, plain and with details that are about the same
-- findings, the command passes if by its details every finding is below the severity threshold and,
-- as far as each flag asks for it, is not in the KEV list, has a fixed version and is not above the
-- EPSS threshold; if not, it ends with violations. Details are fetched only where a flag needs them.
pub scan_command-AllAccepted :
    (rounds : ℕ) (ctx : ℕ → Option Error) (above : Above) (flags : Flags) (wire : Wire) (c : Client)
    (image_ref scan_id : Text) (srv : Server) (n n1 n2 k j thr : ℕ) (fs : List Finding)
    (ds : List FindingWithEnrichment)
    → parse_fail_on flags.fail_on ≡ some thr
    → IsFormat flags.output_format
    → create_scan_by_ref wire c image_ref srv n ≡ (ok scan_id, n1)
    → poll_until_done rounds ctx wire c scan_id srv n1 ≡ (ok (some (codes "completed")), n2)
    → list_all_findings wire c scan_id srv n2 ≡ (ok fs, k)
    → list_all_findings_with_enrichment wire c scan_id srv n2 ≡ (ok ds, j)
    → map (λ d. d.finding) ds ≡ fs
    → Verdict
        (AllAccepted above flags thr ds)
        (scan_command rounds ctx above flags wire c image_ref srv n).0
unfolding scan_command checked_format run_scan after_poll text_eq
scan_command-AllAccepted rounds ctx above flags wire c image_ref scan_id srv n n1 n2 k j thr fs ds
      threshold format created polled listed detailed same =
    rw (threshold, IsFormat-is_format flags.output_format format, created, polled)
      (report-Verdict above flags thr wire c image_ref scan_id srv n2 k j fs ds listed detailed
        same)
