-- ===== src/Enrichment.antt =====
-- EPSS lookups of the enricher: internal/enrichment/epss.go and `normalizeCVE` of enricher.go. The
-- HTTP request of a batch, up to its decoded answer, is a parameter.
pub mod Batches
pub mod Answers
use vullify_backend.Prelude.{
  ℕ, zero, suc, Bool, true, false, Option, none, some, List, [], ◌∷◌, ◌++◌, if◌then◌else◌, any,
  take, drop, length,
}
use vullify_backend.Text.{Text, codes, text_eq, is_empty, trim_space, to_upper, has_prefix}
use vullify_backend.Scanner.{Float64}
use vullify_backend.World.{Result, ok, err}

unfoldable pub normalize_cve : Text → Text
normalize_cve v = let s = trim_space (to_upper v) in if has_prefix s (codes "CVE-") then s else []

-- `epssRow`.
pub record EpssRow : Type 0 where
  pub score : Option Float64
  pub percentile : Option Float64

-- The loop that fills `uniq`; `seen` holds what `uniq` holds.
pub add_unique : List Text → Text → List Text
add_unique uniq c = if any (text_eq c) uniq then uniq else uniq ++ c ∷ []

unique_from : List Text → List Text → List Text
unfolding add_unique
unique_from uniq [] = uniq
unique_from uniq (c ∷ cs) = unique_from (add_unique uniq c) cs

abbrev pub batch_size : ℕ
batch_size = 100

-- The chunks `uniq[i:end]` of the loop `for i := 0; i < len(uniq); i += epssBatchSize`.
pub chunks : ℕ → List Text → List (List Text)
chunks zero uniq = []
chunks (suc fuel) [] = []
chunks (suc fuel) (c ∷ cs) = take batch_size (c ∷ cs) ∷ chunks fuel (drop batch_size (c ∷ cs))

unfoldable pub epss_batches : List Text → List (List Text)
unfolding unique_from chunks
epss_batches cves = let uniq = unique_from [] cves in chunks (length uniq) uniq

-- The map that `fetchEPSSOneBatch` builds from the entries of an answer: a later entry of a CVE
-- hides an earlier one.
put : List (Text × EpssRow) → Text → EpssRow → List (Text × EpssRow)
put out key row = if is_empty key then out else (key, row) ∷ out

entries : List (Text × EpssRow) → List (Text × EpssRow) → List (Text × EpssRow)
unfolding put
entries out [] = out
entries out ((cve, row) ∷ data_) = entries (put out (trim_space (to_upper cve)) row) data_

abbrev merged : List (Text × EpssRow) → Result (List (Text × EpssRow)) → List (Text × EpssRow)
unfolding entries
merged out (ok answer) = entries out answer
merged out (err e) = out

-- The loop over the batches. `wait` says whether the rate limiter lets the n-th request pass, `ask`
-- what it answers; a request that fails is skipped, a limiter that fails ends the loop.
fetch_from :
    (ℕ → Bool)
    → (ℕ → List Text → Result (List (Text × EpssRow)))
    → ℕ
    → List (Text × EpssRow)
    → List (List Text)
    → List (Text × EpssRow)
unfolding merged
fetch_from wait ask n out [] = out
fetch_from wait ask n out (b ∷ bs) =
    let rest = fetch_from wait ask (suc n) (merged out (ask n b)) bs in if wait n then rest else out

unfoldable pub fetch_epss_batched :
    (ℕ → Bool)
    → (ℕ → List Text → Result (List (Text × EpssRow)))
    → List Text
    → List (Text × EpssRow)
unfolding fetch_from
fetch_epss_batched wait ask cves = fetch_from wait ask 0 [] (epss_batches cves)

-- `epssByCVE[cve]`.
abbrev pub get_row : Text → List (Text × EpssRow) → Option EpssRow
get_row c [] = none
get_row c ((key, row) ∷ out) = if text_eq c key then some row else get_row c out
