-- ===== src/Enrichment/Batches.antt =====
-- The batches of `fetchEPSSBatched` (internal/enrichment/epss.go).
use vullify_backend.Prelude.{
  ℕ, zero, suc, ◌≡◌, refl, ap, ◌∙◌, ◌≤◌, ◌-◌, Bool, true, ◌||◌, if◌then◌else◌, List, [], ◌∷◌, ◌++◌,
  any, count_where, count_where-append, length, take, drop, take-append-drop, All, arith,
}
use vullify_backend.Text.{Text, text_eq}
use vullify_backend.Text.Laws.{text_eq_sound}
use vullify_backend.Enrichment.{add_unique, unique_from, chunks, epss_batches, batch_size}

abbrev pub concat : List (List Text) → List Text
concat [] = []
concat (b ∷ bs) = b ++ concat bs

length-drop : (n : ℕ) (xs : List Text) → length (drop n xs) ≡ length xs - n
length-drop zero xs = omega arith
length-drop (suc n) [] = omega arith
length-drop (suc n) (x ∷ xs) = omega (arith, length-drop n xs)

length-take_le : (n : ℕ) (xs : List Text) → length (take n xs) ≤ n
length-take_le zero xs = omega arith
length-take_le (suc n) [] = omega arith
length-take_le (suc n) (x ∷ xs) = omega (arith, length-take_le n xs)

pub concat-chunks : (fuel : ℕ) (xs : List Text) → length xs ≤ fuel → concat (chunks fuel xs) ≡ xs
unfolding chunks
concat-chunks zero [] h = refl
concat-chunks zero (x ∷ xs) h = ground arith
concat-chunks (suc fuel) [] h = refl
concat-chunks (suc fuel) (x ∷ xs) h =
    ap (◌++◌ (take batch_size (x ∷ xs))) (
      concat-chunks fuel (drop batch_size (x ∷ xs))
        (omega (arith, length-drop batch_size (x ∷ xs))))
    ∙ take-append-drop batch_size (x ∷ xs)

-- A request asks for 1 to 100 CVEs.
abbrev pub IsBatch : List Text → Type 0
IsBatch b = (1 ≤ length b) × (length b ≤ batch_size)

chunks-IsBatch : (fuel : ℕ) (xs : List Text) → All IsBatch (chunks fuel xs)
unfolding chunks
chunks-IsBatch zero xs = tt
chunks-IsBatch (suc fuel) [] = tt
chunks-IsBatch (suc fuel) (x ∷ xs) = (
  (omega arith, length-take_le batch_size (x ∷ xs)),
  chunks-IsBatch fuel (drop batch_size (x ∷ xs)),
)

abbrev once : Bool → ℕ
once b = if b then 1 else 0

any-snoc :
    (c x : Text) (u : List Text) → any (text_eq c) (u ++ x ∷ []) ≡ any (text_eq c) u || text_eq c x
any-snoc c x [] = ground arith
any-snoc c x (y ∷ u) = ground (arith, any-snoc c x u)

seen-same :
    (c x : Text) (u : List Text) → text_eq c x ≡ true → any (text_eq c) u ≡ any (text_eq x) u
seen-same c x u h = ap (λ t. any (text_eq t) u) (text_eq_sound c x h)

pub any-add_unique :
    (c x : Text) (u : List Text)
    → any (text_eq c) (add_unique u x) ≡ any (text_eq c) u || text_eq c x
unfolding add_unique
any-add_unique c x u = ground (arith, any-snoc c x u, seen-same c x u)

count-add_unique :
    (c x : Text) (u : List Text)
    → count_where (text_eq c) u ≡ once (any (text_eq c) u)
    → count_where (text_eq c) (add_unique u x) ≡ once (any (text_eq c) (add_unique u x))
unfolding add_unique
count-add_unique c x u h =
    ground (arith, any-snoc c x u, seen-same c x u, count_where-append (text_eq c) u (x ∷ []))

count-unique_from :
    (c : Text) (u cs : List Text)
    → count_where (text_eq c) u ≡ once (any (text_eq c) u)
    → count_where (text_eq c) (unique_from u cs) ≡ once (any (text_eq c) u || any (text_eq c) cs)
unfolding unique_from
count-unique_from c u [] h = ground arith
count-unique_from c u (x ∷ cs) h =
    count-unique_from c (add_unique u x) cs (count-add_unique c x u h)
    ∙ ground (arith, any-add_unique c x u)

-- Every CVE of the findings is asked for once, in one batch, however often it occurs, nothing else
-- is asked for, and every batch has 1 to 100 CVEs.
pub epss_batches-once :
    (cves : List Text) (c : Text)
    → (count_where (text_eq c) (concat (epss_batches cves))
        ≡ (if any (text_eq c) cves then 1 else 0))
      × All IsBatch (epss_batches cves)
unfolding epss_batches
epss_batches-once cves c =
    let uniq = unique_from [] cves in
    (
      ap (count_where (text_eq c)) (concat-chunks (length uniq) uniq (omega arith))
          ∙ count-unique_from c [] cves refl,
      chunks-IsBatch (length uniq) uniq,
    )
