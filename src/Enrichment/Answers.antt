-- ===== src/Enrichment/Answers.antt =====
-- What `fetchEPSSBatched` (internal/enrichment/epss.go) gives where every request is answered.
use vullify_backend.Prelude.{
  ℕ, suc, ◌≡◌, refl, ap, sym, subst, ◌∙◌, Bool, true, false, ◌||◌, if◌then◌else◌, List, [], ◌∷◌,
  ◌++◌, any, length, Option, none, some, All, All-append, All-split, arith,
}
use vullify_backend.Text.{Text, text_eq, is_empty, trim_space, to_upper}
use vullify_backend.Text.Laws.{text_eq_sound}
use vullify_backend.World.{Result, ok}
use vullify_backend.Enrichment.{
  EpssRow, add_unique, unique_from, chunks, epss_batches, entries, put, fetch_from,
  fetch_epss_batched, get_row,
}
use vullify_backend.Enrichment.Batches.{concat, concat-chunks, any-add_unique}

-- A CVE as `normalizeCVE` leaves it.
abbrev pub IsNormal : Text → Type 0
IsNormal c = (trim_space (to_upper c) ≡ c) × (is_empty c ≡ false)

any-append :
    (c : Text) (xs ys : List Text)
    → any (text_eq c) (xs ++ ys) ≡ any (text_eq c) xs || any (text_eq c) ys
any-append c [] ys = refl
any-append c (x ∷ xs) ys = ground (arith, any-append c xs ys)

any-unique_from :
    (c : Text) (u cs : List Text)
    → any (text_eq c) (unique_from u cs) ≡ any (text_eq c) u || any (text_eq c) cs
unfolding unique_from
any-unique_from c u [] = ground arith
any-unique_from c u (x ∷ cs) =
    any-unique_from c (add_unique u x) cs ∙ ground (arith, any-add_unique c x u)

All-if :
    (b : Bool) (xs ys : List Text)
    → All IsNormal xs
    → All IsNormal ys
    → All IsNormal (if b then xs else ys)
All-if true xs ys hx hy = hx
All-if false xs ys hx hy = hy

unique_from-IsNormal :
    (u cs : List Text) → All IsNormal u → All IsNormal cs → All IsNormal (unique_from u cs)
unfolding unique_from add_unique
unique_from-IsNormal u [] hu h = hu
unique_from-IsNormal u (x ∷ cs) hu h =
    unique_from-IsNormal (add_unique u x) cs
      (All-if (any (text_eq x) u) u (u ++ x ∷ []) hu (All-append IsNormal u (x ∷ []) hu (h.0, tt)))
      h.1

module _ (answer : Text → EpssRow) where
  abbrev pub answers : List Text → List (Text × EpssRow)
  answers [] = []
  answers (c ∷ cs) = (c, answer c) ∷ answers cs

  -- What the map gives, after some CVEs were answered.
  abbrev known : Text → List Text → Option EpssRow → Option EpssRow
  known c cs before = if any (text_eq c) cs then some (answer c) else before

  get_row-put :
      (c x : Text) (out : List (Text × EpssRow))
      → IsNormal x
      → get_row c (put out (trim_space (to_upper x)) (answer x))
        ≡ (if text_eq c x then some (answer c) else get_row c out)
  unfolding put
  get_row-put c x out (e, filled) = rw (e, filled) (same (text_eq c x) refl)
    where
      same :
          (b : Bool)
          → text_eq c x ≡ b
          → (if b then some (answer x) else get_row c out)
            ≡ (if b then some (answer c) else get_row c out)
      same true h = ap (λ t. some (answer t)) (sym (text_eq_sound c x h))
      same false h = refl

  get_row-entries :
      (c : Text) (out : List (Text × EpssRow)) (b : List Text)
      → All IsNormal b
      → get_row c (entries out (answers b)) ≡ known c b (get_row c out)
  unfolding entries
  get_row-entries c out [] h = refl
  get_row-entries c out (x ∷ b) h =
      get_row-entries c (put out (trim_space (to_upper x)) (answer x)) b h.1
      ∙ ground (arith, get_row-put c x out h.0)

  module _ (wait : ℕ → Bool) (ask : ℕ → List Text → Result (List (Text × EpssRow)))
      (passes : (n : ℕ) → wait n ≡ true)
      (answered : (n : ℕ) (b : List Text) → ask n b ≡ ok (answers b)) where
    get_row-fetch_from :
        (c : Text) (n : ℕ) (out : List (Text × EpssRow)) (bs : List (List Text))
        → All IsNormal (concat bs)
        → get_row c (fetch_from wait ask n out bs) ≡ known c (concat bs) (get_row c out)
    unfolding fetch_from
    get_row-fetch_from c n out [] h = refl
    get_row-fetch_from c n out (b ∷ bs) h =
        let (hb, hbs) = All-split IsNormal b (concat bs) h in
        rw (passes n, answered n b)
          (get_row-fetch_from c (suc n) (entries out (answers b)) bs hbs
            ∙ ground (arith, get_row-entries c out b hb, any-append c b (concat bs)))

-- Where the rate limiter lets every request pass and every request is answered in full, the map
-- has the answer of each CVE that was given, and of no other.
pub fetch_epss_batched-Answers :
    (answer : Text → EpssRow) (wait : ℕ → Bool)
    (ask : ℕ → List Text → Result (List (Text × EpssRow))) (cves : List Text) (c : Text)
    → ((n : ℕ) → wait n ≡ true)
    → ((n : ℕ) (b : List Text) → ask n b ≡ ok (answers answer b))
    → All IsNormal cves
    → get_row c (fetch_epss_batched wait ask cves)
      ≡ (if any (text_eq c) cves then some (answer c) else none)
unfolding fetch_epss_batched epss_batches
fetch_epss_batched-Answers answer wait ask cves c passes answered normal =
    let uniq = unique_from [] cves in
    let whole = concat-chunks (length uniq) uniq (omega arith) in
    get_row-fetch_from answer wait ask passes answered c 0 [] (chunks (length uniq) uniq)
      (subst (All IsNormal) (sym whole) (unique_from-IsNormal [] cves tt normal))
    ∙ ap (λ l. known answer c l none) whole
    ∙ ap (λ b. if b then some (answer c) else none) (any-unique_from c [] cves)
