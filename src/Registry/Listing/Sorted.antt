-- ===== src/Registry/Listing/Sorted.antt =====
-- `sort.Strings`: the names in order, each as often as before.
use vullify_backend.Prelude.{
  ℕ, ◌≡◌, refl, inl, inr, true, false, List, [], ◌∷◌, count_where, Bool-cases, arith,
}
use vullify_backend.Text.{Text, text_eq}
use vullify_backend.Registry.Listing.{text_le, insert_text, sort_texts}

-- Each text is at most the next.
abbrev pub IsOrdered : List Text → Type 0
IsOrdered [] = Unit
IsOrdered (t ∷ []) = Unit
IsOrdered (t ∷ (u ∷ us)) = (text_le t u ≡ true) × IsOrdered (u ∷ us)

-- How often a name occurs.
abbrev pub occurrences : Text → List Text → ℕ
occurrences t ts = count_where (text_eq t) ts

text_le_total : (s t : Text) → text_le s t ≡ false → text_le t s ≡ true
unfolding text_le
text_le_total [] t h = ground arith
text_le_total (c ∷ s) [] h = refl
text_le_total (c ∷ s) (d ∷ t) h = ground (arith, text_le_total s t)

insert_text-head :
    (t u : Text) (us : List Text)
    → text_le u t ≡ true
    → IsOrdered (u ∷ us)
    → IsOrdered (u ∷ insert_text t us)
unfolding insert_text
insert_text-head t u [] h o = (h, tt)
insert_text-head t u (v ∷ us) h o = elim (Bool-cases (text_le t v)) [
  | inl e ↦ rw e (h, (e, o.1))
  | inr e ↦ rw e (o.0, insert_text-head t v us (text_le_total t v e) o.1)
]

insert_text-IsOrdered : (t : Text) (us : List Text) → IsOrdered us → IsOrdered (insert_text t us)
unfolding insert_text
insert_text-IsOrdered t [] o = tt
insert_text-IsOrdered t (u ∷ us) o = elim (Bool-cases (text_le t u)) [
  | inl e ↦ rw e (e, o)
  | inr e ↦ rw e (insert_text-head t u us (text_le_total t u e) o)
]

pub sort_texts-IsOrdered : (ts : List Text) → IsOrdered (sort_texts ts)
unfolding sort_texts
sort_texts-IsOrdered [] = tt
sort_texts-IsOrdered (t ∷ ts) = insert_text-IsOrdered t (sort_texts ts) (sort_texts-IsOrdered ts)

occurrences-insert_text :
    (s t : Text) (us : List Text) → occurrences s (insert_text t us) ≡ occurrences s (t ∷ us)
unfolding insert_text
occurrences-insert_text s t [] = refl
occurrences-insert_text s t (u ∷ us) = ground (arith, occurrences-insert_text s t us)

pub occurrences-sort_texts :
    (s : Text) (ts : List Text) → occurrences s (sort_texts ts) ≡ occurrences s ts
unfolding sort_texts
occurrences-sort_texts s [] = refl
occurrences-sort_texts s (t ∷ ts) =
    ground (arith, occurrences-insert_text s t (sort_texts ts), occurrences-sort_texts s ts)
