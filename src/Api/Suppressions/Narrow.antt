-- ===== src/Api/Suppressions/Narrow.antt =====
-- Which suppressions there are: internal/api/handlers_suppressions.go.
use vullify_backend.Prelude.{
  ℕ, ◌≡◌, refl, Bool, true, false, ◌&&◌, ◌||◌, Option, none, some, List, [], ◌∷◌, All, All-append,
  if◌then◌else◌, ◌==◌, update_where, delete_where, count_where, Bool-cases, inl, inr, ◌⊎◌,
}
use vullify_backend.Text.{Text, is_empty, trim_space}
use vullify_backend.World.{
  World, Env, SuppressionRow, Invariant, Invariant-pure, Triple-if, Triple-call, Keeps-Invariant,
  Post, Post-world, err, modify_db,
}
use vullify_backend.Scanner.{no_rows}
use vullify_backend.Severity.{null_if_empty}
use vullify_backend.Db.Images.{or_no_rows}
use vullify_backend.Db.Reads.{get_suppression_by_id-Keeps}
use vullify_backend.Db.Suppressions.{
  insert_suppression, update_suppression, delete_suppression, changed_suppression,
  has_suppression_id, update_suppression_rows,
}
use vullify_backend.Api.Reply.Gives.{or_answer-Invariant}
use vullify_backend.Api.Suppressions.{
  CreateSuppressionReq, UpdateSuppressionReq, create_suppression, create_checked, store_suppression,
  with_image, parsed_image, change_suppression, remove_suppression,
}

abbrev pub names : Option Text → Bool
names none = false
names (some t) = true

-- The suppression is of a CVE or of a package.
abbrev pub IsNarrow : SuppressionRow → Type 0
IsNarrow s = names s.cve_id || names s.pkg_name ≡ true

abbrev pub AllNarrow : World → Type 0
AllNarrow w = All IsNarrow w.db.suppressions

All-update_where :
    (p : SuppressionRow → Bool) (f : SuppressionRow → SuppressionRow)
    → ((s : SuppressionRow) → IsNarrow s → IsNarrow (f s))
    → (rows : List SuppressionRow) → All IsNarrow rows
    → All IsNarrow (update_where p f rows)
All-update_where p f h [] a = tt
All-update_where p f h (s ∷ rows) a = (row (p s), All-update_where p f h rows a.1)
  where
    row : (b : Bool) → IsNarrow (if b then f s else s)
    row true = h s a.0
    row false = a.0

All-delete_where :
    (p : SuppressionRow → Bool) (rows : List SuppressionRow)
    → All IsNarrow rows
    → All IsNarrow (delete_where p rows)
All-delete_where p [] a = tt
All-delete_where p (s ∷ rows) a = rest (p s) (All-delete_where p rows a.1)
  where
    rest :
        (b : Bool)
        → All IsNarrow (delete_where p rows)
        → All IsNarrow (if b then delete_where p rows else s ∷ delete_where p rows)
    rest true h = h
    rest false h = (a.0, h)

blank-names :
    (cve_id pkg_name : Text)
    → is_empty (trim_space cve_id) && is_empty (trim_space pkg_name) ≡ false
    → names (null_if_empty cve_id) || names (null_if_empty pkg_name) ≡ true
unfolding null_if_empty
blank-names cve_id pkg_name h =
    named (is_empty (trim_space cve_id)) (is_empty (trim_space pkg_name)) h
  where
    named :
        (a b : Bool)
        → a && b ≡ false
        → names (if a then none else some cve_id) || names (if b then none else some pkg_name)
          ≡ true
    named true true e = cc
    named true false e = refl
    named false b e = refl

-- The names of a request are not both empty, and have spaces only.
abbrev pub IsUnnamed : Option CreateSuppressionReq → Type 0
IsUnnamed none = ⊥
IsUnnamed (some req) =
    (is_empty req.cve_id && is_empty req.pkg_name ≡ false)
    × (is_empty (trim_space req.cve_id) && is_empty (trim_space req.pkg_name) ≡ true)

module _ (req : CreateSuppressionReq)
    (named : is_empty (trim_space req.cve_id) && is_empty (trim_space req.pkg_name) ≡ false) where
  insert_suppression-AllNarrow :
      (image_id : Option ℕ)
      → Invariant AllNarrow
          (insert_suppression req.cve_id req.pkg_name image_id req.reason [] req.expires_at)
  unfolding insert_suppression
  insert_suppression-AllNarrow image_id =
      Triple-call (λ w h. (h, h))
        (record {
          apply = λ env w h.
              All-append IsNarrow w.db.suppressions _ h
                (blank-names req.cve_id req.pkg_name named, tt);
        })

  store_suppression-AllNarrow :
      (image_id : Option ℕ) → Invariant AllNarrow (store_suppression req image_id)
  unfolding store_suppression
  store_suppression-AllNarrow image_id =
      or_answer-Invariant _ (insert_suppression-AllNarrow image_id) (λ id.
        or_answer-Invariant _
          (Keeps-Invariant (λ w. w.db.suppressions) (All IsNarrow)
            (get_suppression_by_id-Keeps (λ w. refl) id))
          (λ s. Invariant-pure))

  with_image-AllNarrow :
      (parse_uuid : Text → Option ℕ) (image_id : Option Text)
      → Invariant AllNarrow (with_image parse_uuid image_id (store_suppression req))
  with_image-AllNarrow parse_uuid none = store_suppression-AllNarrow none
  with_image-AllNarrow parse_uuid (some t) =
      Triple-if (is_empty t) (store_suppression-AllNarrow none) (parsed (parse_uuid t))
    where
      parsed : (id : Option ℕ) → Invariant AllNarrow (parsed_image id (store_suppression req))
      parsed none = Invariant-pure
      parsed (some id) = store_suppression-AllNarrow (some id)

create_checked-AllNarrow :
    (parse_uuid : Text → Option ℕ) (req : CreateSuppressionReq)
    → Invariant AllNarrow (create_checked parse_uuid req) ⊎ IsUnnamed (some req)
unfolding create_checked
create_checked-AllNarrow parse_uuid req =
    elim (Bool-cases (is_empty (trim_space req.cve_id) && is_empty (trim_space req.pkg_name))) [
      | inl spaces ↦ elim (Bool-cases (is_empty req.cve_id && is_empty req.pkg_name)) [
        | inl blank ↦ inl (rw blank (Triple-if (is_empty req.reason) Invariant-pure Invariant-pure))
        | inr filled ↦ inr (filled, spaces)
      ]
      | inr named ↦ inl (
          Triple-if (is_empty req.reason) Invariant-pure (
            Triple-if (is_empty req.cve_id && is_empty req.pkg_name) Invariant-pure
              (with_image-AllNarrow req named parse_uuid req.image_id)))
    ]

create-AllNarrow :
    (parse_uuid : Text → Option ℕ) (req : Option CreateSuppressionReq)
    → Invariant AllNarrow (create_suppression parse_uuid req) ⊎ IsUnnamed req
unfolding create_suppression
create-AllNarrow parse_uuid none = inl Invariant-pure
create-AllNarrow parse_uuid (some req) = create_checked-AllNarrow parse_uuid req

found-AllNarrow : (o : Option SuppressionRow) → Invariant AllNarrow (or_no_rows o)
found-AllNarrow none = record { apply = λ env w h. h }
found-AllNarrow (some s) = record { apply = λ env w h. h }

update_suppression-AllNarrow :
    (id : ℕ) (reason : Text) (expires_at : Option ℕ)
    → Invariant AllNarrow (update_suppression id reason expires_at)
unfolding update_suppression
update_suppression-AllNarrow id reason expires_at =
    Triple-call (λ w h. (h, h))
      (record {
        apply = λ env w h.
            (found-AllNarrow _).apply env
              (record w { db = update_suppression_rows id reason expires_at w.db })
              (All-update_where (has_suppression_id id) (changed_suppression reason expires_at)
                (λ s n. n) w.db.suppressions h);
      })

change-AllNarrow :
    (id : Option ℕ) (req : Option UpdateSuppressionReq)
    → Invariant AllNarrow (change_suppression id req)
unfolding change_suppression
change-AllNarrow none req = Invariant-pure
change-AllNarrow (some id) none = Invariant-pure
change-AllNarrow (some id) (some req) =
    or_answer-Invariant _ (update_suppression-AllNarrow id req.reason req.expires_at)
      (λ s. Invariant-pure)

delete_suppression-AllNarrow : (id : ℕ) → Invariant AllNarrow (delete_suppression id)
unfolding delete_suppression
delete_suppression-AllNarrow id =
    Triple-call (λ w h. (h, h))
      (record {
        apply =
            λ env w h. chosen env w h (count_where (has_suppression_id id) w.db.suppressions == 0);
      })
  where
    chosen :
        (env : Env) (w : World)
        → AllNarrow w
        → (b : Bool)
        → Post
            (λ u. AllNarrow)
            AllNarrow
            (if b
              then (err no_rows, w)
              else modify_db
                  (λ db. record db {
                    suppressions = delete_where (has_suppression_id id) db.suppressions;
                  })
                  env
                  w)
    chosen env w h true = h
    chosen env w h false = All-delete_where (has_suppression_id id) w.db.suppressions h

remove-AllNarrow : (id : Option ℕ) → Invariant AllNarrow (remove_suppression id)
unfolding remove_suppression
remove-AllNarrow none = Invariant-pure
remove-AllNarrow (some id) =
    or_answer-Invariant _ (delete_suppression-AllNarrow id) (λ u. Invariant-pure)

-- Whatever fails on the way, where every suppression is of a CVE or of a package, every one is
-- after a change and a deletion, and after a creation too, but for a request that gives as names,
-- which are not both empty, no other text than spaces.
pub suppressions-AllNarrow :
    (parse_uuid : Text → Option ℕ) (req : Option CreateSuppressionReq) (id : Option ℕ)
    (change : Option UpdateSuppressionReq) (env : Env) (w : World)
    → AllNarrow w
    → (AllNarrow (create_suppression parse_uuid req env w).1 ⊎ IsUnnamed req)
      × AllNarrow (change_suppression id change env w).1
      × AllNarrow (remove_suppression id env w).1
suppressions-AllNarrow parse_uuid req id change env w h = (
  elim (create-AllNarrow parse_uuid req) [
    | inl keeps ↦ inl (Post-world AllNarrow _ (keeps.apply env w h))
    | inr unnamed ↦ inr unnamed
  ],
  Post-world AllNarrow _ ((change-AllNarrow id change).apply env w h),
  Post-world AllNarrow _ ((remove-AllNarrow id).apply env w h),
)
