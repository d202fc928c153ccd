-- ===== src/Api/Registries/Tags.antt =====
-- The page of tags that `listTags` of internal/api/server.go answers.
use vullify_backend.Prelude.{
  ℕ, zero, suc, sym, ◌≡◌, refl, ◌+◌, ◌-◌, ◌≤◌, ◌<◌, List, [], ◌∷◌, take, drop, length, arith, ap,
  ◌∙◌, subst, ◌*◌, ◌%◌, ltb, if◌then◌else◌, length-drop, take_long, Bool-cases, inl, inr, ◌⊎◌, leb,
  true, false,
}
use vullify_backend.Text.{Text}
use vullify_backend.World.{Env, World, ok, err, Result}
use vullify_backend.Db.Paging.{two_63}
use vullify_backend.Api.{Pagination, parse_pagination, two_64}
use vullify_backend.Api.Pages.{Meta, meta_of}
use vullify_backend.Api.Reply.{Reply, envelope}
use vullify_backend.Api.Registries.{tags_page, out_of_range}
use vullify_backend.Api.Bounds.{parse_pagination-bounds}

take_short :
    {A : Type 0} (n m : ℕ) (xs : List A) → length xs ≤ n → length xs ≤ m → take n xs ≡ take m xs
take_short n m xs hn hm = take_long n xs hn ∙ sym (take_long m xs hm)

drop_all : {A : Type 0} (n : ℕ) (xs : List A) → length xs ≤ n → drop n xs ≡ []
drop_all zero [] h = refl
drop_all zero (x ∷ xs) h = absurd (omega arith)
drop_all (suc n) [] h = refl
drop_all (suc n) (x ∷ xs) h = drop_all n xs (omega arith)

take-nil : {A : Type 0} (n : ℕ) → take {A = A} n [] ≡ []
take-nil zero = refl
take-nil (suc n) = refl

page-slice :
    (o k : ℕ) (tags : List Text)
    → o < length tags
    → take ((if ltb (length tags) (o + k) then length tags else o + k) - o) (drop o tags)
      ≡ take k (drop o tags)
page-slice o k tags h = elim (Bool-cases (ltb (length tags) (o + k))) [
  | inl long ↦
      let rest : length (drop o tags) ≡ length tags - o = length-drop o tags in
      rw long (
        take_short (length tags - o) k (drop o tags) (omega (arith, rest))
          (let le : length tags ≤ o + k = ground arith in omega (arith, rest, le)))
  | inr short ↦ rw short (let e : o + k - o ≡ k = omega arith in ap (λ n. take n (drop o tags)) e)
]

-- The answer with the page of the tags from an offset on.
abbrev pub page_from :
    ℕ → Pagination → List Text → World → Result (Reply (List Text × Meta)) × World
page_from first p tags w =
    (ok (envelope 200 (take p.per_page (drop first tags), meta_of p tags)), w)

tags_page-offset :
    (p : Pagination) (tags : List Text) (env : Env) (w : World)
    → p.per_page ≤ 100
    → length tags + 100 < two_63
    → p.offset < two_63
    → tags_page p tags env w ≡ page_from p.offset p tags w
unfolding tags_page
tags_page-offset p tags env w small room fits = elim (Bool-cases (leb (length tags) p.offset)) [
  | inl past ↦
      let positive : leb two_63 p.offset ≡ false = ground arith in
      let none_left : take p.per_page (drop p.offset tags) ≡ [] =
        ap (take p.per_page) (drop_all p.offset tags (ground arith)) ∙ take-nil p.per_page in
      rw (positive, past, none_left) refl
  | inr within ↦
      let positive : leb two_63 p.offset ≡ false = ground arith in
      let before : p.offset < length tags = ground arith in
      let exact : (p.offset + p.per_page) % two_64 ≡ p.offset + p.per_page =
        omega (arith, before, small, room) in
      let end_positive : leb two_63 (p.offset + p.per_page) ≡ false = ground arith in
      let ordered : ltb
            (if ltb (length tags) (p.offset + p.per_page)
              then length tags
              else p.offset + p.per_page)
            p.offset
          ≡ false =
        ground arith in
      let stop_positive : leb two_63 (
            if ltb (length tags) (p.offset + p.per_page)
            then length tags
            else p.offset + p.per_page)
          ≡ false =
        ground arith in
      rw
        (
          positive,
          within,
          exact,
          end_positive,
          stop_positive,
          ordered,
          page-slice p.offset p.per_page tags before,
        )
        refl
]

tags_page-negative :
    (p : Pagination) (tags : List Text) (env : Env) (w : World)
    → leb two_63 p.offset ≡ true
    → tags_page p tags env w ≡ (err out_of_range, w)
unfolding tags_page
tags_page-negative p tags env w negative = rw negative refl

parse_pagination-offset :
    (page_value per_page_value : Text)
    → let p = parse_pagination page_value per_page_value in
      p.offset ≡ ((p.page - 1) * p.per_page) % two_64
unfolding parse_pagination
parse_pagination-offset page_value per_page_value = refl

mod_below : (n : ℕ) → n < two_63 → n % two_64 ≡ n
mod_below n h = omega (arith, h)

-- The place of the page's first tag is (page - 1) * per_page of the query. Where it is below 2^63,
-- the answer is the page of the tags from there on, with the number of all tags. Where it is not,
-- the place wraps around: either the wrapped int is not negative, and the answer is the page from
-- that wrong place on, or it is negative, and the handler panics. The tags and a page fit an int,
-- and the world is left as it was.
pub tags_page-page :
    (page_value per_page_value : Text) (tags : List Text) (env : Env) (w : World)
    → length tags + 100 < two_63
    → let p = parse_pagination page_value per_page_value in
      let first = (p.page - 1) * p.per_page in
      let answer = tags_page p tags env w in
      (first < two_63) × (answer ≡ page_from first p tags w)
      ⊎ (two_63 ≤ first)
        × ((first % two_64 < two_63) × (answer ≡ page_from (first % two_64) p tags w)
            ⊎ (two_63 ≤ first % two_64) × (answer ≡ (err out_of_range, w)))
tags_page-page page_value per_page_value tags env w room =
    let p = parse_pagination page_value per_page_value in
    let first = (p.page - 1) * p.per_page in
    let bounds = parse_pagination-bounds page_value per_page_value in
    let wrapped : p.offset ≡ first % two_64 = parse_pagination-offset page_value per_page_value in
    elim (Bool-cases (leb two_63 first)) [
      | inl over ↦ elim (Bool-cases (leb two_63 (first % two_64))) [
        | inl negative ↦ inr (
          ground arith,
          inr (
            ground arith,
            tags_page-negative p tags env w
                (subst (λ o. leb two_63 o ≡ true) (sym wrapped) negative),
          ),
        )
        | inr positive ↦
            let fits : first % two_64 < two_63 = ground arith in
            inr (
              ground arith,
              inl (
                fits,
                subst (λ o. tags_page p tags env w ≡ page_from o p tags w) wrapped
                    (tags_page-offset p tags env w bounds.3 room
                      (subst (λ o. o < two_63) (sym wrapped) fits)),
              ),
            )
      ]
      | inr fits ↦
          let below : first < two_63 = ground arith in
          let exact : p.offset ≡ first = wrapped ∙ mod_below first below in
          inl (
            below,
            subst (λ o. tags_page p tags env w ≡ page_from o p tags w) exact
                (tags_page-offset p tags env w bounds.3 room
                  (subst (λ o. o < two_63) (sym exact) below)),
          )
    ]
