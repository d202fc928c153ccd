-- ===== src/Db/Webhooks/Upsert.antt =====
-- `UpsertImage` of internal/db/registries_store.go: one live row for each image of a registry.
use vullify_backend.Prelude.{
  ℕ, suc, ◌≡◌, refl, sym, subst, ◌∙◌, ◌≤◌, true, Option, none, some, List, [], ◌∷◌, ◌++◌, ◌==◌,
  arith, find_row, count_where, length, count_where-append, count_where-find_row,
  count_where-update_blind, find_row-snoc, find_row-update_blind, length-update_where, ==_refl,
  Bool-cases, Option-cases, inl, inr,
}
use vullify_backend.Text.{Text}
use vullify_backend.Text.Laws.{text_eq_sound, text_eq_refl}
use vullify_backend.World.{
  World, Env, ImageRow, ok, call-ok, Keeps, Keeps-bind, Keeps-then, Keeps-call, Keeps-pure, Triple,
  Triple-bind, Triple-call, Invariant, Invariant-pure, tick, now, Post-world,
}
use vullify_backend.Db.Webhooks.{
  upsert_image, upsert_found, touch_image, insert_image, is_image, new_image, seen_at,
}

-- The scans are left alone.
upsert_found-scans :
    (r : ℕ) (repo tag : Text) (o : Option ImageRow)
    → Keeps (λ w. w.db.scans) (upsert_found r repo tag o)
unfolding upsert_found touch_image insert_image
upsert_found-scans r repo tag (some i) =
    Keeps-then (Keeps-call (λ w. refl) (record { apply = λ env w. refl })) Keeps-pure
upsert_found-scans r repo tag none = Keeps-call (λ w. refl) (record { apply = λ env w. refl })

pub upsert_image-scans :
    (r : ℕ) (repo tag : Text) → Keeps (λ w. w.db.scans) (upsert_image r repo tag)
unfolding upsert_image
upsert_image-scans r repo tag =
    Keeps-bind (Keeps-call (λ w. refl) (record { apply = λ env w. refl }))
      (upsert_found-scans r repo tag)

-- So is the queue.
upsert_found-queue :
    (r : ℕ) (repo tag : Text) (o : Option ImageRow)
    → Keeps (λ w. w.redis) (upsert_found r repo tag o)
unfolding upsert_found touch_image insert_image
upsert_found-queue r repo tag (some i) =
    Keeps-then (Keeps-call (λ w. refl) (record { apply = λ env w. refl })) Keeps-pure
upsert_found-queue r repo tag none = Keeps-call (λ w. refl) (record { apply = λ env w. refl })

pub upsert_image-queue : (r : ℕ) (repo tag : Text) → Keeps (λ w. w.redis) (upsert_image r repo tag)
unfolding upsert_image
upsert_image-queue r repo tag =
    Keeps-bind (Keeps-call (λ w. refl) (record { apply = λ env w. refl }))
      (upsert_found-queue r repo tag)

-- No registry has two live images of the same repository and tag.
abbrev pub UniqueImages : List ImageRow → Type 0
UniqueImages images = (r : ℕ) (repo tag : Text) → count_where (is_image r repo tag) images ≤ 1

new_image-key :
    (r r' id t : ℕ) (repo tag repo' tag' : Text)
    → is_image r' repo' tag' (new_image id t r repo tag) ≡ true
    → (r ≡ r') × (repo ≡ repo') × (tag ≡ tag')
new_image-key r r' id t repo tag repo' tag' h =
    (ground arith, text_eq_sound repo repo' (ground arith), text_eq_sound tag tag' (ground arith))

insert-Unique :
    (r id t : ℕ) (repo tag : Text) (images : List ImageRow)
    → UniqueImages images
    → find_row (is_image r repo tag) images ≡ none
    → UniqueImages (images ++ new_image id t r repo tag ∷ [])
insert-Unique r id t repo tag images u free r' repo' tag' =
    elim (Bool-cases (is_image r' repo' tag' (new_image id t r repo tag))) [
      | inl same ↦
          let (er, ep, et) = new_image-key r r' id t repo tag repo' tag' same in
          let none_of : count_where (is_image r' repo' tag') images ≡ 0 =
            count_where-find_row _ images (
              subst (λ x. find_row (is_image x repo' tag') images ≡ none) er
                (subst (λ x. find_row (is_image r x tag') images ≡ none) ep
                  (subst (λ x. find_row (is_image r repo x) images ≡ none) et free))) in
          rw (count_where-append (is_image r' repo' tag') images _, none_of, same) (omega arith)
      | inr other ↦
          rw (count_where-append (is_image r' repo' tag') images _, other)
            (omega (arith, u r' repo' tag'))
    ]

abbrev InImages : (List ImageRow → Type 0) → World → Type 0
InImages P w = P w.db.images

found-Unique :
    (r : ℕ) (repo tag : Text) (o : Option ImageRow)
    → Triple
        (InImages λ l. UniqueImages l × (find_row (is_image r repo tag) l ≡ o))
        (upsert_found r repo tag o)
        (λ id. InImages UniqueImages)
        (InImages UniqueImages)
unfolding upsert_found touch_image insert_image
found-Unique r repo tag none =
    Triple-call (λ w h. (h, h.0))
      (record { apply = λ env w h. insert-Unique r _ _ repo tag w.db.images h.0 h.1 })
found-Unique r repo tag (some i) =
    Triple-bind
      (Triple-call (λ w h. (h, h.0))
        (record {
          apply = λ env w h r' repo' tag'.
              rw
                (count_where-update_blind (is_image r' repo' tag') (λ x. x.id == i.id)
                  (seen_at (now env w)) (λ x. refl) w.db.images)
                (h.0 r' repo' tag');
        }))
      (λ u. Invariant-pure)

upsert-Unique :
    (r : ℕ) (repo tag : Text) → Invariant (InImages UniqueImages) (upsert_image r repo tag)
unfolding upsert_image
upsert-Unique r repo tag =
    Triple-bind (Triple-call (λ w h. (h, h)) (record { apply = λ env w h. (h, refl) }))
      (found-Unique r repo tag)

-- Whatever fails, UpsertImage keeps it so that no registry has two live images of one repository
-- and tag.
pub upsert_image-UniqueImages :
    (r : ℕ) (repo tag : Text) (env : Env) (w : World)
    → UniqueImages w.db.images
    → UniqueImages (upsert_image r repo tag env w).1.db.images
upsert_image-UniqueImages r repo tag env w h =
    Post-world (InImages UniqueImages) _ ((upsert-Unique r repo tag).apply env w h)

new_image-IsImage :
    (r : ℕ) (repo tag : Text) (id t : ℕ) → is_image r repo tag (new_image id t r repo tag) ≡ true
new_image-IsImage r repo tag id t = rw (==_refl r, text_eq_refl repo, text_eq_refl tag) refl

-- The image that a call of UpsertImage leaves: where there was one, with a new instant.
abbrev pub upserted : ℕ → Text → Text → ℕ → ℕ → Option ImageRow → ImageRow
upserted r repo tag id t none = new_image id t r repo tag
upserted r repo tag id t (some i) = seen_at t i

module _ (r : ℕ) (repo tag : Text) (env : Env) (healthy : (t : ℕ) → env.fault t ≡ none) where
  -- It gives the id of the live image, which is there afterwards.
  pub upsert_image-finds :
      (w : World)
      → let after = upsert_image r repo tag env w in
        let image =
          upserted r repo tag w.db.next_id
            (now env (tick (tick w)))
            (find_row (is_image r repo tag) w.db.images) in
        (after.0 ≡ ok image.id) × (find_row (is_image r repo tag) after.1.db.images ≡ some image)
  unfolding upsert_image upsert_found touch_image insert_image
  upsert_image-finds w = elim (Option-cases (find_row (is_image r repo tag) w.db.images)) [
    | inl e ↦
        rw (call-ok _ env w (healthy w.ticks), e)
          (rw (healthy (suc w.ticks)) (
            refl,
            find_row-snoc (is_image r repo tag) _ w.db.images e
                (new_image-IsImage r repo tag w.db.next_id (now env (tick (tick w)))),
          ))
    | inr (i, e) ↦
        rw (call-ok _ env w (healthy w.ticks), e)
          (rw (healthy (suc w.ticks)) (
            refl,
            find_row-update_blind (is_image r repo tag) (λ x. x.id == i.id)
                (seen_at (now env (tick (tick w)))) i w.db.images (λ x. refl) (==_refl i.id) e,
          ))
  ]

  known-again :
      (w : World) (i : ImageRow)
      → find_row (is_image r repo tag) w.db.images ≡ some i
      → ((upsert_image r repo tag env w).0 ≡ ok i.id)
        × (length (upsert_image r repo tag env w).1.db.images ≡ length w.db.images)
  unfolding upsert_image upsert_found touch_image
  known-again w i e =
      rw (call-ok _ env w (healthy w.ticks), e)
        (rw (healthy (suc w.ticks)) (
          refl,
          length-update_where (λ x. x.id == i.id) (seen_at (now env (tick (tick w)))) w.db.images,
        ))

-- Where no call fails, a second push of an image gives the id of the first one and adds no row.
pub upsert_image-again :
    (r : ℕ) (repo tag : Text) (env : Env) (w : World)
    → ((t : ℕ) → env.fault t ≡ none)
    → let first = upsert_image r repo tag env w in
      let second = upsert_image r repo tag env first.1 in
      (second.0 ≡ first.0) × (length second.1.db.images ≡ length first.1.db.images)
upsert_image-again r repo tag env w healthy =
    let (given, there) = upsert_image-finds r repo tag env healthy w in
    let (again, same) = known-again r repo tag env healthy _ _ there in (again ∙ sym given, same)
