-- ===== src/Db/Active.antt =====
-- At most one active scan of an image: what the statements say of it.
use vullify_backend.Prelude.{
  ℕ, ◌≡◌, refl, ◌≤◌, Bool, false, List, [], ◌∷◌, ◌++◌, Option, none, some, arith, any, count_where,
  count_where-append,
}
use vullify_backend.Text.{Text}
use vullify_backend.World.{
  M, call, World, Db, ScanRow, Triple, Triple-bind, Triple-call, Invariant, ScanJob, ScanTrigger,
  schedule, webhook,
}
use vullify_backend.Scanqueue.{lpush}
use vullify_backend.Db.Scans.{
  is_busy_with, image_has_pending_or_running_scan, insert_scheduled_scan, insert_webhook_scan,
  insert_scan,
}
use vullify_backend.Db.Images.{get_image_by_id, get_registry_by_id, or_no_rows}

-- No image has two scans that are pending or running.
abbrev pub OneActiveIn : List ScanRow → Type 0
OneActiveIn scans = (image_id : ℕ) → count_where (is_busy_with image_id) scans ≤ 1

abbrev pub OneActive : Db → Type 0
OneActive db = OneActiveIn db.scans

abbrev pub Free : ℕ → Db → Type 0
Free image_id db = OneActive db × (any (is_busy_with image_id) db.scans ≡ false)

abbrev pub InDb : (Db → Type 0) → World → Type 0
InDb F w = F w.db

pub none_counted :
    {A : Type 0} (p : A → Bool) (xs : List A) → any p xs ≡ false → count_where p xs ≡ 0
none_counted p [] h = refl
none_counted p (x ∷ xs) h = ground (arith, none_counted p xs)

pub one_more :
    (id image_id i : ℕ) (rows : List ScanRow) (s : ScanRow)
    → s.image_id ≡ image_id
    → any (is_busy_with image_id) rows ≡ false
    → count_where (is_busy_with i) rows ≤ 1
    → count_where (is_busy_with i) (rows ++ s ∷ []) ≤ 1
one_more id image_id i rows s e idle h = ground (
  arith,
  none_counted (is_busy_with image_id) rows idle,
  count_where-append (is_busy_with i) rows (s ∷ []),
)

module _ {F G : Db → Type 0} (weaker : (db : Db) → F db → G db) where
  pub or_no_rows-reads :
      {A : Type 0} (o : Option A) → Triple (InDb F) (or_no_rows o) (λ a. InDb F) (InDb G)
  or_no_rows-reads none = record { apply = λ env w h. weaker w.db h }
  or_no_rows-reads (some a) = record { apply = λ env w h. h }

  pub call-reads :
      {A : Type 0} {m : M A}
      → Triple (InDb F) m (λ a. InDb F) (InDb G)
      → Triple (InDb F) (call m) (λ a. InDb F) (InDb G)
  call-reads = Triple-call (λ w h. (h, weaker w.db h))

  pub get_registry_by_id-reads :
      (id : ℕ) → Triple (InDb F) (get_registry_by_id id) (λ a. InDb F) (InDb G)
  unfolding get_registry_by_id
  get_registry_by_id-reads id =
      Triple-bind (call-reads (record { apply = λ env w h. h })) or_no_rows-reads

  pub get_image_by_id-reads : (id : ℕ) → Triple (InDb F) (get_image_by_id id) (λ a. InDb F) (InDb G)
  unfolding get_image_by_id
  get_image_by_id-reads id = Triple-bind (call-reads (record { apply = λ env w h. h })) (λ found.
      Triple-bind (or_no_rows-reads found) (λ row.
        Triple-bind (call-reads (record { apply = λ env w h. h }))
          (λ latest. record { apply = λ env w h. h })))

pub image_has_pending_or_running_scan-tells :
    (image_id : ℕ)
    → Triple
        (InDb OneActive)
        (image_has_pending_or_running_scan image_id)
        (λ busy. InDb λ db. OneActive db × (any (is_busy_with image_id) db.scans ≡ busy))
        (InDb OneActive)
unfolding image_has_pending_or_running_scan
image_has_pending_or_running_scan-tells image_id =
    Triple-call (λ w h. (h, h)) (record { apply = λ env w h. (h, refl) })

insert_scan-OneActive :
    (trigger : ScanTrigger) (image_id : ℕ)
    → Triple
        (InDb (Free image_id))
        (insert_scan trigger image_id)
        (λ a. InDb OneActive)
        (InDb OneActive)
unfolding insert_scan
insert_scan-OneActive trigger image_id =
    Triple-call (λ w h. (h, h.0))
      (record {
        apply = λ env w h i. one_more w.db.next_id image_id i w.db.scans _ refl h.1 (h.0 i);
      })

pub insert_scheduled_scan-OneActive :
    (image_id : ℕ)
    → Triple
        (InDb (Free image_id))
        (insert_scheduled_scan image_id)
        (λ a. InDb OneActive)
        (InDb OneActive)
unfolding insert_scheduled_scan
insert_scheduled_scan-OneActive image_id = insert_scan-OneActive schedule image_id

pub insert_webhook_scan-OneActive :
    (image_id : ℕ)
    → Triple
        (InDb (Free image_id))
        (insert_webhook_scan image_id)
        (λ a. InDb OneActive)
        (InDb OneActive)
unfolding insert_webhook_scan
insert_webhook_scan-OneActive image_id = insert_scan-OneActive webhook image_id

pub lpush-OneActive : (key : Text) (job : ScanJob) → Invariant (InDb OneActive) (lpush key job)
unfolding lpush
lpush-OneActive key job = Triple-call (λ w h. (h, h)) (record { apply = λ env w h. h })
