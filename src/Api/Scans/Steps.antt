-- ===== src/Api/Scans/Steps.antt =====
-- What the calls of the handlers in internal/api/handlers_scans.go do to the scans and the queue.
use vullify_backend.Prelude.{
  ℕ, ◌≡◌, refl, ap, Bool, true, false, Option, none, some, List, [], ◌∷◌, ◌++◌, find_row, arith,
}
use vullify_backend.Text.{Text, is_empty}
use vullify_backend.World.{
  M, Env, World, Db, ScanRow, ScanJob, RegistryCredentials, manual, Keeps, Keeps-Invariant, Triple,
  Triple-bind, Triple-if, Triple-call,
}
use vullify_backend.Scanqueue.{enqueue, lpush}
use vullify_backend.Db.Scans.{has_id, insert_manual_scan, insert_scan, new_scan}
use vullify_backend.Db.Images.{or_no_rows, joined, live_image}
use vullify_backend.Db.Details.{
  ScanDetail, get_scan_detail, detail_of_scan, detail_of_image, has_counts,
}
use vullify_backend.Api.Reply.Gives.{Gives, from_triple}
use vullify_backend.Api.Scans.{queue_key}

-- The tables of scans and the queue.
abbrev pub state : World → List ScanRow × List (Text × ScanJob)
state w = (w.db.scans, w.redis.queue)

find_row_sound :
    {A : Type 0} (p : A → Bool) (xs : List A) (a : A) → find_row p xs ≡ some a → p a ≡ true
find_row_sound p [] a h = absurd (ground arith)
find_row_sound p (x ∷ xs) a h = ground (arith, find_row_sound p xs a)

-- A detail that is there shows the scan `id`.
abbrev Shows : ℕ → Option ScanDetail → Type 0
Shows id none = Unit
Shows id (some d) = d.scan.id ≡ id

detail_of_scan-Shows :
    (id : ℕ) (db : Db) (o : Option ScanRow)
    → ((s : ScanRow) → o ≡ some s → s.id ≡ id)
    → Shows id (detail_of_scan db o)
detail_of_scan-Shows id db none h = tt
detail_of_scan-Shows id db (some s) h = shown (joined db (live_image s.image_id db))
  where
    shown : (row : Option (_ × Text)) → Shows id (detail_of_image s row)
    shown none = tt
    shown (some row) = h s refl

-- The tables of scans and the queue are these.
abbrev pub At : List ScanRow → List (Text × ScanJob) → World → Type 0
At scans queue w = (w.db.scans ≡ scans) × (w.redis.queue ≡ queue)

module _ (env : Env) (scans : List ScanRow) (queue : List (Text × ScanJob)) where
  pub reads-Gives :
      {A : Type 0} {m : M A}
      → Keeps state m
      → Gives env (At scans queue) m (λ a. At scans queue) (At scans queue)
  reads-Gives h = from_triple (Keeps-Invariant state (λ x. (x.0 ≡ scans) × (x.1 ≡ queue)) h)

  pub get_scan_detail-Gives :
      (id : ℕ)
      → Gives env
          (At scans queue)
          (get_scan_detail id)
          (λ d w. At scans queue w × (d.scan.id ≡ id))
          (At scans queue)
  unfolding get_scan_detail
  get_scan_detail-Gives id = from_triple (
      Triple-bind {Q = λ o w. At scans queue w × Shows id o}
        (Triple-call (λ w p. (p, p))
          (record {
            apply = λ e w p. (
              p,
              detail_of_scan-Shows id w.db _ (λ s h.
                  let same : has_id id s ≡ true = find_row_sound (has_id id) w.db.scans s h in
                  ground arith),
            );
          }))
        (λ found.
          Triple-bind {Q = λ d w. At scans queue w × (d.scan.id ≡ id)} (present_or_none found) (λ d.
            Triple-if (has_counts d.severity_count) (record { apply = λ e w p. p })
              (Triple-call (λ w p. (p, p.0)) (record { apply = λ e w p. p })))))
    where
      present_or_none :
          (o : Option ScanDetail)
          → Triple
              (λ w. At scans queue w × Shows id o)
              (or_no_rows o)
              (λ d w. At scans queue w × (d.scan.id ≡ id))
              (At scans queue)
      present_or_none none = record { apply = λ e w p. p.0 }
      present_or_none (some d) = record { apply = λ e w p. p }

  pub insert_manual_scan-Gives :
      (image_id : ℕ)
      → Gives env
          (At scans queue)
          (insert_manual_scan image_id)
          (λ id. At (scans ++ new_scan id image_id manual ∷ []) queue)
          (At scans queue)
  unfolding insert_manual_scan insert_scan
  insert_manual_scan-Gives image_id = from_triple (
      Triple-call (λ w p. (p, p))
        (record {
          apply = λ e w p. (ap (λ x. x ++ new_scan w.db.next_id image_id manual ∷ []) p.0, p.1);
        }))

  pub enqueue-Gives :
      (key : Text) (id : ℕ) (ref : Text) (creds : Option RegistryCredentials)
      → is_empty key ≡ false
      → Gives env
          (At scans queue)
          (enqueue key id ref creds)
          (λ u.
            At scans ((key, record { scan_id = id; image_ref = ref; reg_creds = creds }) ∷ queue))
          (At scans queue)
  unfolding enqueue lpush
  enqueue-Gives key id ref creds named = rw named (
      from_triple (
        Triple-call (λ w p. (p, p))
          (record {
            apply = λ e w p. (
              p.0,
              ap (λ x. (key, record { scan_id = id; image_ref = ref; reg_creds = creds }) ∷ x) p.1,
            );
          })))

pub queue_key-named : (field : Text) (env : Env) → is_empty (queue_key field env) ≡ false
queue_key-named field env = ground arith
