-- ===== src/Webhook/Handler/Enqueues.antt =====
-- What `processAsync` of internal/webhook/handler.go does where nothing fails.
use mathlib.Core.List.{append-nil}
use vullify_backend.Prelude.{
  ℕ, suc, ◌≡◌, refl, sym, ap, subst, Bool, true, false, not, if◌then◌else◌, List, [], ◌∷◌, ◌++◌,
  none, any, find_row, update_where, ◌==◌, Bool-cases, inl, inr, arith,
}
use vullify_backend.Text.{Text, is_empty}
use vullify_backend.World.{
  World, Env, M, Result, ok, err, after, RegistryRow, ScanJob, call-ok, tick, now, webhook, ScanRow,
  ImageRow, ◌>>=◌, ignore,
}
use vullify_backend.Scanqueue.{
  enqueue, lpush, build_image_pull_ref, credentials_from_registry_json, default_key,
}
use vullify_backend.Db.Scans.{
  is_busy_with, image_has_pending_or_running_scan, insert_webhook_scan, new_scan, insert_scan,
}
use vullify_backend.Db.Webhooks.{
  insert_webhook_event, mark_webhook_event_processed, mark_processed, new_event, upsert_image,
  is_image,
}
use vullify_backend.Db.Webhooks.Upsert.{
  upsert_image-scans, upsert_image-queue, upsert_image-finds, upserted,
}
use vullify_backend.Webhook.Handler.{
  Push, webhook_queue_key, enqueue_push, scan_push, process_push, process_async,
}

key-named : (field : Text) (env : Env) → is_empty (webhook_queue_key field env) ≡ false
key-named field env = first (is_empty field) (is_empty env.scan_queue_key_env) refl refl
  where
    first :
        (a b : Bool)
        → is_empty field ≡ a
        → is_empty env.scan_queue_key_env ≡ b
        → is_empty (if not a then field else if not b then env.scan_queue_key_env else default_key)
          ≡ false
    first false b ea eb = ea
    first true false ea eb = eb
    first true true ea eb = refl

-- The job of a pushed image.
abbrev pub pushed_job : Env → ℕ → RegistryRow → Push → ScanJob
pushed_job env id reg p = record {
  scan_id = id;
  image_ref = build_image_pull_ref env reg.url p.repository p.tag;
  reg_creds = credentials_from_registry_json env reg.type reg.credentials;
}

-- The world after the event is stored.
abbrev stored : Push → World → World
stored p w = record w {
  db = record (w.db) {
    webhook_events =
        w.db.webhook_events ++ new_event w.db.next_id p.source p.event_type p.body ∷ [];
    next_id = suc w.db.next_id;
  };
  ticks = suc w.ticks;
}

-- The world after the scan of an idle image is enqueued.
abbrev scanned : Text → RegistryRow → Push → ℕ → ℕ → Env → World → World
scanned field reg p event_id image_id env w = record w {
  db = record (w.db) {
    scans = w.db.scans ++ new_scan w.db.next_id image_id webhook ∷ [];
    webhook_events = update_where (λ e. e.id == event_id) mark_processed w.db.webhook_events;
    next_id = suc w.db.next_id;
  };
  redis = record (w.redis) {
    queue = (webhook_queue_key field env, pushed_job env w.db.next_id reg p) ∷ w.redis.queue;
  };
  ticks = suc (suc (suc w.ticks));
}

-- What a push adds to the scans and to the queue: for an idle image one pending scan, and its job
-- as the newest entry of the list.
abbrev pub Adds :
    Text → RegistryRow → Push → Env → ℕ → List ScanRow → List (Text × ScanJob) → World → Type 0
Adds field reg p env image_id scans queue after =
    let busy = any (is_busy_with image_id) scans in
    (id : ℕ) × (after.db.scans ≡ scans ++ (if busy then [] else new_scan id image_id webhook ∷ []))
    × (after.redis.queue
        ≡ (if busy then [] else (webhook_queue_key field env, pushed_job env id reg p) ∷ [])
          ++ queue)

module _ (field : Text) (reg : RegistryRow) (p : Push) (env : Env)
    (healthy : (t : ℕ) → env.fault t ≡ none) where
  scan_push-ok :
      (event_id image_id : ℕ) (w : World)
      → scan_push field reg p event_id image_id env w
        ≡ (ok tt, scanned field reg p event_id image_id env w)
  unfolding scan_push enqueue_push insert_webhook_scan insert_scan enqueue lpush
      mark_webhook_event_processed
  scan_push-ok event_id image_id w =
      rw (call-ok _ env w (healthy w.ticks), key-named field env)
        (rw (healthy (suc w.ticks)) (rw (healthy (suc (suc w.ticks))) refl))

  guarded-Adds :
      (event_id image_id : ℕ) (w : World)
      → Adds field reg p env image_id w.db.scans w.redis.queue
          ((image_has_pending_or_running_scan image_id >>= λ busy.
              if busy
              then ignore (mark_webhook_event_processed event_id)
              else scan_push field reg p event_id image_id)
            env w).1
  unfolding image_has_pending_or_running_scan mark_webhook_event_processed
  guarded-Adds event_id image_id w = elim (Bool-cases (any (is_busy_with image_id) w.db.scans)) [
    | inl busy ↦
        rw (call-ok _ env w (healthy w.ticks), busy)
          (rw (healthy (suc w.ticks)) (0, sym (append-nil _), refl))
    | inr idle ↦
        rw (call-ok _ env w (healthy w.ticks), idle)
          (rw (scan_push-ok event_id image_id (tick w)) (w.db.next_id, refl, refl))
  ]

  -- The rest of the push, after the image is there.
  abbrev rest : ℕ → ℕ → M (Unit {0})
  rest event_id image_id = image_has_pending_or_running_scan image_id >>= λ busy.
      if busy
      then ignore (mark_webhook_event_processed event_id)
      else scan_push field reg p event_id image_id

  rest-Adds :
      (event_id id : ℕ) (x : Result ℕ × World) (scans : List ScanRow)
      (queue : List (Text × ScanJob))
      → x.0 ≡ ok id
      → x.1.db.scans ≡ scans
      → x.1.redis.queue ≡ queue
      → Adds field reg p env id scans queue (after (rest event_id) env x).1
  rest-Adds event_id id (err e, w) scans queue given es eq = absurd (ground arith)
  rest-Adds event_id id (ok a, w) scans queue given es eq =
      let same : a ≡ id = ground arith in
      subst (λ i. Adds field reg p env i scans queue (rest event_id a env w).1) same
        (subst (λ l. Adds field reg p env a l queue (rest event_id a env w).1) es
          (subst (λ q. Adds field reg p env a w.db.scans q (rest event_id a env w).1) eq
            (guarded-Adds event_id a w)))

-- The image that a push names, after the event is stored.
abbrev pub pushed_image : RegistryRow → Push → Env → World → ImageRow
pushed_image reg p env w =
    upserted reg.id p.repository p.tag (suc w.db.next_id) (now env (tick (tick (tick w))))
      (find_row (is_image reg.id p.repository p.tag) w.db.images)

-- Where no call fails, a push adds one pending scan of its image to the table and the job of that
-- scan, with the reference and the credentials of the registry, to the queue, unless the image has
-- an active scan: then it changes neither. The image is the live row of that repository and tag in
-- the registry, or a new one.
pub process_async-Adds :
    (field : Text) (reg : RegistryRow) (p : Push) (env : Env) (w : World)
    → ((t : ℕ) → env.fault t ≡ none)
    → Adds field reg p env
        (pushed_image reg p env w).id
        w.db.scans
        w.redis.queue
        (process_async field reg p env w).1
unfolding process_async process_push insert_webhook_event
process_async-Adds field reg p env w healthy = rw (call-ok _ env w (healthy w.ticks)) (
    rest-Adds field reg p env healthy w.db.next_id _
      (upsert_image reg.id p.repository p.tag env (stored p w)) _ _
      (upsert_image-finds reg.id p.repository p.tag env healthy (stored p w)).0
      ((upsert_image-scans reg.id p.repository p.tag).apply env (stored p w))
      (ap (λ r. r.queue) ((upsert_image-queue reg.id p.repository p.tag).apply env (stored p w))))
