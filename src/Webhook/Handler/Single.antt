-- ===== src/Webhook/Handler/Single.antt =====
-- The guard against double scans in `processAsync`, internal/webhook/handler.go.
use vullify_backend.Prelude.{
  ℕ, ◌≡◌, refl, Bool, ◌&&◌, true, false, if◌then◌else◌, Option, none, some, List, any, Option-cases,
  inl, inr,
}
use vullify_backend.Text.{Text, codes, is_empty}
use vullify_backend.World.{
  M, World, Env, Triple, Triple-bind, Triple-call, Invariant, Invariant-ignore, Invariant-pure,
  Keeps-Invariant, RegistryRow, Post-world, Keeps, Keeps-bind, Keeps-attempt, Keeps-call,
  Keeps-pure, Keeps-if, ok, err, Result, ignore,
}
use vullify_backend.Scanqueue.{enqueue}
use vullify_backend.Db.Scans.{is_busy_with}
use vullify_backend.Db.Webhooks.{
  insert_webhook_event, mark_webhook_event_processed, upsert_image, list_registries_by_type,
}
use vullify_backend.Db.Webhooks.Upsert.{upsert_image-scans}
use vullify_backend.Db.Active.{
  OneActive, OneActiveIn, Free, InDb, image_has_pending_or_running_scan-tells,
  insert_webhook_scan-OneActive, lpush-OneActive,
}
use vullify_backend.Webhook.Auth.{
  Route, dockerhub, github, gitlab, Request, Verdict, passed, refused, tried, judged, read_body,
  authenticate, docker_hub_auth, git_hub_auth, git_lab_auth, docker_hub_bearer_token,
  docker_hub_secret_of, ghcr_secret_of, git_lab_secret_of, token_equal, github_signed, header,
}
use vullify_backend.Webhook.Handler.{
  Push, enqueue_push, scan_push, process_push, process_async, handle_parsed, handle_body, handle,
  continue, routes, ok_response,
}

insert_webhook_event-OneActive :
    (s t p : Text) → Invariant (InDb OneActive) (insert_webhook_event s t p)
unfolding insert_webhook_event
insert_webhook_event-OneActive s t p = Triple-call (λ w h. (h, h)) (record { apply = λ env w h. h })

mark_webhook_event_processed-OneActive :
    (id : ℕ) → Invariant (InDb OneActive) (mark_webhook_event_processed id)
unfolding mark_webhook_event_processed
mark_webhook_event_processed-OneActive id =
    Triple-call (λ w h. (h, h)) (record { apply = λ env w h. h })

upsert_image-OneActive :
    (r : ℕ) (repo tag : Text) → Invariant (InDb OneActive) (upsert_image r repo tag)
upsert_image-OneActive r repo tag =
    Keeps-Invariant (λ w. w.db.scans) OneActiveIn (upsert_image-scans r repo tag)

enqueue_push-OneActive :
    (field : Text) (reg : RegistryRow) (p : Push) (event_id scan_id : ℕ)
    → Invariant (InDb OneActive) (enqueue_push field reg p event_id scan_id)
unfolding enqueue_push enqueue
enqueue_push-OneActive field reg p event_id scan_id = record {
  apply = λ env w h.
      (Triple-bind (lpush-OneActive _ _)
          (λ u. Invariant-ignore (mark_webhook_event_processed-OneActive event_id))).apply
        env w h;
}

scan_push-OneActive :
    (field : Text) (reg : RegistryRow) (p : Push) (event_id image_id : ℕ)
    → Triple
        (InDb (Free image_id))
        (scan_push field reg p event_id image_id)
        (λ u. InDb OneActive)
        (InDb OneActive)
unfolding scan_push
scan_push-OneActive field reg p event_id image_id =
    Triple-bind (insert_webhook_scan-OneActive image_id)
      (enqueue_push-OneActive field reg p event_id)

process_push-OneActive :
    (field : Text) (reg : RegistryRow) (p : Push)
    → Invariant (InDb OneActive) (process_push field reg p)
unfolding process_push
process_push-OneActive field reg p =
    Triple-bind (insert_webhook_event-OneActive p.source p.event_type p.body) (λ event_id.
      Triple-bind (upsert_image-OneActive reg.id p.repository p.tag) (λ image_id.
        Triple-bind (image_has_pending_or_running_scan-tells image_id)
          (answered event_id image_id)))
  where
    answered :
        (event_id image_id : ℕ) (busy : Bool)
        → Triple
            (InDb λ db. OneActive db × (any (is_busy_with image_id) db.scans ≡ busy))
            (if busy
              then ignore (mark_webhook_event_processed event_id)
              else scan_push field reg p event_id image_id)
            (λ u. InDb OneActive)
            (InDb OneActive)
    answered event_id image_id true = record {
      apply = λ env w h.
          (Invariant-ignore (mark_webhook_event_processed-OneActive event_id)).apply env w h.0;
    }
    answered event_id image_id false = scan_push-OneActive field reg p event_id image_id

handle_parsed-OneActive :
    (field : Text) (reg : RegistryRow) (o : Option Push)
    → Invariant (InDb OneActive) (handle_parsed field reg o)
unfolding handle_parsed process_async
handle_parsed-OneActive field reg none = Invariant-pure
handle_parsed-OneActive field reg (some p) =
    Triple-bind (Invariant-ignore (process_push-OneActive field reg p))
      (λ u. Invariant-pure {a = ok_response})

handle_body-OneActive :
    (field : Text) (route : Route) (req : Request) (reg : RegistryRow) (o : Option Text)
    → Invariant (InDb OneActive) (handle_body field route req reg o)
unfolding handle_body
handle_body-OneActive field route req reg none = record { apply = λ env w h. h }
handle_body-OneActive field route req reg (some body) = record {
  apply = λ env w h. (handle_parsed-OneActive field reg _).apply env w h;
}

handle-OneActive :
    (field : Text) (route : Route) (req : Request) (reg : RegistryRow)
    → Invariant (InDb OneActive) (handle field route req reg)
unfolding handle
handle-OneActive field route req reg = handle_body-OneActive field route req reg req.body

continue-OneActive :
    (field : Text) (route : Route) (req : Request) (v : Verdict)
    → Invariant (InDb OneActive) (continue field route req v)
unfolding continue
continue-OneActive field route req (passed reg) = handle-OneActive field route req reg
continue-OneActive field route req (refused x) = Invariant-pure

-- Authentication changes no table.
tried-db :
    (typ msg : Text) (secret : Env → RegistryRow → Option Text) (test : Env → Text → Bool)
    → Keeps (λ w. w.db) (tried typ msg secret test)
unfolding list_registries_by_type
tried-db typ msg secret test =
    Keeps-bind (Keeps-attempt (Keeps-call (λ w. refl) (record { apply = λ env w. refl }))) answered
  where
    answered : (r : Result (List RegistryRow)) → Keeps (λ w. w.db) (judged msg secret test r)
    answered (ok rows) = record { apply = λ env w. refl }
    answered (err e) = record { apply = λ env w. refl }

read_body-db :
    (req : Request) (k : Text → M Verdict)
    → ((b : Text) → Keeps (λ w. w.db) (k b))
    → Keeps (λ w. w.db) (read_body req k)
read_body-db req k h = elim (Option-cases req.body) [
  | inl e ↦ rw e Keeps-pure
  | inr (b, e) ↦ rw e (h b)
]

authenticate-db : (route : Route) (req : Request) → Keeps (λ w. w.db) (authenticate route req)
unfolding authenticate docker_hub_auth git_hub_auth git_lab_auth
authenticate-db dockerhub req =
    let tok = docker_hub_bearer_token req in
    read_body-db req _ λ b. Keeps-if (is_empty tok) Keeps-pure (
      tried-db (codes "dockerhub") (codes "invalid webhook token") docker_hub_secret_of
        (λ env. token_equal tok))
authenticate-db github req = read_body-db req _ λ b.
    Keeps-if
      (is_empty (header (codes "X-Hub-Signature-256") req)
        && is_empty (header (codes "X-Hub-Signature") req))
      Keeps-pure
      (tried-db (codes "ghcr") (codes "invalid signature") ghcr_secret_of
        (λ env. github_signed env b req))
authenticate-db gitlab req =
    let tok = header (codes "X-Gitlab-Token") req in
    read_body-db req _ λ b.
      Keeps-if (is_empty tok) Keeps-pure (
        tried-db (codes "gitlab") (codes "invalid token") git_lab_secret_of
          (λ env. token_equal tok))

routes-Invariant :
    (field : Text) (route : Route) (raw : Request)
    → Invariant (InDb OneActive) (routes field route raw)
unfolding routes
routes-Invariant field route raw =
    Triple-bind (Keeps-Invariant (λ w. w.db) OneActive (authenticate-db route _))
      (continue-OneActive field route _)

-- Whatever a webhook's request is and whatever fails, where no image has two scans that are pending
-- or running, none has after the request.
pub routes-OneActive :
    (field : Text) (route : Route) (raw : Request) (env : Env) (w : World)
    → OneActive w.db
    → OneActive (routes field route raw env w).1.db
routes-OneActive field route raw env w h =
    Post-world (InDb OneActive) _ ((routes-Invariant field route raw).apply env w h)
