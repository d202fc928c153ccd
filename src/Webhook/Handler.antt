-- ===== src/Webhook/Handler.antt =====
-- The handlers and what runs after their answer: internal/webhook/handler.go and routes.go. The
-- goroutine of `processAsync` is run after the answer, under a context of its own.
pub mod Single
pub mod Enqueues
use vullify_backend.Prelude.{
  ℕ, ◌*◌, Bool, true, false, not, Option, none, some, List, [], ◌∷◌, if◌then◌else◌,
}
use vullify_backend.Text.{Text, codes, is_empty}
use vullify_backend.Json.{Members, lookup, top_members, as_text}
use vullify_backend.World.{
  M, Env, ok, pure, ◌>>=◌, ◌>>◌, attempt, ignore, on_result, World, RegistryRow,
}
use vullify_backend.Scanqueue.{
  enqueue, build_image_pull_ref, credentials_from_registry_json, default_key,
}
use vullify_backend.Db.Scans.{image_has_pending_or_running_scan, insert_webhook_scan}
use vullify_backend.Db.Webhooks.{insert_webhook_event, mark_webhook_event_processed, upsert_image}
use vullify_backend.Webhook.Auth.{
  Request, Response, respond, header, Route, dockerhub, github, gitlab, Verdict, passed, refused,
  authenticate, max_body_bytes,
}
use vullify_backend.Webhook.Parse.{Pushed, parse_body}

-- `queueKey`, for the field `QueueKey` of a handler.
abbrev pub webhook_queue_key : Text → Env → Text
webhook_queue_key field env =
    if not (is_empty field)
    then field
    else if not (is_empty env.scan_queue_key_env)
    then env.scan_queue_key_env
    else default_key

-- The push that a goroutine works on.
pub record Push : Type 0 where
  pub source : Text
  pub event_type : Text
  pub body : Text
  pub repository : Text
  pub tag : Text

-- The calls of `processAsync` after the test for an active scan.
enqueue_push : Text → RegistryRow → Push → ℕ → ℕ → M (Unit {0})
enqueue_push field reg p event_id scan_id env w =
    (enqueue (webhook_queue_key field env) scan_id
          (build_image_pull_ref env reg.url p.repository p.tag)
          (credentials_from_registry_json env reg.type reg.credentials)
        >> ignore (mark_webhook_event_processed event_id))
      env w

scan_push : Text → RegistryRow → Push → ℕ → ℕ → M (Unit {0})
unfolding enqueue_push
scan_push field reg p event_id image_id = do
  scan_id ← insert_webhook_scan image_id
  enqueue_push field reg p event_id scan_id

process_push : Text → RegistryRow → Push → M (Unit {0})
unfolding scan_push
process_push field reg p = do
  event_id ← insert_webhook_event p.source p.event_type p.body
  image_id ← upsert_image reg.id p.repository p.tag
  busy ← image_has_pending_or_running_scan image_id
  if busy
      then ignore (mark_webhook_event_processed event_id)
      else scan_push field reg p event_id image_id

-- `processAsync`: an error is logged only.
unfoldable pub process_async : Text → RegistryRow → Push → M (Unit {0})
unfolding process_push
process_async field reg p = ignore (process_push field reg p)

-- `extractStringField`.
abbrev text_of : Option Text → Text
text_of none = []
text_of (some t) = t

abbrev member_of : Text → Option Members → Option Text
member_of key none = none
member_of key (some ms) = as_text (lookup key ms)

unfoldable pub extract_string_field : Env → Text → Text → Text
unfolding lookup
extract_string_field env body key = text_of (member_of key (top_members (env.decode_json body)))

or_else : Text → Text → Text
or_else a b = if is_empty a then b else a

-- The event's type, by the handler of a path.
event_type_of : Env → Route → Request → Text → Text
unfolding extract_string_field or_else
event_type_of env dockerhub req body = codes "push"
event_type_of env github req body = or_else (header (codes "X-GitHub-Event") req) (codes "package")
event_type_of env gitlab req body =
    or_else (header (codes "X-Gitlab-Event") req)
      (or_else (extract_string_field env body (codes "event_type")) (codes "unknown"))

abbrev pub source_of : Route → Text
source_of dockerhub = codes "dockerhub"
source_of github = codes "github"
source_of gitlab = codes "gitlab"

unfoldable pub push_of : Env → Route → Request → Text → Pushed → Push
unfolding event_type_of
push_of env route req body (repository, tag) = record {
  source = source_of route;
  event_type = event_type_of env route req body;
  body = body;
  repository = repository;
  tag = tag;
}

abbrev pub ok_response : Response
ok_response = respond 200 (codes "{\"ok\":true}")

-- The handlers `DockerHub`, `GitHub` and `GitLab`, for the registry that the middleware found.
handle_parsed : Text → RegistryRow → Option Push → M Response
handle_parsed field reg none = pure (respond 400 (codes "invalid payload"))
handle_parsed field reg (some p) = process_async field reg p >> pure ok_response

abbrev parsed_push : Env → Route → Request → Text → Option Pushed → Option Push
parsed_push env route req body none = none
parsed_push env route req body (some pushed) = some (push_of env route req body pushed)

handle_body : Text → Route → Request → RegistryRow → Option Text → M Response
unfolding handle_parsed parse_body
handle_body field route req reg none env w = (ok (respond 400 (codes "read body")), w)
handle_body field route req reg (some body) env w =
    handle_parsed field reg
      (parsed_push env route req body (parse_body route (env.decode_json body))) env w

unfoldable pub handle : Text → Route → Request → RegistryRow → M Response
unfolding handle_body
handle field route req reg = handle_body field route req reg req.body

continue : Text → Route → Request → Verdict → M Response
continue field route req (passed reg) = handle field route req reg
continue field route req (refused x) = pure x

-- `Routes`: a path's request with a body of 2 MiB at most, its middleware and its handler.
unfoldable pub routes : Text → Route → Request → M Response
unfolding continue authenticate
routes field route raw = do
  verdict ← authenticate route (max_body_bytes (2 * 1_048_576) raw)
  continue field route (max_body_bytes (2 * 1_048_576) raw) verdict
