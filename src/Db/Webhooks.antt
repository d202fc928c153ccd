-- ===== src/Db/Webhooks.antt =====
-- The statements of internal/db/webhook_store.go on events and registries, and `UpsertImage` of
-- internal/db/registries_store.go.
pub mod Upsert
pub mod Present
use vullify_backend.Prelude.{
  ℕ, suc, Bool, true, false, ◌&&◌, Option, none, some, List, [], ◌∷◌, ◌++◌, if◌then◌else◌, ◌==◌,
  find_row, update_where,
}
use vullify_backend.Text.{Text, text_eq}
use vullify_backend.World.{
  M, ok, pure, ◌>>=◌, ◌>>◌, call, now, modify_db, gets_db, World, Env, Db, RegistryRow, ImageRow,
  WebhookEventRow,
}
use vullify_backend.Db.Images.{is_live}

abbrev pub new_event : ℕ → Text → Text → Text → WebhookEventRow
new_event id source event_type payload = record {
  id = id;
  source = source;
  event_type = event_type;
  payload = payload;
  processed = false;
}

unfoldable pub insert_webhook_event : Text → Text → Text → M ℕ
insert_webhook_event source event_type payload = call λ env w. (
  ok w.db.next_id,
  record w {
    db = record (w.db) {
      webhook_events = w.db.webhook_events ++ new_event w.db.next_id source event_type payload ∷ [];
      next_id = suc w.db.next_id;
    };
  },
)

abbrev pub mark_processed : WebhookEventRow → WebhookEventRow
mark_processed e = record e { processed = true }

unfoldable pub mark_webhook_event_processed : ℕ → M (Unit {0})
mark_webhook_event_processed id = call (
    modify_db λ db. record db {
      webhook_events = update_where (λ e. e.id == id) mark_processed db.webhook_events;
    })

-- `ORDER BY name ASC`.
abbrev pub insert_by_name : (Text → Text → Bool) → RegistryRow → List RegistryRow → List RegistryRow
insert_by_name before r [] = r ∷ []
insert_by_name before r (s ∷ rows) =
    if before s.name r.name then s ∷ insert_by_name before r rows else r ∷ s ∷ rows

abbrev pub is_of_type : Text → RegistryRow → Bool
is_of_type typ r = is_live r.deleted_at && text_eq r.type typ

abbrev pub rows_of_type : (Text → Text → Bool) → Text → List RegistryRow → List RegistryRow
rows_of_type before typ [] = []
rows_of_type before typ (r ∷ rows) =
    if is_of_type typ r
    then insert_by_name before r (rows_of_type before typ rows)
    else rows_of_type before typ rows

unfoldable pub list_registries_by_type : Text → M (List RegistryRow)
list_registries_by_type typ =
    call λ env w. (ok (rows_of_type env.name_before typ w.db.registries), w)

-- `WHERE registry_id = $1 AND repository = $2 AND tag = $3 AND deleted_at IS NULL`.
abbrev pub is_image : ℕ → Text → Text → ImageRow → Bool
is_image registry_id repository tag i =
    i.registry_id == registry_id
    && (text_eq i.repository repository && (text_eq i.tag tag && is_live i.deleted_at))

abbrev pub new_image : ℕ → ℕ → ℕ → Text → Text → ImageRow
new_image id t registry_id repository tag = record {
  id = id;
  registry_id = registry_id;
  repository = repository;
  tag = tag;
  digest = none;
  first_seen_at = t;
  last_seen_at = t;
  deleted_at = none;
}

abbrev pub seen_at : ℕ → ImageRow → ImageRow
seen_at t i = record i { last_seen_at = t }

touch_image : ImageRow → M ℕ
touch_image i = do
  call λ env w. (
    ok (tt {0}),
    record w {
      db = record (w.db) {
        images = update_where (λ r. r.id == i.id) (seen_at (now env w)) w.db.images;
      };
    },
  )
  pure i.id

insert_image : ℕ → Text → Text → M ℕ
insert_image registry_id repository tag = call λ env w. (
  ok w.db.next_id,
  record w {
    db = record (w.db) {
      images = w.db.images ++ new_image w.db.next_id (now env w) registry_id repository tag ∷ [];
      next_id = suc w.db.next_id;
    };
  },
)

upsert_found : ℕ → Text → Text → Option ImageRow → M ℕ
unfolding touch_image insert_image
upsert_found registry_id repository tag (some i) = touch_image i
upsert_found registry_id repository tag none = insert_image registry_id repository tag

unfoldable pub upsert_image : ℕ → Text → Text → M ℕ
unfolding upsert_found
upsert_image registry_id repository tag = do
  found ← call (gets_db λ db. find_row (is_image registry_id repository tag) db.images)
  upsert_found registry_id repository tag found
