-- ===== src/Db/Registries.antt =====
-- The statements on `registries`: internal/db/registries_store.go. The columns `created_at` and
-- `updated_at` are left out, and the credentials are the text that was stored.
use vullify_backend.Prelude.{
  ℕ, suc, Bool, none, List, [], ◌∷◌, ◌++◌, if◌then◌else◌, ◌==◌, any, update_where, count_where,
  length,
}
use vullify_backend.Text.{Text, codes, text_eq}
use vullify_backend.Scanner.{plain, no_rows}
use vullify_backend.World.{M, ok, err, pure, ◌>>=◌, call, modify_db, RegistryRow}
use vullify_backend.Db.Changes.{live_by_name}
use vullify_backend.Db.Paging.{paged}
use vullify_backend.Db.SoftDelete.{is_live_registry}

-- The type `registry_type`; a cast of another text is an error.
abbrev pub registry_types : List Text
registry_types =
    codes "dockerhub"
    ∷ codes "gitlab"
    ∷ codes "ecr"
    ∷ codes "gcr"
    ∷ codes "ghcr"
    ∷ codes "acr"
    ∷ codes "generic"
    ∷ []

abbrev pub is_registry_type : Text → Bool
is_registry_type typ = any (text_eq typ) registry_types

abbrev cast_error : Text
cast_error = codes "invalid input value for enum registry_type"

abbrev pub new_registry : ℕ → Text → Text → Text → Text → RegistryRow
new_registry id name typ url credentials = record {
  id = id;
  name = name;
  type = typ;
  url = url;
  credentials = credentials;
  deleted_at = none;
}

unfoldable pub insert_registry : Text → Text → Text → Text → M ℕ
insert_registry name typ url credentials = call λ env w.
    if is_registry_type typ
    then (
      ok w.db.next_id,
      record w {
        db = record (w.db) {
          registries = w.db.registries ++ new_registry w.db.next_id name typ url credentials ∷ [];
          next_id = suc w.db.next_id;
        };
      },
    )
    else (err (plain cast_error), w)

unfoldable pub list_registries : ℕ → ℕ → M (List RegistryRow × ℕ)
list_registries offset limit = do
  total ← call (λ env w. (ok (length (live_by_name env.name_before w.db.registries)), w))
  rows ← call (λ env w. (paged offset limit (live_by_name env.name_before w.db.registries), w))
  pure (rows, total)

abbrev pub changed_registry : Text → Text → Text → Text → RegistryRow → RegistryRow
changed_registry name typ url credentials r = record r {
  name = name;
  type = typ;
  url = url;
  credentials = credentials;
}

unfoldable pub update_registry : ℕ → Text → Text → Text → Text → M (Unit {0})
update_registry id name typ url credentials = call λ env w.
    if is_registry_type typ
    then (if count_where (is_live_registry id) w.db.registries == 0
        then (err no_rows, w)
        else modify_db
            (λ db. record db {
              registries =
                  update_where (is_live_registry id) (changed_registry name typ url credentials)
                    db.registries;
            })
            env w)
    else (err (plain cast_error), w)
