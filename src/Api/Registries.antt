-- ===== src/Api/Registries.antt =====
-- The handlers of registries: internal/api/server.go. The decoding of a body is an argument, and
-- so is `NewConnector`, as an interface.
pub mod Deleted
pub mod Tags
use vullify_backend.Prelude.{
  ℕ, suc, ◌+◌, ◌-◌, Bool, true, false, ◌&&◌, ◌||◌, not, Option, none, some, List, [], ◌∷◌,
  if◌then◌else◌, any, take, drop, length, leb, ltb, ◌%◌,
}
use vullify_backend.Text.{Text, codes, text_eq, is_empty, trim_space, to_lower}
use vullify_backend.Scanner.{Error, plain, error_text}
use vullify_backend.World.{M, ok, err, Result, pure, raise, ◌>>=◌, attempt, on_result, RegistryRow}
use vullify_backend.Registry.{RegistryConnector, NewConnector, ask, of_result}
use vullify_backend.Db.Images.{get_registry_by_id}
use vullify_backend.Db.Registries.{
  insert_registry, list_registries, update_registry, is_registry_type,
}
use vullify_backend.Db.SoftDelete.{soft_delete_registry}
use vullify_backend.Db.Webhooks.{upsert_image}
use vullify_backend.Db.Paging.{two_63}
use vullify_backend.Api.{parse_pagination, Pagination, two_64}
use vullify_backend.Api.Pages.{Meta}
use vullify_backend.Api.Reply.{
  Reply, api_error, envelope, invalid, not_found, internal, or_answer, with_id, with_body,
  by_no_rows,
}

unfoldable pub valid_registry_type : Text → Bool
valid_registry_type t = is_registry_type (to_lower (trim_space t))

-- `registryCreateReq`; a field that is not in the body is empty, and the credentials are none.
pub record RegistryCreateReq : Type 0 where
  pub name : Text
  pub type : Text
  pub url : Text
  pub credentials : Option Text

-- `registryUpdateReq`.
pub record RegistryUpdateReq : Type 0 where
  pub name : Option Text
  pub type : Option Text
  pub url : Option Text
  pub credentials : Option Text

-- `registryResp`, without its times.
pub record RegistryResp : Type 0 where
  pub id : ℕ
  pub name : Text
  pub type : Text
  pub url : Text
  pub credentials_set : Bool

unfoldable pub registry_to_resp : RegistryRow → RegistryResp
registry_to_resp r = record {
  id = r.id;
  name = r.name;
  type = r.type;
  url = r.url;
  credentials_set =
      not (is_empty r.credentials)
      && (not (text_eq r.credentials (codes "{}")) && not (text_eq r.credentials (codes "null")));
}

abbrev pub or_old : Option Text → Text → Text
or_old none old = old
or_old (some t) old = t

-- `conn, err := registry.NewConnector(…)`.
abbrev connected :
    {A : Type 0} → Result RegistryConnector → (RegistryConnector → M (Reply A)) → M (Reply A)
connected (ok conn) k = k conn
connected (err e) k = pure (api_error 400 (codes "VALIDATION_ERROR") (error_text e))

-- A connection that is tested.
abbrev tested : {A : Type 0} → NewConnector → Text → Text → M (Reply A) → M (Reply A)
tested connect typ credentials k = connected (connect typ credentials) (λ conn.
    or_answer (ask conn.test_connection)
      (λ e. api_error 422 (codes "REGISTRY_CONNECTION_FAILED") (error_text e)) (λ u. k))

load_registry : ℕ → ℕ → M (Reply RegistryResp)
load_registry status id =
    or_answer (get_registry_by_id id) (λ e. internal "failed to load registry")
      (λ r. pure (envelope status (registry_to_resp r)))

create_named : NewConnector → RegistryCreateReq → M (Reply RegistryResp)
unfolding load_registry
create_named connect req =
    let credentials = or_old req.credentials (codes "{}") in
    if not (valid_registry_type req.type)
    then pure (invalid "invalid registry type")
    else tested connect req.type credentials (
        or_answer (insert_registry req.name req.type req.url credentials)
          (λ e. internal "failed to save registry") (load_registry 201))

unfoldable pub create_registry : NewConnector → Option RegistryCreateReq → M (Reply RegistryResp)
unfolding create_named
create_registry connect req = with_body req (λ req.
    if is_empty (trim_space req.name) || is_empty (trim_space req.url)
    then pure (invalid "name and url are required")
    else create_named connect req)

abbrev responses : List RegistryRow → List RegistryResp
responses [] = []
responses (r ∷ rows) = registry_to_resp r ∷ responses rows

-- `listRegistries`.
unfoldable pub registries_page : Text → Text → M (Reply (List RegistryResp × Meta))
registries_page page_value per_page_value =
    let p = parse_pagination page_value per_page_value in
    or_answer (list_registries p.offset p.per_page) (λ e. internal "list failed")
      (λ found. pure (
        envelope 200
          (responses found.0, record { page = p.page; per_page = p.per_page; total = found.1 })))

-- `getRegistry`.
unfoldable pub registry_page : Option ℕ → M (Reply RegistryResp)
registry_page id = with_id id (λ id.
    or_answer (get_registry_by_id id) (λ e. not_found "registry not found")
      (λ r. pure (envelope 200 (registry_to_resp r))))

save_changes : NewConnector → ℕ → RegistryUpdateReq → RegistryRow → M (Reply RegistryResp)
unfolding load_registry
save_changes connect id req cur =
    let typ = or_old req.type cur.type in
    let credentials = or_old req.credentials cur.credentials in
    tested connect typ credentials (
      or_answer
        (update_registry id (or_old req.name cur.name) typ (or_old req.url cur.url) credentials)
        (by_no_rows (not_found "registry not found") (internal "update failed"))
        (λ u. load_registry 200 id))

-- A type that is given must be a valid one.
abbrev valid_if_given : Option Text → Bool
valid_if_given none = true
valid_if_given (some t) = valid_registry_type t

unfoldable pub change_registry :
    NewConnector → Option ℕ → Option RegistryUpdateReq → M (Reply RegistryResp)
unfolding save_changes
change_registry connect id req = with_id id (λ id. with_body req (λ req.
    or_answer (get_registry_by_id id) (λ e. not_found "registry not found")
      (λ cur.
        if valid_if_given req.type
        then save_changes connect id req cur
        else pure (invalid "invalid registry type"))))

unfoldable pub delete_registry : Option ℕ → M (Reply (Unit {0}))
delete_registry id = with_id id (λ id.
    or_answer (soft_delete_registry id)
      (by_no_rows (not_found "registry not found") (internal "delete failed"))
      (λ u. pure (envelope 204 tt)))

-- The connector of a stored registry.
abbrev connector_of :
    {A : Type 0} → NewConnector → ℕ → (RegistryConnector → M (Reply A)) → M (Reply A)
connector_of connect id k =
    or_answer (get_registry_by_id id) (λ e. not_found "registry not found")
      (λ reg. connected (connect reg.type reg.credentials) k)

-- The tags of a repository; the upserts that give no error are counted.
sync_all_tags : ℕ → Text → List Text → ℕ → M ℕ
sync_all_tags id repo [] synced = pure synced
sync_all_tags id repo (tag ∷ tags) synced = attempt (upsert_image id repo tag) >>= λ r.
    on_result r (λ i. sync_all_tags id repo tags (suc synced))
      (λ e. sync_all_tags id repo tags synced)

sync_all : RegistryConnector → ℕ → List Text → ℕ → M ℕ
unfolding sync_all_tags
sync_all conn id [] synced = pure synced
sync_all conn id (repo ∷ repos) synced = attempt (ask (conn.list_tags repo)) >>= λ tags.
    (on_result tags (λ tags. sync_all_tags id repo tags synced) (λ e. pure synced)
      >>= sync_all conn id repos)

-- `syncRegistry`, with the number of the images and of the repositories.
unfoldable pub sync_registry_by_id : NewConnector → Option ℕ → M (Reply (ℕ × ℕ))
unfolding sync_all
sync_registry_by_id connect id = with_id id (λ id. connector_of connect id (λ conn.
    or_answer (ask conn.list_repositories)
      (λ e. api_error 502 (codes "REGISTRY_SYNC_FAILED") (error_text e))
      (λ repos. sync_all conn id repos 0 >>= λ synced. pure (envelope 200 (synced, length repos)))))

-- `listRepositories`.
unfoldable pub repositories_of_registry : NewConnector → Option ℕ → M (Reply (List Text))
repositories_of_registry connect id = with_id id (λ id. connector_of connect id (λ conn.
    or_answer (ask conn.list_repositories)
      (λ e. api_error 502 (codes "REGISTRY_LIST_FAILED") (error_text e))
      (λ repos. pure (envelope 200 repos))))

-- An int of 64 bits is negative from 2^63 on.
abbrev pub is_negative : ℕ → Bool
is_negative n = leb two_63 n

abbrev pub out_of_range : Error
out_of_range = plain (codes "runtime error: slice bounds out of range")

-- `tags[offset:end]` panics on a negative bound and where the end is before the offset; a panic is
-- an error of the model. An end past the tags does not occur here.
abbrev slice : ℕ → ℕ → List Text → M (List Text)
slice offset end tags =
    if is_negative offset || (is_negative end || ltb end offset)
    then raise out_of_range
    else pure (take (end - offset) (drop offset tags))

-- `end > len(tags)`.
abbrev clamped : ℕ → ℕ → ℕ
clamped len end = if not (is_negative end) && ltb len end then len else end

-- The end of `listTags`; the sum `offset + perPage` wraps around.
unfoldable pub tags_page : Pagination → List Text → M (Reply (List Text × Meta))
tags_page p tags =
    let meta : Meta = record { page = p.page; per_page = p.per_page; total = length tags } in
    let end = clamped (length tags) ((p.offset + p.per_page) % two_64) in
    if not (is_negative p.offset) && leb (length tags) p.offset
    then pure (envelope 200 ([], meta))
    else (slice p.offset end tags >>= λ rows. pure (envelope 200 (rows, meta)))

-- `listTags`, of the path of the repository and the query's values of the page.
unfoldable pub tags_of_repository :
    NewConnector → Option ℕ → Text → Text → Text → M (Reply (List Text × Meta))
unfolding tags_page
tags_of_repository connect id repo page_value per_page_value = with_id id (λ id.
    if is_empty (trim_space repo)
    then pure (invalid "repository path is required")
    else connector_of connect id (λ conn.
      or_answer (ask (conn.list_tags repo))
        (λ e. api_error 502 (codes "REGISTRY_TAGS_FAILED") (error_text e))
        (tags_page (parse_pagination page_value per_page_value))))
