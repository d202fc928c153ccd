-- ===== src/Registry/Gcr.antt =====
-- The connector of Google's registry: internal/registry/gcr.go. `google.JWTConfigFromJSON` gives
-- an error or a client that adds the header; a request that it cannot add it to fails.
use vullify_backend.Prelude.{ℕ, ◌||◌, Option, List, [], ◌++◌, if◌then◌else◌, ◌==◌}
use vullify_backend.Text.{Text, codes, text_eq, is_empty, trim_slashes_right}
use vullify_backend.World.Monad.{Result, ok, err}
use vullify_backend.Scanner.{plain}
use vullify_backend.Registry.Http.{
  R, Response, pure, raise, given, ◌>>=◌, ◌>>◌, labelled, new_request, send, bad_status, Net,
}
use vullify_backend.Registry.Listing.{
  Source, page_request, list_catalog, list_repository_tags, manifest_digest,
}

-- `GCR`.
pub record Gcr : Type 0 where
  pub registry_url : Text
  pub service_account : Text

abbrev gcr_url : Text
gcr_url = codes "https://gcr.io"

-- `NewGCR`, of the field `service_account_json`.
unfoldable pub new_gcr : Text → Result Gcr
new_gcr service_account =
    if is_empty service_account
    then err
        (plain (codes "gcr: service_account_json required (full GCP service account key JSON)"))
    else ok (record { registry_url = gcr_url; service_account = service_account })

-- `parseGCRCredentialsBlob`, of what encoding/json reads as `GCRCredentials` and of the field
-- "type" of what it reads as a map.
abbrev typed_key : Text → Result Text → Result Text
typed_key raw (err e) = err e
typed_key raw (ok typ) =
    if text_eq typ (codes "service_account")
    then ok raw
    else err (plain (codes "gcr: expected service_account_json or GCP service account key JSON"))

abbrev key_or : Text → Result Text → Result Text → Result Text
key_or raw (err e) typ = err e
key_or raw (ok key) typ = if is_empty key then typed_key raw typ else ok key

unfoldable pub parse_gcr_credentials_blob :
    (Text → Result Text) → (Text → Result Text) → Text → Result Text
unfolding text_eq
parse_gcr_credentials_blob field_of type_of raw = key_or raw (field_of raw) (type_of raw)

unfoldable pub gcr_base : Gcr → Text
unfolding trim_slashes_right
gcr_base g = if is_empty g.registry_url then gcr_url else trim_slashes_right g.registry_url

-- `g.client`.
abbrev gcr_client : (Text → Result (Unit {0})) → Gcr → R (Unit {0})
gcr_client jwt_config g = given (labelled (codes "gcr jwt config") (jwt_config g.service_account))

test_gcr_answer : Response → R (Unit {0})
test_gcr_answer out =
    if out.status == 200 || out.status == 401
    then pure tt
    else raise (bad_status (codes "gcr registry") out.status_text out.brief)

unfoldable pub test_gcr : (Text → Result (Unit {0})) → Gcr → R (Unit {0})
unfolding test_gcr_answer gcr_base
test_gcr jwt_config g = do
  gcr_client jwt_config g
  new_request (gcr_base g ++ codes "/v2/")
  out ← send (page_request [] (gcr_base g ++ codes "/v2/"))
  test_gcr_answer out

abbrev gcr_catalog : Gcr → Source
gcr_catalog g = record {
  base = gcr_base g;
  authorization = [];
  failed = codes "gcr catalog";
  undecoded = codes "gcr catalog decode";
  names = Net.repositories;
}

abbrev gcr_tags : Gcr → Source
gcr_tags g = record {
  base = gcr_base g;
  authorization = [];
  failed = codes "gcr tags list";
  undecoded = codes "gcr tags decode";
  names = Net.tags;
}

unfoldable pub list_gcr_repositories : (Text → Result (Unit {0})) → ℕ → Gcr → R (Option (List Text))
unfolding list_catalog
list_gcr_repositories jwt_config rounds g =
    gcr_client jwt_config g >> list_catalog (gcr_catalog g) rounds

unfoldable pub list_gcr_tags : (Text → Result (Unit {0})) → ℕ → Gcr → Text → R (Option (List Text))
unfolding list_repository_tags
list_gcr_tags jwt_config rounds g repository =
    gcr_client jwt_config g >> list_repository_tags (codes "gcr") (gcr_tags g) rounds repository

unfoldable pub get_gcr_digest : (Text → Result (Unit {0})) → Gcr → Text → Text → R Text
unfolding manifest_digest
get_gcr_digest jwt_config g repository tag =
    gcr_client jwt_config g >> manifest_digest (codes "gcr") (gcr_base g) [] repository tag
