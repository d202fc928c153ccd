-- ===== src/Tests/Webhooks.antt =====
-- The theorems on webhooks applied at concrete data.
use vullify_backend.Prelude.{◌≡◌, refl, true, some, [], ◌∷◌, All, Memᴰ, arith, if◌then◌else◌}
use Prim.Native.String.{String}
use vullify_backend.Text.{
  codes, text_eq, trim_space, equal_fold, fold, get_text, has_prefix, skip_prefix, trim_left,
  is_space, to_lower, lower,
}
use vullify_backend.Json.{
  Json, Members, obj, str, member, no_members, text_field, raw_field, lookup,
}
use vullify_backend.World.{Env, ok, RegistryRow}
use vullify_backend.Db.Webhooks.{upsert_image, list_registries_by_type}
use vullify_backend.Db.Webhooks.Upsert.{UniqueImages, upsert_image-UniqueImages}
use vullify_backend.Db.Active.{OneActive}
use vullify_backend.Webhook.Verify.{
  verify_git_hub_signature256, verify_git_hub_signature1, prefix_256, prefix_1, hex_decode,
  hex_value, verify_with,
}
use vullify_backend.Webhook.Verify.RoundTrip.{signed, IsByte, verify_git_hub_signature-signed}
use vullify_backend.Webhook.Auth.{
  Request, github, passed, authenticate, git_hub_auth, header, ghcr_secret_of, ghcr_secret,
}
use vullify_backend.Webhook.Auth.Sound.{
  Trusted, Shown, route_type, route_secret, authenticate-Trusted, git_hub_auth-signed,
}
use vullify_backend.Webhook.Parse.{
  parse_body, parse_git_hub_container, registry_package_name, package_version_tag, version_tag,
  lowered, or_blank, first_tag,
}
use vullify_backend.Webhook.Parse.Named.{IsName, parse_body-IsName}
use vullify_backend.Webhook.Handler.{routes, Push, process_async}
use vullify_backend.Webhook.Handler.Single.{routes-OneActive}
use vullify_backend.Webhook.Handler.Enqueues.{Adds, pushed_image, process_async-Adds}
use vullify_backend.Tests.Data.{healthy_env, some_world, one_registry}

abbrev field : String → Json → Json
field k v = obj (member (codes k) v no_members)

abbrev secret_doc : Json
secret_doc = field "webhook_secret" (str (codes "s3cret"))

abbrev push_members : Members
push_members =
    member (codes "registry_package") (field "name" (str (codes " Team/App ")))
      (member (codes "package_version") (field "version" (str (codes "1.2"))) no_members)

-- The credentials "{}" hold a secret, and any other text is a push.
abbrev hook_env : Env
hook_env = record healthy_env {
  decode_json = λ t. some (if text_eq t (codes "{}") then secret_doc else obj push_members);
}

abbrev push_request : Request
push_request = record {
  headers =
      (
        codes "X-Hub-Signature-256",
        signed prefix_256 hook_env.hmac_sha256 (codes "push") (codes "s3cret"),
      )
      ∷ [];
  body = some (codes "push");
}

code_bytes : All IsByte (hook_env.hmac_sha256 (codes "s3cret") (codes "push"))
code_bytes = (omega arith, (omega arith, tt))

verify_git_hub_signature-signed_example :
    (verify_git_hub_signature256 hook_env.hmac_sha256
        (codes "push")
        (signed prefix_256 hook_env.hmac_sha256 (codes "push") (codes "s3cret"))
        (codes "s3cret")
      ≡ true)
    × (verify_git_hub_signature1 hook_env.hmac_sha256
          (codes "push")
          (signed prefix_1 hook_env.hmac_sha256 (codes "push") (codes "s3cret"))
          (codes "s3cret")
        ≡ true)
verify_git_hub_signature-signed_example =
    verify_git_hub_signature-signed hook_env.hmac_sha256 (codes "push") (codes "s3cret") refl
      code_bytes

registry_secret : ghcr_secret_of hook_env one_registry ≡ some (codes "s3cret")
unfolding ghcr_secret_of ghcr_secret text_field equal_fold fold text_eq
registry_secret = refl

passes : (authenticate github push_request hook_env some_world).0 ≡ ok (passed one_registry)
unfolding authenticate git_hub_auth ghcr_secret_of ghcr_secret text_field equal_fold fold text_eq
    list_registries_by_type get_text verify_git_hub_signature256 has_prefix skip_prefix hex_decode
    hex_value verify_with
passes = refl

authenticate-Trusted_example :
    Trusted
      (route_type github)
      (route_secret github)
      (Shown github hook_env push_request)
      hook_env
      some_world
      one_registry
authenticate-Trusted_example =
    authenticate-Trusted github push_request hook_env some_world one_registry passes

header-signed :
    header (codes "X-Hub-Signature-256") push_request
    ≡ signed prefix_256 hook_env.hmac_sha256 (codes "push") (codes "s3cret")
unfolding get_text text_eq
header-signed = refl

git_hub_auth-signed_example :
    (t : RegistryRow) × ((git_hub_auth push_request hook_env some_world).0 ≡ ok (passed t))
git_hub_auth-signed_example =
    git_hub_auth-signed push_request (codes "push") (codes "s3cret") one_registry hook_env
      some_world refl refl code_bytes header-signed
      (Memᴰ.head refl, refl, refl, (codes "s3cret", registry_secret, refl, refl))

pushed_app : parse_body github (some (obj push_members)) ≡ some (codes "team/app", codes "1.2")
unfolding parse_body parse_git_hub_container registry_package_name package_version_tag version_tag
    lowered or_blank first_tag text_field raw_field lookup text_eq equal_fold fold to_lower lower
    trim_space trim_left is_space
pushed_app = refl

parse_body-IsName_example : IsName (codes "team/app") × IsName (codes "1.2")
parse_body-IsName_example =
    parse_body-IsName github (some (obj push_members)) (codes "team/app") (codes "1.2") pushed_app

one_image_each : UniqueImages some_world.db.images
one_image_each r repo tag = ground arith

upsert_image-UniqueImages_example :
    UniqueImages (upsert_image 9 (codes "team/app") (codes "2") hook_env some_world).1.db.images
upsert_image-UniqueImages_example =
    upsert_image-UniqueImages 9 (codes "team/app") (codes "2") hook_env some_world one_image_each

some_world-OneActive : OneActive some_world.db
some_world-OneActive image_id = ground arith

routes-OneActive_example : OneActive (routes [] github push_request hook_env some_world).1.db
routes-OneActive_example =
    routes-OneActive [] github push_request hook_env some_world some_world-OneActive

abbrev app_push : Push
app_push = record {
  source = codes "github";
  event_type = codes "package";
  body = codes "push";
  repository = codes "team/app";
  tag = codes "1.2";
}

process_async-Adds_example :
    Adds [] one_registry app_push hook_env
      (pushed_image one_registry app_push hook_env some_world).id
      some_world.db.scans
      some_world.redis.queue
      (process_async [] one_registry app_push hook_env some_world).1
process_async-Adds_example =
    process_async-Adds [] one_registry app_push hook_env some_world (λ t. refl)
