-- ===== src/Scanqueue.antt =====
-- The queue's producer side: internal/scanqueue/scanqueue.go and internal/imageref/imageref.go.
pub mod Credentials
use vullify_backend.Prelude.{
  ℕ, Bool, true, false, ◌||◌, not, Option, none, some, List, [], ◌∷◌, ◌++◌, if◌then◌else◌,
}
use vullify_backend.Text.{
  Text, codes, text_eq, is_empty, trim_space, trim_slashes, contains, get_text,
}
use vullify_backend.World.{M, Env, call, modify_redis, ScanJob, RegistryCredentials}

-- The URL of `BuildImagePullRef`.
abbrev pub with_scheme : Text → Text
with_scheme raw = if contains raw (codes "://") then raw else codes "https://" ++ raw

unfoldable pub build_image_pull_ref : Env → Text → Text → Text → Text
build_image_pull_ref env registry_url repository tag =
    let repo = trim_slashes (trim_space repository) in
    let t = trim_space tag in
    let host = env.url_host (with_scheme (trim_space registry_url)) in
    if is_empty host
    then (if is_empty repo then t else repo ++ (codes ":" ++ t))
    else host ++ (codes "/" ++ (repo ++ (codes ":" ++ t)))

-- The cases of `CredentialsFromRegistryJSON`, on the decoded blob.
unfoldable pub creds_from_map : Text → List (Text × Text) → Option RegistryCredentials
creds_from_map typ creds =
    let token = get_text (codes "github_token") creds in
    let u = get_text (codes "username") creds in
    let p = get_text (codes "password") creds in
    if text_eq typ (codes "ghcr")
    then (if is_empty token
        then none
        else some (record { username = codes "pat"; password = token }))
    else if text_eq typ (codes "dockerhub") || text_eq typ (codes "generic_v2")
    then (if is_empty u || is_empty p then none else some (record { username = u; password = p }))
    else none

abbrev pub creds_decoded : Text → Option (List (Text × Text)) → Option RegistryCredentials
creds_decoded typ none = none
creds_decoded typ (some m) = creds_from_map typ m

unfoldable pub credentials_from_registry_json : Env → Text → Text → Option RegistryCredentials
credentials_from_registry_json env typ raw =
    if is_empty raw then none else creds_decoded typ (env.decode_creds raw)

abbrev pub default_key : Text
default_key = codes "vullify:scan:queue"

-- LPUSH: the list of a key has its newest job first, and a consumer takes the oldest.
unfoldable pub lpush : Text → ScanJob → M (Unit {0})
lpush key job = call (modify_redis λ redis. record redis { queue = (key, job) ∷ redis.queue })

unfoldable pub enqueue : Text → ℕ → Text → Option RegistryCredentials → M (Unit {0})
unfolding lpush
enqueue queue_key scan_id image_ref reg_creds =
    lpush (if is_empty queue_key then default_key else queue_key)
      (record { scan_id = scan_id; image_ref = image_ref; reg_creds = reg_creds })
