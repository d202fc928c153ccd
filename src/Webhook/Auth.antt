-- ===== src/Webhook/Auth.antt =====
-- The middleware of the webhooks: internal/webhook/middleware.go.
pub mod Rows
pub mod Sound
use vullify_backend.Prelude.{
  ℕ, Bool, true, false, ◌&&◌, ◌||◌, not, Option, none, some, List, [], ◌∷◌, if◌then◌else◌, ◌==◌,
  leb, ltb, length, take, drop,
}
use vullify_backend.Text.{Text, codes, text_eq, is_empty, trim_space, equal_fold, get_text}
use vullify_backend.Json.{Members, text_field, int_field_ok, top_members}
use vullify_backend.World.{M, ok, err, Result, pure, ◌>>=◌, attempt, RegistryRow, Env, World}
use vullify_backend.Db.Webhooks.{list_registries_by_type}
use vullify_backend.Webhook.Verify.{verify_git_hub_signature256, verify_git_hub_signature1}

-- A request: its headers under their canonical names, and the bytes of its body, `none` where
-- reading them fails.
pub record Request : Type 0 where
  pub headers : List (Text × Text)
  pub body : Option Text

abbrev pub header : Text → Request → Text
header name req = get_text name req.headers

-- `http.Error(w, text, status)` or a body with a status.
pub record Response : Type 0 where
  pub status : ℕ
  pub text : Text

abbrev pub respond : ℕ → Text → Response
respond status text = record { status = status; text = text }

-- `http.MaxBytesReader`: reading a longer body fails.
abbrev pub limited : ℕ → Option Text → Option Text
limited n none = none
limited n (some b) = if ltb n (length b) then none else some b

abbrev pub max_body_bytes : ℕ → Request → Request
max_body_bytes n req = record req { body = limited n req.body }

-- What an authentication says: the registry for `withRegistry`, or the answer to the request.
pub data Verdict : Type 0 where
  passed : RegistryRow → Verdict
  refused : Response → Verdict

unfoldable pub docker_hub_bearer_token : Request → Text
unfolding trim_space equal_fold get_text
docker_hub_bearer_token req =
    let h = header (codes "Authorization") req in
    let t = header (codes "X-Webhook-Token") req in
    if leb 7 (length h) && equal_fold (take 7 h) (codes "Bearer ")
    then trim_space (drop 7 h)
    else if not (is_empty t)
    then t
    else header (codes "X-Hub-Signature") req

-- The webhook secret of the credentials, `none` where `json.Unmarshal` gives an error: it does
-- where a field of the struct has a value of another type.
abbrev only_if : Bool → Option Text → Option Text
only_if true o = o
only_if false o = none

abbrev is_text : Option Text → Bool
is_text none = false
is_text (some t) = true

unfoldable pub docker_hub_secret : Option Members → Option Text
docker_hub_secret none = none
docker_hub_secret (some ms) =
    only_if
      (is_text (text_field (codes "username") ms)
        && (is_text (text_field (codes "password") ms)
            && is_text (text_field (codes "namespace") ms)))
      (text_field (codes "webhook_secret") ms)

unfoldable pub ghcr_secret : Option Members → Option Text
ghcr_secret none = none
ghcr_secret (some ms) =
    only_if (is_text (text_field (codes "github_token") ms))
      (text_field (codes "webhook_secret") ms)

unfoldable pub git_lab_secret : Option Members → Option Text
git_lab_secret none = none
git_lab_secret (some ms) =
    only_if
      (is_text (text_field (codes "base_url") ms)
        && (is_text (text_field (codes "token") ms) && int_field_ok (codes "project_id") ms))
      (text_field (codes "webhook_secret") ms)

-- The loop over the registries: the first one whose secret is there, is not empty and passes.
abbrev pub accepts : (Text → Bool) → Option Text → Bool
accepts test none = false
accepts test (some secret) = if is_empty secret then false else test secret

abbrev pub first_match :
    (Text → Bool) → (RegistryRow → Option Text) → List RegistryRow → Option RegistryRow
first_match test secret [] = none
first_match test secret (r ∷ rows) =
    if accepts test (secret r) then some r else first_match test secret rows

abbrev pub verdict_of : Text → Option RegistryRow → Verdict
verdict_of msg (some r) = passed r
verdict_of msg none = refused (respond 401 msg)

-- The registries of a type, tried in the order of their names.
abbrev pub judged :
    Text
    → (Env → RegistryRow → Option Text)
    → (Env → Text → Bool)
    → Result (List RegistryRow)
    → M Verdict
judged msg secret test (ok rows) env w =
    (ok (verdict_of msg (first_match (test env) (secret env) rows)), w)
judged msg secret test (err e) env w = (ok (refused (respond 500 (codes "internal error"))), w)

abbrev pub tried : Text → Text → (Env → RegistryRow → Option Text) → (Env → Text → Bool) → M Verdict
tried typ msg secret test = attempt (list_registries_by_type typ) >>= judged msg secret test

-- `len(tok) != len(secret)`, then `ConstantTimeCompare`.
abbrev pub token_equal : Text → Text → Bool
token_equal tok secret = if length tok == length secret then text_eq tok secret else false

abbrev pub read_body : Request → (Text → M Verdict) → M Verdict
read_body req k = read req.body
  where
    read : Option Text → M Verdict
    read none = pure (refused (respond 400 (codes "read body")))
    read (some b) = k b

unfoldable pub docker_hub_secret_of : Env → RegistryRow → Option Text
unfolding docker_hub_secret
docker_hub_secret_of env r = docker_hub_secret (top_members (env.decode_json r.credentials))

unfoldable pub ghcr_secret_of : Env → RegistryRow → Option Text
unfolding ghcr_secret
ghcr_secret_of env r = ghcr_secret (top_members (env.decode_json r.credentials))

unfoldable pub git_lab_secret_of : Env → RegistryRow → Option Text
unfolding git_lab_secret
git_lab_secret_of env r = git_lab_secret (top_members (env.decode_json r.credentials))

unfoldable pub docker_hub_auth : Request → M Verdict
unfolding docker_hub_bearer_token
docker_hub_auth req = read_body req λ body.
    let tok = docker_hub_bearer_token req in
    if is_empty tok
    then pure (refused (respond 401 (codes "missing webhook token")))
    else tried (codes "dockerhub") (codes "invalid webhook token") docker_hub_secret_of
        (λ env. token_equal tok)

-- The test of `GitHubAuth` on a secret.
abbrev pub github_signed : Env → Text → Request → Text → Bool
github_signed env body req secret =
    verify_git_hub_signature256 env.hmac_sha256 body (header (codes "X-Hub-Signature-256") req)
      secret
    || verify_git_hub_signature1 env.hmac_sha1 body (header (codes "X-Hub-Signature") req) secret

unfoldable pub git_hub_auth : Request → M Verdict
git_hub_auth req = read_body req λ body.
    if is_empty (header (codes "X-Hub-Signature-256") req)
      && is_empty (header (codes "X-Hub-Signature") req)
    then pure (refused (respond 401 (codes "missing signature")))
    else tried (codes "ghcr") (codes "invalid signature") ghcr_secret_of
        (λ env. github_signed env body req)

unfoldable pub git_lab_auth : Request → M Verdict
git_lab_auth req = read_body req λ body.
    let tok = header (codes "X-Gitlab-Token") req in
    if is_empty tok
    then pure (refused (respond 401 (codes "missing X-Gitlab-Token")))
    else tried (codes "gitlab") (codes "invalid token") git_lab_secret_of (λ env. token_equal tok)

-- The paths of `Routes`, each with its middleware.
pub data Route : Type 0 where
  dockerhub github gitlab : Route

unfoldable pub authenticate : Route → Request → M Verdict
unfolding docker_hub_auth git_hub_auth git_lab_auth
authenticate dockerhub req = docker_hub_auth req
authenticate github req = git_hub_auth req
authenticate gitlab req = git_lab_auth req
