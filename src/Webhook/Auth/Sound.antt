-- ===== src/Webhook/Auth/Sound.antt =====
-- Which requests pass the middleware of internal/webhook/middleware.go.
use vullify_backend.Prelude.{
  ◌≡◌, refl, subst, Bool, true, false, ◌&&◌, ◌||◌, Option, none, some, if◌then◌else◌, Memᴰ,
  Option-cases, inl, inr, ◌⊎◌, arith, All,
}
use vullify_backend.Text.{Text, codes, text_eq, is_empty}
use vullify_backend.Text.Laws.{text_eq_sound, text_eq_refl}
use vullify_backend.World.{World, Env, RegistryRow, ok, M, pure}
use vullify_backend.Db.Images.{is_live}
use vullify_backend.Db.Webhooks.{list_registries_by_type, rows_of_type}
use vullify_backend.Webhook.Verify.{
  prefix_256, prefix_1, verify_git_hub_signature256, verify_git_hub_signature1,
}
use vullify_backend.Webhook.Verify.RoundTrip.{
  IsByte, signed, IsSigned, verify_git_hub_signature-signed, verify_git_hub_signature256-IsSigned,
  verify_git_hub_signature1-IsSigned,
}
use vullify_backend.Webhook.Auth.{
  Verdict, passed, refused, Request, header, accepts, first_match, tried, verdict_of, token_equal,
  respond, Response, read_body, Route, dockerhub, github, gitlab, authenticate, docker_hub_auth,
  git_hub_auth, git_lab_auth, docker_hub_secret_of, ghcr_secret_of, git_lab_secret_of,
  docker_hub_bearer_token, github_signed,
}
use vullify_backend.Webhook.Auth.Rows.{
  first_match_sound, first_match_complete, rows_of_type_sound, rows_of_type_complete,
}

-- The registry is a live one of the type, with a secret that is not empty and passes the test.
abbrev pub Trusted :
    Text → (Env → RegistryRow → Option Text) → (Text → Type 0) → Env → World → RegistryRow → Type 0
Trusted typ secret_of Shows env w r =
    Memᴰ r w.db.registries
    × (is_live r.deleted_at ≡ true)
    × (r.type ≡ typ)
    × ((s : Text) × (secret_of env r ≡ some s) × (is_empty s ≡ false) × Shows s)

-- What the request shows of a secret.
abbrev pub Shown : Route → Env → Request → Text → Type 0
Shown dockerhub env req s = docker_hub_bearer_token req ≡ s
Shown github env req s =
    (body : Text) × (req.body ≡ some body)
    × (IsSigned prefix_256 env.hmac_sha256 body (header (codes "X-Hub-Signature-256") req) s
        ⊎ IsSigned prefix_1 env.hmac_sha1 body (header (codes "X-Hub-Signature") req) s)
Shown gitlab env req s = header (codes "X-Gitlab-Token") req ≡ s

abbrev pub route_type : Route → Text
route_type dockerhub = codes "dockerhub"
route_type github = codes "ghcr"
route_type gitlab = codes "gitlab"

abbrev pub route_secret : Route → Env → RegistryRow → Option Text
route_secret dockerhub = docker_hub_secret_of
route_secret github = ghcr_secret_of
route_secret gitlab = git_lab_secret_of

both : (a b : Bool) → a && b ≡ true → (a ≡ true) × (b ≡ true)
both a b h = (ground arith, ground arith)

module _ (typ msg : Text) (secret_of : Env → RegistryRow → Option Text) (test : Env → Text → Bool)
    (env : Env) (w : World) (r : RegistryRow) where
  accepts_sound :
      (o : Option Text)
      → accepts (test env) o ≡ true
      → (s : Text) × (o ≡ some s) × (is_empty s ≡ false) × (test env s ≡ true)
  accepts_sound none h = absurd (ground arith)
  accepts_sound (some s) h = (s, refl, ground arith, ground arith)

  verdict_of_sound : (o : Option RegistryRow) → verdict_of msg o ≡ passed r → o ≡ some r
  verdict_of_sound none h = absurd (ground arith)
  verdict_of_sound (some s) h = ground arith

  tried-Trusted :
      (tried typ msg secret_of test env w).0 ≡ ok (passed r)
      → Trusted typ secret_of (λ s. test env s ≡ true) env w r
  unfolding list_registries_by_type
  tried-Trusted = elim (Option-cases (env.fault w.ticks)) [
    | inl e ↦ rw e found
    | inr (m, e) ↦ rw e (λ h. absurd (ground arith))
  ]
    where
      found :
          ok (
              verdict_of msg (
                first_match
                  (test env)
                  (secret_of env)
                  (rows_of_type env.name_before typ w.db.registries)))
            ≡ ok (passed r)
          → Trusted typ secret_of (λ s. test env s ≡ true) env w r
      found h =
          let (m, a) =
            first_match_sound (test env) (secret_of env) _ r (verdict_of_sound _ (ground arith)) in
          let (m', t) = rows_of_type_sound env.name_before typ w.db.registries r m in
          let (live, typed) = both (is_live r.deleted_at) (text_eq r.type typ) t in
          (m', live, text_eq_sound r.type typ typed, accepts_sound (secret_of env r) a)

  tried-finds :
      env.fault w.ticks ≡ none
      → Trusted typ secret_of (λ s. test env s ≡ true) env w r
      → (t : RegistryRow) × ((tried typ msg secret_of test env w).0 ≡ ok (passed t))
  unfolding list_registries_by_type
  tried-finds healthy (m, live, typed, (s, has, named, shown)) =
      let m' : Memᴰ r (rows_of_type env.name_before typ w.db.registries) =
        rows_of_type_complete env.name_before typ w.db.registries r m
          (rw (live, typed, text_eq_refl typ) refl) in
      let (t, e) =
        first_match_complete (test env) (secret_of env) _ r m' (rw (has, named, shown) refl) in
      (t, rw (healthy, e) refl)

  -- The answer before the loop passes nothing.
  gate-Trusted :
      (b : Bool) (x : Response)
      → ((if b then pure (refused x) else tried typ msg secret_of test) env w).0 ≡ ok (passed r)
      → Trusted typ secret_of (λ s. test env s ≡ true) env w r
  gate-Trusted true x h = absurd (ground arith)
  gate-Trusted false x h = tried-Trusted h

token_equal_sound : (tok s : Text) → token_equal tok s ≡ true → tok ≡ s
token_equal_sound tok s h = text_eq_sound tok s (ground arith)

module _ (env : Env) (w : World) (r : RegistryRow) where
  read_body-passed :
      (req : Request) (k : Text → M Verdict)
      → (read_body req k env w).0 ≡ ok (passed r)
      → (b : Text) × (req.body ≡ some b) × ((k b env w).0 ≡ ok (passed r))
  read_body-passed req k = elim (Option-cases req.body) [
    | inl e ↦ rw e (λ h. absurd (ground arith))
    | inr (b, e) ↦ rw e (λ h. (b, refl, h))
  ]

module _ (typ : Text) (secret_of : Env → RegistryRow → Option Text) (env : Env) (w : World)
    (r : RegistryRow) where
  Trusted-map :
      {P Q : Text → Type 0}
      → ((s : Text) → P s → Q s)
      → Trusted typ secret_of P env w r
      → Trusted typ secret_of Q env w r
  Trusted-map f (m, live, typed, (s, has, named, shown)) =
      (m, live, typed, (s, has, named, f s shown))

github_signed_sound :
    (env : Env) (body : Text) (req : Request) (s : Text)
    → req.body ≡ some body
    → github_signed env body req s ≡ true
    → Shown github env req s
github_signed_sound env body req s e h = (body, e, either _ _ refl refl h)
  where
    either :
        (a b : Bool)
        → verify_git_hub_signature256 env.hmac_sha256 body
            (header (codes "X-Hub-Signature-256") req)
            s
          ≡ a
        → verify_git_hub_signature1 env.hmac_sha1 body (header (codes "X-Hub-Signature") req) s ≡ b
        → a || b ≡ true
        → IsSigned prefix_256 env.hmac_sha256 body (header (codes "X-Hub-Signature-256") req) s
          ⊎ IsSigned prefix_1 env.hmac_sha1 body (header (codes "X-Hub-Signature") req) s
    either true b ea eb h = inl (verify_git_hub_signature256-IsSigned _ _ _ _ ea)
    either false true ea eb h = inr (verify_git_hub_signature1-IsSigned _ _ _ _ eb)
    either false false ea eb h = cc

-- A request passes only for a live registry of the path's type whose credentials hold a webhook
-- secret that is not empty, and the request shows that very secret: as its token, or as the key of
-- a signature of the body that was read.
pub authenticate-Trusted :
    (route : Route) (req : Request) (env : Env) (w : World) (r : RegistryRow)
    → (authenticate route req env w).0 ≡ ok (passed r)
    → Trusted (route_type route) (route_secret route) (Shown route env req) env w r
unfolding authenticate docker_hub_auth git_hub_auth git_lab_auth
authenticate-Trusted dockerhub req env w r h =
    let (b, e, k) = read_body-passed env w r req _ h in
    let tok = docker_hub_bearer_token req in
    Trusted-map (codes "dockerhub") docker_hub_secret_of env w r (token_equal_sound tok) (
      gate-Trusted (codes "dockerhub") (codes "invalid webhook token") docker_hub_secret_of
        (λ env. token_equal tok) env w r (is_empty tok)
        (respond 401 (codes "missing webhook token")) k)
authenticate-Trusted github req env w r h =
    let (b, e, k) = read_body-passed env w r req _ h in
    Trusted-map (codes "ghcr") ghcr_secret_of env w r (λ s. github_signed_sound env b req s e)
      (gate-Trusted (codes "ghcr") (codes "invalid signature") ghcr_secret_of
        (λ env. github_signed env b req) env w r _ (respond 401 (codes "missing signature")) k)
authenticate-Trusted gitlab req env w r h =
    let (b, e, k) = read_body-passed env w r req _ h in
    let tok = header (codes "X-Gitlab-Token") req in
    Trusted-map (codes "gitlab") git_lab_secret_of env w r (token_equal_sound tok) (
      gate-Trusted (codes "gitlab") (codes "invalid token") git_lab_secret_of
        (λ env. token_equal tok) env w r (is_empty tok)
        (respond 401 (codes "missing X-Gitlab-Token")) k)

-- A GitHub request whose signature a sender made of its body with the secret of a live ghcr
-- registry passes, where the call of Postgres succeeds and the code is bytes.
pub git_hub_auth-signed :
    (req : Request) (body secret : Text) (r : RegistryRow) (env : Env) (w : World)
    → env.fault w.ticks ≡ none
    → req.body ≡ some body
    → All IsByte (env.hmac_sha256 secret body)
    → header (codes "X-Hub-Signature-256") req ≡ signed prefix_256 env.hmac_sha256 body secret
    → Trusted (codes "ghcr") ghcr_secret_of (λ s. s ≡ secret) env w r
    → (t : RegistryRow) × ((git_hub_auth req env w).0 ≡ ok (passed t))
unfolding git_hub_auth
git_hub_auth-signed req body secret r env w healthy read bytes made
      (m, live, typed, (s, has, named, same)) =
    let valid : github_signed env body req s ≡ true =
      rw
        (
          made,
          same,
          (verify_git_hub_signature-signed env.hmac_sha256 body secret
              (subst (λ x. is_empty x ≡ false) same named) bytes).0,
        )
        refl in
    let (t, found) =
      tried-finds (codes "ghcr") (codes "invalid signature") ghcr_secret_of
        (λ env. github_signed env body req) env w r healthy
        (m, live, typed, (s, has, named, valid)) in
    let there : is_empty (header (codes "X-Hub-Signature-256") req)
          && is_empty (header (codes "X-Hub-Signature") req)
        ≡ false =
      rw made refl in
    (t, rw (read, there) found)
