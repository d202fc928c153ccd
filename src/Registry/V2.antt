-- ===== src/Registry/V2.antt =====
-- The connector of a registry with API version 2: internal/registry/v2.go. One goroutine uses it
-- at a time.
pub mod Cached
pub mod Headers
pub mod Catalog
use vullify_backend.Prelude.{
  ℕ, ◌+◌, ◌*◌, ◌%◌, ◌^◌, Bool, true, false, ◌||◌, Option, none, some, List, [], ◌∷◌, ◌++◌,
  if◌then◌else◌, ltb, leb, ◌==◌,
}
use vullify_backend.Text.{Text, codes, is_empty, trim_space, trim_slashes_right}
use vullify_backend.World.Monad.{Result, ok, err}
use vullify_backend.Scanner.{Error, plain}
use vullify_backend.Registry.Http.{
  R, Net, Conn, Token, Request, Response, get, pure, raise, given, ◌>>=◌, ◌>>◌, labelled, attempt,
  new_request, send, send_labelled, decode_body, bad_status, succeeded,
}
use vullify_backend.Registry.Challenge.{BearerChallenge, parse_www_authenticate}
use vullify_backend.Registry.Listing.{
  Source, page_request, list_catalog, list_repository_tags, manifest_digest,
}

-- `V2Registry`, with the credentials that it uses.
pub record V2Registry : Type 0 where
  pub registry_url : Text
  pub username : Text
  pub password : Text

unfoldable pub new_v2_registry : Text → Text → Text → V2Registry
unfolding trim_slashes_right
new_v2_registry username password registry_url = record {
  registry_url = trim_slashes_right registry_url;
  username = username;
  password = password;
}

unfoldable pub reg_base : V2Registry → Text
unfolding trim_slashes_right
reg_base v = trim_slashes_right v.registry_url

unfoldable pub basic_auth_header : (Text → Text) → V2Registry → Text
unfolding trim_space
basic_auth_header base64 v =
    let user : Text = trim_space v.username in
    if is_empty user || is_empty v.password
    then []
    else codes "Basic " ++ base64 (user ++ (b':' ∷ v.password))

abbrev pub second : ℕ
second = 1_000_000_000

-- `ttl` of the 64 bits of `expires_in`: a product of int64, which wraps, and 50 minutes where it is
-- not positive.
unfoldable pub ttl_of : ℕ → ℕ
ttl_of expires_in =
    let ttl : ℕ = expires_in * second % 2 ^ 64 in
    if ttl == 0 || leb (2 ^ 63) ttl then 3000 * second else ttl

abbrev first_given : Text → Text → Text
first_given a b = if is_empty a then b else a

-- The end of `negotiateToken`, of the fields of the answer.
token_of : Text × (Text × ℕ) → R Token
unfolding ttl_of
token_of (token, (access_token, expires_in)) net c =
    (if is_empty (first_given token access_token)
        then raise (plain (codes "v2 token: empty token in response"))
        else pure (record {
          value = first_given token access_token;
          expires_at = net.clock c.sent + ttl_of expires_in;
        }))
      net c

unfoldable pub exchange_token : Text → Text → R Token
unfolding token_of
exchange_token basic url = do
  new_request url
  out ← send_labelled (codes "v2 token exchange") (page_request basic url)
  fine ← succeeded (codes "v2 token exchange") out
  fields ← decode_body (codes "v2 token decode") Net.v2_token fine
  token_of fields

abbrev service_query : Text → List (Text × Text)
service_query service = if is_empty service then [] else (codes "service", service) ∷ []

abbrev scope_query : Text → List (Text × Text)
scope_query scope = (codes "scope", if is_empty scope then codes "repository:*:*" else scope) ∷ []

follow_challenge : Text → BearerChallenge → R Token
unfolding exchange_token
follow_challenge basic ch net =
    (if is_empty ch.realm
        then raise (plain (codes "v2: no Bearer Www-Authenticate challenge received"))
        else (given (
              labelled (codes "v2 bad token realm")
                (net.with_query ch.realm (service_query ch.service ++ scope_query ch.scope)))
            >>= exchange_token basic))
      net

probed : Text → Response → R Token
unfolding follow_challenge parse_www_authenticate
probed basic out =
    if out.status == 200
    then raise (plain (codes "v2: bearer token not available; use basic auth"))
    else if out.status == 401
    then follow_challenge basic (parse_www_authenticate out.www_authenticate)
    else raise (bad_status (codes "v2 probe") out.status_text out.brief)

negotiate_token : V2Registry → R Token
unfolding probed basic_auth_header reg_base
negotiate_token v net =
    (new_request (reg_base v ++ codes "/v2/")
        >> (send_labelled (codes "v2 probe")
              (page_request (basic_auth_header net.base64 v) (reg_base v ++ codes "/v2/"))
            >>= probed (basic_auth_header net.base64 v)))
      net

abbrev store_token : Token → R Text
store_token token net c = (ok token.value, record c { token = some token })

fresh_token : V2Registry → R Text
unfolding negotiate_token
fresh_token v = negotiate_token v >>= store_token

abbrev cached_or_fresh : V2Registry → Option Token → R Text
unfolding fresh_token
cached_or_fresh v none net c = fresh_token v net c
cached_or_fresh v (some token) net c =
    (if ltb (net.clock c.sent) token.expires_at then pure token.value else fresh_token v) net c

unfoldable pub get_bearer_token : V2Registry → R Text
unfolding cached_or_fresh
get_bearer_token v net c = cached_or_fresh v c.token net c

no_method : Text
no_method = codes "v2: no authentication method available (provide username/password)"

-- Without a token: the Basic header, or the error that there was.
abbrev basic_or : Text → Error → R Text
basic_or basic e = if is_empty basic then raise e else pure basic

abbrev bearer_or : Text → Result Text → R Text
bearer_or basic (ok token) =
    if is_empty token then basic_or basic (plain no_method) else pure (codes "Bearer " ++ token)
bearer_or basic (err e) = basic_or basic e

-- The value of the header Authorization.
unfoldable pub auth_headers : V2Registry → R Text
unfolding get_bearer_token basic_auth_header no_method
auth_headers v net =
    (attempt (get_bearer_token v) >>= bearer_or (basic_auth_header net.base64 v)) net

test_answer : Response → R (Unit {0})
test_answer out =
    if out.status == 200
    then pure tt
    else raise (bad_status (codes "v2 registry") out.status_text out.brief)

unfoldable pub test_connection : V2Registry → R (Unit {0})
unfolding test_answer auth_headers reg_base trim_space
test_connection v =
    if is_empty (trim_space v.username) || is_empty v.password
    then raise (plain (codes "v2: username and password are required"))
    else (do
      new_request (reg_base v ++ codes "/v2/")
      headers ← auth_headers v
      out ← send (page_request headers (reg_base v ++ codes "/v2/"))
      test_answer out)

abbrev pub catalog_source : V2Registry → Text → Source
catalog_source v headers = record {
  base = reg_base v;
  authorization = headers;
  failed = codes "v2 catalog";
  undecoded = codes "v2 catalog decode";
  names = Net.repositories;
}

abbrev tags_source : V2Registry → Text → Source
tags_source v headers = record {
  base = reg_base v;
  authorization = headers;
  failed = codes "v2 tags list";
  undecoded = codes "v2 tags decode";
  names = Net.tags;
}

unfoldable pub list_repositories : ℕ → V2Registry → R (Option (List Text))
unfolding auth_headers list_catalog
list_repositories rounds v = do
  headers ← auth_headers v
  list_catalog (catalog_source v headers) rounds

unfoldable pub list_tags : ℕ → V2Registry → Text → R (Option (List Text))
unfolding auth_headers list_repository_tags
list_tags rounds v repository = do
  headers ← auth_headers v
  list_repository_tags (codes "v2") (tags_source v headers) rounds repository

unfoldable pub get_digest : V2Registry → Text → Text → R Text
unfolding auth_headers manifest_digest
get_digest v repository tag = do
  headers ← auth_headers v
  manifest_digest (codes "v2") (reg_base v) headers repository tag
