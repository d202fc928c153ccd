-- ===== src/Registry/Acr.antt =====
-- The connector of Azure's registries: internal/registry/acr.go.
use vullify_backend.Prelude.{
  ℕ, ◌+◌, ◌*◌, Bool, ◌||◌, Option, none, some, List, [], ◌∷◌, ◌++◌, if◌then◌else◌, ltb,
}
use vullify_backend.Text.{Text, codes, is_empty, trim_space, trim_slashes_right}
use vullify_backend.World.Monad.{Result, ok}
use vullify_backend.Scanner.{plain}
use vullify_backend.Registry.Http.{
  R, Net, Token, Request, post, pure, raise, ◌>>=◌, ◌>>◌, new_request, send_labelled, decode_body,
  succeeded,
}
use vullify_backend.Registry.Listing.{Source, list_catalog, list_repository_tags, manifest_digest}
use vullify_backend.Registry.V2.{second}

-- `ACRCredentials`.
pub record AcrCredentials : Type 0 where
  pub client_id : Text
  pub client_secret : Text
  pub tenant_id : Text
  pub registry_name : Text

-- `ACR`.
pub record Acr : Type 0 where
  pub registry_url : Text
  pub creds : AcrCredentials

abbrev azure_url : Text → Text
azure_url name = codes "https://" ++ (name ++ codes ".azurecr.io")

unfoldable pub new_acr : AcrCredentials → Acr
unfolding trim_space
new_acr c = record { registry_url = azure_url (trim_space c.registry_name); creds = c }

unfoldable pub acr_base : Acr → Text
unfolding trim_space trim_slashes_right
acr_base a =
    if is_empty a.registry_url
    then azure_url (trim_space a.creds.registry_name)
    else trim_slashes_right a.registry_url

abbrev login_url : (Text → Text) → Acr → Text
login_url escape a =
    codes "https://login.microsoftonline.com/"
    ++ (escape a.creds.tenant_id ++ codes "/oauth2/v2.0/token")

exchange_url : Acr → Text
unfolding acr_base
exchange_url a = acr_base a ++ codes "/oauth2/exchange"

abbrev form_request : Text → List (Text × Text) → Request
form_request url form = record {
  method = post;
  url = url;
  authorization = [];
  accept = [];
  private_token = [];
  form = form;
}

not_blank : Text → Text → Text → R Text
not_blank label field text =
    if is_empty text
    then raise (plain (label ++ (codes ": empty " ++ (field ++ codes " in response"))))
    else pure text

-- A step of `resolveACRToken`: a form is sent, and a field of the answer read.
exchange : Text → Text → Text → List (Text × Text) → (Net → Text → Result Text) → R Text
unfolding not_blank
exchange label field url form decode = do
  new_request url
  out ← send_labelled label (form_request url form)
  fine ← succeeded label out
  text ← decode_body (label ++ codes " decode") decode fine
  not_blank label field text

abbrev login_form : AcrCredentials → List (Text × Text)
login_form c =
    (codes "grant_type", codes "client_credentials")
    ∷ (codes "client_id", c.client_id)
    ∷ (codes "client_secret", c.client_secret)
    ∷ (codes "scope", codes "https://management.azure.com/.default")
    ∷ []

abbrev exchange_form : AcrCredentials → Text → List (Text × Text)
exchange_form c access_token =
    (codes "grant_type", codes "access_token")
    ∷ (codes "service", c.registry_name)
    ∷ (codes "access_token", access_token)
    ∷ []

abbrev access_form : AcrCredentials → Text → List (Text × Text)
access_form c refresh_token =
    (codes "grant_type", codes "refresh_token")
    ∷ (codes "service", c.registry_name)
    ∷ (codes "refresh_token", refresh_token)
    ∷ (codes "scope", codes "repository:*:*")
    ∷ []

abbrev for_50_minutes : Text → R Token
for_50_minutes token net c =
    (ok (record { value = token; expires_at = net.clock c.sent + 3000 * second }), c)

unfoldable pub resolve_acr_token : Acr → R Token
unfolding exchange exchange_url
resolve_acr_token a net =
    (exchange (codes "acr aad token") (codes "access_token") (login_url net.path_escape a)
          (login_form a.creds) Net.access_token
        >>= λ aad_token.
            exchange (codes "acr exchange") (codes "refresh_token") (exchange_url a)
              (exchange_form a.creds aad_token) Net.refresh_token
            >>= λ refresh_token.
                exchange (codes "acr access token") (codes "access_token") (exchange_url a)
                  (access_form a.creds refresh_token) Net.access_token
                >>= for_50_minutes)
      net

abbrev keep_token : Token → R Text
keep_token token net c = (ok token.value, record c { token = some token })

unfoldable pub fresh_acr_token : Acr → R Text
unfolding resolve_acr_token
fresh_acr_token a = resolve_acr_token a >>= keep_token

abbrev pub kept_or_fresh : Acr → Option Token → R Text
unfolding fresh_acr_token
kept_or_fresh a none net c = fresh_acr_token a net c
kept_or_fresh a (some token) net c =
    (if ltb (net.clock c.sent) token.expires_at then pure token.value else fresh_acr_token a) net c

unfoldable pub get_acr_token : Acr → R Text
unfolding kept_or_fresh
get_acr_token a net c = kept_or_fresh a c.token net c

is_blank : Text → Bool
unfolding trim_space
is_blank t = is_empty (trim_space t)

unfoldable pub test_acr : Acr → R (Unit {0})
unfolding get_acr_token is_blank
test_acr a =
    if is_blank a.creds.client_id
      || (is_blank a.creds.client_secret
          || (is_blank a.creds.tenant_id || is_blank a.creds.registry_name))
    then raise
        (plain (codes "acr: client_id, client_secret, tenant_id, and registry_name are required"))
    else (get_acr_token a >>= λ token. pure tt)

abbrev bearer : Text → Text
bearer token = codes "Bearer " ++ token

abbrev acr_catalog : Acr → Text → Source
acr_catalog a token = record {
  base = acr_base a;
  authorization = bearer token;
  failed = codes "acr catalog";
  undecoded = codes "acr catalog decode";
  names = Net.repositories;
}

abbrev acr_tags : Acr → Text → Source
acr_tags a token = record {
  base = acr_base a;
  authorization = bearer token;
  failed = codes "acr tags list";
  undecoded = codes "acr tags decode";
  names = Net.tags;
}

unfoldable pub list_acr_repositories : ℕ → Acr → R (Option (List Text))
unfolding get_acr_token list_catalog
list_acr_repositories rounds a = do
  token ← get_acr_token a
  list_catalog (acr_catalog a token) rounds

unfoldable pub list_acr_tags : ℕ → Acr → Text → R (Option (List Text))
unfolding get_acr_token list_repository_tags
list_acr_tags rounds a repository = do
  token ← get_acr_token a
  list_repository_tags (codes "acr") (acr_tags a token) rounds repository

unfoldable pub get_acr_digest : Acr → Text → Text → R Text
unfolding get_acr_token manifest_digest
get_acr_digest a repository tag = do
  token ← get_acr_token a
  manifest_digest (codes "acr") (acr_base a) (bearer token) repository tag
