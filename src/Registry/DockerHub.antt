-- ===== src/Registry/DockerHub.antt =====
-- The connector of Docker Hub: internal/registry/dockerhub.go.
use vullify_backend.Prelude.{
  ℕ, zero, suc, ◌||◌, Option, none, some, List, [], ◌∷◌, ◌++◌, if◌then◌else◌, map,
}
use vullify_backend.Text.{Text, codes, is_empty, trim_space, trim_slashes_right}
use vullify_backend.Text.Cut.{cut_first}
use vullify_backend.Scanner.{plain}
use vullify_backend.Registry.Http.{
  R, pure, raise, given, ◌>>=◌, ◌>>◌, labelled, new_request, send, decoded, read_all, succeeded,
}
use vullify_backend.Registry.Listing.{page_request, asked_digest}

-- `DockerHub`, with the credentials that it uses.
pub record DockerHub : Type 0 where
  pub hub_api_url : Text
  pub auth_url : Text
  pub registry_url : Text
  pub username : Text
  pub password : Text
  pub namespace : Text

abbrev hub_url : Text
hub_url = codes "https://hub.docker.com"

abbrev auth_docker_url : Text
auth_docker_url = codes "https://auth.docker.io"

abbrev registry_1_url : Text
registry_1_url = codes "https://registry-1.docker.io"

unfoldable pub new_docker_hub : Text → Text → Text → DockerHub
new_docker_hub username password namespace = record {
  hub_api_url = hub_url;
  auth_url = auth_docker_url;
  registry_url = registry_1_url;
  username = username;
  password = password;
  namespace = namespace;
}

base_or : Text → Text → Text
unfolding trim_slashes_right
base_or default url = if is_empty url then default else trim_slashes_right url

abbrev hub_base : DockerHub → Text
hub_base d = base_or hub_url d.hub_api_url

abbrev auth_base : DockerHub → Text
auth_base d = base_or auth_docker_url d.auth_url

abbrev docker_base : DockerHub → Text
docker_base d = base_or registry_1_url d.registry_url

abbrev namespace_of : DockerHub → Text
namespace_of d = if is_empty d.namespace then d.username else d.namespace

abbrev parts_of : DockerHub → Text → Option (Text × Text) → Text × Text
parts_of d repository none = (namespace_of d, repository)
parts_of d repository (some parts) = parts

unfoldable pub parse_repo : DockerHub → Text → Text × Text
unfolding cut_first trim_space
parse_repo d repository =
    parts_of d (trim_space repository) (cut_first b'/' (trim_space repository))

-- `applyHubAuth`: the header of `SetBasicAuth`.
abbrev hub_auth : (Text → Text) → DockerHub → Text
hub_auth base64 d =
    if is_empty d.username then [] else codes "Basic " ++ base64 (d.username ++ (b':' ∷ d.password))

hub_request : DockerHub → Text → R (Unit {0})
hub_request d url net =
    (new_request url
        >> (send (page_request (hub_auth net.base64 d) url)
            >>= succeeded (codes "dockerhub hub api")
            >>= λ out. pure tt))
      net

unfoldable pub test_docker_hub : DockerHub → R (Unit {0})
unfolding hub_request base_or
test_docker_hub d net =
    (if is_empty (namespace_of d)
        then raise (plain (codes "dockerhub: namespace or username required"))
        else hub_request d (
            hub_base d
            ++ (codes "/v2/repositories/"
                ++ (net.path_escape (namespace_of d) ++ codes "/?page_size=1"))))
      net

hub_page_at : Text → DockerHub → Text → R (List Text × Text)
hub_page_at label d url net =
    (new_request url
        >> (send (page_request (hub_auth net.base64 d) url)
            >>= read_all label
            >>= decoded (λ net t. labelled (label ++ codes " decode") (net.hub_page t))))
      net

-- The loop over `next`, for a number of rounds: none where it has not ended after them.
unfoldable pub hub_names :
    Text → DockerHub → (Text → Text) → ℕ → Text → List Text → R (Option (List Text))
unfolding hub_page_at
hub_names label d name rounds [] acc = pure (some acc)
hub_names label d name zero (c ∷ url) acc = pure none
hub_names label d name (suc rounds) (c ∷ url) acc = do
  page ← hub_page_at label d (c ∷ url)
  hub_names label d name rounds page.1 (acc ++ map name page.0)

unfoldable pub list_hub_repositories : ℕ → DockerHub → R (Option (List Text))
unfolding hub_names base_or
list_hub_repositories rounds d net =
    (if is_empty (namespace_of d)
        then raise (plain (codes "dockerhub: namespace or username required"))
        else hub_names (codes "dockerhub list repos") d
            (λ name. namespace_of d ++ (codes "/" ++ name)) rounds
            (hub_base d
              ++ (codes "/v2/repositories/" ++ (net.path_escape (namespace_of d) ++ codes "/")))
            [])
      net

abbrev invalid_repository : (Text → Text) → Text → Text
invalid_repository quote repository = codes "dockerhub: invalid repository " ++ quote repository

abbrev with_repo : {A : Type 0} → DockerHub → Text → (Text → Text → R A) → R A
with_repo d repository k net =
    let p : Text × Text = parse_repo d repository in
    (if is_empty p.0 || is_empty p.1
        then raise (plain (invalid_repository net.quote repository))
        else k p.0 p.1)
      net

unfoldable pub list_hub_tags : ℕ → DockerHub → Text → R (Option (List Text))
unfolding hub_names base_or parse_repo
list_hub_tags rounds d repository = with_repo d repository (λ ns repo net.
    hub_names (codes "dockerhub list tags") d (λ name. name) rounds
      (hub_base d
        ++ (codes "/v2/repositories/"
            ++ (net.path_escape ns ++ (codes "/" ++ (net.path_escape repo ++ codes "/tags")))))
      [] net)

token_at : DockerHub → Text → R Text
token_at d url net =
    (new_request url
        >> (send (page_request (hub_auth net.base64 d) url)
            >>= read_all (codes "dockerhub auth token")
            >>= decoded (λ net t. labelled (codes "dockerhub auth token decode") (net.hub_token t))
            >>= λ token.
                (if is_empty token
                  then raise (plain (codes "dockerhub: empty registry token"))
                  else pure token)))
      net

registry_token : DockerHub → Text → Text → R Text
unfolding token_at base_or
registry_token d ns repo net =
    (given (
          net.with_query (auth_base d ++ codes "/token") (
            (codes "service", codes "registry.docker.io")
            ∷ (codes "scope", codes "repository:" ++ (ns ++ (codes "/" ++ (repo ++ codes ":pull"))))
            ∷ []))
        >>= token_at d)
      net

unfoldable pub get_hub_digest : DockerHub → Text → Text → R Text
unfolding registry_token base_or parse_repo asked_digest
get_hub_digest d repository tag = with_repo d repository (λ ns repo net.
    (registry_token d ns repo >>= λ token.
    asked_digest (codes "dockerhub registry manifest") (codes "dockerhub")
      (codes "Bearer " ++ token)
      (docker_base d
        ++ (codes "/v2/"
            ++ (net.path_escape ns
                ++ (codes "/"
                    ++ (net.path_escape repo ++ (codes "/manifests/" ++ net.path_escape tag)))))))
      net)
