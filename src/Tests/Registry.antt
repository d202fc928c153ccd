-- ===== src/Tests/Registry.antt =====
-- The theorems on the connectors of registries applied at concrete data.
use vullify_backend.Prelude.{
  ℕ, zero, suc, ◌≡◌, refl, some, none, List, [], ◌∷◌, arith, if◌then◌else◌,
}
use vullify_backend.Text.{Text, codes, has_prefix, trim_space, text_eq}
use vullify_backend.World.Monad.{Result, ok}
use vullify_backend.Registry.Http.{Net, Conn, Request, Response, GitLabTag}
use vullify_backend.Registry.Challenge.{BearerChallenge, parse_www_authenticate}
use vullify_backend.Registry.Challenge.RoundTrip.{print_challenge, parse_www_authenticate-print}
use vullify_backend.Registry.Listing.Pages.{link_to}
use vullify_backend.Registry.V2.{V2Registry, auth_headers, list_repositories, get_bearer_token}
use vullify_backend.Registry.V2.Headers.{IsAuthorized, auth_headers-IsAuthorized}
use vullify_backend.Registry.V2.Catalog.{Lists, list_repositories-Lists}

abbrev harbor_challenge : BearerChallenge
harbor_challenge = record {
  realm = codes "https://harbor.test/service/token";
  service = codes "harbor, registry";
  scope = codes "registry:catalog:*";
}

parse_www_authenticate-print_example :
    parse_www_authenticate (print_challenge harbor_challenge) ≡ harbor_challenge
parse_www_authenticate-print_example = parse_www_authenticate-print harbor_challenge refl refl refl

abbrev answer_of : ℕ → Text → Text → Text → Response
answer_of status body challenge link = record {
  status = status;
  status_text = [];
  body = ok body;
  brief = [];
  www_authenticate = challenge;
  link = link;
  digest = [];
}

abbrev harbor : V2Registry
harbor = record {
  registry_url = codes "https://harbor.test";
  username = codes "robot";
  password = codes "secret";
}

-- The first answer is a challenge, the second a token.
abbrev challenging : ℕ → Request → Result Response
challenging zero req = ok (answer_of 401 [] (print_challenge harbor_challenge) [])
challenging (suc n) req = ok (answer_of 200 (codes "t0k") [] [])

abbrev second_path : Text
second_path = codes "/v2/_catalog?n=100&last=b"

-- The first answer is a page that links to the second.
abbrev paging : ℕ → Request → Result Response
paging zero req = ok (answer_of 200 (codes "first") [] (link_to second_path))
paging (suc n) req = ok (answer_of 200 (codes "second") [] [])

abbrev some_names : Text → List Text
some_names t = if text_eq t (codes "first") then codes "b" ∷ codes "a" ∷ [] else codes "c" ∷ []

abbrev pages_of : Text → List GitLabTag
pages_of t =
    if text_eq t (codes "first")
    then record { name = codes "1.0"; digest = codes "sha256:aa" } ∷ []
    else []

abbrev net_of : (ℕ → Request → Result Response) → Net
net_of answer = record {
  answer = answer;
  clock = λ n. 100;
  refused = λ url. none;
  path_escape = λ t. t;
  with_query = λ url q. ok url;
  base64 = λ t. t;
  repositories = λ t. ok (some_names t);
  tags = λ t. ok (some_names t);
  v2_token = λ t. ok (t, ([], 300));
  access_token = λ t. ok t;
  refresh_token = λ t. ok t;
  hub_page = λ t. ok ([], []);
  hub_token = λ t. ok t;
  git_lab_repositories = λ t. ok [];
  git_lab_tags = λ t. ok (pages_of t);
  atoi = λ t. none;
  quote = λ t. t;
}

auth_headers-IsAuthorized_example :
    IsAuthorized
      (net_of challenging)
      harbor
      (auth_headers harbor (net_of challenging) (record { token = none; sent = 0 }))
auth_headers-IsAuthorized_example =
    auth_headers-IsAuthorized (net_of challenging) harbor (record { token = none; sent = 0 }) tt

abbrev with_token : Conn
with_token = record { token = some (record { value = codes "t0k"; expires_at = 200 }); sent = 0 }

list_repositories-Lists_example :
    Lists
      (codes "b" ∷ codes "a" ∷ codes "c" ∷ [])
      2
      (list_repositories 5 harbor (net_of paging) with_token)
unfolding auth_headers get_bearer_token has_prefix trim_space text_eq
list_repositories-Lists_example =
    list_repositories-Lists (net_of paging) harbor (codes "Bearer t0k") 5
      (codes "b" ∷ codes "a" ∷ []) ((second_path, codes "c" ∷ []) ∷ []) with_token with_token refl
      (omega arith)
      (
        (
          refl,
          (
            answer_of 200 (codes "first") [] (link_to second_path),
            (refl, (refl, (refl, (codes "first", (refl, refl))))),
          ),
        ),
        (
          (refl, (refl, refl)),
          (
            refl,
            (
              answer_of 200 (codes "second") [] [],
              (refl, (refl, (refl, (codes "second", (refl, refl))))),
            ),
          ),
        ),
      )
