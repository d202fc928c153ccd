-- ===== src/Registry/Ghcr.antt =====
-- The connector of GitHub's registry: internal/registry/ghcr.go.
use vullify_backend.Prelude.{◌||◌, List, [], ◌++◌, if◌then◌else◌, ◌==◌}
use vullify_backend.Text.{Text, codes, is_empty, trim_space, trim_slashes_right}
use vullify_backend.Scanner.{plain}
use vullify_backend.Registry.Http.{
  R, Response, pure, raise, ◌>>=◌, ◌>>◌, labelled, new_request, send, decoded, bad_status, read_all,
}
use vullify_backend.Registry.Link.{encode_repo_path}
use vullify_backend.Registry.Listing.{page_request, sort_texts, manifest_digest}

-- `GHCR`.
pub record Ghcr : Type 0 where
  pub registry_url : Text
  pub github_token : Text

abbrev ghcr_url : Text
ghcr_url = codes "https://ghcr.io"

unfoldable pub new_ghcr : Text → Ghcr
new_ghcr github_token = record { registry_url = ghcr_url; github_token = github_token }

unfoldable pub ghcr_base : Ghcr → Text
unfolding trim_slashes_right
ghcr_base g = if is_empty g.registry_url then ghcr_url else trim_slashes_right g.registry_url

unfoldable pub ghcr_auth_header : Ghcr → Text
unfolding trim_space
ghcr_auth_header g =
    let t : Text = trim_space g.github_token in if is_empty t then [] else codes "Bearer " ++ t

test_ghcr_answer : Response → R (Unit {0})
test_ghcr_answer out =
    if out.status == 200 || (out.status == 401 || out.status == 403)
    then pure tt
    else raise (bad_status (codes "ghcr registry") out.status_text out.brief)

unfoldable pub test_ghcr : Ghcr → R (Unit {0})
unfolding test_ghcr_answer ghcr_base ghcr_auth_header trim_space
test_ghcr g =
    if is_empty (trim_space g.github_token)
    then raise (plain (codes "ghcr: github_token required"))
    else (do
      new_request (ghcr_base g ++ codes "/v2/")
      out ← send (page_request (ghcr_auth_header g) (ghcr_base g ++ codes "/v2/"))
      test_ghcr_answer out)

unfoldable pub list_ghcr_repositories : Ghcr → R (List Text)
list_ghcr_repositories g = raise (
    plain (
      codes
        "ghcr: listing repositories is not supported by the registry API; add images via ad-hoc scan or webhook"))

ghcr_tags_at : Ghcr → Text → R (List Text)
unfolding sort_texts ghcr_auth_header
ghcr_tags_at g url = do
  new_request url
  out ← send (page_request (ghcr_auth_header g) url)
  text ← read_all (codes "ghcr tags") out
  names ← decoded (λ net t. labelled (codes "ghcr tags decode") (net.tags t)) text
  pure (sort_texts names)

-- One page only.
unfoldable pub list_ghcr_tags : Ghcr → Text → R (List Text)
unfolding ghcr_tags_at ghcr_base encode_repo_path trim_space
list_ghcr_tags g repository net =
    let repository : Text = trim_space repository in
    (if is_empty repository
        then raise (plain (codes "ghcr: empty repository"))
        else ghcr_tags_at g (
            ghcr_base g
            ++ (codes "/v2/"
                ++ (encode_repo_path net.path_escape repository ++ codes "/tags/list"))))
      net

unfoldable pub get_ghcr_digest : Ghcr → Text → Text → R Text
unfolding manifest_digest ghcr_base ghcr_auth_header trim_space
get_ghcr_digest g repository tag =
    manifest_digest (codes "ghcr") (ghcr_base g) (ghcr_auth_header g) (trim_space repository)
      (trim_space tag)
