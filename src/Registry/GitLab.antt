-- ===== src/Registry/GitLab.antt =====
-- The connector of GitLab's registry: internal/registry/gitlab.go. An ID is the text of its digits.
use vullify_backend.Prelude.{
  ℕ, zero, suc, Bool, true, false, ◌&&◌, ◌||◌, not, Option, none, some, List, [], ◌∷◌, ◌++◌,
  if◌then◌else◌, ltb, length, find_row,
}
use vullify_backend.Text.{Text, codes, text_eq, is_empty, trim_space, trim_slashes_right, decimal}
use vullify_backend.World.Monad.{Result}
use vullify_backend.Scanner.{plain}
use vullify_backend.Registry.Http.{
  R, Net, Request, GitLabRepo, GitLabTag, get, pure, raise, ◌>>=◌, ◌>>◌, labelled, new_request,
  send, decoded, read_all, succeeded,
}

-- `GitLab`, with the credentials that it uses.
pub record GitLab : Type 0 where
  pub base_url : Text
  pub token : Text
  pub project_id : Text

unfoldable pub api_base : GitLab → Text
unfolding trim_space trim_slashes_right
api_base g =
    let b : Text = trim_space g.base_url in
    trim_slashes_right (if is_empty b then codes "https://gitlab.com" else b) ++ codes "/api/v4"

abbrev git_lab_request : GitLab → Text → Request
git_lab_request g url = record {
  method = get;
  url = url;
  authorization = [];
  accept = [];
  private_token = g.token;
  form = [];
}

repositories_url : GitLab → Text
unfolding api_base
repositories_url g =
    api_base g ++ (codes "/projects/" ++ (g.project_id ++ codes "/registry/repositories"))

-- `?page=%d&per_page=100`.
abbrev page_url : Text → ℕ → Text
page_url url page = url ++ (codes "?page=" ++ (decimal page ++ codes "&per_page=100"))

-- The error of a project that is 0.
abbrev with_project : {A : Type 0} → GitLab → R A → R A
with_project g m =
    if text_eq g.project_id (codes "0")
    then raise (plain (codes "gitlab: project_id required"))
    else m

test_git_lab_at : GitLab → Text → R (Unit {0})
test_git_lab_at g url = do
  new_request url
  out ← send (git_lab_request g url)
  fine ← succeeded (codes "gitlab") out
  pure tt

unfoldable pub test_git_lab : GitLab → R (Unit {0})
unfolding test_git_lab_at repositories_url text_eq
test_git_lab g = with_project g (
    if is_empty g.token
    then raise (plain (codes "gitlab: token required"))
    else test_git_lab_at g (repositories_url g ++ codes "?page=1&per_page=1"))

unfoldable pub items_at :
    {A : Type 0} → GitLab → Text → (Net → Text → Result (List A)) → Text → R (List A)
items_at g label decode url = do
  new_request url
  out ← send (git_lab_request g url)
  text ← read_all label out
  decoded decode text

-- The loop over pages that ends with an empty page and, where `short` says so, with a page of less
-- than 100 items; none where it has not ended after a number of rounds.
abbrev pages_end : {A : Type 0} → Bool → List A → Bool
pages_end short [] = true
pages_end short (a ∷ items) = short && ltb (length (a ∷ items)) 100

unfoldable pub items_from :
    {A : Type 0}
    → GitLab
    → Text
    → Bool
    → (Net → Text → Result (List A))
    → Text
    → ℕ
    → ℕ
    → List A
    → R (Option (List A))
unfolding items_at
items_from g label short decode url zero page acc = pure none
items_from g label short decode url (suc rounds) page acc = do
  items ← items_at g label decode (page_url url page)
  if pages_end short items
      then pure (some (acc ++ items))
      else items_from g label short decode url rounds (suc page) (acc ++ items)

-- A repository's path, or its name, or its location; one without any is left out.
abbrev repo_name : GitLabRepo → Text
repo_name r = if is_empty r.path then (if is_empty r.name then r.location else r.name) else r.path

unfoldable pub repo_names : List GitLabRepo → List Text
repo_names [] = []
repo_names (r ∷ repos) =
    if is_empty (repo_name r) then repo_names repos else repo_name r ∷ repo_names repos

abbrev map_some : {A B : Type 0} → (A → B) → Option A → Option B
map_some f none = none
map_some f (some a) = some (f a)

unfoldable pub list_git_lab_repositories : ℕ → GitLab → R (Option (List Text))
unfolding items_from repo_names repositories_url text_eq
list_git_lab_repositories rounds g = with_project g (
    items_from g (codes "gitlab list repositories") false
      (λ net t. labelled (codes "gitlab list repositories decode") (net.git_lab_repositories t))
      (repositories_url g) rounds 1 []
    >>= λ repos. pure (map_some repo_names repos))

-- `listRepositoriesRaw`.
unfoldable pub raw_repositories : ℕ → GitLab → R (Option (List GitLabRepo))
unfolding items_from repositories_url
raw_repositories rounds g =
    items_from g (codes "gitlab list repositories") false Net.git_lab_repositories
      (repositories_url g) rounds 1 []

abbrev is_called : Text → GitLabRepo → Bool
is_called repository r =
    text_eq r.path repository || (text_eq r.name repository || text_eq r.location repository)

found_id : Text → Option GitLabRepo → R (Option Text)
found_id repository none = raise (plain (codes "gitlab: repository not found: " ++ repository))
found_id repository (some r) = pure (some r.id)

id_among : Text → Option (List GitLabRepo) → R (Option Text)
unfolding found_id text_eq
id_among repository none = pure none
id_among repository (some repos) = found_id repository (find_row (is_called repository) repos)

id_of : ℕ → GitLab → Text → Option Text → R (Option Text)
unfolding raw_repositories id_among
id_of rounds g repository (some id) = pure (some id)
id_of rounds g repository none = raw_repositories rounds g >>= id_among repository

-- None where the listing has not ended.
unfoldable pub resolve_repository_id : ℕ → GitLab → Text → R (Option Text)
unfolding id_of trim_space
resolve_repository_id rounds g repository net =
    let repository : Text = trim_space repository in
    (if is_empty repository
        then raise (plain (codes "gitlab: empty repository"))
        else id_of rounds g repository (net.atoi repository))
      net

tags_url : GitLab → Text → Text
unfolding repositories_url
tags_url g id = repositories_url g ++ (codes "/" ++ (id ++ codes "/tags"))

abbrev tag_names : List GitLabTag → List Text
tag_names [] = []
tag_names (t ∷ tags) = t.name ∷ tag_names tags

tags_of_id : ℕ → GitLab → Option Text → R (Option (List Text))
unfolding items_from tags_url
tags_of_id rounds g none = pure none
tags_of_id rounds g (some id) =
    items_from g (codes "gitlab list tags") true
      (λ net t. labelled (codes "gitlab list tags decode") (net.git_lab_tags t)) (tags_url g id)
      rounds 1 []
    >>= λ tags. pure (map_some tag_names tags)

unfoldable pub list_git_lab_tags : ℕ → GitLab → Text → R (Option (List Text))
unfolding resolve_repository_id tags_of_id text_eq
list_git_lab_tags rounds g repository =
    with_project g (resolve_repository_id rounds g repository >>= tags_of_id rounds g)

abbrev shows_digest : Text → GitLabTag → Bool
shows_digest tag t = text_eq t.name tag && not (is_empty t.digest)

not_shown : Text → R Text
not_shown tag net =
    raise
      (plain (
        codes "gitlab: digest not found for tag "
        ++ (net.quote tag ++ codes " (API may omit digest for this GitLab version)")))
      net

-- A page without the digest is followed by the next one, unless it is the last.
unfoldable pub digest_from : GitLab → Text → Text → ℕ → ℕ → R (Option Text)
unfolding items_at not_shown text_eq
digest_from g tag url zero page = pure none
digest_from g tag url (suc rounds) page =
    items_at g (codes "gitlab tags")
      (λ net t. labelled (codes "gitlab tags decode") (net.git_lab_tags t)) (page_url url page)
    >>= λ tags. elim (find_row (shows_digest tag) tags) [
      | some t ↦ pure (some t.digest)
      | none ↦
          if pages_end true tags
          then (not_shown tag >>= λ d. pure (some d))
          else digest_from g tag url rounds (suc page)
    ]

digest_of_id : ℕ → GitLab → Text → Option Text → R (Option Text)
unfolding digest_from tags_url
digest_of_id rounds g tag none = pure none
digest_of_id rounds g tag (some id) = digest_from g tag (tags_url g id) rounds 1

unfoldable pub get_git_lab_digest : ℕ → GitLab → Text → Text → R (Option Text)
unfolding resolve_repository_id digest_of_id text_eq
get_git_lab_digest rounds g repository tag =
    with_project g (resolve_repository_id rounds g repository >>= digest_of_id rounds g tag)
