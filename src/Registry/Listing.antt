-- ===== src/Registry/Listing.antt =====
-- The loops over the pages of a registry with API version 2, the same in v2.go, acr.go and gcr.go
-- of internal/registry but for the texts of their errors.
pub mod Sorted
pub mod Pages
use vullify_backend.Prelude.{
  ℕ, zero, suc, Bool, true, false, ◌&&◌, ◌||◌, Option, none, some, List, [], ◌∷◌, ◌++◌,
  if◌then◌else◌, ltb, leb, ◌==◌,
}
use vullify_backend.Text.{Text, codes, is_empty, trim_space}
use vullify_backend.World.Monad.{Result, ok, err}
use vullify_backend.Scanner.{plain}
use vullify_backend.Registry.Http.{
  R, Net, Request, Response, get, head, pure, raise, given, ◌>>=◌, ◌>>◌, labelled, new_request,
  send, decoded, bad_status, succeeded,
}
use vullify_backend.Registry.Link.{next_catalog_url, encode_repo_path}

-- The order of `sort.Strings`: that of the code points, as UTF-8 keeps it.
unfoldable pub text_le : Text → Text → Bool
text_le [] t = true
text_le (c ∷ s) [] = false
text_le (c ∷ s) (d ∷ t) = ltb c d || (c == d && text_le s t)

unfoldable pub insert_text : Text → List Text → List Text
unfolding text_le
insert_text t [] = t ∷ []
insert_text t (u ∷ us) = if text_le t u then t ∷ u ∷ us else u ∷ insert_text t us

unfoldable pub sort_texts : List Text → List Text
unfolding insert_text
sort_texts [] = []
sort_texts (t ∷ ts) = insert_text t (sort_texts ts)

-- What a loop knows: the start of the registry's addresses, the header, its errors' texts, and
-- what it reads from a body.
pub record Source : Type 0 where
  pub base : Text
  pub authorization : Text
  pub failed : Text
  pub undecoded : Text
  pub names : Net → Text → Result (List Text)

abbrev pub page_request : Text → Text → Request
page_request authorization url = record {
  method = get;
  url = url;
  authorization = authorization;
  accept = [];
  private_token = [];
  form = [];
}

-- A page's names, and the address of the next page.
read_page : Source → Response → Text → R (List Text × Text)
read_page src out text =
    if ltb out.status 200 || leb 300 out.status
    then raise (bad_status src.failed out.status_text text)
    else (decoded (λ net t. labelled src.undecoded (src.names net t)) text >>= λ names.
        pure (names, next_catalog_url out.link src.base))

fetch_page : Source → Text → R (List Text × Text)
unfolding read_page
fetch_page src url = do
  new_request url
  out ← send (page_request src.authorization url)
  text ← given out.body
  read_page src out text

-- The loop, for a number of rounds: none where it has not ended after them.
unfoldable pub list_from : Source → ℕ → Text → List Text → R (Option (List Text))
unfolding fetch_page sort_texts
list_from src rounds [] acc = pure (some (sort_texts acc))
list_from src zero (c ∷ url) acc = pure none
list_from src (suc rounds) (c ∷ url) acc = do
  page ← fetch_page src (c ∷ url)
  list_from src rounds page.1 (acc ++ page.0)

unfoldable pub list_catalog : Source → ℕ → R (Option (List Text))
unfolding list_from
list_catalog src rounds = list_from src rounds (src.base ++ codes "/v2/_catalog?n=100") []

unfoldable pub list_repository_tags : Text → Source → ℕ → Text → R (Option (List Text))
unfolding list_from encode_repo_path
list_repository_tags kind src rounds repository =
    let repository : Text = trim_space repository in
    if is_empty repository then raise (plain (kind ++ codes ": empty repository")) else λ net.
    list_from src rounds
      (src.base
        ++ (codes "/v2/" ++ (encode_repo_path net.path_escape repository ++ codes "/tags/list")))
      [] net

-- `GetDigest`, with the header at hand.
abbrev digest_of : Text → Response → R Text
digest_of kind out =
    if is_empty out.digest
    then raise (plain (kind ++ codes ": missing Docker-Content-Digest header"))
    else pure out.digest

abbrev digest_request : Text → Text → Request
digest_request authorization url = record {
  method = head;
  url = url;
  authorization = authorization;
  accept = codes "application/vnd.docker.distribution.manifest.v2+json";
  private_token = [];
  form = [];
}

-- Of the texts that its errors start with.
unfoldable pub asked_digest : Text → Text → Text → Text → R Text
asked_digest label kind authorization url = do
  new_request url
  out ← send (digest_request authorization url)
  fine ← succeeded label out
  digest_of kind fine

unfoldable pub manifest_digest : Text → Text → Text → Text → Text → R Text
unfolding asked_digest encode_repo_path
manifest_digest kind base authorization repository tag =
    if is_empty repository || is_empty tag
    then raise (plain (kind ++ codes ": repository and tag required"))
    else λ net.
        asked_digest (kind ++ codes " manifest") kind authorization
          (base
            ++ (codes "/v2/"
                ++ (encode_repo_path net.path_escape repository
                    ++ (codes "/manifests/" ++ net.path_escape tag))))
          net
