-- ===== src/Registry/Http.antt =====
-- What the connectors of internal/registry use of net/http: requests and their answers, in the
-- order in which they are sent. The other packages they call are arguments too.
use vullify_backend.Prelude.{ℕ, suc, Option, none, some, List, ◌++◌, if◌then◌else◌, ◌||◌, ltb, leb}
use vullify_backend.Text.{Text, codes, trim_space}
use vullify_backend.Scanner.{Error, plain, wrapped}
use vullify_backend.World.Monad.{Result, ok, err}

pub data Method : Type 0 where
  get head post : Method

-- The headers that are not set are empty; `private_token` is GitLab's, and `form` the body of a POST.
pub record Request : Type 0 where
  pub method : Method
  pub url : Text
  pub authorization : Text
  pub accept : Text
  pub private_token : Text
  pub form : List (Text × Text)

-- `body` is what `io.ReadAll` gives, `brief` what it gives of the first 2048 bytes, its error
-- dropped.
pub record Response : Type 0 where
  pub status : ℕ
  pub status_text : Text
  pub body : Result Text
  pub brief : Text
  pub www_authenticate : Text
  pub link : Text
  pub digest : Text

-- A repository and a tag as the API of GitLab has them; an ID is its decimal digits.
pub record GitLabRepo : Type 0 where
  pub id : Text
  pub name : Text
  pub path : Text
  pub location : Text

pub record GitLabTag : Type 0 where
  pub name : Text
  pub digest : Text

-- `answer` and `clock` are of the number of the requests that were sent. `refused` is the error of
-- `http.NewRequestWithContext` for a URL. `with_query` is `url.Parse` and `String` with the keys of
-- the query that are given set. `repositories`, `tags`, `v2_token`, `access_token` and
-- `refresh_token` decode a body, and so do `hub_page`, to the names and the address of the next page,
-- `hub_token`, `git_lab_repositories` and `git_lab_tags`. `int` of `expires_in` is its 64 bits.
-- `atoi` is `strconv.Atoi`, with its number printed, and `quote` the verb `%q`.
pub record Net : Type 0 where
  pub answer : ℕ → Request → Result Response
  pub clock : ℕ → ℕ
  pub refused : Text → Option Error
  pub path_escape : Text → Text
  pub with_query : Text → List (Text × Text) → Result Text
  pub base64 : Text → Text
  pub repositories : Text → Result (List Text)
  pub tags : Text → Result (List Text)
  pub v2_token : Text → Result (Text × (Text × ℕ))
  pub access_token : Text → Result Text
  pub refresh_token : Text → Result Text
  pub hub_page : Text → Result (List Text × Text)
  pub hub_token : Text → Result Text
  pub git_lab_repositories : Text → Result (List GitLabRepo)
  pub git_lab_tags : Text → Result (List GitLabTag)
  pub atoi : Text → Option Text
  pub quote : Text → Text

-- `v2CachedToken` and `acrCachedToken`.
pub record Token : Type 0 where
  pub value : Text
  pub expires_at : ℕ

-- A connector's token, and the number of the requests sent.
pub record Conn : Type 0 where
  pub token : Option Token
  pub sent : ℕ

abbrev pub R : Type 0 → Type 0
R A = Net → Conn → Result A × Conn

abbrev pub pure : {A : Type 0} → A → R A
pure a net c = (ok a, c)

abbrev pub raise : {A : Type 0} → Error → R A
raise e net c = (err e, c)

abbrev pub given : {A : Type 0} → Result A → R A
given r net c = (r, c)

abbrev pub after : {A B : Type 0} → (A → R B) → Net → Result A × Conn → Result B × Conn
after f net (ok a, c) = f a net c
after f net (err e, c) = (err e, c)

infixl 5 ◌>>=◌ ◌>>◌
abbrev pub ◌>>=◌ : {A B : Type 0} → R A → (A → R B) → R B
◌>>=◌ m f net c = after f net (m net c)

abbrev pub ◌>>◌ : {A B : Type 0} → R A → R B → R B
◌>>◌ m n = m >>= λ a. n

-- `fmt.Errorf("…: %w", err)` of an error.
abbrev pub labelled : {A : Type 0} → Text → Result A → Result A
labelled label (ok a) = ok a
labelled label (err e) = err (wrapped label e)

-- The result of an operation that is looked at.
abbrev pub attempt : {A : Type 0} → R A → R (Result A)
attempt m net c = let (r, c1) = m net c in (ok r, c1)

abbrev pub refused_as : Option Error → R (Unit {0})
refused_as none = pure tt
refused_as (some e) = raise e

abbrev pub new_request : Text → R (Unit {0})
new_request url net = refused_as (net.refused url) net

abbrev pub send : Request → R Response
send req net c = (net.answer c.sent req, record c { sent = suc c.sent })

-- A request whose error of the transport is wrapped.
abbrev pub send_labelled : Text → Request → R Response
send_labelled label req net c =
    (labelled label (net.answer c.sent req), record c { sent = suc c.sent })

abbrev pub decoded : {A : Type 0} → (Net → Text → Result A) → Text → R A
decoded decode text net = given (decode net text) net

abbrev pub joined : {A : Type 0} → Result Text → (Text → Result A) → Result A
joined (ok text) decode = decode text
joined (err e) decode = err e

-- `json.NewDecoder(resp.Body).Decode`, with its error wrapped.
abbrev pub decode_body : {A : Type 0} → Text → (Net → Text → Result A) → Response → R A
decode_body label decode out net = given (labelled label (joined out.body (decode net))) net

-- `"…: %s: %s"` of a status and a text.
abbrev pub bad_status : Text → Text → Text → Error
bad_status label status_text text =
    plain (label ++ (codes ": " ++ (status_text ++ (codes ": " ++ trim_space text))))

-- `io.ReadAll` and the test of the status, with the body in the error's text.
abbrev pub read_all : Text → Response → R Text
read_all label out = given out.body >>= λ text.
    (if ltb out.status 200 || leb 300 out.status
      then raise (bad_status label out.status_text text)
      else pure text)

-- `resp.StatusCode < 200 || resp.StatusCode >= 300`.
abbrev pub succeeded : Text → Response → R Response
succeeded label out =
    if ltb out.status 200 || leb 300 out.status
    then raise (bad_status label out.status_text out.brief)
    else pure out
