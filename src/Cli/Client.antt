-- ===== src/Cli/Client.antt =====
-- The client of the API: internal/cli/client.go.
pub mod Pages
use vullify_backend.Prelude.{
  ℕ, zero, suc, ◌+◌, Bool, true, false, ◌&&◌, ◌||◌, not, Option, none, some, List, [], ◌∷◌, ◌++◌,
  if◌then◌else◌, ltb, leb, ◌==◌, length, reverse,
}
use vullify_backend.Text.{Text, codes, is_empty, trim_space, decimal}
use vullify_backend.Json.{Members}
use vullify_backend.Scanner.{Error, plain, wrapped, Float64}
use vullify_backend.World.Monad.{Result, ok, err}
use vullify_backend.Cli.Http.{
  H, HttpReq, HttpOut, Method, get, post, pure, raise, given, send, ◌>>=◌,
}

pub record Client : Type 0 where
  pub base_url : Text
  pub token : Text

pub record Finding : Type 0 where
  pub id : Text
  pub vulnerability_id : Text
  pub package_name : Text
  pub severity : Text
  pub installed_version : Text
  pub fixed_version : Text
  pub title : Text

-- `FindingWithEnrichment`, and `findingDetailResponse` with the same fields.
pub record FindingWithEnrichment : Type 0 where
  pub finding : Finding
  pub epss_score : Float64
  pub kev_listed : Bool
  pub exploit_exists : Bool
  pub risk_score : Float64

-- An `envelope` with findings: its data, and its total where there is a meta object.
pub record FindingsPage : Type 0 where
  pub batch : List Finding
  pub total : Option ℕ

-- What encoding/json and net/url make of the texts on the wire: the escape of a path's part, the
-- envelope with its data as findings, a detail, a scan or the id of a scan, the message and the code
-- of an error's body, and the body of a request for a scan.
pub record Wire : Type 0 where
  pub path_escape : Text → Text
  pub findings_page : Text → Result FindingsPage
  pub finding_detail : Text → Result FindingWithEnrichment
  pub scan_map : Text → Result Members
  pub scan_id : Text → Result Text
  pub api_error : Text → Option (Text × Text)
  pub image_ref_body : Text → Text

trim_slash_left : Text → Text
trim_slash_left [] = []
trim_slash_left (c ∷ t) = if c == b'/' then trim_slash_left t else c ∷ t

-- `strings.TrimRight(serverURL, "/")`.
unfoldable pub new_client : Text → Text → Client
unfolding trim_slash_left
new_client server_url api_token = record {
  base_url = reverse (trim_slash_left (reverse server_url));
  token = api_token;
}

unfoldable pub auth_header : Client → Text
auth_header c = if is_empty (trim_space c.token) then [] else codes "Bearer " ++ trim_space c.token

-- The text of `parseAPIError`.
abbrev with_status : ℕ → Text → Text
with_status status rest = codes "api " ++ (decimal status ++ (codes ": " ++ rest))

abbrev error_message : ℕ → Text → Option (Text × Text) → Text
error_message status body none = with_status status (trim_space body)
error_message status body (some (message, code)) =
    if is_empty message
    then with_status status (trim_space body)
    else with_status status (message ++ (codes " (" ++ (code ++ codes ")")))

unfoldable pub parse_api_error : Wire → ℕ → Text → Error
parse_api_error wire status body = plain (error_message status body (wire.api_error body))

-- `resp.StatusCode < 200 || resp.StatusCode >= 300`.
abbrev pub checked : Wire → HttpOut → H HttpOut
checked wire out =
    if ltb out.status 200 || leb 300 out.status
    then raise (parse_api_error wire out.status out.body)
    else pure out

abbrev pub get_request : Client → Text → List (Text × Text) → HttpReq
get_request c path query = record {
  method = get;
  path = c.base_url ++ path;
  query = query;
  authorization = auth_header c;
  body = [];
}

abbrev pub scan_path : Wire → Text → Text
scan_path wire scan_id = codes "/api/v1/scans/" ++ wire.path_escape scan_id

unfoldable pub create_scan_by_ref : Wire → Client → Text → H Text
create_scan_by_ref wire c image_ref = do
  out ← send (record {
    method = post;
    path = c.base_url ++ codes "/api/v1/scans/adhoc";
    query = [];
    authorization = auth_header c;
    body = wire.image_ref_body (trim_space image_ref);
  })
  fine ← checked wire out
  id ← given (wire.scan_id fine.body)
  if is_empty id then raise (plain (codes "empty scan id in response")) else pure id

unfoldable pub get_scan : Wire → Client → Text → H Members
get_scan wire c scan_id = do
  out ← send (get_request c (scan_path wire scan_id) [])
  fine ← checked wire out
  given (wire.scan_map fine.body)

-- A round of the loop of `ListAllFindings`.
abbrev pub page_query : ℕ → List (Text × Text)
page_query page = (codes "page", decimal page) ∷ (codes "per_page", decimal 100) ∷ []

unfoldable pub fetch_page : Wire → Client → Text → ℕ → H FindingsPage
fetch_page wire c scan_id page = do
  out ← send (get_request c (scan_path wire scan_id ++ codes "/findings") (page_query page))
  fine ← checked wire out
  given (wire.findings_page fine.body)

-- `len(batch) == 0`, and the tests after it, on all findings so far.
abbrev reached : ℕ → Option ℕ → Bool
reached n none = true
reached n (some total) = leb total n

abbrev pub is_last : FindingsPage → List Finding → Bool
is_last p all = length p.batch == 0 || (ltb (length p.batch) 100 || reached (length all) p.total)

-- The loop from a page on; the first argument counts the pages up to the bound of 10000.
list_from : ℕ → Wire → Client → Text → ℕ → List Finding → H (List Finding)
unfolding fetch_page
list_from zero wire c scan_id page all = pure all
list_from (suc left) wire c scan_id page all = do
  p ← fetch_page wire c scan_id page
  let rest = list_from left wire c scan_id (suc page) (all ++ p.batch) in
      if is_last p (all ++ p.batch) then pure (all ++ p.batch) else rest

abbrev pub max_pages : ℕ
max_pages = 10_000

unfoldable pub list_all_findings : Wire → Client → Text → H (List Finding)
unfolding list_from
list_all_findings wire c scan_id = list_from max_pages wire c scan_id 1 []

unfoldable pub get_finding_detail : Wire → Client → Text → H FindingWithEnrichment
get_finding_detail wire c finding_id = do
  out ← send (get_request c (codes "/api/v1/findings/" ++ wire.path_escape finding_id) [])
  fine ← checked wire out
  given (wire.finding_detail fine.body)

-- An error of a detail is wrapped.
abbrev wrap : Text → Result FindingWithEnrichment → Result FindingWithEnrichment
wrap id (ok d) = ok d
wrap id (err e) = err (wrapped (codes "enrich finding " ++ id) e)

detail_of : Wire → Client → Text → H FindingWithEnrichment
unfolding get_finding_detail
detail_of wire c id srv n =
    (wrap id (get_finding_detail wire c id srv n).0, (get_finding_detail wire c id srv n).1)

enrich_all : Wire → Client → List Finding → H (List FindingWithEnrichment)
unfolding detail_of
enrich_all wire c [] = pure []
enrich_all wire c (f ∷ fs) = do d ← detail_of wire c f.id; ds ← enrich_all wire c fs; pure (d ∷ ds)

unfoldable pub list_all_findings_with_enrichment :
    Wire → Client → Text → H (List FindingWithEnrichment)
unfolding list_all_findings enrich_all
list_all_findings_with_enrichment wire c scan_id = do
  findings ← list_all_findings wire c scan_id
  enrich_all wire c findings

-- `GetSBOM`: the body and the format.
unfoldable pub get_sbom : Wire → Client → Text → H (Text × Text)
get_sbom wire c scan_id = do
  out ← send (get_request c (scan_path wire scan_id ++ codes "/sbom") [])
  fine ← checked wire out
  pure (fine.body, fine.sbom_format)
