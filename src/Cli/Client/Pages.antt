-- ===== src/Cli/Client/Pages.antt =====
-- All findings through the pages of the API: `ListAllFindings` of internal/cli/client.go against
-- the listing of internal/api/handlers_scans.go.
use vullify_backend.Prelude.{
  ℕ, zero, suc, ◌≡◌, refl, sym, ap, ◌∙◌, ◌≤◌, ◌+◌, ◌*◌, ◌-◌, Bool, true, false, ◌||◌, some, List,
  ◌++◌, if◌then◌else◌, ltb, leb, ◌==◌, arith, length, take, drop, length-take, length-drop,
  take_long, take_add, min,
}
use vullify_backend.Text.{Text, codes, get_text, text_eq}
use vullify_backend.World.Monad.{ok}
use vullify_backend.Cli.Http.{Server, HttpOut, pure}
use vullify_backend.Cli.Client.{
  Client, Wire, Finding, FindingsPage, fetch_page, list_from, list_all_findings, max_pages, is_last,
  get_request, scan_path, page_query,
}
use vullify_backend.Api.{parse_pagination}
use vullify_backend.Api.Decimal.{parse_pagination-decimal}
use vullify_backend.Api.Pages.{page_rows, meta_of}

-- What the API answers to a query for a page of the findings.
abbrev pub api_page : List Finding → List (Text × Text) → FindingsPage
api_page findings query =
    let p = parse_pagination (get_text (codes "page") query) (get_text (codes "per_page") query) in
    record { batch = page_rows p findings; total = some (meta_of p findings).total }

-- The server answers each request for a page of the scan's findings with that page, from one list
-- that stays the same, and the client decodes it.
abbrev pub Serves : Wire → Client → Text → List Finding → Server → Type 0
Serves wire c scan_id findings srv =
    (n page : ℕ)
    → (out : HttpOut) × (srv n
          (get_request c (scan_path wire scan_id ++ codes "/findings") (page_query page))
        ≡ ok out)
      × (out.status ≡ 200)
      × (wire.findings_page out.body ≡ ok (api_page findings (page_query page)))

last_numbers :
    (b a l m : ℕ)
    → b ≡ min 100 (l - m)
    → a ≡ min (m + 100) l
    → (b == 0 || (ltb b 100 || leb l a)) ≡ true
    → l ≤ m + 100
last_numbers b a l m eb ea h = ground arith

module _ (wire : Wire) (c : Client) (scan_id : Text) (findings : List Finding) (srv : Server)
    (serves : Serves wire c scan_id findings srv) where
  fetched :
      (n page : ℕ)
      → fetch_page wire c scan_id page srv n ≡ (ok (api_page findings (page_query page)), suc n)
  unfolding fetch_page
  fetched n page =
      let (out, answered, fine, decoded) = serves n page in rw answered (rw fine (rw decoded refl))

  api_page-batch :
      (k : ℕ)
      → suc k ≤ max_pages
      → api_page findings (page_query (suc k))
        ≡ record { batch = take 100 (drop (100 * k) findings); total = some (length findings) }
  unfolding get_text text_eq
  api_page-batch k h =
      rw
        (parse_pagination-decimal (suc k) 100 (omega arith) (omega arith) (omega arith)
          (omega arith))
        (ap (λ o. record { batch = take 100 (drop o findings); total = some (length findings) })
          (omega arith))

  abbrev nth_page : ℕ → FindingsPage
  nth_page k = record { batch = take 100 (drop (100 * k) findings); total = some (length findings) }

  fetched-nth :
      (n k : ℕ)
      → suc k ≤ max_pages
      → fetch_page wire c scan_id (suc k) srv n ≡ (ok (nth_page k), suc n)
  fetched-nth n k h = fetched n (suc k) ∙ ap (λ p. (ok p, suc n)) (api_page-batch k h)

  -- After the last page nothing is left.
  last-whole :
      (k : ℕ)
      → is_last (nth_page k) (take (100 * suc k) findings) ≡ true
      → length findings ≤ 100 * suc k
  last-whole k h = omega (
    arith,
    last_numbers (length (take 100 (drop (100 * k) findings)))
        (length (take (100 * suc k) findings)) (length findings) (100 * k)
        (length-take 100 (drop (100 * k) findings) ∙ ap (min 100) (length-drop (100 * k) findings))
        (length-take (100 * suc k) findings ∙ ap (λ m. min m (length findings)) (omega arith)) h,
  )

  list_from-rest :
      (left k n : ℕ)
      → left + k ≤ max_pages
      → (list_from left wire c scan_id (suc k) (take (100 * k) findings) srv n).0
        ≡ ok (take (100 * (left + k)) findings)
  unfolding list_from
  list_from-rest zero k n h = ap (λ i. ok (take i findings)) (omega arith)
  list_from-rest (suc left) k n h =
      rw
        (fetched-nth n k (omega arith), take_add (100 * k) 100 (100 * suc k) findings (omega arith))
        (decided (is_last (nth_page k) (take (100 * suc k) findings)) refl
          (list_from-rest left (suc k) (suc n) (omega arith)))
    where
      decided :
          (b : Bool)
          → is_last (nth_page k) (take (100 * suc k) findings) ≡ b
          → (list_from left wire c scan_id
              (suc (suc k))
              (take (100 * suc k) findings)
              srv
              (suc n)).0
            ≡ ok (take (100 * (left + suc k)) findings)
          → ((if b
                then pure (take (100 * suc k) findings)
                else list_from left wire c scan_id (suc (suc k)) (take (100 * suc k) findings))
              srv
              (suc n)).0
            ≡ ok (take (100 * (suc left + k)) findings)
      decided true e ih =
          let whole = last-whole k e in
          ap ok (
            take_long _ findings whole
            ∙ sym (take_long (100 * (suc left + k)) findings (omega (arith, whole))))
      decided false e ih = ih ∙ ap (λ i. ok (take i findings)) (omega arith)

-- Where the server answers every request for a page of the scan's findings from one list, as the
-- API's pagination and LIMIT and OFFSET do, ListAllFindings returns that list, in its order, up to
-- its bound of 10000 pages of 100.
pub list_all_findings-All :
    (wire : Wire) (c : Client) (scan_id : Text) (findings : List Finding) (srv : Server) (n : ℕ)
    → Serves wire c scan_id findings srv
    → (list_all_findings wire c scan_id srv n).0 ≡ ok (take 1_000_000 findings)
unfolding list_all_findings
list_all_findings-All wire c scan_id findings srv n serves =
    list_from-rest wire c scan_id findings srv serves max_pages 0 n (omega arith)
