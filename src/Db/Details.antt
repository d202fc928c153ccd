-- ===== src/Db/Details.antt =====
-- What the API reads of a scan and an image: GetScanDetail of internal/db/scans_api_store.go,
-- ImageIsActive of findings_api_store.go and FindImageIDByPullRef of images_lookup.go.
use vullify_backend.Prelude.{
  ℕ, Bool, true, false, ◌&&◌, ◌||◌, not, Option, none, some, List, [], ◌∷◌, if◌then◌else◌, ◌==◌,
  ltb, any, find_row,
}
use vullify_backend.Text.{Text, text_eq, is_empty, trim_space, to_lower}
use vullify_backend.Severity.{Severity}
use vullify_backend.Scanner.{no_rows}
use vullify_backend.World.{
  M, ok, pure, raise, ◌>>=◌, call, gets_db, now, Env, Db, ScanRow, ImageRow, FindingRow,
  SuppressionRow, SeverityCounts,
}
use vullify_backend.Scanqueue.{build_image_pull_ref}
use vullify_backend.Db.Scans.{has_id}
use vullify_backend.Db.Images.{is_live, live_image, joined, or_no_rows, has_live_registry}
use vullify_backend.Db.Persist.Tally.{tally}

abbrev pub is_live_with_registry : Db → ℕ → ImageRow → Bool
is_live_with_registry db id i = i.id == id && (is_live i.deleted_at && has_live_registry db i)

unfoldable pub image_is_active : ℕ → M Bool
image_is_active id = call (gets_db λ db. any (is_live_with_registry db id) db.images)

-- `suppressionFilter`, for a finding of an image at an instant.
abbrev null_or : {A : Type 0} → (A → Bool) → Option A → Bool
null_or p none = true
null_or p (some a) = p a

abbrev pub suppresses : ℕ → ℕ → FindingRow → SuppressionRow → Bool
suppresses t image_id f sp =
    null_or (text_eq f.vulnerability_id) sp.cve_id
    && (null_or (text_eq f.package_name) sp.pkg_name
        && (null_or (λ i. i == image_id) sp.image_id && null_or (ltb t) sp.expires_at))

abbrev shown_severities : ℕ → ℕ → ℕ → List SuppressionRow → List FindingRow → List Severity
shown_severities t scan_id image_id sps [] = []
shown_severities t scan_id image_id sps (f ∷ fs) =
    if f.scan_id == scan_id && not (any (suppresses t image_id f) sps)
    then f.severity ∷ shown_severities t scan_id image_id sps fs
    else shown_severities t scan_id image_id sps fs

-- `ScanDetail`; a severity that is not in the map has the count 0.
pub record ScanDetail : Type 0 where
  pub scan : ScanRow
  pub repository : Text
  pub tag : Text
  pub severity_count : SeverityCounts

abbrev pub has_counts : SeverityCounts → Bool
has_counts c =
    ltb 0 c.critical || (ltb 0 c.high || (ltb 0 c.medium || (ltb 0 c.low || ltb 0 c.unknown)))

abbrev pub detail_of_image : ScanRow → Option (ImageRow × Text) → Option ScanDetail
detail_of_image s none = none
detail_of_image s (some row) =
    some (record {
      scan = s;
      repository = row.0.repository;
      tag = row.0.tag;
      severity_count = s.counts;
    })

abbrev pub detail_of_scan : Db → Option ScanRow → Option ScanDetail
detail_of_scan db none = none
detail_of_scan db (some s) = detail_of_image s (joined db (live_image s.image_id db))

-- The counts of the row, or those of a GROUP BY on the findings where all of them are 0.
unfoldable pub get_scan_detail : ℕ → M ScanDetail
get_scan_detail id = do
  found ← call (gets_db λ db. detail_of_scan db (find_row (has_id id) db.scans))
  d ← or_no_rows found
  if has_counts d.severity_count
      then pure d
      else call (λ env w. (
        ok (record d {
          severity_count =
              tally
                (shown_severities (now env w) id d.scan.image_id w.db.suppressions w.db.findings);
        }),
        w,
      ))

-- The rows come in an order that the statement does not fix; here it is that of the table.
abbrev has_pull_ref : Env → Text → ImageRow → Option (ImageRow × Text) → Bool
has_pull_ref env want i none = false
has_pull_ref env want i (some row) =
    text_eq (to_lower (build_image_pull_ref env row.1 i.repository i.tag)) want

abbrev find_ref : Env → Text → Db → List ImageRow → Option ℕ
find_ref env want db [] = none
find_ref env want db (i ∷ rows) =
    if is_live i.deleted_at && has_pull_ref env want i (joined db (some i))
    then some i.id
    else find_ref env want db rows

unfoldable pub find_image_id_by_pull_ref : Text → M ℕ
find_image_id_by_pull_ref want = if is_empty (trim_space want) then raise no_rows else (do
  found ← call (λ env w. (ok (find_ref env (to_lower (trim_space want)) w.db w.db.images), w))
  or_no_rows found)
