-- ===== src/Api/Listings.antt =====
-- The handlers that list: handlers_images.go, handlers_packages.go, handlers_misconfigs.go and
-- handlers_secrets.go of internal/api. `uuid.Parse` is an argument; an answer has the rows that the
-- handler prints.
use vullify_backend.Prelude.{ℕ, Option, none, some, List, if◌then◌else◌}
use vullify_backend.Text.{Text, codes, is_empty, to_lower}
use vullify_backend.Scanner.{error_text}
use vullify_backend.World.{M, pure, ImageRow}
use vullify_backend.Db.Images.{ImageDetail, get_image_by_id}
use vullify_backend.Db.ImageList.{list_images}
use vullify_backend.Db.SoftDelete.{soft_delete_image}
use vullify_backend.Db.Listings.{
  PackageListRow, MisconfigListRow, SecretListRow, list_packages, list_misconfigs, list_secrets,
}
use vullify_backend.Api.{Pagination, parse_pagination}
use vullify_backend.Api.Pages.{Meta}
use vullify_backend.Api.Reply.{
  Reply, api_error, envelope, invalid, not_found, internal, or_answer, with_id, by_no_rows,
}

-- `writeEnvelope` of a page and its total.
abbrev paged_answer : {A : Type 0} → Pagination → List A × ℕ → M (Reply (List A × Meta))
paged_answer p found =
    pure (envelope 200 (found.0, record { page = p.page; per_page = p.per_page; total = found.1 }))

abbrev registry_filter :
    {A : Type 0} → (Text → Option ℕ) → Text → (Option ℕ → M (Reply A)) → M (Reply A)
registry_filter parse_uuid value k = if is_empty value then k none else elim (parse_uuid value) [
  | none ↦ pure (invalid "invalid registry_id")
  | some id ↦ k (some id)
]

-- `listImages`, of the query's values.
unfoldable pub images_page :
    (Text → Option ℕ) → Text → Text → Text → M (Reply (List ImageRow × Meta))
unfolding parse_pagination
images_page parse_uuid registry page_value per_page_value =
    let p : Pagination = parse_pagination page_value per_page_value in
    registry_filter parse_uuid registry (λ id.
      or_answer (list_images id p.offset p.per_page) (λ e. internal "list failed") (paged_answer p))

-- `getImage`.
unfoldable pub image_page : Option ℕ → M (Reply ImageDetail)
image_page id = with_id id (λ id.
    or_answer (get_image_by_id id) (λ e. not_found "image not found") (λ d. pure (envelope 200 d)))

-- `deleteImage`; whatever the error is, the answer is 404.
unfoldable pub remove_image : Option ℕ → M (Reply (Unit {0}))
unfolding error_text
remove_image id = with_id id (λ id.
    or_answer (soft_delete_image id) (λ e. api_error 404 (codes "NOT_FOUND") (error_text e))
      (λ u. pure (envelope 204 tt)))

-- A page of what a scan found.
abbrev page_of_scan :
    {A : Type 0} → Text → Text → Option ℕ → (ℕ → ℕ → ℕ → M (List A × ℕ)) → M (Reply (List A × Meta))
page_of_scan page_value per_page_value id list = with_id id (λ id.
    let p : Pagination = parse_pagination page_value per_page_value in
    or_answer (list id p.offset p.per_page)
      (by_no_rows (not_found "scan not found") (internal "list failed")) (paged_answer p))

-- `listPackages`, `listMisconfigurations` and `listSecrets`.
unfoldable pub packages_page :
    Option ℕ → Text → Text → Text → M (Reply (List PackageListRow × Meta))
unfolding parse_pagination
packages_page id typ page_value per_page_value =
    page_of_scan page_value per_page_value id (λ id. list_packages id typ)

unfoldable pub misconfigurations_page :
    Option ℕ → Text → Text → Text → M (Reply (List MisconfigListRow × Meta))
unfolding parse_pagination to_lower
misconfigurations_page id severity page_value per_page_value =
    page_of_scan page_value per_page_value id (λ id. list_misconfigs id (to_lower severity))

unfoldable pub secrets_page : Option ℕ → Text → Text → Text → M (Reply (List SecretListRow × Meta))
unfolding parse_pagination to_lower
secrets_page id severity page_value per_page_value =
    page_of_scan page_value per_page_value id (λ id. list_secrets id (to_lower severity))
