-- ===== src/Api/Suppressions.antt =====
-- The handlers of suppressions: internal/api/handlers_suppressions.go. The decoding of a body and
-- `uuid.Parse` are arguments; an answer has the row that `suppressionRowToMap` prints.
pub mod Narrow
use vullify_backend.Prelude.{
  ℕ, Bool, true, false, ◌&&◌, Option, none, some, List, [], ◌∷◌, if◌then◌else◌,
}
use vullify_backend.Text.{Text, is_empty}
use vullify_backend.World.{M, pure, SuppressionRow}
use vullify_backend.Db.Suppressions.{
  insert_suppression, list_suppressions, get_suppression_by_id, update_suppression,
  delete_suppression,
}
use vullify_backend.Api.{parse_pagination}
use vullify_backend.Api.Pages.{Meta}
use vullify_backend.Api.Reply.{
  Reply, envelope, invalid, not_found, internal, or_answer, with_id, with_body, by_no_rows,
}

-- `createSuppressionReq`.
pub record CreateSuppressionReq : Type 0 where
  pub cve_id : Text
  pub pkg_name : Text
  pub image_id : Option Text
  pub reason : Text
  pub expires_at : Option ℕ

-- `updateSuppressionReq`.
pub record UpdateSuppressionReq : Type 0 where
  pub reason : Text
  pub expires_at : Option ℕ

-- `listSuppressions`, of the query's values of "page" and "per_page".
unfoldable pub suppressions_page : Text → Text → M (Reply (List SuppressionRow × Meta))
suppressions_page page_value per_page_value =
    let p = parse_pagination page_value per_page_value in
    or_answer (list_suppressions p.offset p.per_page) (λ e. internal "list failed")
      (λ found.
        pure (
          envelope 200 (found.0, record { page = p.page; per_page = p.per_page; total = found.1 })))

-- The image of a request: none where the field is missing or empty.
abbrev pub parsed_image :
    Option ℕ → (Option ℕ → M (Reply SuppressionRow)) → M (Reply SuppressionRow)
parsed_image none k = pure (invalid "invalid image_id")
parsed_image (some id) k = k (some id)

abbrev pub with_image :
    (Text → Option ℕ)
    → Option Text
    → (Option ℕ → M (Reply SuppressionRow))
    → M (Reply SuppressionRow)
with_image parse_uuid none k = k none
with_image parse_uuid (some t) k = if is_empty t then k none else parsed_image (parse_uuid t) k

store_suppression : CreateSuppressionReq → Option ℕ → M (Reply SuppressionRow)
store_suppression req image_id =
    or_answer (insert_suppression req.cve_id req.pkg_name image_id req.reason [] req.expires_at)
      (λ e. internal "failed to create suppression")
      (λ id.
        or_answer (get_suppression_by_id id) (λ e. internal "failed to load suppression")
          (λ s. pure (envelope 201 s)))

create_checked : (Text → Option ℕ) → CreateSuppressionReq → M (Reply SuppressionRow)
unfolding store_suppression
create_checked parse_uuid req =
    if is_empty req.reason
    then pure (invalid "reason is required")
    else if is_empty req.cve_id && is_empty req.pkg_name
    then pure (invalid "cve_id or pkg_name is required")
    else with_image parse_uuid req.image_id (store_suppression req)

unfoldable pub create_suppression :
    (Text → Option ℕ) → Option CreateSuppressionReq → M (Reply SuppressionRow)
unfolding create_checked
create_suppression parse_uuid req = with_body req (create_checked parse_uuid)

unfoldable pub change_suppression :
    Option ℕ → Option UpdateSuppressionReq → M (Reply SuppressionRow)
change_suppression id req = with_id id (λ id. with_body req (λ req.
    or_answer (update_suppression id req.reason req.expires_at)
      (by_no_rows (not_found "suppression not found") (internal "update failed"))
      (λ s. pure (envelope 200 s))))

unfoldable pub remove_suppression : Option ℕ → M (Reply (Unit {0}))
remove_suppression id = with_id id (λ id.
    or_answer (delete_suppression id)
      (by_no_rows (not_found "suppression not found") (internal "delete failed"))
      (λ u. pure (envelope 204 tt)))
