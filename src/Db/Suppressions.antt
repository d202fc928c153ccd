-- ===== src/Db/Suppressions.antt =====
-- The statements on `suppressions`: internal/db/suppressions_store.go. The column `updated_at` is
-- left out.
use vullify_backend.Prelude.{
  ℕ, suc, Bool, Option, none, some, List, [], ◌∷◌, ◌++◌, if◌then◌else◌, ◌==◌, length, find_row,
  update_where, delete_where, count_where,
}
use vullify_backend.Text.{Text, is_empty}
use vullify_backend.Scanner.{no_rows}
use vullify_backend.World.{
  M, ok, err, pure, ◌>>=◌, ◌>>◌, call, gets_db, modify_db, now, Db, SuppressionRow,
}
use vullify_backend.Severity.{null_if_empty}
use vullify_backend.Db.Images.{or_no_rows}
use vullify_backend.Db.Paging.{paged, latest_first}

abbrev pub has_suppression_id : ℕ → SuppressionRow → Bool
has_suppression_id id s = s.id == id

abbrev pub new_suppression :
    ℕ → ℕ → Text → Text → Option ℕ → Text → Text → Option ℕ → SuppressionRow
new_suppression id t cve_id pkg_name image_id reason accepted_by expires_at = record {
  id = id;
  cve_id = null_if_empty cve_id;
  pkg_name = null_if_empty pkg_name;
  image_id = image_id;
  reason = reason;
  accepted_by = null_if_empty accepted_by;
  expires_at = expires_at;
  created_at = t;
}

unfoldable pub insert_suppression : Text → Text → Option ℕ → Text → Text → Option ℕ → M ℕ
insert_suppression cve_id pkg_name image_id reason accepted_by expires_at = call λ env w. (
  ok w.db.next_id,
  record w {
    db = record (w.db) {
      suppressions =
          w.db.suppressions
          ++ new_suppression w.db.next_id (now env w) cve_id pkg_name image_id reason accepted_by
              expires_at
            ∷ [];
      next_id = suc w.db.next_id;
    };
  },
)

unfoldable pub list_suppressions : ℕ → ℕ → M (List SuppressionRow × ℕ)
list_suppressions offset limit = do
  total ← call (gets_db λ db. length db.suppressions)
  rows ←
      call (λ env w. (paged offset limit (latest_first (λ s. s.created_at) w.db.suppressions), w))
  pure (rows, total)

unfoldable pub get_suppression_by_id : ℕ → M SuppressionRow
get_suppression_by_id id = do
  found ← call (gets_db λ db. find_row (has_suppression_id id) db.suppressions)
  or_no_rows found

-- `COALESCE($3, expires_at)`.
abbrev coalesced : Option ℕ → Option ℕ → Option ℕ
coalesced none old = old
coalesced (some t) old = some t

abbrev pub changed_suppression : Text → Option ℕ → SuppressionRow → SuppressionRow
changed_suppression reason expires_at s = record s {
  reason = if is_empty reason then s.reason else reason;
  expires_at = coalesced expires_at s.expires_at;
}

abbrev pub update_suppression_rows : ℕ → Text → Option ℕ → Db → Db
update_suppression_rows id reason expires_at db = record db {
  suppressions =
      update_where (has_suppression_id id) (changed_suppression reason expires_at) db.suppressions;
}

-- `UPDATE … RETURNING` as one call.
unfoldable pub update_suppression : ℕ → Text → Option ℕ → M SuppressionRow
update_suppression id reason expires_at = call (
    modify_db (update_suppression_rows id reason expires_at) >> (do
      found ← gets_db λ db. find_row (has_suppression_id id) db.suppressions
      or_no_rows found))

unfoldable pub delete_suppression : ℕ → M (Unit {0})
delete_suppression id = call λ env w.
    if count_where (has_suppression_id id) w.db.suppressions == 0
    then (err no_rows, w)
    else modify_db
        (λ db. record db { suppressions = delete_where (has_suppression_id id) db.suppressions })
        env w
