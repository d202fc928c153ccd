-- ===== src/Api.antt =====
-- The API server: `parsePagination` of internal/api/pagination.go, where Go's `int` has 64 bits;
-- the handlers are in its child modules.
pub mod Bounds
pub mod Decimal
pub mod Pages
pub mod Reply
pub mod Scans
pub mod Suppressions
pub mod Targets
pub mod Adhoc
pub mod Registries
pub mod Accepted
pub mod Listings
pub mod Progress
use vullify_backend.Prelude.{
  ℕ, ◌+◌, ◌*◌, ◌-◌, ◌%◌, Bool, true, false, ◌&&◌, Option, none, some, List, [], ◌∷◌, if◌then◌else◌,
  ltb, leb, ◌==◌,
}
use vullify_backend.Text.{Text, is_empty}

abbrev pub max_int : ℕ
max_int = 9_223_372_036_854_775_807

abbrev pub two_64 : ℕ
two_64 = 18_446_744_073_709_551_616

abbrev is_digit : ℕ → Bool
is_digit c = leb 48 c && leb c 57

-- The value of a text of decimal digits, `none` where another character stands in it.
digits : ℕ → Text → Option ℕ
digits acc [] = some acc
digits acc (c ∷ cs) =
    let rest = digits (10 * acc + (c - 48)) cs in if is_digit c then rest else none

-- `p, err := strconv.Atoi(v); err == nil && p > 0`: the number, where there is one and it is
-- positive. Any text that starts with a minus sign has none.
abbrev in_range : Option ℕ → Option ℕ
in_range none = none
in_range (some n) = if ltb 0 n && leb n max_int then some n else none

unsigned : Text → Option ℕ
unfolding digits
unsigned t = if is_empty t then none else in_range (digits 0 t)

pub positive_int : Text → Option ℕ
unfolding unsigned
positive_int [] = none
positive_int (c ∷ cs) = if c == 43 then unsigned cs else unsigned (c ∷ cs)

abbrev pub or_default : ℕ → Option ℕ → ℕ
or_default d none = d
or_default d (some n) = n

pub record Pagination : Type 0 where
  pub page : ℕ
  pub per_page : ℕ
  pub offset : ℕ  -- the 64 bits of the int: from 2^63 on it is negative

abbrev pub at_most_100 : ℕ → ℕ
at_most_100 n = if ltb 100 n then 100 else n

-- The arguments are the query's values of "page" and "per_page", empty where they are missing.
unfoldable pub parse_pagination : Text → Text → Pagination
unfolding positive_int
parse_pagination page_value per_page_value =
    let page = or_default 1 (positive_int page_value) in
    let per_page = at_most_100 (or_default 20 (positive_int per_page_value)) in
    record { page = page; per_page = per_page; offset = ((page - 1) * per_page) % two_64 }
