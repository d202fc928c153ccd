-- ===== src/Json.antt =====
-- Decoded JSON, and what `json.Unmarshal` makes of an object: a struct takes a member whose key
-- equals its field's name up to case, the last one of several; null leaves the field as it is, and
-- a value of another type is an error.
use vullify_backend.Prelude.{
  ℕ, Bool, true, false, ◌&&◌, not, Option, none, some, List, [], ◌∷◌, if◌then◌else◌, leb, ◌==◌,
}
use vullify_backend.Text.{Text, text_eq, equal_fold, is_empty}

mutual
  pub data Json : Type 0 where
    null : Json
    bool : Bool → Json
    num : Text → Json  -- the literal
    str : Text → Json
    arr : Items → Json
    obj : Members → Json

  pub data Items : Type 0 where
    no_items : Items
    item : Json → Items → Items

  pub data Members : Type 0 where
    no_members : Members
    member : Text → Json → Members → Members

-- A struct's field, decoded member by member: the value so far, `none` after an error.
abbrev set_text : Option Text → Json → Option Text
set_text none v = none
set_text (some old) null = some old
set_text (some old) (str s) = some s
set_text (some old) _ = none

abbrev text_from : Text → Option Text → Members → Option Text
text_from name acc no_members = acc
text_from name acc (member k v ms) =
    text_from name (if equal_fold k name then set_text acc v else acc) ms

-- A field of type `string`.
unfoldable pub text_field : Text → Members → Option Text
text_field name ms = text_from name (some []) ms

abbrev is_digit : ℕ → Bool
is_digit c = leb b'0' c && leb c b'9'

abbrev all_digits : Text → Bool
all_digits [] = true
all_digits (c ∷ t) = is_digit c && all_digits t

abbrev is_int : Text → Bool
is_int [] = false
is_int (c ∷ t) = if c == b'-' then not (is_empty t) && all_digits t else is_digit c && all_digits t

-- A field of type `int`, of which only the error matters here. A number out of range counts as one.
abbrev int_ok : Json → Bool
int_ok null = true
int_ok (num t) = is_int t
int_ok _ = false

unfoldable pub int_field_ok : Text → Members → Bool
int_field_ok name no_members = true
int_field_ok name (member k v ms) =
    (if equal_fold k name then int_ok v else true) && int_field_ok name ms

-- A field that is a struct: the members of its objects in order, none where it is missing or null.
abbrev append : Members → Members → Members
append no_members ys = ys
append (member k v xs) ys = member k v (append xs ys)

abbrev add_members : Option Members → Json → Option Members
add_members none v = none
add_members (some old) null = some old
add_members (some old) (obj ms) = some (append old ms)
add_members (some old) _ = none

abbrev struct_from : Text → Option Members → Members → Option Members
struct_from name acc no_members = acc
struct_from name acc (member k v ms) =
    struct_from name (if equal_fold k name then add_members acc v else acc) ms

unfoldable pub struct_field : Text → Members → Option Members
struct_field name ms = struct_from name (some no_members) ms

-- A field of type `[]string`: null empties it, and an entry that is null is an empty text.
abbrev set_entry : Json → Option (List Text) → Option (List Text)
set_entry v none = none
set_entry null (some ts) = some ([] ∷ ts)
set_entry (str s) (some ts) = some (s ∷ ts)
set_entry _ (some ts) = none

abbrev texts_of : Items → Option (List Text)
texts_of no_items = some []
texts_of (item v vs) = set_entry v (texts_of vs)

abbrev set_texts : Option (List Text) → Json → Option (List Text)
set_texts none v = none
set_texts (some old) null = some []
set_texts (some old) (arr vs) = texts_of vs
set_texts (some old) _ = none

abbrev texts_from : Text → Option (List Text) → Members → Option (List Text)
texts_from name acc no_members = acc
texts_from name acc (member k v ms) =
    texts_from name (if equal_fold k name then set_texts acc v else acc) ms

unfoldable pub texts_field : Text → Members → Option (List Text)
texts_field name ms = texts_from name (some []) ms

-- A key of a map, which is matched exactly; of several members the last one counts.
abbrev last_value : Option Json → Text → Members → Option Json
last_value acc key no_members = acc
last_value acc key (member k v ms) = last_value (if text_eq k key then some v else acc) key ms

unfoldable pub lookup : Text → Members → Option Json
lookup key ms = last_value none key ms

-- The top value of a document that is decoded into a struct or a map.
abbrev pub top_members : Option Json → Option Members
top_members none = none
top_members (some null) = some no_members
top_members (some (obj ms)) = some ms
top_members (some _) = none

-- A value that is decoded into a struct of its own.
abbrev pub members_of : Json → Option Members
members_of v = top_members (some v)

-- A field of type `json.RawMessage`.
abbrev raw_from : Text → Option Json → Members → Option Json
raw_from name acc no_members = acc
raw_from name acc (member k v ms) = raw_from name (if equal_fold k name then some v else acc) ms

unfoldable pub raw_field : Text → Members → Option Json
raw_field name ms = raw_from name none ms

-- `v.(string)` and `v.(map[string]any)` on a value that may be missing.
abbrev pub as_text : Option Json → Option Text
as_text (some (str s)) = some s
as_text _ = none

abbrev pub as_map : Option Json → Option Members
as_map (some (obj ms)) = some ms
as_map _ = none
