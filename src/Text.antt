-- ===== src/Text.antt =====
-- Go strings as lists of code points, with the functions of package `strings` that the program
-- calls. `TrimSpace` uses the table of `unicode.IsSpace`. `ToLower` and `ToUpper` map ASCII and
-- the four further code points whose image is ASCII; any other code point is left as it is, which
-- no comparison with an ASCII constant can tell.
use Prim.Native.Char.{code}
use Prim.Native.String.{String}
use vullify_backend.Prelude.{
  ℕ, zero, suc, ◌+◌, ◌-◌, ◌/◌, ◌%◌, ltb, Bool, true, false, ◌&&◌, ◌||◌, List, [], ◌∷◌, map, reverse,
  leb, ◌==◌, if◌then◌else◌,
}
pub mod Cut
pub mod Laws
pub mod Trim

abbrev pub Text : Type 0
Text = List ℕ

abbrev pub codes : String → Text
codes String.[] = []
codes (String.◌∷◌ c s) = code c ∷ codes s

-- `a == b` on strings.
unfoldable pub text_eq : Text → Text → Bool
text_eq [] [] = true
text_eq [] (d ∷ t) = false
text_eq (c ∷ s) [] = false
text_eq (c ∷ s) (d ∷ t) = c == d && text_eq s t

-- `s == ""`.
abbrev pub is_empty : Text → Bool
is_empty [] = true
is_empty (c ∷ s) = false

-- `unicode.IsSpace`.
unfoldable pub is_space : ℕ → Bool
is_space c =
    (leb 9 c && leb c 13)
    || c == 0x20
    || c == 0x85
    || c == 0xA0
    || c == 0x1680
    || (leb 0x2000 c && leb c 0x200a)
    || c == 0x2028
    || c == 0x2029
    || c == 0x202f
    || c == 0x205f
    || c == 0x3000

unfoldable pub lower : ℕ → ℕ
lower c =
    if leb b'A' c && leb c b'Z'
    then c + 32
    else if c == 0x130
    then b'i'
    else if c == 0x212A
    then b'k'
    else c

unfoldable pub upper : ℕ → ℕ
upper c =
    if leb b'a' c && leb c b'z'
    then c - 32
    else if c == 0x131
    then b'I'
    else if c == 0x17F
    then b'S'
    else c

unfoldable pub to_lower : Text → Text
unfolding lower
to_lower s = map lower s

unfoldable pub to_upper : Text → Text
unfolding upper
to_upper s = map upper s

-- Unicode's simple case folding, where the result is ASCII.
unfoldable pub fold : ℕ → ℕ
fold c =
    if leb b'A' c && leb c b'Z'
    then c + 32
    else if c == 0x17F
    then b's'
    else if c == 0x212A
    then b'k'
    else c

-- `strings.EqualFold`, where one of the texts is ASCII.
unfoldable pub equal_fold : Text → Text → Bool
unfolding fold text_eq
equal_fold s t = text_eq (map fold s) (map fold t)

-- `strings.TrimPrefix`, after a test of the prefix.
unfoldable pub skip_prefix : Text → Text → Text
skip_prefix [] t = t
skip_prefix (d ∷ p) [] = []
skip_prefix (d ∷ p) (c ∷ t) = skip_prefix p t

unfoldable pub trim_left : Text → Text
unfolding is_space
trim_left [] = []
trim_left (c ∷ s) = if is_space c then trim_left s else c ∷ s

-- `strings.TrimSpace`: the leading, then the trailing spaces.
unfoldable pub trim_space : Text → Text
unfolding trim_left
trim_space s = reverse (trim_left (reverse (trim_left s)))

unfoldable pub has_prefix : Text → Text → Bool
has_prefix s [] = true
has_prefix [] (d ∷ t) = false
has_prefix (c ∷ s) (d ∷ t) = c == d && has_prefix s t

-- `strings.Contains`.
unfoldable pub contains : Text → Text → Bool
unfolding has_prefix
contains [] t = has_prefix [] t
contains (c ∷ s) t = has_prefix (c ∷ s) t || contains s t

trim_slashes_left : Text → Text
trim_slashes_left [] = []
trim_slashes_left (c ∷ s) = if c == b'/' then trim_slashes_left s else c ∷ s

-- `strings.Trim(s, "/")`.
unfoldable pub trim_slashes : Text → Text
unfolding trim_slashes_left
trim_slashes s = reverse (trim_slashes_left (reverse (trim_slashes_left s)))

-- `strings.TrimRight(s, "/")`.
unfoldable pub trim_slashes_right : Text → Text
unfolding trim_slashes_left
trim_slashes_right s = reverse (trim_slashes_left (reverse s))

-- `m[key]` of a `map[string]string`: the empty string where the key is missing.
unfoldable pub get_text : Text → List (Text × Text) → Text
get_text key [] = []
get_text key ((k, v) ∷ m) = if text_eq k key then v else get_text key m

-- `%d` of a number; the fuel `suc n` is more than the digits.
unfoldable pub decimal_from : ℕ → ℕ → Text → Text
decimal_from zero n acc = acc
decimal_from (suc f) n acc =
    let rest = decimal_from f (n / 10) ((b'0' + n % 10) ∷ acc) in
    if ltb n 10 then (b'0' + n) ∷ acc else rest

unfoldable pub decimal : ℕ → Text
unfolding decimal_from
decimal n = decimal_from (suc n) n []
