-- ===== src/Webhook/Verify.antt =====
-- Signatures of a body: internal/webhook/verify.go, with hex.DecodeString of the standard library.
pub mod RoundTrip
use vullify_backend.Prelude.{
  ℕ, ◌+◌, ◌-◌, ◌*◌, ◌/◌, ◌%◌, Bool, true, false, ◌&&◌, ◌||◌, Option, none, some, List, [], ◌∷◌,
  if◌then◌else◌, leb, ltb,
}
use vullify_backend.Text.{Text, codes, text_eq, is_empty, has_prefix, skip_prefix}

-- A hex digit's value, 16 where it is none.
unfoldable pub hex_value : ℕ → ℕ
hex_value c =
    if leb b'0' c && leb c b'9'
    then c - b'0'
    else if leb b'a' c && leb c b'f'
    then c - b'a' + 10
    else if leb b'A' c && leb c b'F'
    then c - b'A' + 10
    else 16

abbrev pub add_byte : ℕ → ℕ → Option (List ℕ) → Option (List ℕ)
add_byte hi lo none = none
add_byte hi lo (some bs) = if ltb hi 16 && ltb lo 16 then some ((hi * 16 + lo) ∷ bs) else none

-- `hex.DecodeString`.
unfoldable pub hex_decode : Text → Option (List ℕ)
unfolding hex_value
hex_decode [] = some []
hex_decode (c ∷ []) = none
hex_decode (c ∷ d ∷ t) = add_byte (hex_value c) (hex_value d) (hex_decode t)

-- The test of both functions, for the name of a hash and the expected code.
abbrev pub mac_equal : List ℕ → Option (List ℕ) → Bool
mac_equal expected none = false
mac_equal expected (some got) = text_eq got expected

unfoldable pub verify_with : Text → (Text → Text → List ℕ) → Text → Text → Text → Bool
unfolding has_prefix skip_prefix hex_decode
verify_with prefix hmac body sig_header secret =
    if is_empty sig_header || is_empty secret
    then false
    else if has_prefix sig_header prefix
    then mac_equal (hmac secret body) (hex_decode (skip_prefix prefix sig_header))
    else false

abbrev pub prefix_256 : Text
prefix_256 = codes "sha256="

abbrev pub prefix_1 : Text
prefix_1 = codes "sha1="

-- `VerifyGitHubSignature256`, for the function HMAC-SHA256 of a key and a message.
unfoldable pub verify_git_hub_signature256 : (Text → Text → List ℕ) → Text → Text → Text → Bool
unfolding verify_with
verify_git_hub_signature256 hmac body sig_header secret =
    verify_with prefix_256 hmac body sig_header secret

-- `VerifyGitHubSignature1`.
unfoldable pub verify_git_hub_signature1 : (Text → Text → List ℕ) → Text → Text → Text → Bool
unfolding verify_with
verify_git_hub_signature1 hmac body sig_header secret =
    verify_with prefix_1 hmac body sig_header secret
