-- ===== src/Webhook/Verify/RoundTrip.antt =====
-- What a signature says: internal/webhook/verify.go against hex.EncodeToString.
use vullify_backend.Prelude.{
  ℕ, ◌≡◌, refl, ap, ◌+◌, ◌/◌, ◌%◌, ◌<◌, Bool, true, false, Option, none, some, List, [], ◌∷◌, ◌++◌,
  if◌then◌else◌, ltb, arith, All, ◌||◌,
}
use vullify_backend.Text.{Text, is_empty, has_prefix, skip_prefix}
use vullify_backend.Text.Laws.{
  text_eq_refl, text_eq_sound, has_prefix-split, has_prefix-append, skip_prefix-append,
}
use vullify_backend.Webhook.Verify.{
  hex_value, hex_decode, mac_equal, prefix_256, prefix_1, verify_git_hub_signature256,
  verify_git_hub_signature1, verify_with,
}

-- `hex.EncodeToString`, by which a sender writes the code.
abbrev hex_digit : ℕ → ℕ
hex_digit n = if ltb n 10 then b'0' + n else 87 + n

abbrev pub hex_encode : List ℕ → Text
hex_encode [] = []
hex_encode (b ∷ bs) = hex_digit (b / 16) ∷ hex_digit (b % 16) ∷ hex_encode bs

abbrev pub IsByte : ℕ → Type 0
IsByte b = b < 256

hex_value-hex_digit : (n : ℕ) → n < 16 → hex_value (hex_digit n) ≡ n
unfolding hex_value
hex_value-hex_digit n h = ground arith

pub hex_decode-hex_encode : (bs : List ℕ) → All IsByte bs → hex_decode (hex_encode bs) ≡ some bs
unfolding hex_decode
hex_decode-hex_encode [] h = refl
hex_decode-hex_encode (b ∷ bs) h =
    rw
      (
        hex_value-hex_digit (b / 16) (omega (arith, h.0)),
        hex_value-hex_digit (b % 16) (omega arith),
        hex_decode-hex_encode bs h.1,
      )
      (ground (arith, h.0))

mac_equal_refl : (bs : List ℕ) → mac_equal bs (some bs) ≡ true
mac_equal_refl bs = text_eq_refl bs

mac_equal_sound : (e : List ℕ) (o : Option (List ℕ)) → mac_equal e o ≡ true → o ≡ some e
mac_equal_sound e none h = cc
mac_equal_sound e (some got) h = ap some (text_eq_sound got e h)

-- What a sender with the secret writes into the header.
abbrev pub signed : Text → (Text → Text → List ℕ) → Text → Text → Text
signed prefix hmac body secret = prefix ++ hex_encode (hmac secret body)

-- The header is the prefix and a hexadecimal writing of the code of the body under the secret.
abbrev pub IsSigned : Text → (Text → Text → List ℕ) → Text → Text → Text → Type 0
IsSigned prefix hmac body sig_header secret =
    (is_empty secret ≡ false)
    × ((hex : Text) × (sig_header ≡ prefix ++ hex) × (hex_decode hex ≡ some (hmac secret body)))

module _ (prefix : Text) (hmac : Text → Text → List ℕ) (body : Text) (secret : Text) where
  verify_with-signed :
      (c : ℕ) (p : Text)
      → prefix ≡ c ∷ p
      → is_empty secret ≡ false
      → All IsByte (hmac secret body)
      → verify_with prefix hmac body (signed prefix hmac body secret) secret ≡ true
  unfolding verify_with
  verify_with-signed c p e named bytes =
      rw
        (
          has_prefix-append prefix (hex_encode (hmac secret body)),
          skip_prefix-append prefix (hex_encode (hmac secret body)),
          hex_decode-hex_encode (hmac secret body) bytes,
          mac_equal_refl (hmac secret body),
          named,
          e,
        )
        refl

  verify_with_sound :
      (sig_header : Text)
      → verify_with prefix hmac body sig_header secret ≡ true
      → IsSigned prefix hmac body sig_header secret
  unfolding verify_with
  verify_with_sound sig_header h =
      tested (is_empty sig_header) (is_empty secret) (has_prefix sig_header prefix) refl refl h
    where
      tested :
          (b s p : Bool)
          → is_empty secret ≡ s
          → has_prefix sig_header prefix ≡ p
          → (if b || s
              then false
              else if p
              then mac_equal (hmac secret body) (hex_decode (skip_prefix prefix sig_header))
              else false)
            ≡ true
          → IsSigned prefix hmac body sig_header secret
      tested false false true es ep e = (
        es,
        (
          skip_prefix prefix sig_header,
          has_prefix-split sig_header prefix ep,
          mac_equal_sound _ _ e,
        ),
      )
      tested true s p es ep e = cc
      tested false true p es ep e = cc
      tested false false false es ep e = cc

-- A signature in hexadecimal that a sender makes of a body with the secret, by either function, is
-- accepted for that body and that secret, where the code is bytes and the secret is not empty.
pub verify_git_hub_signature-signed :
    (hmac : Text → Text → List ℕ) (body secret : Text)
    → is_empty secret ≡ false
    → All IsByte (hmac secret body)
    → (verify_git_hub_signature256 hmac body (signed prefix_256 hmac body secret) secret ≡ true)
      × (verify_git_hub_signature1 hmac body (signed prefix_1 hmac body secret) secret ≡ true)
unfolding verify_git_hub_signature256 verify_git_hub_signature1
verify_git_hub_signature-signed hmac body secret named bytes = (
  verify_with-signed prefix_256 hmac body secret _ _ refl named bytes,
  verify_with-signed prefix_1 hmac body secret _ _ refl named bytes,
)

pub verify_git_hub_signature256-IsSigned :
    (hmac : Text → Text → List ℕ) (body sig_header secret : Text)
    → verify_git_hub_signature256 hmac body sig_header secret ≡ true
    → IsSigned prefix_256 hmac body sig_header secret
unfolding verify_git_hub_signature256
verify_git_hub_signature256-IsSigned hmac body sig_header secret =
    verify_with_sound prefix_256 hmac body secret sig_header

pub verify_git_hub_signature1-IsSigned :
    (hmac : Text → Text → List ℕ) (body sig_header secret : Text)
    → verify_git_hub_signature1 hmac body sig_header secret ≡ true
    → IsSigned prefix_1 hmac body sig_header secret
unfolding verify_git_hub_signature1
verify_git_hub_signature1-IsSigned hmac body sig_header secret =
    verify_with_sound prefix_1 hmac body secret sig_header
