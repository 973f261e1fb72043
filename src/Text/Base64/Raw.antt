-- ===== src/Text/Base64/Raw.antt =====
-- `base64.RawStdEncoding`: no padding, and trailing bits are ignored.
use voice_asset_server.Base.{
  ℕ, ◌+◌, ◌*◌, ◌/◌, ◌%◌, ◌<◌, ◌≡◌, refl, Option, none, some, [], ◌∷◌, arith, All,
}
use voice_asset_server.Text.{Bytes}
use voice_asset_server.Text.Base64.{
  sixbit, strip_breaks, strip_breaks-digit, strip_breaks-nil, digit, digit_lem, full_group,
  full_group-digits, bytes_of_sextets,
}

one_of : Option ℕ → Option ℕ → Option Bytes
one_of (some x) (some y) = some ((x * 4 + y / 16) ∷ [])
one_of (some x) none = none
one_of none y = none

two_of : Option ℕ → Option ℕ → Option ℕ → Option Bytes
two_of (some x) (some y) (some z) = some ((x * 4 + y / 16) ∷ ((y % 16) * 16 + z / 4) ∷ [])
two_of (some x) (some y) none = none
two_of (some x) none z = none
two_of none y z = none

decode_raw_groups : Bytes → Option Bytes
unfolding one_of two_of full_group
decode_raw_groups [] = some []
decode_raw_groups (a ∷ []) = none
decode_raw_groups (a ∷ b ∷ []) = one_of (sixbit a) (sixbit b)
decode_raw_groups (a ∷ b ∷ c ∷ []) = two_of (sixbit a) (sixbit b) (sixbit c)
decode_raw_groups (a ∷ b ∷ c ∷ d ∷ s) = full_group a b c d (decode_raw_groups s)

unfoldable pub decode_raw : Bytes → Option Bytes
unfolding strip_breaks decode_raw_groups
decode_raw s = decode_raw_groups (strip_breaks s)

unfoldable pub encode_raw : Bytes → Bytes
encode_raw [] = []
encode_raw (a ∷ []) = digit (a / 4) ∷ digit ((a % 4) * 16) ∷ []
encode_raw (a ∷ b ∷ []) = digit (a / 4) ∷ digit ((a % 4) * 16 + b / 16) ∷ digit ((b % 16) * 4) ∷ []
encode_raw (a ∷ b ∷ c ∷ s) =
    digit (a / 4)
    ∷ digit ((a % 4) * 16 + b / 16)
    ∷ digit ((b % 16) * 4 + c / 64)
    ∷ digit (c % 64)
    ∷ encode_raw s

strip_breaks-encode_raw :
    (s : Bytes) → All (λ b. b < 256) s → strip_breaks (encode_raw s) ≡ encode_raw s
unfolding encode_raw
strip_breaks-encode_raw [] h = strip_breaks-nil
strip_breaks-encode_raw (a ∷ []) h =
    strip_breaks-digit (a / 4) _ _ (omega arith)
      (strip_breaks-digit ((a % 4) * 16) _ _ (omega arith) strip_breaks-nil)
strip_breaks-encode_raw (a ∷ b ∷ []) h = strip_breaks-digit (a / 4) _ _ (omega arith) (
    strip_breaks-digit ((a % 4) * 16 + b / 16) _ _ (omega arith)
      (strip_breaks-digit ((b % 16) * 4) _ _ (omega arith) strip_breaks-nil))
strip_breaks-encode_raw (a ∷ b ∷ c ∷ s) h = strip_breaks-digit (a / 4) _ _ (omega arith) (
    strip_breaks-digit ((a % 4) * 16 + b / 16) _ _ (omega arith) (
      strip_breaks-digit ((b % 16) * 4 + c / 64) _ _ (omega arith)
        (strip_breaks-digit (c % 64) _ _ (omega arith) (strip_breaks-encode_raw s h.1.1.1))))

one_raw : (a : ℕ) → a < 256 → a / 4 * 4 + (a % 4) * 16 / 16 ≡ a
one_raw a h = omega arith

second_byte : (a b : ℕ) → b < 256 → (a % 4 * 16 + b / 16) % 16 * 16 + b % 16 * 4 / 4 ≡ b
second_byte a b h = omega arith

decode_raw_groups-encode_raw :
    (s : Bytes) → All (λ b. b < 256) s → decode_raw_groups (encode_raw s) ≡ some s
unfolding encode_raw decode_raw_groups one_of two_of
decode_raw_groups-encode_raw [] h = refl
decode_raw_groups-encode_raw (a ∷ []) h =
    rw
      (
        (digit_lem (a / 4) (omega arith)).0,
        (digit_lem ((a % 4) * 16) (omega arith)).0,
        one_raw a (omega arith),
      )
      refl
decode_raw_groups-encode_raw (a ∷ b ∷ []) h =
    let (ea, eb, ec) = bytes_of_sextets a b 0 (omega arith) (omega arith) (omega arith) in
    rw
      (
        (digit_lem (a / 4) (omega arith)).0,
        (digit_lem ((a % 4) * 16 + b / 16) (omega arith)).0,
        (digit_lem ((b % 16) * 4) (omega arith)).0,
      )
      (rw (ea, second_byte a b (omega arith)) refl)
decode_raw_groups-encode_raw (a ∷ b ∷ c ∷ s) h =
    let (ea, eb, ec) = bytes_of_sextets a b c (omega arith) (omega arith) (omega arith) in
    rw (decode_raw_groups-encode_raw s h.1.1.1) (
      rw
        (full_group-digits (a / 4) ((a % 4) * 16 + b / 16) ((b % 16) * 4 + c / 64) (c % 64) s
          (omega arith) (omega arith) (omega arith) (omega arith))
        (rw (ea, eb, ec)))

-- Decoding an encoded text gives the text.
pub decode_raw-encode_raw : (s : Bytes) → All (λ b. b < 256) s → decode_raw (encode_raw s) ≡ some s
unfolding decode_raw
decode_raw-encode_raw s h = rw (strip_breaks-encode_raw s h) (decode_raw_groups-encode_raw s h)
