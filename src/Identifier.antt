-- ===== src/Identifier.antt =====
-- UUIDs (internal/platform/identifier/uuid.go).
pub mod Canonical
mod Tests
use Prim.Native.Nat.{bit_and, bit_or}
use voice_asset_server.Base.{
  ℕ, zero, suc, ◌+◌, ◌-◌, ◌/◌, ◌%◌, Bool, true, false, not, ◌&&◌, ◌||◌, Option, none, some, List,
  [], ◌∷◌, ◌++◌, map, ltb, ◌==◌, if◌then◌else◌, length, get_elem?, take, drop, Result, ok, err,
}
use voice_asset_server.Text.{Bytes, between}

-- The source of randomness ended before 16 bytes were read.
pub data Error : Type 0 where
  short_read : Error

abbrev pub hex_digit : ℕ → ℕ
hex_digit n = if ltb n 10 then b'0' + n else b'a' + (n - 10)

-- hex.EncodeToString
encode_hex : Bytes → Bytes
encode_hex [] = []
encode_hex (b ∷ s) = hex_digit (b / 16) ∷ hex_digit (b % 16) ∷ encode_hex s

-- value[i] = f(value[i])
abbrev update_at : ℕ → (ℕ → ℕ) → Bytes → Bytes
update_at i f [] = []
update_at zero f (b ∷ s) = f b ∷ s
update_at (suc i) f (b ∷ s) = b ∷ update_at i f s

abbrev pub version_byte : ℕ → ℕ
version_byte b = bit_or (bit_and b 0x0f) 0x40

abbrev pub variant_byte : ℕ → ℕ
variant_byte b = bit_or (bit_and b 0x3f) 0x80

abbrev slice : ℕ → ℕ → Bytes → Bytes
slice from to s = take (to - from) (drop from s)

pub format_uuid : Bytes → Bytes
unfolding encode_hex
format_uuid v =
    encode_hex (slice 0 4 v)
    ++ (b'-' ∷ encode_hex (slice 4 6 v)
        ++ (b'-' ∷ encode_hex (slice 6 8 v)
            ++ (b'-' ∷ encode_hex (slice 8 10 v) ++ (b'-' ∷ encode_hex (slice 10 16 v)))))

-- The identifier, and what is left of the random source.
unfoldable pub new_uuid_from : Bytes → Result Error (Bytes × Bytes)
new_uuid_from random =
    if ltb (length random) 16
    then err short_read
    else ok (
      format_uuid (update_at 8 variant_byte (update_at 6 version_byte (take 16 random))),
      drop 16 random,
    )

abbrev is_dash_at : Bytes → ℕ → Bool
is_dash_at s i = elim (get_elem? s i) [ none ↦ false | some c ↦ c == b'-' ]

abbrev is_hex : ℕ → Bool
is_hex c = between b'0' b'9' c || between b'a' b'f' c || between b'A' b'F' c

-- The loop over the positions, from `index` on.
hex_from : ℕ → Bytes → Bool
hex_from index [] = true
hex_from index (c ∷ s) =
    (index == 8 || index == 13 || index == 18 || index == 23 || is_hex c) && hex_from (index + 1) s

unfoldable pub is_uuid : Bytes → Bool
unfolding hex_from
is_uuid s =
    length s == 36
    && is_dash_at s 8
    && is_dash_at s 13
    && is_dash_at s 18
    && is_dash_at s 23
    && hex_from 0 s

-- strings.ToLower, on the ASCII texts that `is_uuid` lets through.
abbrev to_lower : ℕ → ℕ
to_lower c = if between b'A' b'Z' c then c + 32 else c

unfoldable pub normalize_uuid : Bytes → Option Bytes
normalize_uuid s = if is_uuid s then some (map to_lower s) else none
