-- ===== src/Text/Base64.antt =====
-- `base64.StdEncoding.Strict()`: decoding skips line breaks, and wants zero trailing bits.
pub mod Raw
use voice_asset_server.Base.{
  ℕ, ◌+◌, ◌-◌, ◌*◌, ◌/◌, ◌%◌, ◌<◌, ◌≡◌, refl, ap, Bool, false, ◌||◌, Option, none, some, [], ◌∷◌,
  arith, ltb, ◌==◌, if◌then◌else◌, All,
}
use voice_asset_server.Text.{Bytes, between}

-- The value of a digit.
unfoldable pub sixbit : ℕ → Option ℕ
sixbit c =
    if between b'A' b'Z' c
    then some (c - b'A')
    else if between b'a' b'z' c
    then some (c - b'a' + 26)
    else if between b'0' b'9' c
    then some (c - b'0' + 52)
    else if c == b'+'
    then some 62
    else if c == b'/'
    then some 63
    else none

is_break : ℕ → Bool
is_break c = c == 13 || c == 10

strip_breaks : Bytes → Bytes
unfolding is_break
strip_breaks [] = []
strip_breaks (c ∷ s) = let rest = strip_breaks s in if is_break c then rest else c ∷ rest

infixl 5 ◌>>=◌
abbrev ◌>>=◌ {ℓ κ} : {A : Type ℓ} {B : Type κ} → Option A → (A → Option B) → Option B
none >>= f = none
some a >>= f = f a

abbrev padding : ℕ
padding = b'='

-- The last group, with one byte or two.
last_group : ℕ → ℕ → ℕ → Option Bytes
last_group a b c =
    if c == padding
    then (do x ← sixbit a; y ← sixbit b; if y % 16 == 0 then some ((x * 4 + y / 16) ∷ []) else none)
    else (do
      x ← sixbit a
      y ← sixbit b
      z ← sixbit c
      if z % 4 == 0 then some ((x * 4 + y / 16) ∷ ((y % 16) * 16 + z / 4) ∷ []) else none)

-- Nothing may follow a padded group.
padded_group : ℕ → ℕ → ℕ → Bytes → Option Bytes
unfolding last_group
padded_group a b c [] = last_group a b c
padded_group a b c (x ∷ s) = none

full_group : ℕ → ℕ → ℕ → ℕ → Option Bytes → Option Bytes
full_group a b c d tail = do
  x ← sixbit a
  y ← sixbit b
  z ← sixbit c
  w ← sixbit d
  rest ← tail
  some ((x * 4 + y / 16) ∷ ((y % 16) * 16 + z / 4) ∷ ((z % 4) * 64 + w) ∷ rest)

decode_groups : Bytes → Option Bytes
unfolding padded_group
decode_groups [] = some []
decode_groups (a ∷ b ∷ c ∷ d ∷ s) =
    let tail = decode_groups s in
    if d == padding then padded_group a b c s else full_group a b c d tail
decode_groups s = none

unfoldable pub decode : Bytes → Option Bytes
unfolding strip_breaks decode_groups full_group
decode s = decode_groups (strip_breaks s)

-- The standard alphabet and the encoding, as the description that `decode` is held to.
abbrev pub digit : ℕ → ℕ
digit v =
    if ltb v 26
    then b'A' + v
    else if ltb v 52
    then b'a' + (v - 26)
    else if ltb v 62
    then b'0' + (v - 52)
    else if v == 62
    then b'+'
    else b'/'

unfoldable pub encode : Bytes → Bytes
encode [] = []
encode (a ∷ []) = digit (a / 4) ∷ digit ((a % 4) * 16) ∷ padding ∷ padding ∷ []
encode (a ∷ b ∷ []) =
    digit (a / 4) ∷ digit ((a % 4) * 16 + b / 16) ∷ digit ((b % 16) * 4) ∷ padding ∷ []
encode (a ∷ b ∷ c ∷ s) =
    digit (a / 4)
    ∷ digit ((a % 4) * 16 + b / 16)
    ∷ digit ((b % 16) * 4 + c / 64)
    ∷ digit (c % 64)
    ∷ encode s

-- A digit is a digit of its value, and neither a line break nor padding.
digit_lem :
    (v : ℕ)
    → v < 64
    → (sixbit (digit v) ≡ some v) × (is_break (digit v) ≡ false) × ((digit v == padding) ≡ false)
unfolding sixbit is_break
digit_lem v h = ground arith

strip_breaks-digit :
    (v : ℕ) (s t : Bytes) → v < 64 → strip_breaks s ≡ t → strip_breaks (digit v ∷ s) ≡ digit v ∷ t
unfolding strip_breaks
strip_breaks-digit v s t h e = rw ((digit_lem v h).1) (ap (◌∷◌ (digit v)) e)

strip_breaks-nil : strip_breaks [] ≡ []
unfolding strip_breaks
strip_breaks-nil = refl

strip_breaks-padding : strip_breaks (padding ∷ []) ≡ padding ∷ []
unfolding strip_breaks
strip_breaks-padding = refl

strip_breaks-padding2 : strip_breaks (padding ∷ padding ∷ []) ≡ padding ∷ padding ∷ []
unfolding strip_breaks
strip_breaks-padding2 = refl

strip_breaks-encode : (s : Bytes) → All (λ b. b < 256) s → strip_breaks (encode s) ≡ encode s
unfolding encode
strip_breaks-encode [] h = strip_breaks-nil
strip_breaks-encode (a ∷ []) h =
    strip_breaks-digit (a / 4) _ _ (omega arith)
      (strip_breaks-digit ((a % 4) * 16) _ _ (omega arith) strip_breaks-padding2)
strip_breaks-encode (a ∷ b ∷ []) h = strip_breaks-digit (a / 4) _ _ (omega arith) (
    strip_breaks-digit ((a % 4) * 16 + b / 16) _ _ (omega arith)
      (strip_breaks-digit ((b % 16) * 4) _ _ (omega arith) strip_breaks-padding))
strip_breaks-encode (a ∷ b ∷ c ∷ s) h = strip_breaks-digit (a / 4) _ _ (omega arith) (
    strip_breaks-digit ((a % 4) * 16 + b / 16) _ _ (omega arith) (
      strip_breaks-digit ((b % 16) * 4 + c / 64) _ _ (omega arith)
        (strip_breaks-digit (c % 64) _ _ (omega arith) (strip_breaks-encode s h.1.1.1))))

full_group-digits :
    (x y z w : ℕ) (rest : Bytes)
    → x < 64
    → y < 64
    → z < 64
    → w < 64
    → full_group (digit x) (digit y) (digit z) (digit w) (some rest)
      ≡ some ((x * 4 + y / 16) ∷ ((y % 16) * 16 + z / 4) ∷ ((z % 4) * 64 + w) ∷ rest)
unfolding full_group
full_group-digits x y z w rest hx hy hz hw =
    rw ((digit_lem x hx).0, (digit_lem y hy).0, (digit_lem z hz).0, (digit_lem w hw).0)

bytes_of_sextets :
    (a b c : ℕ)
    → a < 256
    → b < 256
    → c < 256
    → (a / 4 * 4 + ((a % 4) * 16 + b / 16) / 16 ≡ a)
      × (((a % 4) * 16 + b / 16) % 16 * 16 + ((b % 16) * 4 + c / 64) / 4 ≡ b)
      × (((b % 16) * 4 + c / 64) % 4 * 64 + c % 64 ≡ c)
bytes_of_sextets a b c ha hb hc = omega arith

one_byte :
    (a : ℕ)
    → a < 256
    → (if (a % 4) * 16 % 16 == 0 then some ((a / 4 * 4 + (a % 4) * 16 / 16) ∷ []) else none)
      ≡ some (a ∷ [])
one_byte a h = ground arith

two_bytes :
    (a b : ℕ)
    → a < 256
    → b < 256
    → (if (b % 16) * 4 % 4 == 0
        then some (
            (a / 4 * 4 + ((a % 4) * 16 + b / 16) / 16)
            ∷ (((a % 4) * 16 + b / 16) % 16 * 16 + (b % 16) * 4 / 4)
            ∷ [])
        else none)
      ≡ some (a ∷ b ∷ [])
two_bytes a b h k = ground arith

decode_groups-encode : (s : Bytes) → All (λ b. b < 256) s → decode_groups (encode s) ≡ some s
unfolding encode decode_groups
decode_groups-encode [] h = refl
decode_groups-encode (a ∷ []) h =
    rw ((digit_lem (a / 4) (omega arith)).0, (digit_lem ((a % 4) * 16) (omega arith)).0)
      (one_byte a (omega arith))
decode_groups-encode (a ∷ b ∷ []) h =
    rw
      (
        last_group,
        (digit_lem ((b % 16) * 4) (omega arith)).2,
        (digit_lem (a / 4) (omega arith)).0,
        (digit_lem ((a % 4) * 16 + b / 16) (omega arith)).0,
        (digit_lem ((b % 16) * 4) (omega arith)).0,
      )
      (two_bytes a b (omega arith) (omega arith))
decode_groups-encode (a ∷ b ∷ c ∷ s) h =
    let (ea, eb, ec) = bytes_of_sextets a b c (omega arith) (omega arith) (omega arith) in
    rw ((digit_lem (c % 64) (omega arith)).2, decode_groups-encode s h.1.1.1)
      (rw
        (full_group-digits (a / 4) ((a % 4) * 16 + b / 16) ((b % 16) * 4 + c / 64) (c % 64) s
          (omega arith) (omega arith) (omega arith) (omega arith))
        (rw (ea, eb, ec)))

-- Decoding an encoded payload gives the payload.
pub decode-encode : (s : Bytes) → All (λ b. b < 256) s → decode (encode s) ≡ some s
unfolding decode
decode-encode s h = rw (strip_breaks-encode s h) (decode_groups-encode s h)
