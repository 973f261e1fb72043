-- ===== src/Auth/Password.antt =====
-- internal/auth/password.go: passwords are stored under a salt, as text. The derivation of a key
-- (PBKDF2 with SHA-256) is a parameter: it is given the password, the salt, the number of iterations and
-- the length of the key.
pub mod Verify
mod Tests
use voice_asset_server.Base.{
  ℕ, zero, suc, ◌+◌, ◌-◌, ◌*◌, ◌/◌, ◌%◌, Bool, true, false, not, ◌&&◌, ◌||◌, Option, none, some,
  List, [], ◌∷◌, ◌++◌, ltb, leb, ◌==◌, if◌then◌else◌, length, take, drop, text_eq, Result, ok, err,
}
use voice_asset_server.Text.{Bytes, codes, between, split_on}
use voice_asset_server.Text.Base64.Raw.{encode_raw, decode_raw}

abbrev pub Derive : Type 0
Derive = Bytes → Bytes → ℕ → ℕ → Option Bytes

abbrev pub password_salt_size : ℕ
password_salt_size = 16

abbrev pub password_key_size : ℕ
password_key_size = 32

abbrev pub max_password_iterations : ℕ
max_password_iterations = 10000000

abbrev pub default_password_iterations : ℕ
default_password_iterations = 600000

abbrev pub password_algorithm : Bytes
password_algorithm = codes "pbkdf2-sha256"

-- The decimal digits of a number, `%d`, in front of a text; the first argument bounds their number.
decimal_from : ℕ → ℕ → Bytes → Bytes
decimal_from zero n s = s
decimal_from (suc fuel) n s =
    let rest = decimal_from fuel (n / 10) ((b'0' + n % 10) ∷ s) in
    if ltb n 10 then (b'0' + n) ∷ s else rest

unfoldable pub decimal : ℕ → Bytes
unfolding decimal_from
decimal n = decimal_from (suc n) n []

-- `PasswordHasher.Hash`, for the number of iterations that `iterations` gives, and what is left of the
-- random source.
unfoldable pub hash : Derive → ℕ → Bytes → Bytes → Option (Bytes × Bytes)
unfolding decimal
hash derive iterations random password =
    if ltb (length random) password_salt_size
    then none
    else elim (derive password (take password_salt_size random) iterations password_key_size) [
      | none ↦ none
      | some key ↦ some (
        codes "$"
            ++ (password_algorithm
                ++ (codes "$i="
                    ++ (decimal iterations
                        ++ (codes "$"
                            ++ (encode_raw (take password_salt_size random)
                                ++ (codes "$" ++ encode_raw key)))))),
        drop password_salt_size random,
      )
    ]

-- strconv.Atoi on digits, without the limit of an `int`, which the caller's is below.
unfoldable pub digits_value : ℕ → Bytes → Option ℕ
digits_value n [] = some n
digits_value n (c ∷ s) =
    let rest = digits_value (n * 10 + (c - b'0')) s in if between b'0' b'9' c then rest else none

-- strconv.Atoi, for a caller that refuses what is not positive: a sign in front is read, and a negative
-- number is given as 0.
unfoldable pub positive_int : Bytes → Option ℕ
positive_int [] = none
positive_int (c ∷ []) = digits_value 0 (c ∷ [])
positive_int (c ∷ d ∷ s) =
    if c == b'+'
    then digits_value 0 (d ∷ s)
    else if c == b'-'
    then some 0
    else digits_value 0 (c ∷ d ∷ s)

pub data VerifyError : Type 0 where
  invalid_encoding invalid_work_factor invalid_salt invalid_key derivation_failed : VerifyError

-- strings.HasPrefix and strings.TrimPrefix with "i="
unfoldable pub after_prefix : Bytes → Option Bytes
after_prefix [] = none
after_prefix (a ∷ []) = none
after_prefix (a ∷ b ∷ s) = if a == b'i' && b == b'=' then some s else none

-- A text that decodes to so many bytes.
unfoldable pub sized : ℕ → Option Bytes → Option Bytes
sized n none = none
sized n (some s) = if length s == n then some s else none

unfoldable pub work_factor : Option ℕ → Option ℕ
work_factor none = none
work_factor (some n) = if between 1 max_password_iterations n then some n else none

compared : Bytes → Option Bytes → Result VerifyError Bool
compared want none = err derivation_failed
compared want (some got) = ok (text_eq got want)

verify_key : Derive → Bytes → ℕ → Bytes → Option Bytes → Result VerifyError Bool
unfolding compared
verify_key derive password iterations salt none = err invalid_key
verify_key derive password iterations salt (some want) =
    compared want (derive password salt iterations (length want))

verify_salt : Derive → Bytes → ℕ → Option Bytes → Bytes → Result VerifyError Bool
unfolding verify_key
verify_salt derive password iterations none key = err invalid_salt
verify_salt derive password iterations (some salt) key =
    verify_key derive password iterations salt (sized password_key_size (decode_raw key))

verify_factor : Derive → Bytes → Option ℕ → Bytes → Bytes → Result VerifyError Bool
unfolding verify_salt
verify_factor derive password none salt key = err invalid_work_factor
verify_factor derive password (some iterations) salt key =
    verify_salt derive password iterations (sized password_salt_size (decode_raw salt)) key

verify_prefix : Derive → Bytes → Option Bytes → Bytes → Bytes → Result VerifyError Bool
unfolding verify_factor
verify_prefix derive password none salt key = err invalid_encoding
verify_prefix derive password (some digits) salt key =
    verify_factor derive password (work_factor (positive_int digits)) salt key

verify_parts : Derive → Bytes → List Bytes → Result VerifyError Bool
unfolding verify_prefix
verify_parts derive password (first ∷ algorithm ∷ factor ∷ salt ∷ key ∷ []) =
    if not (text_eq first [] && text_eq algorithm password_algorithm)
    then err invalid_encoding
    else verify_prefix derive password (after_prefix factor) salt key
verify_parts derive password _ = err invalid_encoding

-- `PasswordHasher.Verify`
unfoldable pub verify : Derive → Bytes → Bytes → Result VerifyError Bool
unfolding verify_parts
verify derive encoded password = verify_parts derive password (split_on b'$' encoded)
