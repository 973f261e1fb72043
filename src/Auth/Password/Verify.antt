-- ===== src/Auth/Password/Verify.antt =====
-- A password is accepted against the text that it was stored as.
use voice_asset_server.Base.{
  ℕ, zero, suc, ◌+◌, ◌-◌, ◌*◌, ◌/◌, ◌%◌, ◌≤◌, ◌<◌, ◌≡◌, refl, ap, subst, ◌∙◌, true, false, ◌&&◌,
  Option, none, some, List, [], ◌∷◌, ◌++◌, arith, ltb, ◌==◌, length, take, text_eq, text_eq_refl,
  All, ok, Bool-cases, ltb→lt, Option-cases, inl, inr,
}
use voice_asset_server.Text.{Bytes, codes, between, split_on, push_piece}
use voice_asset_server.Text.Base64.{digit}
use voice_asset_server.Text.Base64.Raw.{encode_raw, decode_raw, decode_raw-encode_raw}
use voice_asset_server.Auth.Password.{
  Derive, decimal, decimal_from, hash, digits_value, positive_int, after_prefix, sized, work_factor,
  compared, verify_key, verify_salt, verify_factor, verify_prefix, verify_parts, verify,
  password_salt_size, password_key_size, max_password_iterations, password_algorithm,
}

-- No dollar sign in a text.
abbrev Plain : Bytes → Type 0
Plain = All (λ b. (b == b'$') ≡ false)

split_on-Plain : (s : Bytes) → Plain s → split_on b'$' s ≡ s ∷ []
unfolding split_on push_piece
split_on-Plain [] p = refl
split_on-Plain (c ∷ s) p = rw (split_on-Plain s p.1, p.0) refl

split_some : (t : Bytes) → (p : Bytes) × (ps : List Bytes) × (split_on b'$' t ≡ p ∷ ps)
unfolding split_on push_piece
split_some [] = ([], [], refl)
split_some (c ∷ t) =
    let r = split_some t in
    elim (Bool-cases (c == b'$')) [
      | inl here ↦ ([], r.0 ∷ r.1, rw (r.2, here) refl)
      | inr other ↦ (c ∷ r.0, r.1, rw (r.2, other) refl)
    ]

split_on-piece : (s t : Bytes) → Plain s → split_on b'$' (s ++ (b'$' ∷ t)) ≡ s ∷ split_on b'$' t
unfolding split_on push_piece
split_on-piece [] t p = let r = split_some t in rw (r.2) refl
split_on-piece (c ∷ s) t p = rw (split_on-piece s t p.1, p.0) refl

abbrev Digits : Bytes → Type 0
Digits = All (λ b. between b'0' b'9' b ≡ true)

decimal_from-Digits : (fuel n : ℕ) (s : Bytes) → Digits s → Digits (decimal_from fuel n s)
unfolding decimal_from
decimal_from-Digits zero n s d = d
decimal_from-Digits (suc fuel) n s d = elim (Bool-cases (ltb n 10)) [
  | inl small ↦ rw small (ground arith, d)
  | inr large ↦ rw large (decimal_from-Digits fuel (n / 10) _ (ground arith, d))
]

last_digit : (n : ℕ) (s : Bytes) → n < 10 → digits_value 0 ((b'0' + n) ∷ s) ≡ digits_value n s
unfolding digits_value
last_digit n s h =
    let e : 0 * 10 + (b'0' + n - b'0') ≡ n = omega arith in
    let d : between b'0' b'9' (b'0' + n) ≡ true = ground arith in rw (d, e) refl

next_digit : (n : ℕ) (s : Bytes) → digits_value (n / 10) ((b'0' + n % 10) ∷ s) ≡ digits_value n s
unfolding digits_value
next_digit n s =
    let e : n / 10 * 10 + (b'0' + n % 10 - b'0') ≡ n = omega arith in
    let d : between b'0' b'9' (b'0' + n % 10) ≡ true = ground arith in rw (d, e) refl

digits_value-decimal_from :
    (fuel n : ℕ) (s : Bytes) → n < fuel → digits_value 0 (decimal_from fuel n s) ≡ digits_value n s
unfolding decimal_from digits_value
digits_value-decimal_from zero n s h = absurd (omega arith)
digits_value-decimal_from (suc fuel) n s h = elim (Bool-cases (ltb n 10)) [
  | inl small ↦ rw (small, digits_value) (last_digit n s (ltb→lt n 10 small))
  | inr large ↦
      rw (large, digits_value-decimal_from fuel (n / 10) ((b'0' + n % 10) ∷ s) (ground arith))
        (next_digit n s)
]

digit_plain : (v : ℕ) → v < 64 → (digit v == b'$') ≡ false
digit_plain v h = ground arith

encode_raw-Plain : (s : Bytes) → All (λ b. b < 256) s → Plain (encode_raw s)
unfolding encode_raw
encode_raw-Plain [] h = tt
encode_raw-Plain (a ∷ []) h =
    (digit_plain (a / 4) (omega arith), (digit_plain ((a % 4) * 16) (omega arith), tt))
encode_raw-Plain (a ∷ b ∷ []) h = (
  digit_plain (a / 4) (omega arith),
  (
    digit_plain ((a % 4) * 16 + b / 16) (omega arith),
    (digit_plain ((b % 16) * 4) (omega arith), tt),
  ),
)
encode_raw-Plain (a ∷ b ∷ c ∷ s) h = (
  digit_plain (a / 4) (omega arith),
  (
    digit_plain ((a % 4) * 16 + b / 16) (omega arith),
    (
      digit_plain ((b % 16) * 4 + c / 64) (omega arith),
      (digit_plain (c % 64) (omega arith), encode_raw-Plain s h.1.1.1),
    ),
  ),
)

Digits-Plain : (s : Bytes) → Digits s → Plain s
Digits-Plain [] d = tt
Digits-Plain (c ∷ s) d = (not_dollar c d.0, Digits-Plain s d.1)
  where
    not_dollar : (c : ℕ) → between b'0' b'9' c ≡ true → (c == b'$') ≡ false
    not_dollar c h = ground arith

positive_int-Digits :
    (n : ℕ) (s : Bytes) → Digits s → digits_value 0 s ≡ some (suc n) → positive_int s ≡ some (suc n)
unfolding positive_int digits_value
positive_int-Digits n [] d h = absurd (ground arith)
positive_int-Digits n (c ∷ []) d h = h
positive_int-Digits n (c ∷ e ∷ s) d h =
    let plus : (c == b'+') ≡ false = ground (arith, d.0) in
    let minus : (c == b'-') ≡ false = ground (arith, d.0) in rw (plus, minus, positive_int) h

decimal-Digits : (n : ℕ) → Digits (decimal n)
unfolding decimal
decimal-Digits n = decimal_from-Digits (suc n) n [] tt

positive_int-decimal : (n : ℕ) → positive_int (decimal (suc n)) ≡ some (suc n)
unfolding decimal digits_value
positive_int-decimal n =
    positive_int-Digits n (decimal (suc n)) (decimal_from-Digits (suc (suc n)) (suc n) [] tt)
      (digits_value-decimal_from (suc (suc n)) (suc n) [] (omega arith))

-- The five pieces of a stored password.
pieces :
    (a f s k : Bytes)
    → Plain a
    → Plain f
    → Plain s
    → Plain k
    → split_on b'$' (b'$' ∷ (a ++ (b'$' ∷ (f ++ (b'$' ∷ (s ++ (b'$' ∷ k)))))))
      ≡ [] ∷ a ∷ f ∷ s ∷ k ∷ []
pieces a f s k pa pf ps pk =
    split_on-piece [] _ tt
    ∙ ap (◌∷◌ []) (
        split_on-piece a _ pa
        ∙ ap (◌∷◌ a) (
            split_on-piece f _ pf
            ∙ ap (◌∷◌ f) (split_on-piece s _ ps ∙ ap (◌∷◌ s) (split_on-Plain k pk))))

-- What a key derivation gives: as many bytes as were asked for.
pub record IsDerivation (derive : Derive) : Type 0 where
  pub size :
      (password salt : Bytes) (iterations n : ℕ) (key : Bytes)
      → derive password salt iterations n ≡ some key
      → length key ≡ n
  pub bytes :
      (password salt : Bytes) (iterations n : ℕ) (key : Bytes)
      → derive password salt iterations n ≡ some key
      → All (λ b. b < 256) key

sized_lem :
    (n : ℕ) (s : Bytes)
    → All (λ b. b < 256) s
    → length s ≡ n
    → sized n (decode_raw (encode_raw s)) ≡ some s
unfolding sized
sized_lem n s h e =
    let same : (length s == n) ≡ true = ground arith in rw (decode_raw-encode_raw s h, same) refl

password_algorithm-Plain : Plain password_algorithm
unfolding codes
password_algorithm-Plain = (
  refl,
  (
    refl,
    (refl, (refl, (refl, (refl, (refl, (refl, (refl, (refl, (refl, (refl, (refl, tt))))))))))),
  ),
)

is_algorithm : (text_eq [] [] && text_eq password_algorithm password_algorithm) ≡ true
unfolding text_eq codes
is_algorithm = refl

module _ (derive : Derive) (d : IsDerivation derive) (n : ℕ)
    (small : suc n ≤ max_password_iterations) (password salt key : Bytes)
    (salt_bytes : All (λ b. b < 256) salt) (salt_size : length salt ≡ password_salt_size)
    (derived : derive password salt (suc n) password_key_size ≡ some key) where
  factor : work_factor (positive_int (decimal (suc n))) ≡ some (suc n)
  unfolding work_factor
  factor =
      let fits : between 1 max_password_iterations (suc n) ≡ true = ground arith in
      rw (positive_int-decimal n, fits) refl

  abbrev factor_piece : Bytes
  factor_piece = b'i' ∷ b'=' ∷ decimal (suc n)

  stored_pieces :
      split_on b'$' (
        b'$'
        ∷ (password_algorithm
            ++ (b'$' ∷ (factor_piece ++ (b'$' ∷ (encode_raw salt ++ (b'$' ∷ encode_raw key)))))))
      ≡ [] ∷ password_algorithm ∷ factor_piece ∷ encode_raw salt ∷ encode_raw key ∷ []
  stored_pieces =
      pieces password_algorithm factor_piece (encode_raw salt) (encode_raw key)
        password_algorithm-Plain
        (refl, (refl, Digits-Plain (decimal (suc n)) (decimal-Digits (suc n))))
        (encode_raw-Plain salt salt_bytes)
        (encode_raw-Plain key (d.bytes password salt (suc n) password_key_size key derived))

  parts-accepted :
      verify_parts derive password
        ([] ∷ password_algorithm ∷ factor_piece ∷ encode_raw salt ∷ encode_raw key ∷ [])
      ≡ ok true
  unfolding verify_parts verify_prefix verify_factor verify_salt verify_key compared after_prefix
  parts-accepted =
      let key_bytes = d.bytes password salt (suc n) password_key_size key derived in
      let key_size = d.size password salt (suc n) password_key_size key derived in
      rw is_algorithm (
        ap (λ w. verify_factor derive password w (encode_raw salt) (encode_raw key)) factor
        ∙ ap (λ o. verify_salt derive password (suc n) o (encode_raw key))
            (sized_lem password_salt_size salt salt_bytes salt_size)
        ∙ ap (verify_key derive password (suc n) salt)
            (sized_lem password_key_size key key_bytes key_size)
        ∙ ap (λ l. compared key (derive password salt (suc n) l)) key_size
        ∙ ap (compared key) derived
        ∙ ap ok (text_eq_refl key))

take-bytes : (n : ℕ) (s : Bytes) → All (λ b. b < 256) s → All (λ b. b < 256) (take n s)
take-bytes zero s h = tt
take-bytes (suc n) [] h = tt
take-bytes (suc n) (b ∷ s) h = (h.0, take-bytes n s h.1)

length-take : (n : ℕ) (s : Bytes) → n ≤ length s → length (take n s) ≡ n
length-take zero s h = refl
length-take (suc n) [] h = absurd (omega arith)
length-take (suc n) (b ∷ s) h = ap suc (length-take n s (omega arith))

-- What was stored is accepted with the password.
abbrev Accepted : Derive → Bytes → Option (Bytes × Bytes) → Type 0
Accepted derive password none = Unit
Accepted derive password (some (stored, rest)) = verify derive stored password ≡ ok true

-- A password is accepted against the text that it was stored as, for at most ten million iterations and
-- a derivation that gives as many bytes as it is asked for.
pub verify-hash :
    (derive : Derive) (n : ℕ) (random password stored rest : Bytes)
    → IsDerivation derive
    → suc n ≤ max_password_iterations
    → All (λ b. b < 256) random
    → hash derive (suc n) random password ≡ some (stored, rest)
    → verify derive stored password ≡ ok true
unfolding hash verify codes
verify-hash derive n random password stored rest d small bytes h =
    subst (Accepted derive password) h accepted
  where
    accepted : Accepted derive password (hash derive (suc n) random password)
    accepted = elim (Bool-cases (ltb (length random) password_salt_size)) [
      | inl short ↦ rw (short, hash) tt
      | inr enough ↦
          elim (Option-cases
            (derive password (take password_salt_size random) (suc n) password_key_size)) [
              | inl fails ↦ rw (enough, fails, hash) tt
              | inr (key, derived) ↦
                  let size = length-take password_salt_size random (ground arith) in
                  let salt_bytes = take-bytes password_salt_size random bytes in
                  rw (enough, derived, hash)
                    (ap (verify_parts derive password) (
                        stored_pieces derive d n small password (take password_salt_size random) key
                          salt_bytes size derived)
                      ∙ parts-accepted derive d n small password (take password_salt_size random)
                          key salt_bytes size derived)
            ]
    ]
