-- ===== src/Auth/Password/Tests.antt =====
-- Storing and accepting a password at a concrete input.
use voice_asset_server.Base.{
  ℕ, zero, suc, ◌<◌, ◌≡◌, refl, ap, subst, true, some, [], ◌∷◌, arith, All, length, ok,
}
use voice_asset_server.Text.{Bytes, codes}
use voice_asset_server.Text.Base64.Raw.{encode_raw}
use voice_asset_server.Auth.Password.{Derive, hash, decimal, verify}
use voice_asset_server.Auth.Password.Verify.{IsDerivation, verify-hash}

abbrev zeros : ℕ → Bytes
zeros zero = []
zeros (suc n) = 0 ∷ zeros n

abbrev constant_key : Derive
constant_key password salt iterations n = some (zeros n)

length-zeros : (n : ℕ) → length (zeros n) ≡ n
length-zeros zero = refl
length-zeros (suc n) = ap suc (length-zeros n)

zeros-bytes : (n : ℕ) → All (λ b. b < 256) (zeros n)
zeros-bytes zero = tt
zeros-bytes (suc n) = (omega arith, zeros-bytes n)

some_eq : (s t : Bytes) → some s ≡ some t → s ≡ t
some_eq s t h = cc

constant_key-IsDerivation : IsDerivation constant_key
constant_key-IsDerivation = record {
  size = λ password salt iterations n key h.
      subst (λ k. length k ≡ n) (some_eq (zeros n) key h) (length-zeros n);
  bytes = λ password salt iterations n key h.
      subst (All (λ b. b < 256)) (some_eq (zeros n) key h) (zeros-bytes n);
}

abbrev random : Bytes
random = 255 ∷ zeros 16

abbrev stored : Bytes
stored =
    codes "$pbkdf2-sha256$i=12$/wAAAAAAAAAAAAAAAAAAAA$AAAAAAAAAAAAAAAAAAAAAAAAAAAAAAAAAAAAAAAAAAA"

hash_runs : hash constant_key 12 random (codes "secret") ≡ some (stored, 0 ∷ [])
unfolding hash decimal encode_raw codes
hash_runs = refl

verify-hash_example : verify constant_key stored (codes "secret") ≡ ok true
verify-hash_example =
    verify-hash constant_key 11 random (codes "secret") stored (0 ∷ []) constant_key-IsDerivation
      (omega arith) (omega arith, zeros-bytes 16) hash_runs
