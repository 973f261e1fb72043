-- ===== src/Identifier/Tests.antt =====
-- A fresh identifier at a concrete input.
use voice_asset_server.Base.{◌≡◌, arith, some, [], ◌∷◌, ok, drop, get_elem?}
use voice_asset_server.Text.{Bytes}
use voice_asset_server.Identifier.{new_uuid_from, normalize_uuid}
use voice_asset_server.Identifier.Canonical.{new_uuid_from-canonical}

abbrev random_bytes : Bytes
random_bytes =
    1 ∷ 2 ∷ 3 ∷ 4 ∷ 250 ∷ 251 ∷ 252 ∷ 253 ∷ 254 ∷ 255 ∷ 0 ∷ 17 ∷ 34 ∷ 51 ∷ 68 ∷ 85 ∷ 102 ∷ []

new_uuid_from-canonical_example :
    (u : Bytes) × (new_uuid_from random_bytes ≡ ok (u, drop 16 random_bytes))
    × (normalize_uuid u ≡ some u)
    × (get_elem? u 14 ≡ some b'4')
new_uuid_from-canonical_example = new_uuid_from-canonical random_bytes (omega arith) (omega arith)
