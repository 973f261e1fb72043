-- ===== src/Upload/Tests.antt =====
-- The theorem on sizes at a concrete input: twelve bytes in parts of five.
use voice_asset_server.Base.{ℕ, ◌≡◌, refl, arith, List, [], ◌∷◌, ok, text_eq}
use voice_asset_server.Base.Int.{pos, ◌+ℤ◌, ◌-ℤ◌, ◌*ℤ◌, wrap64, quot}
use voice_asset_server.Text.{Bytes, codes, matches_sha256, is_digit}
use voice_asset_server.Upload.{
  Session, Part, PartRef, active, completion_part_refs, expected_part_size, part_count, part_ref,
}
use voice_asset_server.Upload.Sizes.{completion_part_refs-total_size, total_size}

abbrev digest : Bytes
digest = codes "00000000000000000000000000000000000000000000000000000000000000ff"

abbrev upload : Session
upload = record { state = active; expected_size = pos 12; part_size = pos 5; expires_at = 0 }

abbrev part_of : ℕ → ℕ → Part
part_of number size = record {
  number = pos number;
  size_bytes = pos size;
  sha256 = digest;
  storage_key = codes "key";
}

abbrev three_parts : List Part
three_parts = part_of 1 5 ∷ part_of 2 5 ∷ part_of 3 2 ∷ []

abbrev three_refs : List PartRef
three_refs = part_ref (part_of 1 5) ∷ part_ref (part_of 2 5) ∷ part_ref (part_of 3 2) ∷ []

completion_runs : completion_part_refs upload three_parts ≡ ok three_refs
unfolding completion_part_refs expected_part_size part_count matches_sha256 is_digit codes text_eq
    wrap64 quot ◌+ℤ◌ ◌-ℤ◌ ◌*ℤ◌
completion_runs = refl

completion_part_refs-total_size_example : pos (total_size three_refs) ≡ pos 12
completion_part_refs-total_size_example =
    completion_part_refs-total_size upload three_parts three_refs (omega arith) (omega arith)
      completion_runs
