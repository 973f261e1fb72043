-- ===== src/Text/Count.antt =====
-- How many code points a text has, against its bytes.
use voice_asset_server.Base.{ℕ, zero, suc, ◌-◌, ◌≤◌, [], ◌∷◌, arith, length}
use voice_asset_server.Text.{Bytes, chunks_from, chunks, rune_count, decode_rune}

length-chunks_from : (n : ℕ) (s : Bytes) → length (chunks_from n s) ≤ length s
unfolding chunks_from
length-chunks_from n [] = omega arith
length-chunks_from zero (a ∷ s) =
    omega (arith, length-chunks_from (length (decode_rune a s).bytes - 1) s)
length-chunks_from (suc n) (a ∷ s) = omega (arith, length-chunks_from n s)

pub rune_count-le-length : (s : Bytes) → rune_count s ≤ length s
unfolding rune_count chunks
rune_count-le-length s = length-chunks_from 0 s

pub rune_count_some : (s : Bytes) → 1 ≤ length s → 1 ≤ rune_count s
unfolding rune_count chunks chunks_from
rune_count_some [] h = h
rune_count_some (a ∷ s) h = omega arith
