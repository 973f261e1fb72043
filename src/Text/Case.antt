-- ===== src/Text/Case.antt =====
-- `strings.ToLower`, and how a rune is written in UTF-8. The table of the letters that are not ASCII is a
-- parameter.
use voice_asset_server.Base.{ℕ, ◌+◌, ◌/◌, ◌%◌, List, [], ◌∷◌, ◌++◌, ltb, if◌then◌else◌}
use voice_asset_server.Text.{Bytes, Chunk, chunks, between}

-- utf8.AppendRune
unfoldable pub encode_rune : ℕ → Bytes
encode_rune r =
    if ltb r 0x80
    then r ∷ []
    else if ltb r 0x800
    then (0xc0 + r / 64) ∷ (0x80 + r % 64) ∷ []
    else if between 0xd800 0xdfff r
    then 0xef ∷ 0xbf ∷ 0xbd ∷ []
    else if ltb r 0x10000
    then (0xe0 + r / 4096) ∷ (0x80 + (r / 64) % 64) ∷ (0x80 + r % 64) ∷ []
    else if ltb r 0x110000
    then (0xf0 + r / 262144)
      ∷ (0x80 + (r / 4096) % 64)
      ∷ (0x80 + (r / 64) % 64)
      ∷ (0x80 + r % 64)
      ∷ []
    else 0xef ∷ 0xbf ∷ 0xbd ∷ []

abbrev lower_rune : (ℕ → ℕ) → ℕ → ℕ
lower_rune table r = if between 0x41 0x5a r then r + 32 else if ltb r 0x80 then r else table r

lower_chunks : (ℕ → ℕ) → List Chunk → Bytes
unfolding encode_rune
lower_chunks table [] = []
lower_chunks table (c ∷ cs) = encode_rune (lower_rune table c.rune) ++ lower_chunks table cs

unfoldable pub to_lower : (ℕ → ℕ) → Bytes → Bytes
unfolding lower_chunks chunks
to_lower table s = lower_chunks table (chunks s)
