-- ===== src/Text.antt =====
-- Go strings, as lists of bytes, and what the program uses of the standard library on them: UTF-8
-- (unicode/utf8), `strings.TrimSpace`, `unicode.IsControl` and three regular expressions.
pub mod Base64
pub mod Case
pub mod Count
use Prim.Native.Char.{code}
use Prim.Native.String.{String}
use voice_asset_server.Base.{
  ℕ, zero, suc, ◌+◌, ◌-◌, ◌*◌, Bool, true, false, ◌&&◌, ◌||◌, List, [], ◌∷◌, ◌++◌, ltb, leb, ◌==◌,
  if◌then◌else◌, length, all,
}

abbrev pub Bytes : Type 0
Bytes = List ℕ

-- A literal of the source; all of them are ASCII.
unfoldable pub codes : String → Bytes
codes String.[] = []
codes (String.◌∷◌ c s) = code c ∷ codes s

-- c in lo..hi
abbrev pub between : ℕ → ℕ → ℕ → Bool
between lo hi c = leb lo c && leb c hi

-- One step of `range` over a string: the rune, whether it was well formed, and its bytes.
pub record Chunk : Type 0 where
  pub rune : ℕ
  pub valid : Bool
  pub bytes : Bytes

abbrev rune_error : ℕ
rune_error = 0xfffd

abbrev malformed : ℕ → Chunk
malformed a = record { rune = rune_error; valid = false; bytes = a ∷ [] }

decode_two : ℕ → Bytes → Chunk
decode_two a (b ∷ s) =
    if between 0x80 0xbf b
    then record { rune = (a - 0xc0) * 64 + (b - 0x80); valid = true; bytes = a ∷ b ∷ [] }
    else malformed a
decode_two a s = malformed a

decode_three : ℕ → ℕ → ℕ → Bytes → Chunk
decode_three lo hi a (b ∷ c ∷ s) =
    if between lo hi b && between 0x80 0xbf c
    then record {
      rune = (a - 0xe0) * 4096 + (b - 0x80) * 64 + (c - 0x80);
      valid = true;
      bytes = a ∷ b ∷ c ∷ [];
    }
    else malformed a
decode_three lo hi a s = malformed a

decode_four : ℕ → ℕ → ℕ → Bytes → Chunk
decode_four lo hi a (b ∷ c ∷ d ∷ s) =
    if between lo hi b && between 0x80 0xbf c && between 0x80 0xbf d
    then record {
      rune = (a - 0xf0) * 262144 + (b - 0x80) * 4096 + (c - 0x80) * 64 + (d - 0x80);
      valid = true;
      bytes = a ∷ b ∷ c ∷ d ∷ [];
    }
    else malformed a
decode_four lo hi a s = malformed a

-- `utf8.DecodeRune` on the byte `a` and what follows it.
unfoldable pub decode_rune : ℕ → Bytes → Chunk
unfolding decode_two decode_three decode_four
decode_rune a s =
    if ltb a 0x80
    then record { rune = a; valid = true; bytes = a ∷ [] }
    else if between 0xc2 0xdf a
    then decode_two a s
    else if a == 0xe0
    then decode_three 0xa0 0xbf a s
    else if a == 0xed
    then decode_three 0x80 0x9f a s
    else if between 0xe1 0xef a
    then decode_three 0x80 0xbf a s
    else if a == 0xf0
    then decode_four 0x90 0xbf a s
    else if a == 0xf4
    then decode_four 0x80 0x8f a s
    else if between 0xf1 0xf3 a
    then decode_four 0x80 0xbf a s
    else malformed a

-- The first argument counts the bytes that belong to the rune before.
chunks_from : ℕ → Bytes → List Chunk
chunks_from skip [] = []
chunks_from (suc skip) (a ∷ s) = chunks_from skip s
chunks_from zero (a ∷ s) = let c = decode_rune a s in c ∷ chunks_from (length c.bytes - 1) s

-- `for _, c := range s`
unfoldable pub chunks : Bytes → List Chunk
unfolding chunks_from decode_rune
chunks s = chunks_from 0 s

-- utf8.ValidString
unfoldable pub valid_string : Bytes → Bool
unfolding chunks
valid_string s = all (λ c. c.valid) (chunks s)

-- utf8.RuneCountInString
unfoldable pub rune_count : Bytes → ℕ
unfolding chunks
rune_count s = length (chunks s)

-- unicode.IsControl
unfoldable pub is_control : ℕ → Bool
is_control r = ltb r 0x20 || between 0x7f 0x9f r

-- unicode.IsSpace
unfoldable pub is_space : ℕ → Bool
is_space r =
    between 0x09 0x0d r
    || r == 0x20
    || r == 0x85
    || r == 0xa0
    || r == 0x1680
    || between 0x2000 0x200a r
    || r == 0x2028
    || r == 0x2029
    || r == 0x202f
    || r == 0x205f
    || r == 0x3000

trim_start : List Chunk → List Chunk
unfolding is_space
trim_start [] = []
trim_start (c ∷ cs) = let rest = trim_start cs in if is_space c.rune then rest else c ∷ cs

-- A chunk goes if it is a space and nothing is left behind it.
keep_before : Chunk → List Chunk → List Chunk
unfolding is_space
keep_before c [] = if is_space c.rune then [] else c ∷ []
keep_before c (d ∷ ds) = c ∷ d ∷ ds

trim_end : List Chunk → List Chunk
unfolding keep_before
trim_end [] = []
trim_end (c ∷ cs) = keep_before c (trim_end cs)

pub join : List Chunk → Bytes
join [] = []
join (c ∷ cs) = c.bytes ++ join cs

-- strings.TrimSpace
unfoldable pub trim_space : Bytes → Bytes
unfolding trim_start trim_end join chunks
trim_space s = join (trim_end (trim_start (chunks s)))

unfoldable pub is_digit : ℕ → Bool
is_digit c = between b'0' b'9' c

unfoldable pub is_lower : ℕ → Bool
is_lower c = between b'a' b'z' c

unfoldable pub is_alpha : ℕ → Bool
unfolding is_lower
is_alpha c = is_lower c || between b'A' b'Z' c

-- The pieces between the bytes `sep`.
unfoldable pub push_piece : ℕ → ℕ → List Bytes → List Bytes
push_piece sep c [] = []
push_piece sep c (p ∷ ps) = if c == sep then [] ∷ p ∷ ps else (c ∷ p) ∷ ps

unfoldable pub split_on : ℕ → Bytes → List Bytes
unfolding push_piece
split_on sep [] = [] ∷ []
split_on sep (c ∷ s) = push_piece sep c (split_on sep s)

tag_parts : List Bytes → Bool
unfolding is_alpha is_digit
tag_parts [] = false
tag_parts (p ∷ ps) =
    between 2 8 (length p)
    && all is_alpha p
    && all (λ q. between 1 8 (length q) && all (λ c. is_alpha c || is_digit c) q) ps

-- ^[A-Za-z]{2,8}(?:-[A-Za-z0-9]{1,8})*$
unfoldable pub matches_language_tag : Bytes → Bool
unfolding split_on tag_parts
matches_language_tag s = tag_parts (split_on b'-' s)

-- ^[0-9a-f]{64}$
unfoldable pub matches_sha256 : Bytes → Bool
unfolding is_digit
matches_sha256 s = length s == 64 && all (λ c. is_digit c || between b'a' b'f' c) s

-- ^[a-z0-9][a-z0-9_-]{0,63}$
unfoldable pub matches_provider_id : Bytes → Bool
unfolding is_lower is_digit
matches_provider_id [] = false
matches_provider_id (c ∷ s) =
    (is_lower c || is_digit c)
    && leb (length s) 63
    && all (λ d. is_lower d || is_digit d || d == b'_' || d == b'-') s
