-- ===== src/Identifier/Canonical.antt =====
-- Fresh identifiers are canonical, and `normalize_uuid` gives a normal form.
use voice_asset_server.Base.{
  ℕ, ◌+◌, ◌*◌, ◌/◌, ◌%◌, ◌≤◌, ◌<◌, ◌≡◌, refl, sym, ap, subst, ◌∙◌, true, ◌||◌, some, [], ◌∷◌, ◌++◌,
  map, arith, ltb, ◌==◌, ltb→lt, ==_iff, All, ok, length, take, drop, get_elem?, holds_under,
  holds_under_sound,
}
use voice_asset_server.Text.{Bytes}
use voice_asset_server.Identifier.{
  new_uuid_from, normalize_uuid, is_uuid, hex_digit, hex_from, encode_hex, version_byte,
  variant_byte, is_hex, to_lower, update_at, format_uuid,
}

abbrev pub AllBytes : Bytes → Type 0
AllBytes = All (λ b. b < 256)

hex_digit-is_hex : (n : ℕ) → n < 16 → is_hex (hex_digit n) ≡ true
hex_digit-is_hex n h = ground arith

to_lower-hex_digit : (n : ℕ) → n < 16 → to_lower (hex_digit n) ≡ hex_digit n
to_lower-hex_digit n h = ground arith

hex_from-cons :
    (i c : ℕ) (s : Bytes) → is_hex c ≡ true → hex_from (i + 1) s ≡ true → hex_from i (c ∷ s) ≡ true
unfolding hex_from
hex_from-cons i c s h k = ground arith

hex_from-encode_hex :
    (i : ℕ) (s rest : Bytes)
    → AllBytes s
    → hex_from (i + 2 * length s) rest ≡ true
    → hex_from i (encode_hex s ++ rest) ≡ true
unfolding encode_hex
hex_from-encode_hex i [] rest h k = subst (λ j. hex_from j rest ≡ true) (omega arith) k
hex_from-encode_hex i (b ∷ s) rest h k =
    hex_from-cons i _ _ (hex_digit-is_hex (b / 16) (omega arith)) (
      hex_from-cons (i + 1) _ _ (hex_digit-is_hex (b % 16) (omega arith)) (
        hex_from-encode_hex (i + 1 + 1) s rest h.1
          (subst (λ j. hex_from j rest ≡ true) (omega arith) k)))

map-to_lower-encode_hex :
    (s rest : Bytes)
    → AllBytes s
    → map to_lower rest ≡ rest
    → map to_lower (encode_hex s ++ rest) ≡ encode_hex s ++ rest
unfolding encode_hex
map-to_lower-encode_hex [] rest h k = k
map-to_lower-encode_hex (b ∷ s) rest h k = cc (
  to_lower-hex_digit (b / 16) (omega arith),
  to_lower-hex_digit (b % 16) (omega arith),
  map-to_lower-encode_hex s rest h.1 k,
)

version_table : holds_under (λ b. ltb (version_byte b) 256) 256 ≡ true
unfolding holds_under
version_table = refl

variant_table : holds_under (λ b. ltb (variant_byte b) 256) 256 ≡ true
unfolding holds_under
variant_table = refl

version_byte-lt : (b : ℕ) → b < 256 → version_byte b < 256
version_byte-lt b h = ltb→lt _ _ (holds_under_sound _ h version_table)

variant_byte-lt : (b : ℕ) → b < 256 → variant_byte b < 256
variant_byte-lt b h = ltb→lt _ _ (holds_under_sound _ h variant_table)

version_digit_table : holds_under (λ b. hex_digit (version_byte b / 16) == b'4') 256 ≡ true
unfolding holds_under
version_digit_table = refl

hex_from-dash :
    (i : ℕ) (s : Bytes)
    → (i == 8 || i == 13 || i == 18 || i == 23) ≡ true
    → hex_from (i + 1) s ≡ true
    → hex_from i (b'-' ∷ s) ≡ true
unfolding hex_from
hex_from-dash i s h k = ground arith

hex_from-nil : (i : ℕ) → hex_from i [] ≡ true
unfolding hex_from
hex_from-nil i = refl

hex_from-encode_hex_last : (i : ℕ) (s : Bytes) → AllBytes s → hex_from i (encode_hex s) ≡ true
unfolding encode_hex
hex_from-encode_hex_last i [] h = hex_from-nil i
hex_from-encode_hex_last i (b ∷ s) h =
    hex_from-cons i _ _ (hex_digit-is_hex (b / 16) (omega arith)) (
      hex_from-cons (i + 1) _ _ (hex_digit-is_hex (b % 16) (omega arith))
        (hex_from-encode_hex_last (i + 1 + 1) s h.1))

map-to_lower-encode_hex_last : (s : Bytes) → AllBytes s → map to_lower (encode_hex s) ≡ encode_hex s
unfolding encode_hex
map-to_lower-encode_hex_last [] h = refl
map-to_lower-encode_hex_last (b ∷ s) h = cc (
  to_lower-hex_digit (b / 16) (omega arith),
  to_lower-hex_digit (b % 16) (omega arith),
  map-to_lower-encode_hex_last s h.1,
)

hex_from-group :
    (i j : ℕ) (s rest : Bytes)
    → AllBytes s
    → i + 2 * length s ≡ j
    → (j == 8 || j == 13 || j == 18 || j == 23) ≡ true
    → hex_from (j + 1) rest ≡ true
    → hex_from i (encode_hex s ++ (b'-' ∷ rest)) ≡ true
hex_from-group i j s rest h e d k =
    hex_from-encode_hex i s (b'-' ∷ rest) h
      (subst (λ n. hex_from n (b'-' ∷ rest) ≡ true) (sym e) (hex_from-dash j rest d k))

-- The five groups of an identifier with their dashes.
abbrev uuid_groups : Bytes → Bytes → Bytes → Bytes → Bytes → Bytes
uuid_groups a b c d e =
    encode_hex a
    ++ (b'-' ∷ encode_hex b
        ++ (b'-' ∷ encode_hex c ++ (b'-' ∷ encode_hex d ++ (b'-' ∷ encode_hex e))))

map-to_lower-uuid_groups :
    (a b c d e : Bytes)
    → AllBytes a
    → AllBytes b
    → AllBytes c
    → AllBytes d
    → AllBytes e
    → map to_lower (uuid_groups a b c d e) ≡ uuid_groups a b c d e
map-to_lower-uuid_groups a b c d e ha hb hc hd he = map-to_lower-encode_hex a _ ha (
    ap (◌∷◌ b'-') (
      map-to_lower-encode_hex b _ hb (
        ap (◌∷◌ b'-') (
          map-to_lower-encode_hex c _ hc (
            ap (◌∷◌ b'-') (
              map-to_lower-encode_hex d _ hd
                (ap (◌∷◌ b'-') (map-to_lower-encode_hex_last e he))))))))

pub normalize_uuid-eq :
    (s : Bytes) → is_uuid s ≡ true → map to_lower s ≡ s → normalize_uuid s ≡ some s
unfolding normalize_uuid
normalize_uuid-eq s h e = rw h (ap some e)

-- For a byte below 256, the stamped byte prints with the version digit 4.
version_digit : (b : ℕ) → b < 256 → hex_digit (version_byte b / 16) ≡ b'4'
version_digit b h = (==_iff _ _).0 (holds_under_sound _ h version_digit_table)

module _ (b0 b1 b2 b3 b4 b5 b6 b7 b8 b9 b10 b11 b12 b13 b14 b15 : ℕ) where
  AllBytes-stamped :
      AllBytes
        (b0 ∷ b1 ∷ b2 ∷ b3 ∷ b4 ∷ b5 ∷ b6 ∷ b7 ∷ b8 ∷ b9 ∷ b10 ∷ b11 ∷ b12 ∷ b13 ∷ b14 ∷ b15 ∷ [])
      → AllBytes (
          b0
          ∷ b1
          ∷ b2
          ∷ b3
          ∷ b4
          ∷ b5
          ∷ version_byte b6
          ∷ b7
          ∷ variant_byte b8
          ∷ b9
          ∷ b10
          ∷ b11
          ∷ b12
          ∷ b13
          ∷ b14
          ∷ b15
          ∷ [])
  AllBytes-stamped h = ground (arith, version_byte-lt b6, variant_byte-lt b8)

  stamped-is_uuid :
      AllBytes (
        b0
        ∷ b1
        ∷ b2
        ∷ b3
        ∷ b4
        ∷ b5
        ∷ version_byte b6
        ∷ b7
        ∷ variant_byte b8
        ∷ b9
        ∷ b10
        ∷ b11
        ∷ b12
        ∷ b13
        ∷ b14
        ∷ b15
        ∷ [])
      → is_uuid (
          uuid_groups
            (b0 ∷ b1 ∷ b2 ∷ b3 ∷ [])
            (b4 ∷ b5 ∷ [])
            (version_byte b6 ∷ b7 ∷ [])
            (variant_byte b8 ∷ b9 ∷ [])
            (b10 ∷ b11 ∷ b12 ∷ b13 ∷ b14 ∷ b15 ∷ []))
        ≡ true
  unfolding is_uuid encode_hex
  stamped-is_uuid h =
      let r4 = encode_hex (b10 ∷ b11 ∷ b12 ∷ b13 ∷ b14 ∷ b15 ∷ []) in
      let r3 = encode_hex (variant_byte b8 ∷ b9 ∷ []) ++ (b'-' ∷ r4) in
      let r2 = encode_hex (version_byte b6 ∷ b7 ∷ []) ++ (b'-' ∷ r3) in
      let r1 = encode_hex (b4 ∷ b5 ∷ []) ++ (b'-' ∷ r2) in
      hex_from-group 0 8 (b0 ∷ b1 ∷ b2 ∷ b3 ∷ []) r1 (omega arith) refl refl (
        hex_from-group 9 13 (b4 ∷ b5 ∷ []) r2 (omega arith) refl refl (
          hex_from-group 14 18 (version_byte b6 ∷ b7 ∷ []) r3 (omega arith) refl refl (
            hex_from-group 19 23 (variant_byte b8 ∷ b9 ∷ []) r4 (omega arith) refl refl (
              hex_from-encode_hex_last 24 (b10 ∷ b11 ∷ b12 ∷ b13 ∷ b14 ∷ b15 ∷ []) (omega arith)))))

  lower_groups :
      AllBytes (
        b0
        ∷ b1
        ∷ b2
        ∷ b3
        ∷ b4
        ∷ b5
        ∷ version_byte b6
        ∷ b7
        ∷ variant_byte b8
        ∷ b9
        ∷ b10
        ∷ b11
        ∷ b12
        ∷ b13
        ∷ b14
        ∷ b15
        ∷ [])
      → map to_lower (
          uuid_groups
            (b0 ∷ b1 ∷ b2 ∷ b3 ∷ [])
            (b4 ∷ b5 ∷ [])
            (version_byte b6 ∷ b7 ∷ [])
            (variant_byte b8 ∷ b9 ∷ [])
            (b10 ∷ b11 ∷ b12 ∷ b13 ∷ b14 ∷ b15 ∷ []))
        ≡ uuid_groups
            (b0 ∷ b1 ∷ b2 ∷ b3 ∷ [])
            (b4 ∷ b5 ∷ [])
            (version_byte b6 ∷ b7 ∷ [])
            (variant_byte b8 ∷ b9 ∷ [])
            (b10 ∷ b11 ∷ b12 ∷ b13 ∷ b14 ∷ b15 ∷ [])
  lower_groups h =
      map-to_lower-uuid_groups (b0 ∷ b1 ∷ b2 ∷ b3 ∷ []) (b4 ∷ b5 ∷ []) (version_byte b6 ∷ b7 ∷ [])
        (variant_byte b8 ∷ b9 ∷ []) (b10 ∷ b11 ∷ b12 ∷ b13 ∷ b14 ∷ b15 ∷ []) (omega arith)
        (omega arith) (omega arith) (omega arith) (omega arith)

  stamped-canonical :
      AllBytes
        (b0 ∷ b1 ∷ b2 ∷ b3 ∷ b4 ∷ b5 ∷ b6 ∷ b7 ∷ b8 ∷ b9 ∷ b10 ∷ b11 ∷ b12 ∷ b13 ∷ b14 ∷ b15 ∷ [])
      → (u : Bytes) × (format_uuid (
            update_at 8 variant_byte (
              update_at 6 version_byte (
                b0 ∷ b1 ∷ b2 ∷ b3 ∷ b4 ∷ b5 ∷ b6 ∷ b7 ∷ b8 ∷ b9 ∷ b10 ∷ b11 ∷ b12 ∷ b13 ∷ b14 ∷ b15
                ∷ [])))
          ≡ u)
        × (normalize_uuid u ≡ some u)
        × (get_elem? u 14 ≡ some b'4')
  unfolding format_uuid encode_hex
  stamped-canonical h = (
    _,
    refl,
    normalize_uuid-eq _ (stamped-is_uuid (AllBytes-stamped h)) (lower_groups (AllBytes-stamped h)),
    ap some (version_digit b6 (omega arith)),
  )

new_uuid_from-ok :
    (random : Bytes)
    → 16 ≤ length random
    → new_uuid_from random
      ≡ ok (
        format_uuid (update_at 8 variant_byte (update_at 6 version_byte (take 16 random))),
        drop 16 random,
      )
unfolding new_uuid_from
new_uuid_from-ok random h = ground arith

-- From at least 16 random bytes an identifier is made: it is its own normal form, it has the version
-- digit 4, and exactly 16 bytes of the source are used.
pub new_uuid_from-canonical :
    (random : Bytes)
    → AllBytes random
    → 16 ≤ length random
    → (u : Bytes) × (new_uuid_from random ≡ ok (u, drop 16 random))
      × (normalize_uuid u ≡ some u)
      × (get_elem? u 14 ≡ some b'4')
new_uuid_from-canonical
      (b0 ∷ b1 ∷ b2 ∷ b3 ∷ b4 ∷ b5 ∷ b6 ∷ b7 ∷ b8 ∷ b9 ∷ b10 ∷ b11 ∷ b12 ∷ b13 ∷ b14 ∷ b15 ∷ rest) h
      n =
    let (u, e, c, v) =
      stamped-canonical b0 b1 b2 b3 b4 b5 b6 b7 b8 b9 b10 b11 b12 b13 b14 b15 (omega arith) in
    (u, new_uuid_from-ok _ n ∙ ap (λ w. ok (w, rest)) e, c, v)
new_uuid_from-canonical s h n = absurd (omega arith)
