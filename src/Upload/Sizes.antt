-- ===== src/Upload/Sizes.antt =====
-- The parts of a complete upload make up its size.
use native.Mathlib.Nat.{div-add-mod', mod-lt, suc-mul, zero-div}
use voice_asset_server.Base.{
  ℕ, zero, suc, ◌+◌, ◌-◌, ◌*◌, ◌/◌, ◌%◌, ◌^◌, ◌≤◌, ◌<◌, ◌≡◌, refl, sym, ap, ◌∙◌, subst, true, false,
  some, List, [], ◌∷◌, arith, length, Result, ok, err, if◌then◌else◌, ltb,
}
use voice_asset_server.Base.Int.{
  ◌<ℤ◌, ℤ, pos, ◌+ℤ◌, ◌-ℤ◌, ◌*ℤ◌, leb_ℤ, eqb_ℤ, wrap64, quot, pos_part, neg_part,
}
use voice_asset_server.Upload.{
  Error, Session, Part, PartRef, part_count, expected_part_size, part_fits, part_ref, refs_from,
  completion_part_refs,
}

abbrev count_of : ℕ → ℕ → ℕ
count_of t p = (t + p - 1) / p

round_up :
    (t p : ℕ)
    → 0 < t
    → 0 < p
    → t < 2 ^ 62
    → p < 2 ^ 62
    → wrap64 (pos t +ℤ pos p -ℤ pos 1) ≡ pos (t + p - 1)
unfolding wrap64 ◌+ℤ◌ ◌-ℤ◌
round_up t p h k a b = ground arith

quot_pos : (n p : ℕ) → 0 < p → quot (pos n) p ≡ pos (n / p)
unfolding quot
quot_pos n p h = ground (arith, zero-div p)

part_count_eq :
    (t p : ℕ)
    → 0 < t
    → 0 < p
    → t < 2 ^ 62
    → p < 2 ^ 62
    → part_count (pos t) (pos p) ≡ pos (count_of t p)
unfolding part_count
part_count_eq t p h k a b = rw (round_up t p h k a b) (quot_pos (t + p - 1) p k)

-- All parts but the last are of the full size, and the last is of what is left.
abbrev size_of : ℕ → ℕ → ℕ → ℕ
size_of t p n = if ltb n (count_of t p) then p else t - (count_of t p - 1) * p

last_size :
    (t p c : ℕ)
    → 0 < c
    → t < 2 ^ 62
    → (c - 1) * p ≤ t
    → wrap64 (pos t -ℤ (pos c -ℤ pos 1) *ℤ pos p) ≡ pos (t - (c - 1) * p)
unfolding wrap64 ◌-ℤ◌ ◌*ℤ◌
last_size t p c h a le = ground arith

count_bounds :
    (t p : ℕ)
    → 0 < t
    → 0 < p
    → (0 < count_of t p) × ((count_of t p - 1) * p < t) × (t ≤ count_of t p * p)
count_bounds t p h k =
    bounds (count_of t p) ((t + p - 1) % p) (div-add-mod' (t + p - 1) p) (mod-lt (t + p - 1) k)
  where
    bounds : (c m : ℕ) → c * p + m ≡ t + p - 1 → m < p → (0 < c) × ((c - 1) * p < t) × (t ≤ c * p)
    bounds zero m e l = absurd (omega arith)
    bounds (suc d) m e l =
        let q : suc d * p ≡ d * p + p = suc-mul d p in
        let r : (suc d - 1) * p ≡ d * p = ap (λ n. n * p) (omega arith) in
        (omega arith, omega (arith, q, r), omega (arith, q, r))

-- The bytes of the parts of a list.
abbrev pub total_size : List PartRef → ℕ
total_size [] = 0
total_size (r ∷ rs) = pos_part r.size + total_size rs

module _ (s : Session) (t p : ℕ) (es : s.expected_size ≡ pos t) (ps : s.part_size ≡ pos p)
    (some_bytes : 0 < t) (some_part : 0 < p) (small : t < 2 ^ 62) (small_part : p < 2 ^ 62) where
  expected_eq :
      (n : ℕ)
      → 0 < n
      → n ≤ count_of t p
      → expected_part_size s.expected_size s.part_size (pos n) ≡ some (pos (size_of t p n))
  unfolding expected_part_size
  expected_eq n h k =
      let (c, le, _) = count_bounds t p some_bytes some_part in
      rw
        (
          es,
          ps,
          part_count_eq t p some_bytes some_part small small_part,
          last_size t p (count_of t p) c small (omega arith),
        )
        (ground arith)

  first_part :
      (i : ℕ) (part : Part) (parts : List Part) (refs : List PartRef)
      → refs_from s i (part ∷ parts) ≡ ok refs
      → (rest : List PartRef) × (refs ≡ part_ref part ∷ rest)
        × (part_fits s (pos (suc i)) part ≡ true)
        × (refs_from s (suc i) parts ≡ ok rest)
  unfolding refs_from
  first_part i part parts refs h = split (refs_from s (suc i) parts) refl
    where
      split :
          (r : Result Error (List PartRef))
          → refs_from s (suc i) parts ≡ r
          → (rest : List PartRef) × (refs ≡ part_ref part ∷ rest)
            × (part_fits s (pos (suc i)) part ≡ true)
            × (refs_from s (suc i) parts ≡ ok rest)
      split (ok rest) e = (rest, ground arith, ground arith, e)
      split (err x) e = absurd (ground arith)

  -- The size of a part that fits.
  fit_size :
      (i : ℕ) (part : Part)
      → suc i ≤ count_of t p
      → part_fits s (pos (suc i)) part ≡ true
      → pos_part part.size_bytes ≡ size_of t p (suc i)
  fit_size i part k h = same_size (size_of t p (suc i)) (expected_eq (suc i) (omega arith) k) h
    where
      same_size :
          (n : ℕ)
          → expected_part_size s.expected_size s.part_size (pos (suc i)) ≡ some (pos n)
          → part_fits s (pos (suc i)) part ≡ true
          → pos_part part.size_bytes ≡ n
      same_size n e f = ground arith

  no_more : (i : ℕ) (refs : List PartRef) → refs_from s i [] ≡ ok refs → refs ≡ []
  unfolding refs_from
  no_more i refs h = ground arith

  full_size : (n : ℕ) → n < count_of t p → size_of t p n ≡ p
  full_size n h = ground arith

  last_of : (n : ℕ) → n ≡ count_of t p → size_of t p n ≡ t - (count_of t p - 1) * p
  last_of n h = ground arith

  -- The rest of the parts, from an index below their number, make up the rest of the bytes.
  rest_size :
      (parts : List Part) (i : ℕ) (refs : List PartRef)
      → i + length parts ≡ count_of t p
      → i < count_of t p
      → refs_from s i parts ≡ ok refs
      → i * p + total_size refs ≡ t
  rest_size [] i refs n k h = absurd (omega arith)
  rest_size (part ∷ []) i refs n k h =
      let (rest, made, fits, more) = first_part i part [] refs h in
      let (_, le, _) = count_bounds t p some_bytes some_part in
      let size = fit_size i part (omega arith) fits ∙ last_of (suc i) (omega arith) in
      let r : (count_of t p - 1) * p ≡ i * p = ap (λ n. n * p) (omega arith) in
      let total : total_size refs ≡ pos_part part.size_bytes + 0 =
        ap total_size (made ∙ ap (◌∷◌ (part_ref part)) (no_more (suc i) rest more)) in
      omega (arith, size, r, total, le)
  rest_size (part ∷ q ∷ parts) i refs n k h =
      let (rest, made, fits, more) = first_part i part (q ∷ parts) refs h in
      let ih = rest_size (q ∷ parts) (suc i) rest (omega arith) (omega arith) more in
      let size = fit_size i part (omega arith) fits ∙ full_size (suc i) (omega arith) in
      let total : total_size refs ≡ pos_part part.size_bytes + total_size rest =
        ap total_size made in
      omega (arith, size, total, ih, suc-mul i p)

-- What an accepted list has passed before the loop.
completion_checks :
    (s : Session) (parts : List Part) (refs : List PartRef)
    → completion_part_refs s parts ≡ ok refs
    → (leb_ℤ s.part_size (pos 0) ≡ false)
      × (leb_ℤ s.expected_size (pos 0) ≡ false)
      × (eqb_ℤ (pos (length parts)) (part_count s.expected_size s.part_size) ≡ true)
      × (refs_from s 0 parts ≡ ok refs)
unfolding completion_part_refs
completion_checks s parts refs h = ground arith

-- When the parts of an upload are accepted as complete, their sizes add up to exactly the size that was
-- declared for the upload. Both the declared size and the size of a part are below 2 ^ 62.
pub completion_part_refs-total_size :
    (s : Session) (parts : List Part) (refs : List PartRef)
    → s.expected_size <ℤ pos (2 ^ 62)
    → s.part_size <ℤ pos (2 ^ 62)
    → completion_part_refs s parts ≡ ok refs
    → pos (total_size refs) ≡ s.expected_size
completion_part_refs-total_size s parts refs small small_part h =
    let (some_part, some_bytes, counted, loop) = completion_checks s parts refs h in
    let t = pos_part s.expected_size in
    let p = pos_part s.part_size in
    let (es, a, a') = positive s.expected_size some_bytes in
    let (ps, b, b') = positive s.part_size some_part in
    let count = part_count_eq t p (omega arith) (omega arith) (omega arith) (omega arith) in
    let (c, _, _) = count_bounds t p (omega arith) (omega arith) in
    let whole =
      count_is (length parts) (count_of t p)
        (subst (λ n. eqb_ℤ (pos (length parts)) n ≡ true) (ap2 es ps ∙ count) counted) in
    let total =
      rest_size s t p es ps a b (omega arith) (omega arith) parts 0 refs (omega (arith, whole)) c
        loop in
    ap pos (omega (arith, total)) ∙ sym es
  where
    positive :
        (n : ℤ)
        → leb_ℤ n (pos 0) ≡ false
        → (n ≡ pos (pos_part n)) × (0 < pos_part n) × (neg_part n ≡ 0)
    positive n h = ground arith

    count_is : (n c : ℕ) → eqb_ℤ (pos n) (pos c) ≡ true → n ≡ c
    count_is n c h = ground arith

    ap2 : {a b c d : ℤ} → a ≡ b → c ≡ d → part_count a c ≡ part_count b d
    ap2 e f = rw (e, f) refl
