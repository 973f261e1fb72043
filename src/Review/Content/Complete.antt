-- ===== src/Review/Content/Complete.antt =====
-- When a review can be built.
use voice_asset_server.Base.{
  ℕ, zero, suc, ◌+◌, ◌≤◌, ◌≡◌, refl, sym, ap, subst, ◌∙◌, Bool, true, false, not, Option, none,
  some, List, [], ◌∷◌, ◌++◌, arith, text_eq, text_eq_refl, length, length-append, take, drop, map,
  if◌then◌else◌, get_elem?, Bool-cases, inl, inr,
}
use voice_asset_server.Text.{Bytes}
use voice_asset_server.Transcript.{Segment}
use voice_asset_server.Review.{Change}
use voice_asset_server.Review.Content.{
  Content, has_prefix, index_of, change_for, choose, same_times, add, finish_turn, build_from,
  build, or_false,
}

-- The pieces occur in the text one after the other.
abbrev pub Occurs : Bytes → List Bytes → Type 0
Occurs t [] = Unit
Occurs t (x ∷ xs) = (gap : Bytes) × (t' : Bytes) × (t ≡ gap ++ (x ++ t')) × Occurs t' xs

append_assoc : (xs ys zs : Bytes) → (xs ++ ys) ++ zs ≡ xs ++ (ys ++ zs)
append_assoc [] ys zs = refl
append_assoc (x ∷ xs) ys zs = ap (λ k. x ∷ k) (append_assoc xs ys zs)

Occurs-behind : (u t : Bytes) (xs : List Bytes) → Occurs t xs → Occurs (u ++ t) xs
Occurs-behind u t [] o = tt
Occurs-behind u t (x ∷ xs) (gap, t', e, o) =
    (u ++ gap, t', ap (λ k. u ++ k) e ∙ sym (append_assoc u gap (x ++ t')), o)

has_prefix-append : (t s : Bytes) → has_prefix (t ++ s) t ≡ true
unfolding has_prefix
has_prefix-append [] s = by_text s
  where
    by_text : (s : Bytes) → has_prefix s [] ≡ true
    by_text [] = refl
    by_text (a ∷ s) = refl
has_prefix-append (b ∷ t) s = ground (arith, has_prefix-append t s)

drop-append : (n : ℕ) (xs ys : Bytes) → n ≤ length xs → drop n (xs ++ ys) ≡ drop n xs ++ ys
drop-append zero xs ys h = refl
drop-append (suc n) [] ys h = absurd (ground arith)
drop-append (suc n) (x ∷ xs) ys h = drop-append n xs ys (omega arith)

-- Where a text is found, all that stands behind a later occurrence still follows.
Leaves : Bytes → Bytes → Bytes → Option ℕ → Type 0
Leaves s t s' none = ⊥
Leaves s t s' (some i) = (u : Bytes) × (drop (i + length t) s ≡ u ++ s')

index_of-prefix : (s t : Bytes) → has_prefix s t ≡ true → index_of s t ≡ some 0
unfolding index_of
index_of-prefix [] t h = rw h refl
index_of-prefix (a ∷ s) t h = rw h refl

left_over :
    (gap t s' : Bytes) → drop (0 + length t) (gap ++ (t ++ s')) ≡ drop (length t) (gap ++ t) ++ s'
left_over gap t s' =
    let e : 0 + length t ≡ length t = omega arith in
    let h : length t ≤ length (gap ++ t) = omega (arith, length-append gap t) in
    ap (λ n. drop n (gap ++ (t ++ s'))) e
    ∙ ap (drop (length t)) (sym (append_assoc gap t s'))
    ∙ drop-append (length t) (gap ++ t) s' h

index_of-Leaves :
    (gap t s' : Bytes) → Leaves (gap ++ (t ++ s')) t s' (index_of (gap ++ (t ++ s')) t)
unfolding Leaves index_of
index_of-Leaves [] t s' =
    subst (Leaves (t ++ s') t s') (sym (index_of-prefix (t ++ s') t (has_prefix-append t s')))
      (drop (length t) t, left_over [] t s')
index_of-Leaves (a ∷ gap) t s' =
    by_test (has_prefix (a ∷ (gap ++ (t ++ s'))) t) (index_of (gap ++ (t ++ s')) t)
      (index_of-Leaves gap t s')
  where
    by_test :
        (b : Bool) (o : Option ℕ)
        → Leaves (gap ++ (t ++ s')) t s' o
        → Leaves
            (a ∷ (gap ++ (t ++ s')))
            t
            s'
            (if b then some 0 else elim o [ none ↦ none | some i ↦ some (suc i) ])
    by_test true o h = (drop (length t) (a ∷ (gap ++ t)), left_over (a ∷ gap) t s')
    by_test false none h = absurd h
    by_test false (some i) (u, e) =
        let same : suc i + length t ≡ suc (i + length t) = omega arith in
        (u, ap (λ n. drop n (a ∷ (gap ++ (t ++ s')))) same ∙ e)

-- The diff agrees with the two revisions on a segment.
abbrev pub Fits : Option (ℕ × Change) → Segment → Segment → Type 0
Fits none s c = Unit
Fits (some (i, d)) s c = (d.original ≡ s.text) × (c.text ≡ d.replacement)

-- On all segments, and the times are the same.
abbrev pub Agrees : List Change → List Segment → List Segment → Type 0
Agrees changes [] cs = Unit
Agrees changes (s ∷ ss) [] = ⊥
Agrees changes (s ∷ ss) (c ∷ cs) =
    (same_times c s ≡ true) × Fits (change_for 0 s.id changes) s c × Agrees changes ss cs

IsBuilt {ℓ} : {A : Type ℓ} → Option A → Type ℓ
IsBuilt {A = A} o = (a : A) × (o ≡ some a)

choose-IsBuilt :
    (accepted : List Bool) (found : Option (ℕ × Change)) (s c : Segment)
    → Fits found s c
    → IsBuilt (choose accepted found s c)
unfolding choose IsBuilt
choose-IsBuilt accepted none s c f = ((s, []), refl)
choose-IsBuilt accepted (some (i, d)) s c f = elim (Bool-cases (or_false (get_elem? accepted i))) [
  | inl agreed ↦ ((c, i ∷ []), rw (original, replaced, agreed) refl)
  | inr refused ↦ ((s, []), rw (original, replaced, refused) refl)
]
  where
    original : text_eq d.original s.text ≡ true
    original = subst (λ t. text_eq d.original t ≡ true) f.0 (text_eq_refl d.original)

    replaced : text_eq c.text d.replacement ≡ true
    replaced = subst (λ t. text_eq c.text t ≡ true) f.1 (text_eq_refl c.text)

module _ (changes : List Change) (accepted : List Bool) where
  finish_turn-IsBuilt :
      (gap id : Bytes) (ordinal : ℕ) (chosen : Option (Segment × List ℕ)) (later : Option Content)
      → IsBuilt chosen
      → IsBuilt later
      → IsBuilt (finish_turn gap id ordinal chosen later)
  unfolding finish_turn add IsBuilt
  finish_turn-IsBuilt gap id ordinal none later (a, e) l = absurd (ground (arith, e))
  finish_turn-IsBuilt gap id ordinal (some (s, indexes)) none chosen (c, e) =
      absurd (ground (arith, e))
  finish_turn-IsBuilt gap id ordinal (some (s, indexes)) (some c) chosen l = (_, refl)

  build_from-IsBuilt :
      (ordinal : ℕ) (ss cs : List Segment) (ids : List Bytes) (rest : Bytes)
      → length ids ≡ length ss
      → Occurs rest (map (λ s. s.text) ss)
      → Agrees changes ss cs
      → IsBuilt (build_from changes accepted ordinal ss cs ids rest)
  unfolding build_from IsBuilt Leaves
  build_from-IsBuilt ordinal [] cs ids rest n o a = (_, refl)
  build_from-IsBuilt ordinal (s ∷ ss) [] ids rest n o a = absurd a
  build_from-IsBuilt ordinal (s ∷ ss) (c ∷ cs) [] rest n o a = absurd (omega (arith, n))
  build_from-IsBuilt ordinal (s ∷ ss) (c ∷ cs) (id ∷ ids) rest n (gap, t', e, o) a =
      by_index (index_of rest s.text) found (build_from-IsBuilt (suc ordinal) ss cs ids)
    where
      found : Leaves rest s.text t' (index_of rest s.text)
      found =
          subst (λ r. Leaves r s.text t' (index_of r s.text)) (sym e)
            (index_of-Leaves gap s.text t')

      by_times :
          (b : Bool) (o : Option Content)
          → b ≡ true
          → IsBuilt o
          → IsBuilt (if not b then none else o)
      by_times true o h built = built
      by_times false o h built = absurd (ground (arith, h))

      by_index :
          (o : Option ℕ)
          → Leaves rest s.text t' o
          → ((r : Bytes)
              → length ids ≡ length ss
              → Occurs r (map (λ s. s.text) ss)
              → Agrees changes ss cs
              → IsBuilt (build_from changes accepted (suc ordinal) ss cs ids r))
          → IsBuilt (elim o [
            | none ↦ none
            | some position ↦
                let later =
                  build_from changes accepted
                    (suc ordinal)
                    ss
                    cs
                    ids
                    (drop (position + length s.text) rest) in
                if not (same_times c s)
                then none
                else finish_turn
                    (take position rest)
                    id
                    ordinal
                    (choose accepted (change_for 0 s.id changes) s c)
                    later
          ])
      by_index none h later = absurd h
      by_index (some i) (u, left) later = by_times (same_times c s) _ a.0 (
          finish_turn-IsBuilt (take i rest) id ordinal
            (choose accepted (change_for 0 s.id changes) s c)
            (build_from changes accepted (suc ordinal) ss cs ids (drop (i + length s.text) rest))
            (choose-IsBuilt accepted (change_for 0 s.id changes) s c a.1)
            (later (drop (i + length s.text) rest) (omega (arith, n))
              (subst (λ r. Occurs r (map (λ s. s.text) ss)) (sym left) (Occurs-behind u t' _ o))
              a.2))

-- The reviewed content is built, whatever is accepted, when the parent's text has its segments' texts one
-- after the other, there is an identifier for each, and the correction has a segment for each at the same
-- times, where the last change of a segment has the parent's text as its original and the corrected one as
-- its replacement.
pub build_complete :
    (changes : List Change) (accepted : List Bool) (text : Bytes) (parent corrected : List Segment)
    (ids : List Bytes)
    → length ids ≡ length parent
    → Occurs text (map (λ s. s.text) parent)
    → Agrees changes parent corrected
    → (c : Content) × (build changes accepted text parent corrected ids ≡ some c)
unfolding build IsBuilt
build_complete changes accepted text parent corrected ids n o a =
    build_from-IsBuilt changes accepted 0 parent corrected ids text n o a
