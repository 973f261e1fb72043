-- ===== src/Review/Content/Woven.antt =====
-- The text of a review: the parent's text with the segments' texts replaced where they stand.
use voice_asset_server.Base.{
  ℕ, suc, ◌+◌, ◌≡◌, refl, sym, ap, subst, ◌∙◌, Bool, true, Option, none, some, List, [], ◌∷◌, ◌++◌,
  arith, length, take, drop, map, Bool-cases, Option-cases, inl, inr,
}
use voice_asset_server.Text.{Bytes}
use voice_asset_server.Transcript.{Segment}
use voice_asset_server.Review.{Change}
use voice_asset_server.Review.Content.{
  Content, has_prefix, index_of, change_for, choose, same_times, add, finish_turn, build_from,
  build,
}

-- Both texts are the same gaps around the pieces of their own lists.
abbrev pub Woven : Bytes → List Bytes → Bytes → List Bytes → Type 0
Woven t [] u [] = t ≡ u
Woven t [] u (y ∷ ys) = ⊥
Woven t (x ∷ xs) u [] = ⊥
Woven t (x ∷ xs) u (y ∷ ys) =
    (gap : Bytes) × (t' : Bytes) × (u' : Bytes) × (t ≡ gap ++ (x ++ t'))
    × (u ≡ gap ++ (y ++ u'))
    × Woven t' xs u' ys

-- Around the same pieces the texts are equal.
pub same_pieces : (t u : Bytes) (xs : List Bytes) → Woven t xs u xs → t ≡ u
same_pieces t u [] w = w
same_pieces t u (x ∷ xs) (gap, t', u', e, f, w) =
    e ∙ ap (λ rest. gap ++ (x ++ rest)) (same_pieces t' u' xs w) ∙ sym f

has_prefix_split : (s t : Bytes) → has_prefix s t ≡ true → s ≡ t ++ drop (length t) s
unfolding has_prefix
has_prefix_split s [] h = refl
has_prefix_split [] (b ∷ t) h = absurd (ground arith)
has_prefix_split (a ∷ s) (b ∷ t) h = ground (arith, has_prefix_split s t)

starts : (s t : Bytes) → has_prefix s t ≡ true → s ≡ t ++ drop (0 + length t) s
starts s t h =
    let e : length t ≡ 0 + length t = omega arith in
    subst (λ n. s ≡ t ++ drop n s) e (has_prefix_split s t h)

-- What `index_of` found, by the value that it has.
abbrev Splits : Bytes → Bytes → Option ℕ → Type 0
Splits s t none = Unit
Splits s t (some i) = s ≡ take i s ++ (t ++ drop (i + length t) s)

index_of-Splits : (s t : Bytes) → Splits s t (index_of s t)
unfolding index_of
index_of-Splits [] t = elim (Bool-cases (has_prefix [] t)) [
  | inl here ↦ rw here (starts [] t here)
  | inr away ↦ rw away tt
]
index_of-Splits (a ∷ s) t = elim (Bool-cases (has_prefix (a ∷ s) t)) [
  | inl here ↦ rw here (starts (a ∷ s) t here)
  | inr away ↦ rw away (later (index_of s t) (index_of-Splits s t))
]
  where
    later :
        (o : Option ℕ)
        → Splits s t o
        → Splits (a ∷ s) t (elim o [ none ↦ none | some i ↦ some (suc i) ])
    later none h = tt
    later (some i) h =
        let e : suc (i + length t) ≡ suc i + length t = omega arith in
        subst (λ n. a ∷ s ≡ a ∷ (take i s ++ (t ++ drop n (a ∷ s)))) e (ap (λ u. a ∷ u) h)

pub index_of_split :
    (s t : Bytes) (i : ℕ) → index_of s t ≡ some i → s ≡ take i s ++ (t ++ drop (i + length t) s)
index_of_split s t i h = subst (Splits s t) h (index_of-Splits s t)

abbrev texts : List Segment → List Bytes
texts = map (λ s. s.text)

abbrev Fits : Bytes → List Segment → Option Content → Type 0
Fits rest ss none = Unit
Fits rest ss (some c) = Woven rest (texts ss) c.text (texts c.segments)

module _ (changes : List Change) (accepted : List Bool) where
  finish_turn-Fits :
      (gap id t' rest : Bytes) (ordinal : ℕ) (s : Segment) (ss : List Segment)
      (chosen : Option (Segment × List ℕ)) (later : Option Content)
      → rest ≡ gap ++ (s.text ++ t')
      → Fits t' ss later
      → Fits rest (s ∷ ss) (finish_turn gap id ordinal chosen later)
  unfolding finish_turn add
  finish_turn-Fits gap id t' rest ordinal s ss none later e f = tt
  finish_turn-Fits gap id t' rest ordinal s ss (some (x, indexes)) none e f = tt
  finish_turn-Fits gap id t' rest ordinal s ss (some (x, indexes)) (some c) e f =
      (gap, t', c.text, e, refl, f)

  build_from-Fits :
      (ordinal : ℕ) (ss cs : List Segment) (ids : List Bytes) (rest : Bytes)
      → Fits rest ss (build_from changes accepted ordinal ss cs ids rest)
  unfolding build_from
  build_from-Fits ordinal [] cs ids rest = refl
  build_from-Fits ordinal (s ∷ ss) [] ids rest = tt
  build_from-Fits ordinal (s ∷ ss) (c ∷ cs) [] rest = tt
  build_from-Fits ordinal (s ∷ ss) (c ∷ cs) (id ∷ ids) rest =
      elim (Option-cases (index_of rest s.text)) [
        | inl missing ↦ rw (missing, build_from) tt
        | inr (i, found) ↦ elim (Bool-cases (same_times c s)) [
          | inr other ↦ rw (found, other, build_from) tt
          | inl same ↦
              rw (found, same, build_from)
                (finish_turn-Fits (take i rest) id (drop (i + length s.text) rest) rest ordinal s ss
                  (choose accepted (change_for 0 s.id changes) s c)
                  (build_from changes accepted (suc ordinal) ss cs ids
                    (drop (i + length s.text) rest))
                  (index_of_split rest s.text i found)
                  (build_from-Fits (suc ordinal) ss cs ids (drop (i + length s.text) rest)))
        ]
      ]

-- The text of the reviewed content is the parent's text in which each segment's text has been replaced
-- where it stands by the text of the reviewed segment: what is between the segments is kept.
pub build-Woven :
    (changes : List Change) (accepted : List Bool) (text : Bytes) (parent corrected : List Segment)
    (ids : List Bytes) (c : Content)
    → build changes accepted text parent corrected ids ≡ some c
    → Woven text (texts parent) c.text (texts c.segments)
unfolding build
build-Woven changes accepted text parent corrected ids c runs =
    subst (Fits text parent) runs (build_from-Fits changes accepted 0 parent corrected ids text)
