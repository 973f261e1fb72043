-- ===== src/Review/Content/Choices.antt =====
-- The segments of a review: which are the parent's and which the corrected ones.
use voice_asset_server.Base.{
  ℕ, suc, ◌+◌, ◌≡◌, refl, sym, ap, subst, ◌∙◌, Bool, true, false, not, ◌||◌, Option, none, some,
  List, [], ◌∷◌, ◌++◌, arith, text_eq, text_eq_sound, length, take, drop, map, All, get_elem?,
  if◌then◌else◌, Bool-cases, Option-cases, inl, inr,
}
use voice_asset_server.Text.{Bytes}
use voice_asset_server.Transcript.{Segment}
use voice_asset_server.Review.{Change}
use voice_asset_server.Review.Content.{
  Content, index_of, change_for, choose, same_times, placed, add, finish_turn, build_from, build,
  or_false,
}
use voice_asset_server.Review.Content.Woven.{Woven, build-Woven, same_pieces}

-- The text that a segment is to have, by the last change of the segment.
abbrev pub wanted : List Bool → Option (ℕ × Change) → Segment → Bytes
wanted accepted none s = s.text
wanted accepted (some (i, c)) s = if or_false (get_elem? accepted i) then c.replacement else s.text

abbrev pub takes : List Bool → Option (ℕ × Change) → Bool
takes accepted none = false
takes accepted (some (i, c)) = or_false (get_elem? accepted i)

-- A segment of the review, of a segment of the parent and its corrected one.
abbrev IsChoice : List Bool → Option (ℕ × Change) → Segment → Segment → Segment → Type 0
IsChoice accepted found s c x =
    (x ≡ (if takes accepted found then c else s)) × (x.text ≡ wanted accepted found s)

IsChosen : List Bool → Option (ℕ × Change) → Segment → Segment → Option (Segment × List ℕ) → Type 0
IsChosen accepted found s c none = Unit
IsChosen accepted found s c (some (x, indexes)) =
    IsChoice accepted found s c x × All (λ i. get_elem? accepted i ≡ some true) indexes

or_false_sound : (o : Option Bool) → or_false o ≡ true → o ≡ some true
or_false_sound none h = absurd (ground arith)
or_false_sound (some b) h = ap some h

choose-IsChosen :
    (accepted : List Bool) (found : Option (ℕ × Change)) (s c : Segment)
    → IsChosen accepted found s c (choose accepted found s c)
unfolding choose IsChosen
choose-IsChosen accepted none s c = ((refl, refl), tt)
choose-IsChosen accepted (some (i, d)) s c =
    elim (Bool-cases (not (text_eq d.original s.text) || not (text_eq c.text d.replacement))) [
      | inl differs ↦ rw (differs, choose, IsChosen) tt
      | inr fits ↦
          let e : c.text ≡ d.replacement = text_eq_sound _ _ (ground arith) in
          elim (Bool-cases (or_false (get_elem? accepted i))) [
            | inl agreed ↦
                rw (fits, agreed, choose, IsChosen)
                  (
                    rw (agreed, IsChoice, takes, wanted) (refl, e),
                    (or_false_sound (get_elem? accepted i) agreed, tt),
                  )
            | inr refused ↦
                rw (fits, refused, choose, IsChosen)
                  (rw (refused, IsChoice, takes, wanted) (refl, refl), tt)
          ]
    ]

-- The last change of a segment and its index, or the news that the segment has no change.
abbrev pub IsLast : Bytes → List Change → Option (ℕ × Change) → Type 0
IsLast id changes none = All (λ d. text_eq d.segment_id id ≡ false) changes
IsLast id changes (some (i, c)) =
    (get_elem? changes i ≡ some c)
    × (c.segment_id ≡ id)
    × All (λ d. text_eq d.segment_id id ≡ false) (drop (suc i) changes)

abbrev IsLastFrom : ℕ → Bytes → List Change → Option (ℕ × Change) → Type 0
IsLastFrom from id changes none = IsLast id changes none
IsLastFrom from id changes (some (i, c)) =
    (k : ℕ) × (i ≡ from + k) × IsLast id changes (some (k, c))

change_for-IsLastFrom :
    (from : ℕ) (id : Bytes) (changes : List Change)
    → IsLastFrom from id changes (change_for from id changes)
unfolding change_for
change_for-IsLastFrom from id [] = tt
change_for-IsLastFrom from id (c ∷ changes) =
    by_later (change_for (suc from) id changes) (change_for-IsLastFrom (suc from) id changes)
  where
    by_test :
        (b : Bool)
        → text_eq c.segment_id id ≡ b
        → All (λ d. text_eq d.segment_id id ≡ false) changes
        → IsLastFrom from id (c ∷ changes) (if b then some (from, c) else none)
    by_test true h a = (0, omega arith, (refl, text_eq_sound c.segment_id id h, a))
    by_test false h a = (h, a)

    by_later :
        (o : Option (ℕ × Change))
        → IsLastFrom (suc from) id changes o
        → IsLastFrom from id (c ∷ changes) (elim o [
          | some found ↦ some found
          | none ↦ if text_eq c.segment_id id then some (from, c) else none
        ])
    by_later (some (i, d)) (k, e, there) = (suc k, omega (arith, e), there)
    by_later none a = by_test (text_eq c.segment_id id) refl a

pub change_for-IsLast :
    (id : Bytes) (changes : List Change) → IsLast id changes (change_for 0 id changes)
change_for-IsLast id changes =
    by_found (change_for 0 id changes) (change_for-IsLastFrom 0 id changes)
  where
    by_found : (o : Option (ℕ × Change)) → IsLastFrom 0 id changes o → IsLast id changes o
    by_found none a = a
    by_found (some (i, c)) (k, e, there) =
        let same : k ≡ i = omega (arith, e) in
        subst (λ n. IsLast id changes (some (n, c))) same there

-- Segment by segment: the parent's, or the corrected one where the last change of the segment is accepted,
-- under the new identifier and the position, at the parent's times.
module _ (accepted : List Bool) (last : Bytes → Option (ℕ × Change)) where
  abbrev pub Chosen : ℕ → List Segment → List Segment → List Bytes → List Segment → Type 0
  Chosen ordinal [] cs ids [] = Unit
  Chosen ordinal (s ∷ ss) (c ∷ cs) (id ∷ ids) (x ∷ xs) =
      (x ≡ placed id ordinal (if takes accepted (last s.id) then c else s))
      × (same_times x s ≡ true)
      × Chosen (suc ordinal) ss cs ids xs
  Chosen ordinal (s ∷ ss) [] ids (x ∷ xs) = ⊥
  Chosen ordinal (s ∷ ss) (c ∷ cs) [] (x ∷ xs) = ⊥
  Chosen ordinal [] cs ids (x ∷ xs) = ⊥
  Chosen ordinal (s ∷ ss) cs ids [] = ⊥

module _ (changes : List Change) (accepted : List Bool) where
  abbrev pub last_in : Bytes → Option (ℕ × Change)
  last_in id = change_for 0 id changes

  abbrev found_for : Segment → Option (ℕ × Change)
  found_for s = change_for 0 s.id changes

  -- The text that a segment of the parent is to have.
  abbrev pub wanted_text : Segment → Bytes
  wanted_text s = wanted accepted (found_for s) s

  abbrev pub takes_change : Segment → Bool
  takes_change s = takes accepted (found_for s)

  record IsReviewed (ordinal : ℕ) (ss cs : List Segment) (ids : List Bytes) (content : Content)
      : Type 0 where
    pub chosen : Chosen accepted last_in ordinal ss cs ids content.segments
    pub texts : map (λ s. s.text) content.segments ≡ map wanted_text ss
    pub indexes : All (λ i. get_elem? accepted i ≡ some true) content.indexes

  abbrev Outcome : ℕ → List Segment → List Segment → List Bytes → Option Content → Type 0
  Outcome ordinal ss cs ids none = Unit
  Outcome ordinal ss cs ids (some content) = IsReviewed ordinal ss cs ids content

  same_times_self : (s : Segment) → same_times s s ≡ true
  same_times_self s = ground arith

  choice_times :
      (b : Bool) (s c : Segment) → same_times c s ≡ true → same_times (if b then c else s) s ≡ true
  choice_times true s c h = h
  choice_times false s c h = same_times_self s

  All-append : (xs ys : List ℕ) (P : ℕ → Type 0) → All P xs → All P ys → All P (xs ++ ys)
  All-append [] ys P a b = b
  All-append (x ∷ xs) ys P a b = (a.0, All-append xs ys P a.1 b)

  finish_turn-Outcome :
      (gap id : Bytes) (ordinal : ℕ) (s c : Segment) (ss cs : List Segment) (ids : List Bytes)
      (chosen : Option (Segment × List ℕ)) (later : Option Content)
      → same_times c s ≡ true
      → IsChosen accepted (found_for s) s c chosen
      → Outcome (suc ordinal) ss cs ids later
      → Outcome ordinal (s ∷ ss) (c ∷ cs) (id ∷ ids) (finish_turn gap id ordinal chosen later)
  unfolding finish_turn add IsChosen
  finish_turn-Outcome gap id ordinal s c ss cs ids none later t h o = tt
  finish_turn-Outcome gap id ordinal s c ss cs ids (some (x, indexes)) none t h o = tt
  finish_turn-Outcome gap id ordinal s c ss cs ids (some (x, indexes)) (some content) t ((e, w), a)
        o =
      record {
        chosen = (
          ap (placed id ordinal) e,
          subst (λ y. same_times y s ≡ true) (sym e) (choice_times (takes_change s) s c t),
          o.chosen,
        );
        texts =
            ap (λ y. y ∷ map (λ s. s.text) content.segments) w
            ∙ ap (λ ys. wanted_text s ∷ ys) o.texts;
        indexes =
            All-append indexes content.indexes (λ i. get_elem? accepted i ≡ some true) a o.indexes;
      }

  build_from-Outcome :
      (ordinal : ℕ) (ss cs : List Segment) (ids : List Bytes) (rest : Bytes)
      → Outcome ordinal ss cs ids (build_from changes accepted ordinal ss cs ids rest)
  unfolding build_from
  build_from-Outcome ordinal [] cs ids rest = record { chosen = tt; texts = refl; indexes = tt }
  build_from-Outcome ordinal (s ∷ ss) [] ids rest = tt
  build_from-Outcome ordinal (s ∷ ss) (c ∷ cs) [] rest = tt
  build_from-Outcome ordinal (s ∷ ss) (c ∷ cs) (id ∷ ids) rest =
      elim (Option-cases (index_of rest s.text)) [
        | inl missing ↦ rw (missing, build_from) tt
        | inr (i, found) ↦ elim (Bool-cases (same_times c s)) [
          | inr other ↦ rw (found, other, build_from) tt
          | inl same ↦
              rw (found, same, build_from)
                (finish_turn-Outcome (take i rest) id ordinal s c ss cs ids
                  (choose accepted (found_for s) s c)
                  (build_from changes accepted (suc ordinal) ss cs ids
                    (drop (i + length s.text) rest))
                  same (choose-IsChosen accepted (found_for s) s c)
                  (build_from-Outcome (suc ordinal) ss cs ids (drop (i + length s.text) rest)))
        ]
      ]

  -- No change is accepted.
  abbrev pub NoneAccepted : Type 0
  NoneAccepted = (i : ℕ) → or_false (get_elem? accepted i) ≡ false

  wanted_none :
      NoneAccepted → (found : Option (ℕ × Change)) (s : Segment) → wanted accepted found s ≡ s.text
  wanted_none kept none s = refl
  wanted_none kept (some (i, c)) s = rw (kept i) refl

  wanted_texts_none : NoneAccepted → (ss : List Segment) → map wanted_text ss ≡ map (λ s. s.text) ss
  wanted_texts_none kept [] = refl
  wanted_texts_none kept (s ∷ ss) =
      ap (λ t. t ∷ map wanted_text ss) (wanted_none kept (found_for s) s)
      ∙ ap (λ ts. s.text ∷ ts) (wanted_texts_none kept ss)

module _ (changes : List Change) (accepted : List Bool) (text : Bytes)
    (parent corrected : List Segment) (ids : List Bytes) (c : Content)
    (built : build changes accepted text parent corrected ids ≡ some c) where
  reviewed : IsReviewed changes accepted 0 parent corrected ids c
  unfolding build
  reviewed =
      subst (Outcome changes accepted 0 parent corrected ids) built
        (build_from-Outcome changes accepted 0 parent corrected ids text)

  -- Segment by segment the reviewed content has the parent's segment, or the corrected one where the last
  -- change of the segment is accepted, under the new identifier, with its position as the ordinal and at
  -- the parent's times, and there are as many as the parent has. The indexes that it reports are all of
  -- accepted changes.
  pub build-Chosen :
      (last : Bytes → Option (ℕ × Change)) × ((id : Bytes) → IsLast id changes (last id))
      × Chosen accepted last 0 parent corrected ids c.segments
      × All (λ i. get_elem? accepted i ≡ some true) c.indexes
  build-Chosen = (
    last_in changes accepted,
    (λ id. change_for-IsLast id changes),
    reviewed.chosen,
    reviewed.indexes,
  )

  -- The text of the reviewed content is the parent's text in which the text of each segment that has an
  -- accepted change is replaced, where it stands, by the replacement of the last change of the segment.
  -- Everything else is kept: the other segments' texts, and what is between the segments.
  pub build_text :
      Woven text (map (λ s. s.text) parent) c.text (map (wanted_text changes accepted) parent)
  build_text =
      subst (Woven text (map (λ s. s.text) parent) c.text) reviewed.texts
        (build-Woven changes accepted text parent corrected ids c built)

  -- If no change is accepted, the reviewed text is the parent's.
  pub build-NoneAccepted : NoneAccepted changes accepted → c.text ≡ text
  build-NoneAccepted kept = sym (
      same_pieces text c.text (map (λ s. s.text) parent) (
        subst (Woven text (map (λ s. s.text) parent) c.text)
          (wanted_texts_none changes accepted kept parent) build_text))
