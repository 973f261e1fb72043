-- ===== src/Review/Content.antt =====
-- `buildReviewedContent` of internal/review/postgres_repository.go: the text and the segments that the
-- accepted changes give.
pub mod Woven
pub mod Choices
pub mod Complete
use voice_asset_server.Base.{
  ℕ, zero, suc, ◌+◌, Bool, true, false, not, ◌&&◌, ◌||◌, Option, none, some, List, [], ◌∷◌, ◌++◌,
  ◌==◌, if◌then◌else◌, text_eq, length, get_elem?, take, drop,
}
use voice_asset_server.Base.Int.{ℤ, eqb_ℤ}
use voice_asset_server.Text.{Bytes}
use voice_asset_server.Transcript.{Segment}
use voice_asset_server.Review.{Change}

unfoldable pub has_prefix : Bytes → Bytes → Bool
has_prefix s [] = true
has_prefix [] (b ∷ t) = false
has_prefix (a ∷ s) (b ∷ t) = a == b && has_prefix s t

-- strings.Index: where `t` occurs first.
unfoldable pub index_of : Bytes → Bytes → Option ℕ
unfolding has_prefix
index_of [] t = if has_prefix [] t then some 0 else none
index_of (a ∷ s) t =
    let rest = index_of s t in
    if has_prefix (a ∷ s) t then some 0 else elim rest [ none ↦ none | some i ↦ some (suc i) ]

-- `changeBySegment[id]`: the last change of the segment, with its index. The first argument is the
-- index of the first change of the list.
unfoldable pub change_for : ℕ → Bytes → List Change → Option (ℕ × Change)
change_for from id [] = none
change_for from id (c ∷ changes) = elim (change_for (suc from) id changes) [
  | some found ↦ some found
  | none ↦ if text_eq c.segment_id id then some (from, c) else none
]

abbrev pub or_false : Option Bool → Bool
or_false none = false
or_false (some b) = b

-- The segment, the index of the change that it takes, and whether there is one; none is an error.
unfoldable pub choose :
    List Bool → Option (ℕ × Change) → Segment → Segment → Option (Segment × List ℕ)
choose accepted none original corrected = some (original, [])
choose accepted (some (i, c)) original corrected =
    if not (text_eq c.original original.text) || not (text_eq corrected.text c.replacement)
    then none
    else if or_false (get_elem? accepted i)
    then some (corrected, i ∷ [])
    else some (original, [])

pub record Content : Type 0 where
  pub text : Bytes
  pub segments : List Segment
  pub indexes : List ℕ

abbrev pub same_times : Segment → Segment → Bool
same_times a b = eqb_ℤ a.start_ms b.start_ms && eqb_ℤ a.end_ms b.end_ms

abbrev pub placed : Bytes → ℕ → Segment → Segment
placed id ordinal s = record s { id = id; ordinal = ordinal }

-- What a turn adds in front of what the later turns give.
pub add : Bytes → Segment → List ℕ → Option Content → Option Content
add gap s indexes none = none
add gap s indexes (some c) = some (record {
  text = gap ++ (s.text ++ c.text);
  segments = s ∷ c.segments;
  indexes = indexes ++ c.indexes;
})

-- The end of a turn, with the later turns.
pub finish_turn : Bytes → Bytes → ℕ → Option (Segment × List ℕ) → Option Content → Option Content
unfolding add
finish_turn gap id ordinal none later = none
finish_turn gap id ordinal (some (s, indexes)) later = add gap (placed id ordinal s) indexes later

module _ (changes : List Change) (accepted : List Bool) where
  -- The loop over the segments of the parent from `ordinal` on, with the corrected segments and the new
  -- identifiers from there on, and `rest`, the parent's text from the cursor on. There are as many
  -- identifiers as segments.
  unfoldable pub build_from : ℕ → List Segment → List Segment → List Bytes → Bytes → Option Content
  unfolding finish_turn
  build_from ordinal [] corrected ids rest =
      some (record { text = rest; segments = []; indexes = [] })
  build_from ordinal (s ∷ ss) [] ids rest = none
  build_from ordinal (s ∷ ss) (c ∷ cs) [] rest = none
  build_from ordinal (s ∷ ss) (c ∷ cs) (id ∷ ids) rest = elim (index_of rest s.text) [
    | none ↦ none
    | some position ↦
        let later = build_from (suc ordinal) ss cs ids (drop (position + length s.text) rest) in
        if not (same_times c s)
        then none
        else finish_turn (take position rest) id ordinal
            (choose accepted (change_for 0 s.id changes) s c) later
  ]

-- `buildReviewedContent`
unfoldable pub build :
    List Change → List Bool → Bytes → List Segment → List Segment → List Bytes → Option Content
unfolding build_from
build changes accepted text parent corrected ids =
    build_from changes accepted 0 parent corrected ids text
