-- ===== src/Review/Tests.antt =====
-- The theorems on reviews at concrete inputs.
use voice_asset_server.Base.{
  ◌≡◌, refl, ℕ, Option, get_elem?, arith, true, some, [], ◌∷◌, ok, text_eq, All, map,
}
use voice_asset_server.Base.Table.{find}
use voice_asset_server.Text.{Bytes, codes}
use voice_asset_server.Transcript.{load}
use voice_asset_server.Review.{
  Change, insert_decision, load_decisions, decide_change, decide, decide_all, undecided,
}
use voice_asset_server.Review.Content.{
  Content, has_prefix, index_of, change_for, choose, build_from, build,
}
use voice_asset_server.Review.Content.Complete.{Occurs, Agrees}
use voice_asset_server.Review.Content.Choices.{Chosen, IsLast, build-Chosen}
use voice_asset_server.Review.Repository.{
  index_column, insert_row, add_on, add_decision, is_member, is_listed, clone_with_ids,
  child_revision, revision_row, segment_exists, segments_are_new, insert_revision, approval_exists,
}
use voice_asset_server.Review.Approval.{result_of, reviewed_content, approve_revision}
use voice_asset_server.Review.Approval.Final.{Reviews, approve_revision-Reviews}
use voice_asset_server.Review.Approval.Complete.{reviewed_content_complete}
use voice_asset_server.Review.Approval.Stored.{Done, approve_revision-Done}
use voice_asset_server.Review.Approval.Once.{Refused, approve_revision-once}
use voice_asset_server.Review.Approval.Newest.{ShowsGreater, approve_revision-ShowsGreater}
use voice_asset_server.Review.Verdicts.Board.{Pins, add_decision-Pins}
use voice_asset_server.Review.Verdicts.Range.{InRange}
use voice_asset_server.Review.Verdicts.Named.{AllNamed, add_decision-AllNamed}
use voice_asset_server.Review.Samples.{
  db, decided_db, codec, decision_params, approval_params, accepting, content, source, parent,
  change,
}

-- The decision is recorded.
decided : (add_decision codec db decision_params 7).0 ≡ ok accepting
unfolding add_decision add_on insert_row index_column load find text_eq is_member codes
decided = refl

add_decision-Pins_example : Pins db decision_params (add_decision codec db decision_params 7)
add_decision-Pins_example = add_decision-Pins codec db decision_params 7 tt refl

nothing_decided : AllNamed codec db
unfolding load_decisions
nothing_decided workspace id revision changes loads reads = tt

add_decision-AllNamed_example : AllNamed codec (add_decision codec db decision_params 7).1
add_decision-AllNamed_example = add_decision-AllNamed codec db decision_params 7 nothing_decided

content_built :
    reviewed_content approval_params (accepting ∷ []) source parent (change ∷ []) ≡ some content
unfolding reviewed_content load_decisions insert_decision decide_all decide decide_change undecided
    build build_from index_of has_prefix change_for choose text_eq codes
content_built = refl

approve_revision-Reviews_example :
    Reviews codec decided_db approval_params (approve_revision codec decided_db approval_params 9)
approve_revision-Reviews_example = approve_revision-Reviews codec decided_db approval_params 9

one_built :
    build
      (change ∷ [])
      (true ∷ [])
      parent.text
      parent.segments
      source.segments
      approval_params.human_segment_ids
    ≡ some content
unfolding build build_from index_of has_prefix change_for choose text_eq codes
one_built = refl

build-Chosen_example :
    (last : Bytes → Option (ℕ × Change)) × ((id : Bytes) → IsLast id (change ∷ []) (last id))
    × Chosen
        (true ∷ [])
        last
        0
        parent.segments
        source.segments
        approval_params.human_segment_ids
        content.segments
    × All (λ i. get_elem? (true ∷ []) i ≡ some true) content.indexes
build-Chosen_example =
    build-Chosen (change ∷ []) (true ∷ []) parent.text parent.segments source.segments
      approval_params.human_segment_ids content one_built

approve_revision-Done_example :
    Done codec.jsonb decided_db (codes "w") (approve_revision codec decided_db approval_params 9)
approve_revision-Done_example = approve_revision-Done codec decided_db approval_params 9

approve_revision-ShowsGreater_example :
    ShowsGreater codec.jsonb (approve_revision codec decided_db approval_params 9)
approve_revision-ShowsGreater_example =
    approve_revision-ShowsGreater codec decided_db approval_params 9
      (omega arith, (omega arith, tt))

approve_revision_lem : approve_revision codec decided_db approval_params 9 ≡ (
  ok (result_of codec approval_params 9 source content),
  (approve_revision codec decided_db approval_params 9).1,
)
unfolding approve_revision load find reviewed_content load_decisions insert_decision decide_all
    decide decide_change undecided build build_from index_of has_prefix change_for choose text_eq
    codes insert_revision segments_are_new segment_exists is_listed is_member approval_exists
    child_revision revision_row clone_with_ids
approve_revision_lem = refl

approve_revision-once_example : Refused (approve_revision codec decided_db approval_params 9).1 (
    approve_revision codec
      (approve_revision codec decided_db approval_params 9).1
      approval_params
      12)
approve_revision-once_example =
    approve_revision-once codec decided_db (approve_revision codec decided_db approval_params 9).1
      approval_params approval_params 9 12 (result_of codec approval_params 9 source content)
      approve_revision_lem refl refl

-- The pieces of the sample.
pieces : Occurs parent.text (map (λ s. s.text) parent.segments)
unfolding codes
pieces = (codes "say ", codes " word", refl, (codes " ", [], refl, tt))

agreement : Agrees (change ∷ []) parent.segments source.segments
unfolding change_for text_eq codes
agreement = (refl, (refl, refl), (refl, tt, tt))

in_range : All (InRange 1) (load_decisions (codes "w") source.id (accepting ∷ []))
unfolding load_decisions insert_decision text_eq codes
in_range = (omega arith, tt)

reviewed_content_complete_example :
    (c : Content) × (reviewed_content approval_params (accepting ∷ []) source parent (change ∷ [])
      ≡ some c)
reviewed_content_complete_example =
    reviewed_content_complete approval_params (accepting ∷ []) source parent (change ∷ []) in_range
      refl pieces agreement
