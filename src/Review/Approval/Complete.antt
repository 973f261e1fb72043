-- ===== src/Review/Approval/Complete.antt =====
-- When an approval has a content.
use voice_asset_server.Base.{◌≡◌, sym, subst, ◌∙◌, some, List, All, length, map, ap}
use voice_asset_server.Transcript.{Revision}
use voice_asset_server.Review.{Change, Record, load_decisions, undecided}
use voice_asset_server.Review.Content.{Content}
use voice_asset_server.Review.Content.Complete.{Occurs, Agrees, build_complete}
use voice_asset_server.Review.Verdicts.Range.{InRange, length-undecided, decide_all_complete}
use voice_asset_server.Review.Repository.{ApprovalParams}
use voice_asset_server.Review.Approval.{build_accepted, reviewed_content}

-- An approval has a content when the decisions name changes that there are, the parent's text has its
-- segments' texts one after the other, there is an identifier for each segment, and the correction has a
-- segment for each at the same times, where the last change of a segment has the parent's text as its
-- original and the corrected one as its replacement.
pub reviewed_content_complete :
    (p : ApprovalParams) (reviews : List Record) (source parent : Revision) (changes : List Change)
    → All (InRange (length changes)) (load_decisions p.workspace_id source.id reviews)
    → length p.human_segment_ids ≡ length parent.segments
    → Occurs parent.text (map (λ s. s.text) parent.segments)
    → Agrees changes parent.segments source.segments
    → (c : Content) × (reviewed_content p reviews source parent changes ≡ some c)
unfolding reviewed_content build_accepted
reviewed_content_complete p reviews source parent changes in_range ids occurs agrees =
    let (accepted, decided) =
      decide_all_complete (load_decisions p.workspace_id source.id reviews)
        (undecided p.accept_pending changes)
        (subst (λ n. All (InRange n) (load_decisions p.workspace_id source.id reviews))
          (sym (length-undecided p.accept_pending changes)) in_range) in
    let (c, built) =
      build_complete changes accepted parent.text parent.segments source.segments
        p.human_segment_ids ids occurs agrees in
    (c, ap (build_accepted p source parent changes) decided ∙ built)
