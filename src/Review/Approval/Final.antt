-- ===== src/Review/Approval/Final.antt =====
-- The text that an approval gives, from the decisions.
use voice_asset_server.Base.{
  Result, ok, err, not, ℕ, suc, ◌+◌, ◌<◌, ◌≡◌, refl, ap, subst, ◌∙◌, Bool, true, false, Option,
  none, some, List, [], ◌∷◌, arith, length, map, if◌then◌else◌, text_eq,
}
use voice_asset_server.Text.{Bytes}
use voice_asset_server.Transcript.{Segment, Revision, Row, Time, load}
use voice_asset_server.Review.{
  Error, not_found, conflict, repository, Change, Record, load_decisions, decide_all, undecided,
}
use voice_asset_server.Review.Content.{Content, change_for, or_false}
use voice_asset_server.Review.Content.Woven.{Woven}
use voice_asset_server.Review.Content.Choices.{
  wanted, wanted_text, build_text, IsLast, change_for-IsLast,
}
use voice_asset_server.Review.Verdicts.{standing, or_pending, decide_all-standing}
use voice_asset_server.Review.Repository.{
  Codec, Database, ApprovalParams, ApprovalResult, child_revision, approval_exists, is_member,
}
use voice_asset_server.Review.Approval.{
  build_accepted, reviewed_content, insert_review, approve_source, approve_revision,
}
use voice_asset_server.Review.Approval.Cases.{IsGiven, approve_source_cases}

-- The text of a segment of the parent, by the decisions on its last change.
abbrev pub settled : Bool → List Record → Option (ℕ × Change) → Segment → Bytes
settled pending decisions none s = s.text
settled pending decisions (some (i, c)) s =
    if or_pending pending (standing i decisions) then c.replacement else s.text

abbrev final_text : Bool → List Record → List Change → Segment → Bytes
final_text pending decisions changes s = settled pending decisions (change_for 0 s.id changes) s

abbrev IsIndex : ℕ → List Change → Option (ℕ × Change) → Type 0
IsIndex from changes none = Unit
IsIndex from changes (some (i, c)) = i < from + length changes

change_for-IsIndex :
    (from : ℕ) (id : Bytes) (changes : List Change)
    → IsIndex from changes (change_for from id changes)
unfolding change_for
change_for-IsIndex from id [] = tt
change_for-IsIndex from id (c ∷ changes) =
    by_later (change_for (suc from) id changes) (change_for-IsIndex (suc from) id changes)
  where
    by_test : (b : Bool) → IsIndex from (c ∷ changes) (if b then some (from, c) else none)
    by_test true = omega arith
    by_test false = tt

    by_later :
        (o : Option (ℕ × Change))
        → IsIndex (suc from) changes o
        → IsIndex from (c ∷ changes) (elim o [
          | some found ↦ some found
          | none ↦ if text_eq c.segment_id id then some (from, c) else none
        ])
    by_later (some (i, d)) h = omega arith
    by_later none h = by_test (text_eq c.segment_id id)

module _ (pending : Bool) (changes : List Change) (decisions : List Record) (accepted : List Bool)
    (decided : decide_all decisions (undecided pending changes) ≡ some accepted) where
  wanted-settled :
      (found : Option (ℕ × Change)) (s : Segment)
      → IsIndex 0 changes found
      → wanted accepted found s ≡ settled pending decisions found s
  wanted-settled none s h = refl
  wanted-settled (some (i, c)) s h =
      ap (λ o. if or_false o then c.replacement else s.text)
        (decide_all-standing pending changes decisions accepted i decided (omega arith))

  wanted_texts :
      (ss : List Segment)
      → map (wanted_text changes accepted) ss ≡ map (final_text pending decisions changes) ss
  wanted_texts [] = refl
  wanted_texts (s ∷ ss) =
      ap (λ t. t ∷ map (wanted_text changes accepted) ss)
        (wanted-settled (change_for 0 s.id changes) s (change_for-IsIndex 0 s.id changes))
      ∙ ap (λ ts. final_text pending decisions changes s ∷ ts) (wanted_texts ss)

-- The text of the reviewed content, from the decisions.
reviewed_content_text :
    (p : ApprovalParams) (reviews : List Record) (source parent : Revision) (changes : List Change)
    (c : Content)
    → reviewed_content p reviews source parent changes ≡ some c
    → Woven parent.text (map (λ s. s.text) parent.segments) c.text (
        map
          (final_text p.accept_pending (load_decisions p.workspace_id source.id reviews) changes)
          parent.segments)
unfolding reviewed_content build_accepted
reviewed_content_text p reviews source parent changes c runs =
    by_accepted (decide_all decisions (undecided p.accept_pending changes)) refl runs
  where
    decisions : List Record
    decisions = load_decisions p.workspace_id source.id reviews

    by_accepted :
        (o : Option (List Bool))
        → decide_all decisions (undecided p.accept_pending changes) ≡ o
        → build_accepted p source parent changes o ≡ some c
        → Woven parent.text
            (map (λ s. s.text) parent.segments)
            c.text
            (map (final_text p.accept_pending decisions changes) parent.segments)
    by_accepted none h g = absurd (ground (arith, g))
    by_accepted (some accepted) h g =
        subst (Woven parent.text (map (λ s. s.text) parent.segments) c.text)
          (wanted_texts p.accept_pending changes decisions accepted h parent.segments)
          (build_text changes accepted parent.text parent.segments source.segments
            p.human_segment_ids c g)

-- What an approval has made of the correction that it is about, of its parent and of the decisions.
pub record IsReview (codec : Codec) (db : Database) (p : ApprovalParams) (r : ApprovalResult)
    : Type 0 where
  pub source : Revision
  pub parent : Revision
  pub changes : List Change
  pub source_loaded : load db.tables p.workspace_id p.revision_id ≡ some source
  pub parent_loaded : load db.tables p.workspace_id source.parent_revision_id ≡ some parent
  pub changes_read : codec.read_changes source.diff ≡ some changes
  pub last : Bytes → Option (ℕ × Change)
  pub are_last : (id : Bytes) → IsLast id changes (last id)
  pub reviewed_text : Woven parent.text (map (λ s. s.text) parent.segments) r.human_revision.text (
      map
        (λ s.
          settled p.accept_pending
            (load_decisions p.workspace_id source.id db.reviews)
            (last s.id)
            s)
        parent.segments)
  pub same_text : r.approved_revision.text ≡ r.human_revision.text
  pub from_source : r.human_revision.parent_revision_id ≡ source.id
  pub from_human : r.approved_revision.parent_revision_id ≡ r.human_revision.id

abbrev pub Reviews :
    Codec → Database → ApprovalParams → Result Error ApprovalResult × Database → Type 0
Reviews codec db p (err e, db') = Unit
Reviews codec db p (ok r, db') = IsReview codec db p r

module _ (codec : Codec) (db : Database) (p : ApprovalParams) (now : Time) where
  guarded :
      (b : Bool) (e : Error) (rest : Result Error ApprovalResult × Database)
      → Reviews codec db p rest
      → Reviews codec db p (if b then (err e, db) else rest)
  guarded true e rest d = tt
  guarded false e rest d = d

  insert_review-Reviews :
      (source : Revision) (c : Content) (rows : List Row)
      → load db.tables p.workspace_id p.revision_id ≡ some source
      → IsGiven codec db p source c
      → Reviews codec db p (insert_review codec db p now source c rows)
  unfolding insert_review child_revision
  insert_review-Reviews source c rows loaded given =
      guarded (approval_exists p.review_id source.id db.reviews) conflict _ (
        guarded (not (is_member p.workspace_id p.reviewer_id db.memberships)) repository _ (record {
          source = source;
          parent = given.parent;
          changes = given.changes;
          source_loaded = loaded;
          parent_loaded = given.parent_loaded;
          changes_read = given.changes_read;
          last = λ id. change_for 0 id given.changes;
          are_last = λ id. change_for-IsLast id given.changes;
          reviewed_text =
              reviewed_content_text p db.reviews source given.parent given.changes c
                given.content_given;
          same_text = refl;
          from_source = refl;
          from_human = refl;
        }))

  -- The text of the edited revision that an approval answers, and of the approved one that follows it, is
  -- the text of the correction's parent in which, where it stands, the text of each segment that has a
  -- change is replaced by the replacement of its last change if the last decision on that change accepts
  -- it, or if there is no decision on it and undecided changes are to be accepted. All the rest is the
  -- parent's. The edited revision follows the correction, and the approved one the edited one.
  pub approve_revision-Reviews : Reviews codec db p (approve_revision codec db p now)
  unfolding approve_revision
  approve_revision-Reviews = by_source (load db.tables p.workspace_id p.revision_id) refl
    where
      by_source :
          (o : Option Revision)
          → load db.tables p.workspace_id p.revision_id ≡ o
          → Reviews codec db p (elim o [
            | none ↦ (err not_found, db)
            | some source ↦ approve_source codec db p now source
          ])
      by_source none loaded = tt
      by_source (some source) loaded =
          approve_source_cases codec db p now source (Reviews codec db p) (λ e h. tt)
            (λ c rows rows' given h a. insert_review-Reviews source c rows' loaded given)
