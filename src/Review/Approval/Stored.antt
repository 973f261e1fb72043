-- ===== src/Review/Approval/Stored.antt =====
-- What an approval leaves in the tables.
use voice_asset_server.Base.{
  ◌≡◌, refl, sym, subst, ◌∙◌, Option, none, some, List, [], ◌∷◌, map, arith, Bool-cases, inl, inr,
  Result, ok, err,
}
use voice_asset_server.Base.Table.{find}
use voice_asset_server.Text.{Bytes}
use voice_asset_server.Transcript.{Segment, Revision, Row, Time, load, or_empty}
use voice_asset_server.Transcript.Load.{
  IsLoaded, load-IsLoaded, with_rows, load_found, load_same, find_behind, find_front,
}
use voice_asset_server.Review.{Error, not_found}
use voice_asset_server.Review.Content.{Content}
use voice_asset_server.Review.Repository.{
  Codec, Database, ApprovalParams, ApprovalResult, is_member, null_if_empty, child_revision,
  revision_row, stored_segment, approval_exists,
}
use voice_asset_server.Review.Approval.{
  human_of, approved_of, insert_review, approve_source, approve_revision,
}
use voice_asset_server.Review.Approval.Cases.{IsInserted, approve_source_cases}

-- A new row hides no other, in a table that may already have several.
still_found :
    (jsonb : Bytes → Bytes) (r : Revision) (rows rows' : List Row) (id : Bytes) (s : Row)
    → IsInserted jsonb r rows rows'
    → find (λ q. q.id) id rows ≡ some s
    → find (λ q. q.id) id rows' ≡ some s
unfolding revision_row
still_found jsonb r rows rows' id s x h =
    subst (λ all. find (λ q. q.id) id all ≡ some s) (sym x.added)
      (find_behind (revision_row jsonb r) rows id s x.is_new h)

new_found :
    (jsonb : Bytes → Bytes) (r : Revision) (rows rows' : List Row)
    → IsInserted jsonb r rows rows'
    → find (λ q. q.id) r.id rows' ≡ some (revision_row jsonb r)
unfolding revision_row
new_found jsonb r rows rows' x =
    subst (λ all. find (λ q. q.id) r.id all ≡ some (revision_row jsonb r)) (sym x.added)
      (find_front (revision_row jsonb r) rows)

or_empty-null_if_empty : (s : Bytes) → or_empty (null_if_empty s) ≡ s
or_empty-null_if_empty [] = refl
or_empty-null_if_empty (c ∷ s) = refl

-- A revision with its JSON as the database returns it.
abbrev pub in_database : (Bytes → Bytes) → Revision → Revision
in_database jsonb r = record r {
  provider_snapshot = jsonb r.provider_snapshot;
  hotword_snapshot = jsonb r.hotword_snapshot;
  glossary_snapshot = jsonb r.glossary_snapshot;
  diff = jsonb r.diff;
  validation_result = jsonb r.validation_result;
  segments = map (stored_segment jsonb) r.segments;
}

-- A successful approval: the two revisions that are answered are those that a request for them finds, up to
-- the form of their JSON, and what could be loaded before is loaded unchanged.
pub record IsApproved (jsonb : Bytes → Bytes) (db db' : Database) (workspace : Bytes)
    (r : ApprovalResult) : Type 0 where
  pub human_loaded :
      load db'.tables workspace r.human_revision.id ≡ some (in_database jsonb r.human_revision)
  pub approved_loaded :
      load db'.tables workspace r.approved_revision.id
      ≡ some (in_database jsonb r.approved_revision)
  pub kept :
      (id : Bytes) (q : Revision)
      → load db.tables workspace id ≡ some q
      → load db'.tables workspace id ≡ some q

abbrev pub Done :
    (Bytes → Bytes) → Database → Bytes → Result Error ApprovalResult × Database → Type 0
Done jsonb db workspace (err e, db') = db' ≡ db
Done jsonb db workspace (ok r, db') = IsApproved jsonb db db' workspace r

module _ (codec : Codec) (db : Database) (p : ApprovalParams) (now : Time) (source : Revision) where
  abbrev ws : Bytes
  ws = p.workspace_id

  module _ (x : IsLoaded db.tables ws source) where
    child_loaded :
        (id parent kind text status actor diff : Bytes) (segments : List Segment) (rows : List Row)
        → let r = child_revision source id parent kind text status actor diff segments now in
          find (λ q. q.id) id rows ≡ some (revision_row codec.jsonb r)
          → load (with_rows db.tables ws rows) ws id ≡ some (in_database codec.jsonb r)
    unfolding child_revision revision_row
    child_loaded id parent kind text status actor diff segments rows h =
        load_found db.tables ws source rows id _ x h refl
        ∙ rw (x.same_asset, x.same_language, or_empty-null_if_empty source.provider_raw_object_id)
            refl

    insert_review-Done :
        (c : Content) (rows rows' : List Row)
        → IsInserted codec.jsonb (human_of codec p now source c) db.tables.revisions rows
        → IsInserted codec.jsonb (approved_of p now source c) rows rows'
        → Done codec.jsonb db ws (insert_review codec db p now source c rows')
    unfolding insert_review child_revision load
    insert_review-Done c rows rows' h a =
        elim (Bool-cases (approval_exists p.review_id source.id db.reviews)) [
          | inl taken ↦ rw (taken, insert_review) refl
          | inr free ↦ elim (Bool-cases (is_member ws p.reviewer_id db.memberships)) [
            | inr stranger ↦ rw (free, stranger, insert_review) refl
            | inl joined ↦
                rw (free, joined, insert_review)
                  (record { human_loaded = human; approved_loaded = other; kept = kept })
          ]
        ]
      where
        human :
            load (with_rows db.tables ws rows') ws p.human_revision_id
            ≡ some (in_database codec.jsonb (human_of codec p now source c))
        human = child_loaded _ _ _ _ _ _ _ _ rows' (
            still_found codec.jsonb (approved_of p now source c) rows rows' p.human_revision_id _ a
              (new_found codec.jsonb (human_of codec p now source c) db.tables.revisions rows h))

        other :
            load (with_rows db.tables ws rows') ws p.approved_revision_id
            ≡ some (in_database codec.jsonb (approved_of p now source c))
        other =
            child_loaded _ _ _ _ _ _ _ _ rows'
              (new_found codec.jsonb (approved_of p now source c) rows rows' a)

        by_row :
            (id : Bytes) (o : Option Row)
            → find (λ q. q.id) id db.tables.revisions ≡ o
            → (q : Revision) → load db.tables ws id ≡ some q
            → load (with_rows db.tables ws rows') ws id ≡ some q
        by_row id none e q g = absurd (ground (arith, load_none e, g))
          where
            load_none : find (λ q. q.id) id db.tables.revisions ≡ none → load db.tables ws id ≡ none
            load_none e = rw (e, load) refl
        by_row id (some s) e q g =
            load_same db.tables ws rows' id (
              still_found codec.jsonb _ rows rows' id s a
                (still_found codec.jsonb _ db.tables.revisions rows id s h e)
              ∙ sym e)
            ∙ g

        kept :
            (id : Bytes) (q : Revision)
            → load db.tables ws id ≡ some q
            → load (with_rows db.tables ws rows') ws id ≡ some q
        kept id q g = by_row id (find (λ q. q.id) id db.tables.revisions) refl q g

  approve_source-Done :
      IsLoaded db.tables ws source → Done codec.jsonb db ws (approve_source codec db p now source)
  approve_source-Done x =
      approve_source_cases codec db p now source (Done codec.jsonb db ws) (λ e h. refl)
        (λ c rows rows' given. insert_review-Done x c rows rows')

-- An approval that is refused changes nothing. After one that is answered, the edited and the approved
-- revision can be loaded as they are in the answer, except that the database writes their JSON (the
-- snapshots, the diff, the validation result and the words of the segments) in its own form; and every
-- revision that could be loaded before is still loaded as it was.
pub approve_revision-Done :
    (codec : Codec) (db : Database) (p : ApprovalParams) (now : Time)
    → Done codec.jsonb db p.workspace_id (approve_revision codec db p now)
unfolding approve_revision
approve_revision-Done codec db p now = by_source _ refl
  where
    by_source :
        (o : Option Revision)
        → load db.tables p.workspace_id p.revision_id ≡ o
        → Done codec.jsonb db p.workspace_id (elim o [
          | none ↦ (err not_found, db)
          | some source ↦ approve_source codec db p now source
        ])
    by_source none h = refl
    by_source (some source) h =
        approve_source-Done codec db p now source
          (load-IsLoaded db.tables p.workspace_id p.revision_id source h)
