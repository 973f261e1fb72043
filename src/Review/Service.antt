-- ===== src/Review/Service.antt =====
-- internal/review/service.go over the repository. The reader of revisions is the repository of the
-- transcripts, where it is given; other requests may write between its query and the transaction. Failures
-- of the connection are left out.
use voice_asset_server.Base.{
  ℕ, zero, suc, ◌+◌, ◌*◌, Bool, true, false, not, ◌||◌, Option, none, some, List, [], ◌∷◌, ◌==◌,
  if◌then◌else◌, length, take, drop, Result, ok, err,
}
use voice_asset_server.Base.Int.{ℤ, pos, leb_ℤ}
use voice_asset_server.Text.{Bytes, trim_space}
use voice_asset_server.Identifier.{new_uuid_from, normalize_uuid}
use voice_asset_server.Auth.{Principal, can, corrections_write}
use voice_asset_server.Transcript.{Revision, Time, load}
use voice_asset_server.Review.{
  Error, forbidden, invalid_input, not_found, conflict, repository, random, Action, accept_change,
  reject_change, accept_all, reject_all, approve, parse_action, Record,
}
use voice_asset_server.Review.Repository.{Codec, Database, ApprovalResult, add_decision}
use voice_asset_server.Review.Approval.{approve_revision, is_under_review}

pub record DecisionInput : Type 0 where
  pub action : Bytes
  pub change_index : Option ℤ

-- What a request reads of the world: `others` are the writes of other requests before its transaction.
pub record Env : Type 0 where
  pub principal : Principal
  pub random : Bytes
  pub clock : Time
  pub codec : Codec
  pub has_reader : Bool
  pub others : Database → Database

-- `validDecision`
unfoldable pub valid_decision : Option Action → Option ℤ → Bool
valid_decision (some accept_change) (some i) = leb_ℤ (pos 0) i
valid_decision (some reject_change) (some i) = leb_ℤ (pos 0) i
valid_decision (some accept_change) none = false
valid_decision (some reject_change) none = false
valid_decision (some accept_all) none = true
valid_decision (some reject_all) none = true
valid_decision (some accept_all) (some i) = false
valid_decision (some reject_all) (some i) = false
valid_decision (some approve) index = false
valid_decision none index = false

-- `publicError`, of an error
abbrev public_error : Error → Error
public_error invalid_input = invalid_input
public_error not_found = not_found
public_error conflict = conflict
public_error forbidden = repository
public_error repository = repository
public_error random = repository

unfoldable pub public {ℓ} : {A : Type ℓ} → Result Error A × Database → Result Error A × Database
public (ok a, db) = (ok a, db)
public (err e, db) = (err (public_error e), db)

-- `newID`, as often as needed: the identifiers, and what is left of the random bytes.
unfoldable pub new_ids : ℕ → Bytes → Result Error (List Bytes × Bytes)
new_ids zero bytes = ok ([], bytes)
new_ids (suc n) bytes = elim (new_uuid_from bytes) [
  | err e ↦ err random
  | ok (id, rest) ↦ elim (new_ids n rest) [ err e ↦ err e | ok (ids, rest') ↦ ok (id ∷ ids, rest') ]
]

pub add_with :
    Database → Env → Bytes → Action → Option ℤ → List Bytes → Result Error Record × Database
add_with db env revision action index (review ∷ audit ∷ ids) = public (
    add_decision env.codec db
      (record {
        id = review;
        audit_id = audit;
        workspace_id = env.principal.workspace_id;
        revision_id = revision;
        reviewer_id = env.principal.user_id;
        action = action;
        change_index = index;
      })
      env.clock)
add_with db env revision action index (review ∷ []) = (err random, db)
add_with db env revision action index [] = (err random, db)

pub add_valid : Database → Env → Bytes → Option Action → Option ℤ → Result Error Record × Database
unfolding add_with
add_valid db env revision none index = (err invalid_input, db)
add_valid db env revision (some action) index = elim (new_ids 2 env.random) [
  | err e ↦ (err e, db)
  | ok (ids, rest) ↦ add_with db env revision action index ids
]

-- `AddDecision`
unfoldable pub add : Database → Env → Bytes → DecisionInput → Result Error Record × Database
unfolding add_valid
add db env revision_text input =
    let action = parse_action (trim_space input.action) in
    if not (can env.principal corrections_write)
    then (err forbidden, db)
    else elim (normalize_uuid revision_text) [
      | none ↦ (err invalid_input, db)
      | some revision ↦
          if not (valid_decision action input.change_index)
          then (err invalid_input, db)
          else add_valid db env revision action input.change_index
    ]

-- The transaction, with the identifiers in the order of the source; there are four and two for each of
-- the `segments`.
pub approve_with :
    Database → Env → Bytes → Bool → ℕ → List Bytes → Result Error ApprovalResult × Database
approve_with db env revision accept_pending segments (review ∷ audit ∷ human ∷ approved ∷ ids) =
    public (
      approve_revision env.codec db
        (record {
          review_id = review;
          audit_id = audit;
          workspace_id = env.principal.workspace_id;
          revision_id = revision;
          reviewer_id = env.principal.user_id;
          human_revision_id = human;
          approved_revision_id = approved;
          human_segment_ids = take segments ids;
          approved_segment_ids = drop segments ids;
          accept_pending = accept_pending;
        })
        env.clock)
approve_with db env revision accept_pending segments ids = (err random, db)

pub approve_source_of :
    Database → Env → Bytes → Bool → Option Revision → Result Error ApprovalResult × Database
unfolding approve_with
approve_source_of db env revision accept_pending none = (err not_found, db)
approve_source_of db env revision accept_pending (some source) =
    let segments = length source.segments in
    if not (is_under_review source) || segments == 0
    then (err conflict, db)
    else elim (new_ids (4 + segments * 2) env.random) [
      | err e ↦ (err e, db)
      | ok (ids, rest) ↦ approve_with (env.others db) env revision accept_pending segments ids
    ]

-- `Approve`
unfoldable pub approve_correction :
    Database → Env → Bytes → Bool → Result Error ApprovalResult × Database
unfolding approve_source_of
approve_correction db env revision_text accept_pending =
    if not (can env.principal corrections_write)
    then (err forbidden, db)
    else elim (normalize_uuid revision_text) [
      | none ↦ (err invalid_input, db)
      | some revision ↦
          if not env.has_reader
          then (err invalid_input, db)
          else approve_source_of db env revision accept_pending
              (load db.tables env.principal.workspace_id revision)
    ]
