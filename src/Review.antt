-- ===== src/Review.antt =====
-- Reviews of corrected transcripts: the data of internal/review/model.go, and the decisions and their
-- effect in internal/review/postgres_repository.go.
pub mod Content
pub mod Repository
pub mod Approval
pub mod Service
pub mod Verdicts
mod Samples
mod Tests
use voice_asset_server.Base.{
  ℕ, zero, suc, Bool, true, false, ◌&&◌, Option, none, some, List, [], ◌∷◌, ltb, leb, if◌then◌else◌,
  text_eq, length, set, map,
}
use voice_asset_server.Base.Int.{ℤ, pos, negsuc}
use voice_asset_server.Base.Paging.{Key, precedes}
use voice_asset_server.Text.{Bytes, codes}
use voice_asset_server.Transcript.{Time}

-- `repository` stands for every error that wraps none of the others, `random` for the end of the source
-- of randomness.
pub data Error : Type 0 where
  forbidden invalid_input not_found conflict repository random : Error

-- The actions, which the column action is checked for. Other texts are no actions.
pub data Action : Type 0 where
  accept_change reject_change accept_all reject_all approve : Action

abbrev pub action_name : Action → Bytes
action_name accept_change = codes "accept_change"
action_name reject_change = codes "reject_change"
action_name accept_all = codes "accept_all"
action_name reject_all = codes "reject_all"
action_name approve = codes "approve"

unfoldable pub parse_action : Bytes → Option Action
parse_action s =
    if text_eq s (action_name accept_change)
    then some accept_change
    else if text_eq s (action_name reject_change)
    then some reject_change
    else if text_eq s (action_name accept_all)
    then some accept_all
    else if text_eq s (action_name reject_all)
    then some reject_all
    else if text_eq s (action_name approve)
    then some approve
    else none

-- `llm.Change`; the confidence is kept by its bits.
pub record Change : Type 0 where
  pub segment_id : Bytes
  pub original : Bytes
  pub replacement : Bytes
  pub confidence : ℕ
  pub reason : Bytes

pub record Record : Type 0 where
  pub id : Bytes
  pub workspace_id : Bytes
  pub revision_id : Bytes
  pub reviewer_id : Bytes
  pub action : Action
  pub change_index : Option ℕ
  pub resulting_revision_id : Bytes
  pub created_at : Time

abbrev decision_key : Record → Key
decision_key r = (r.created_at, r.id)

-- `action <> 'approve'`
abbrev pub is_decision : Action → Bool
is_decision approve = false
is_decision accept_change = true
is_decision reject_change = true
is_decision accept_all = true
is_decision reject_all = true

-- WHERE workspace_id = $1 AND revision_id = $2 AND action <> 'approve'
abbrev pub is_decision_on : Bytes → Bytes → Record → Bool
is_decision_on workspace revision r =
    text_eq r.workspace_id workspace && text_eq r.revision_id revision && is_decision r.action

unfoldable pub insert_decision : Record → List Record → List Record
insert_decision r [] = r ∷ []
insert_decision r (s ∷ rest) =
    let later = insert_decision r rest in
    if precedes (decision_key r) (decision_key s) then r ∷ s ∷ rest else s ∷ later

-- `loadDecisions`: ORDER BY created_at, id.
unfoldable pub load_decisions : Bytes → Bytes → List Record → List Record
load_decisions workspace revision [] = []
load_decisions workspace revision (r ∷ reviews) =
    let rest = load_decisions workspace revision reviews in
    if is_decision_on workspace revision r then insert_decision r rest else rest

abbrev all_to : Bool → List Bool → List Bool
all_to b = map (λ a. b)

-- accepted[index] = b, where an index that is missing or too great is a conflict.
unfoldable pub decide_change : Option ℕ → Bool → List Bool → Option (List Bool)
decide_change none b accepted = none
decide_change (some i) b accepted =
    if leb (length accepted) i then none else some (set accepted i b)

-- One turn of the loop of `Approve` over the decisions.
unfoldable pub decide : Record → List Bool → Option (List Bool)
unfolding decide_change
decide r accepted = elim r.action [
  | accept_all ↦ some (all_to true accepted)
  | reject_all ↦ some (all_to false accepted)
  | accept_change ↦ decide_change r.change_index true accepted
  | reject_change ↦ decide_change r.change_index false accepted
  | approve ↦ some accepted
]

-- The loop; it ends in a conflict or in what is accepted.
unfoldable pub decide_all : List Record → List Bool → Option (List Bool)
unfolding decide
decide_all [] accepted = some accepted
decide_all (r ∷ rest) accepted = elim (decide r accepted) [
  | none ↦ none
  | some accepted' ↦ decide_all rest accepted'
]

-- `accepted` before the loop.
unfoldable pub undecided : Bool → List Change → List Bool
undecided pending changes = map (λ c. pending) changes
