-- ===== src/Review/Verdicts/Board.antt =====
-- The decisions as a board that has at most one verdict for each change, whatever the rows are that
-- `AddDecision` of internal/review/postgres_repository.go keeps.
use voice_asset_server.Base.{
  ℕ, ◌<◌, ◌≡◌, refl, sym, ap, ◌∙◌, Bool, true, false, not, ◌&&◌, ◌||◌, Option, none, some, List, [],
  ◌∷◌, ◌++◌, arith, if◌then◌else◌, text_eq, All, Bool-cases, inl, inr, Result, ok, err,
}
use voice_asset_server.Base.Table.{find}
use voice_asset_server.Base.Paging.{precedes}
use voice_asset_server.Text.{Bytes}
use voice_asset_server.Transcript.{Revision, Time, load, llm_corrected}
use voice_asset_server.Review.{
  Error, not_found, conflict, invalid_input, repository, Change, Record, decision_key, is_decision,
  is_decision_on, insert_decision, load_decisions,
}
use voice_asset_server.Review.Repository.{
  Codec, Database, DecisionParams, decision, with_decision, index_column, insert_row, is_beyond,
  add_on, add_decision, is_some, is_member,
}
use voice_asset_server.Review.Verdicts.{verdict, or_else, standing}

abbrev pub Board : Type 0
Board = ℕ → Option Bool

-- The board of a revision.
unfoldable pub board : Database → Bytes → Bytes → Board
board db workspace revision i = standing i (load_decisions workspace revision db.reviews)

-- What a decision does to a board: the changes that it bears on take its verdict.
abbrev pub pin : Record → Board → Board
pin r b i = or_else (verdict i r) (b i)

abbrev pub IsBefore : Time → List Record → Type 0
IsBefore clock = All (λ s. s.created_at < clock)

insert-IsBefore :
    (clock : Time) (r : Record) (rows : List Record)
    → r.created_at < clock
    → IsBefore clock rows
    → IsBefore clock (insert_decision r rows)
unfolding insert_decision
insert-IsBefore clock r [] h a = (h, tt)
insert-IsBefore clock r (s ∷ rows) h a =
    elim (Bool-cases (precedes (decision_key r) (decision_key s))) [
      | inl first ↦ rw first (h, a)
      | inr later ↦ rw later (a.0, insert-IsBefore clock r rows h a.1)
    ]

load_decisions-IsBefore :
    (clock : Time) (workspace revision : Bytes) (rows : List Record)
    → IsBefore clock rows
    → IsBefore clock (load_decisions workspace revision rows)
unfolding load_decisions
load_decisions-IsBefore clock workspace revision [] a = tt
load_decisions-IsBefore clock workspace revision (r ∷ rows) a =
    elim (Bool-cases (is_decision_on workspace revision r)) [
      | inl counts ↦ rw counts (
          insert-IsBefore clock r (load_decisions workspace revision rows) a.0
            (load_decisions-IsBefore clock workspace revision rows a.1))
      | inr other ↦ rw other (load_decisions-IsBefore clock workspace revision rows a.1)
    ]

-- A decision that is later than all others is taken last.
insert_last :
    (r : Record) (rows : List Record)
    → IsBefore r.created_at rows
    → insert_decision r rows ≡ rows ++ (r ∷ [])
unfolding insert_decision
insert_last r [] a = refl
insert_last r (s ∷ rows) a = rw (not_first (a.0)) (ap (λ k. s ∷ k) (insert_last r rows a.1))
  where
    not_first : s.created_at < r.created_at → precedes (decision_key r) (decision_key s) ≡ false
    not_first h = unfold precedes in ground arith

or_else_assoc {ℓ} :
    {A : Type ℓ} (a b c : Option A) → or_else (or_else a b) c ≡ or_else a (or_else b c)
or_else_assoc none b c = refl
or_else_assoc (some a) b c = refl

or_else_nothing {ℓ} : {A : Type ℓ} (a : Option A) → or_else a none ≡ a
or_else_nothing none = refl
or_else_nothing (some a) = refl

standing-append :
    (i : ℕ) (r : Record) (rows : List Record)
    → standing i (rows ++ (r ∷ [])) ≡ or_else (verdict i r) (standing i rows)
unfolding standing
standing-append i r [] = sym (or_else_nothing (verdict i r))
standing-append i r (s ∷ rows) =
    ap (λ o. or_else o (verdict i s)) (standing-append i r rows)
    ∙ or_else_assoc (verdict i r) (standing i rows) (verdict i s)

-- What a row adds to the board of a revision.
abbrev pub pinned_on : Bytes → Bytes → Record → Board → Board
pinned_on workspace revision r b i =
    if text_eq r.workspace_id workspace && text_eq r.revision_id revision then pin r b i else b i

standing_added :
    (workspace revision : Bytes) (r : Record) (rows : List Record) (i : ℕ)
    → IsBefore r.created_at rows
    → is_decision r.action ≡ true
    → standing i (load_decisions workspace revision (r ∷ rows))
      ≡ pinned_on workspace revision r (λ k. standing k (load_decisions workspace revision rows)) i
unfolding load_decisions
standing_added workspace revision r rows i a h =
    rw h (by_place (text_eq r.workspace_id workspace && text_eq r.revision_id revision))
  where
    loaded : List Record
    loaded = load_decisions workspace revision rows

    by_place :
        (t : Bool)
        → standing i (if t && true then insert_decision r loaded else loaded)
          ≡ (if t then pin r (λ k. standing k loaded) i else standing i loaded)
    by_place true =
        ap (standing i)
          (insert_last r loaded (load_decisions-IsBefore r.created_at workspace revision rows a))
        ∙ standing-append i r loaded
    by_place false = refl

-- An answer to a decision, against the boards.
abbrev pub Pins : Database → DecisionParams → Result Error Record × Database → Type 0
Pins db p (err e, db') = db' ≡ db
Pins db p (ok r, db') =
    (r.workspace_id ≡ p.workspace_id)
    × (r.revision_id ≡ p.revision_id)
    × (r.action ≡ p.action)
    × ((workspace revision : Bytes) (i : ℕ)
        → board db' workspace revision i
          ≡ pinned_on workspace revision r (board db workspace revision) i)

module _ (db : Database) (p : DecisionParams) (clock : Time) (later : IsBefore clock db.reviews)
    (decides : is_decision p.action ≡ true) where
  guarded :
      (b : Bool) (e : Error) (rest : Result Error Record × Database)
      → Pins db p rest
      → Pins db p (if b then (err e, db) else rest)
  guarded true e rest d = refl
  guarded false e rest d = d

  insert_row-Pins : (o : Option (Option ℕ)) → Pins db p (insert_row db p clock o)
  unfolding insert_row board
  insert_row-Pins none = refl
  insert_row-Pins (some index) =
      guarded
        (is_some (find (λ r. r.id) p.id db.reviews)
          || not (is_member p.workspace_id p.reviewer_id db.memberships))
        repository (ok (decision p index clock), with_decision db p index clock)
        (
          refl,
          refl,
          refl,
          λ workspace revision i.
              standing_added workspace revision (decision p index clock) db.reviews i later decides,
        )

  add_on-Pins :
      (target : Revision) (o : Option (List Change)) → Pins db p (add_on db p clock target o)
  unfolding add_on
  add_on-Pins target none = refl
  add_on-Pins target (some changes) = guarded (not (text_eq target.kind llm_corrected)) conflict _ (
      guarded (is_beyond p.change_index changes) invalid_input _
        (insert_row-Pins (index_column p.action p.change_index)))

-- Recording a decision refines pinning a verdict: when the decision is later than every one before it, the
-- answered record changes the board of its own revision just as its action says, an action on all changes
-- every verdict and an action on one change that verdict only, and no other board. A refused decision
-- changes nothing at all.
pub add_decision-Pins :
    (codec : Codec) (db : Database) (p : DecisionParams) (clock : Time)
    → IsBefore clock db.reviews
    → is_decision p.action ≡ true
    → Pins db p (add_decision codec db p clock)
unfolding add_decision
add_decision-Pins codec db p clock later decides =
    by_target (load db.tables p.workspace_id p.revision_id)
  where
    by_target :
        (o : Option Revision)
        → Pins db p (elim o [
          | none ↦ (err not_found, db)
          | some target ↦ add_on db p clock target (codec.read_changes target.diff)
        ])
    by_target none = refl
    by_target (some target) =
        add_on-Pins db p clock later decides target (codec.read_changes target.diff)
