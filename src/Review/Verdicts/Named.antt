-- ===== src/Review/Verdicts/Named.antt =====
-- Every decision on one change that `AddDecision` of internal/review/postgres_repository.go keeps names a
-- change of its revision.
use voice_asset_server.Base.{
  ℕ, ◌≡◌, refl, sym, ap, subst, ◌∙◌, Bool, true, false, not, ◌||◌, Option, none, some, List, [],
  ◌∷◌, arith, ltb, ◌^◌, if◌then◌else◌, text_eq, text_eq_sound, All, length, Bool-cases, inl, inr,
  and_split, Result, ok, err,
}
use voice_asset_server.Base.Int.{ℤ, pos, negsuc}
use voice_asset_server.Base.Table.{find}
use voice_asset_server.Base.Paging.{precedes}
use voice_asset_server.Text.{Bytes}
use voice_asset_server.Transcript.{Revision, Time, load, llm_corrected}
use voice_asset_server.Transcript.Load.{load-id}
use voice_asset_server.Review.{
  Error, not_found, conflict, invalid_input, repository, Action, accept_change, reject_change,
  accept_all, reject_all, approve, Change, Record, decision_key, is_decision_on, insert_decision,
  load_decisions,
}
use voice_asset_server.Review.Repository.{
  Codec, Database, DecisionParams, decision, with_decision, index_column, insert_row, is_beyond,
  add_on, add_decision, is_some, is_member,
}
use voice_asset_server.Review.Verdicts.Range.{Ranges, InRange}

-- The decisions on a revision that can be loaded name changes of its diff.
abbrev pub AllNamed : Codec → Database → Type 0
AllNamed codec db =
    (workspace id : Bytes) (source : Revision) (changes : List Change)
    → load db.tables workspace id ≡ some source
    → codec.read_changes source.diff ≡ some changes
    → All (InRange (length changes)) (load_decisions workspace source.id db.reviews)

insert-InRange :
    (n : ℕ) (r : Record) (rows : List Record)
    → InRange n r
    → All (InRange n) rows
    → All (InRange n) (insert_decision r rows)
unfolding insert_decision
insert-InRange n r [] h a = (h, tt)
insert-InRange n r (s ∷ rows) h a = elim (Bool-cases (precedes (decision_key r) (decision_key s))) [
  | inl first ↦ rw first (h, a)
  | inr later ↦ rw later (a.0, insert-InRange n r rows h a.1)
]

Fits : ℕ → Action → Option (Option ℕ) → Type 0
Fits n a none = Unit
Fits n a (some index) = Ranges n a index

index_column-Fits :
    (a : Action) (index : Option ℤ) (changes : List Change)
    → is_beyond index changes ≡ false
    → Fits (length changes) a (index_column a index)
unfolding Fits index_column
index_column-Fits accept_change none changes h = tt
index_column-Fits accept_change (some (negsuc i)) changes h = tt
index_column-Fits accept_change (some (pos i)) changes h = elim (Bool-cases (ltb i (2 ^ 31))) [
  | inl small ↦ rw (small, Fits) (ground arith)
  | inr large ↦ rw (large, Fits) tt
]
index_column-Fits reject_change none changes h = tt
index_column-Fits reject_change (some (negsuc i)) changes h = tt
index_column-Fits reject_change (some (pos i)) changes h = elim (Bool-cases (ltb i (2 ^ 31))) [
  | inl small ↦ rw (small, Fits) (ground arith)
  | inr large ↦ rw (large, Fits) tt
]
index_column-Fits accept_all none changes h = tt
index_column-Fits accept_all (some i) changes h = tt
index_column-Fits reject_all none changes h = tt
index_column-Fits reject_all (some i) changes h = tt
index_column-Fits approve none changes h = tt
index_column-Fits approve (some i) changes h = tt

some_injective {ℓ} : {A : Type ℓ} {a b : A} → some a ≡ some b → a ≡ b
some_injective h = ground (arith, h)

module _ (codec : Codec) (db : Database) (p : DecisionParams) (clock : Time)
    (named : AllNamed codec db) where
  abbrev Keeps : Result Error Record × Database → Type 0
  Keeps (m, db') = AllNamed codec db'

  named_or :
      (b : Bool) (e : Error) (rest : Result Error Record × Database)
      → (b ≡ false → Keeps rest)
      → Keeps (if b then (err e, db) else rest)
  named_or true e rest k = named
  named_or false e rest k = k refl

  module _ (target : Revision) (changes : List Change)
      (loaded : load db.tables p.workspace_id p.revision_id ≡ some target)
      (read : codec.read_changes target.diff ≡ some changes) where
    with_decision-AllNamed :
        (index : Option ℕ)
        → Ranges (length changes) p.action index
        → AllNamed codec (with_decision db p index clock)
    unfolding load_decisions
    with_decision-AllNamed index fits workspace id source found loads reads =
        by_place (is_decision_on workspace source.id (decision p index clock)) refl
      where
        before : All (InRange (length found)) (load_decisions workspace source.id db.reviews)
        before = named workspace id source found loads reads

        in_range :
            is_decision_on workspace source.id (decision p index clock) ≡ true
            → InRange (length found) (decision p index clock)
        in_range on =
            let (placed, decides) = and_split _ _ on in
            let (same_workspace, same_revision) = and_split _ _ placed in
            let w = text_eq_sound p.workspace_id workspace same_workspace in
            let v =
              text_eq_sound p.revision_id source.id same_revision
              ∙ load-id db.tables workspace id source loads in
            let here : load db.tables p.workspace_id p.revision_id ≡ some source =
              subst (λ k. load db.tables p.workspace_id k ≡ some source) (sym v)
                (subst (λ k. load db.tables k id ≡ some source) (sym w) loads) in
            let same_source = some_injective (sym loaded ∙ here) in
            let same_changes =
              some_injective (sym read ∙ ap (λ q. codec.read_changes q.diff) same_source ∙ reads) in
            subst (λ cs. Ranges (length cs) p.action index) same_changes fits

        by_place :
            (t : Bool)
            → is_decision_on workspace source.id (decision p index clock) ≡ t
            → All (InRange (length found)) (
                if t
                then insert_decision
                    (decision p index clock)
                    (load_decisions workspace source.id db.reviews)
                else load_decisions workspace source.id db.reviews)
        by_place true on =
            insert-InRange (length found) (decision p index clock)
              (load_decisions workspace source.id db.reviews) (in_range on) before
        by_place false on = before

    insert_row-Keeps :
        (o : Option (Option ℕ)) → Fits (length changes) p.action o → Keeps (insert_row db p clock o)
    unfolding insert_row Fits
    insert_row-Keeps none f = named
    insert_row-Keeps (some index) f =
        named_or
          (is_some (find (λ r. r.id) p.id db.reviews)
            || not (is_member p.workspace_id p.reviewer_id db.memberships))
          repository (ok (decision p index clock), with_decision db p index clock)
          (λ h. with_decision-AllNamed index f)

  add_on-Keeps :
      (target : Revision) (o : Option (List Change))
      → load db.tables p.workspace_id p.revision_id ≡ some target
      → codec.read_changes target.diff ≡ o
      → Keeps (add_on db p clock target o)
  unfolding add_on
  add_on-Keeps target none loaded read = named
  add_on-Keeps target (some changes) loaded read =
      named_or (not (text_eq target.kind llm_corrected)) conflict _ (λ h.
        named_or (is_beyond p.change_index changes) invalid_input _ (λ fits.
          insert_row-Keeps target changes loaded read (index_column p.action p.change_index)
            (index_column-Fits p.action p.change_index changes fits)))

-- Recording a decision keeps it true that every decision on one change names one of the changes of the
-- diff of its revision, for each revision that can be loaded; negative indexes and those that are too
-- great are refused.
pub add_decision-AllNamed :
    (codec : Codec) (db : Database) (p : DecisionParams) (clock : Time)
    → AllNamed codec db
    → AllNamed codec (add_decision codec db p clock).1
unfolding add_decision
add_decision-AllNamed codec db p clock named =
    by_target (load db.tables p.workspace_id p.revision_id) refl
  where
    by_target :
        (o : Option Revision)
        → load db.tables p.workspace_id p.revision_id ≡ o
        → Keeps codec db p clock named (elim o [
          | none ↦ (err not_found, db)
          | some target ↦ add_on db p clock target (codec.read_changes target.diff)
        ])
    by_target none e = named
    by_target (some target) e =
        add_on-Keeps codec db p clock named target (codec.read_changes target.diff) e refl
