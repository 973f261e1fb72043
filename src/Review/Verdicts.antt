-- ===== src/Review/Verdicts.antt =====
-- What the decisions on a correction come to: for each change the last decision that bears on it counts.
pub mod Board
pub mod Range
pub mod Named
use voice_asset_server.Base.{
  ℕ, zero, suc, ◌<◌, ◌≡◌, ◌≢◌, refl, sym, ap, subst, ◌∙◌, Bool, true, false, not, ◌&&◌, Option,
  none, some, List, [], ◌∷◌, ◌++◌, arith, leb, ltb, ◌==◌, ==_iff, if◌then◌else◌, length, length-set,
  set, get_elem?, get_elem?-set_self, get_elem?-set_ne, map, Bool-cases, Option-cases, inl, inr,
}
use voice_asset_server.Text.{Bytes}
use voice_asset_server.Review.{
  Action, accept_change, reject_change, accept_all, reject_all, approve, Change, Record, decide,
  decide_change, decide_all, undecided, all_to,
}

-- What one decision says about the change i, if anything.
abbrev pub on_change : ℕ → Option ℕ → Bool → Option Bool
on_change i none b = none
on_change i (some j) b = if i == j then some b else none

abbrev pub verdict : ℕ → Record → Option Bool
verdict i r = elim r.action [
  | accept_all ↦ some true
  | reject_all ↦ some false
  | accept_change ↦ on_change i r.change_index true
  | reject_change ↦ on_change i r.change_index false
  | approve ↦ none
]

abbrev pub or_else {ℓ} : {A : Type ℓ} → Option A → Option A → Option A
or_else (some a) o = some a
or_else none o = o

-- The last decision in the list that says something about the change.
unfoldable pub standing : ℕ → List Record → Option Bool
standing i [] = none
standing i (r ∷ rest) = or_else (standing i rest) (verdict i r)

-- What is accepted at the end, from the last verdict and what was there before.
abbrev pub settle : Option Bool → Option Bool → Option Bool
settle before none = before
settle none (some b) = none
settle (some a) (some b) = some b

settle_later : (a b c : Option Bool) → settle (settle a b) c ≡ settle a (or_else c b)
settle_later a b none = refl
settle_later none none (some c) = refl
settle_later none (some b) (some c) = refl
settle_later (some a) none (some c) = refl
settle_later (some a) (some b) (some c) = refl

get_elem?-map :
    (b : Bool) (xs : List Bool) (i : ℕ)
    → get_elem? (all_to b xs) i ≡ settle (get_elem? xs i) (some b)
get_elem?-map b [] i = refl
get_elem?-map b (x ∷ xs) zero = refl
get_elem?-map b (x ∷ xs) (suc i) = get_elem?-map b xs i

abbrev Settled : List Bool → (ℕ → Option Bool) → Option (List Bool) → Type 0
Settled accepted says none = Unit
Settled accepted says (some result) =
    (i : ℕ) → get_elem? result i ≡ settle (get_elem? accepted i) (says i)

settle_nothing : (o : Option Bool) → none ≡ settle none o
settle_nothing none = refl
settle_nothing (some b) = refl

set_settles :
    (xs : List Bool) (j i : ℕ) (b : Bool)
    → get_elem? (set xs j b) i ≡ settle (get_elem? xs i) (on_change i (some j) b)
set_settles [] j i b = settle_nothing (on_change i (some j) b)
set_settles (x ∷ xs) zero zero b = refl
set_settles (x ∷ xs) zero (suc i) b = let e : (suc i == zero) ≡ false = ground arith in rw e refl
set_settles (x ∷ xs) (suc j) zero b = let e : (zero == suc j) ≡ false = ground arith in rw e refl
set_settles (x ∷ xs) (suc j) (suc i) b =
    let e : (suc i == suc j) ≡ (i == j) = ground arith in rw e (set_settles xs j i b)

decide_change-Settled :
    (o : Option ℕ) (b : Bool) (accepted : List Bool)
    → Settled accepted (λ i. on_change i o b) (decide_change o b accepted)
unfolding decide_change
decide_change-Settled none b accepted = tt
decide_change-Settled (some j) b accepted = by_bound (leb (length accepted) j)
  where
    by_bound :
        (t : Bool)
        → Settled accepted
            (λ i. on_change i (some j) b)
            (if t then none else some (set accepted j b))
    by_bound true = tt
    by_bound false = λ i. set_settles accepted j i b

decide-Settled :
    (r : Record) (accepted : List Bool) → Settled accepted (λ i. verdict i r) (decide r accepted)
unfolding decide
decide-Settled r accepted = by_action r.action
  where
    by_action :
        (a : Action)
        → Settled accepted
            (λ i. elim a [
              | accept_all ↦ some true
              | reject_all ↦ some false
              | accept_change ↦ on_change i r.change_index true
              | reject_change ↦ on_change i r.change_index false
              | approve ↦ none
            ])
            (elim a [
              | accept_all ↦ some (all_to true accepted)
              | reject_all ↦ some (all_to false accepted)
              | accept_change ↦ decide_change r.change_index true accepted
              | reject_change ↦ decide_change r.change_index false accepted
              | approve ↦ some accepted
            ])
    by_action accept_all = λ i. get_elem?-map true accepted i
    by_action reject_all = λ i. get_elem?-map false accepted i
    by_action accept_change = decide_change-Settled r.change_index true accepted
    by_action reject_change = decide_change-Settled r.change_index false accepted
    by_action approve = λ i. refl

decide_all-Settled :
    (decisions : List Record) (accepted : List Bool)
    → Settled accepted (λ i. standing i decisions) (decide_all decisions accepted)
unfolding decide_all standing
decide_all-Settled [] accepted = λ i. refl
decide_all-Settled (r ∷ rest) accepted =
    by_first (decide r accepted) (decide-Settled r accepted) (decide_all-Settled rest)
  where
    combine :
        (middle : List Bool) (o : Option (List Bool))
        → Settled accepted (λ i. verdict i r) (some middle)
        → Settled middle (λ i. standing i rest) o
        → Settled accepted (λ i. or_else (standing i rest) (verdict i r)) o
    combine middle none h g = tt
    combine middle (some result) h g = λ i.
        g i
        ∙ ap (λ k. settle k (standing i rest)) (h i)
        ∙ settle_later (get_elem? accepted i) (verdict i r) (standing i rest)

    by_first :
        (o : Option (List Bool))
        → Settled accepted (λ i. verdict i r) o
        → ((middle : List Bool) → Settled middle (λ i. standing i rest) (decide_all rest middle))
        → Settled accepted
            (λ i. or_else (standing i rest) (verdict i r))
            (elim o [ none ↦ none | some accepted' ↦ decide_all rest accepted' ])
    by_first none h later = tt
    by_first (some middle) h later = combine middle (decide_all rest middle) h (later middle)

get_elem?-undecided :
    (pending : Bool) (changes : List Change) (i : ℕ)
    → i < length changes
    → get_elem? (undecided pending changes) i ≡ some pending
unfolding undecided
get_elem?-undecided pending [] i h = absurd (ground arith)
get_elem?-undecided pending (c ∷ changes) zero h = refl
get_elem?-undecided pending (c ∷ changes) (suc i) h =
    get_elem?-undecided pending changes i (omega arith)

abbrev pub or_pending : Bool → Option Bool → Bool
or_pending pending none = pending
or_pending pending (some b) = b

-- When the decisions are taken in turn, a change is accepted at the end exactly if the last decision that
-- bears on it accepts it, and if there is none, when undecided changes are to be accepted.
pub decide_all-standing :
    (pending : Bool) (changes : List Change) (decisions : List Record) (accepted : List Bool)
    (i : ℕ)
    → decide_all decisions (undecided pending changes) ≡ some accepted
    → i < length changes
    → get_elem? accepted i ≡ some (or_pending pending (standing i decisions))
decide_all-standing pending changes decisions accepted i runs h =
    subst (Settled (undecided pending changes) (λ i. standing i decisions)) runs
      (decide_all-Settled decisions (undecided pending changes)) i
    ∙ ap (λ o. settle o (standing i decisions)) (get_elem?-undecided pending changes i h)
    ∙ with_default (standing i decisions)
  where
    with_default : (o : Option Bool) → settle (some pending) o ≡ some (or_pending pending o)
    with_default none = refl
    with_default (some b) = refl
