-- ===== src/Review/Verdicts/Range.antt =====
-- Decisions name changes that there are: `AddDecision` of internal/review/postgres_repository.go, and the
-- loop of `Approve` over the decisions.
use voice_asset_server.Base.{
  ℕ, ◌<◌, ◌≡◌, refl, sym, subst, Bool, true, false, Option, none, some, List, [], ◌∷◌, arith, leb,
  All, length, length-set, set,
}
use voice_asset_server.Review.{
  Action, accept_change, reject_change, accept_all, reject_all, approve, Change, Record, all_to,
  decide, decide_change, decide_all, undecided,
}

abbrev pub HasIndex : ℕ → Option ℕ → Type 0
HasIndex n none = ⊥
HasIndex n (some i) = i < n

abbrev pub Ranges : ℕ → Action → Option ℕ → Type 0
Ranges n accept_change index = HasIndex n index
Ranges n reject_change index = HasIndex n index
Ranges n accept_all index = Unit
Ranges n reject_all index = Unit
Ranges n approve index = Unit

-- A decision on one change names one of the n changes.
abbrev pub InRange : ℕ → Record → Type 0
InRange n r = Ranges n r.action r.change_index

length-all_to : (b : Bool) (xs : List Bool) → length (all_to b xs) ≡ length xs
length-all_to b [] = refl
length-all_to b (x ∷ xs) = omega (arith, length-all_to b xs)

pub length-undecided : (b : Bool) (cs : List Change) → length (undecided b cs) ≡ length cs
unfolding undecided
length-undecided b [] = refl
length-undecided b (c ∷ cs) = omega (arith, length-undecided b cs)

-- The loop goes on with a list of the same length.
abbrev GoesOn : ℕ → Option (List Bool) → Type 0
GoesOn n o = (result : List Bool) × (o ≡ some result) × (length result ≡ n)

decide_change-GoesOn :
    (index : Option ℕ) (b : Bool) (accepted : List Bool)
    → HasIndex (length accepted) index
    → GoesOn (length accepted) (decide_change index b accepted)
unfolding decide_change
decide_change-GoesOn none b accepted h = absurd h
decide_change-GoesOn (some i) b accepted h =
    let e : leb (length accepted) i ≡ false = ground arith in
    (set accepted i b, rw e refl, length-set accepted i b)

decide-GoesOn :
    (r : Record) (accepted : List Bool)
    → InRange (length accepted) r
    → GoesOn (length accepted) (decide r accepted)
unfolding decide
decide-GoesOn r accepted = by_action r.action
  where
    by_action :
        (a : Action)
        → Ranges (length accepted) a r.change_index
        → GoesOn (length accepted) (elim a [
          | accept_all ↦ some (all_to true accepted)
          | reject_all ↦ some (all_to false accepted)
          | accept_change ↦ decide_change r.change_index true accepted
          | reject_change ↦ decide_change r.change_index false accepted
          | approve ↦ some accepted
        ])
    by_action accept_all h = (all_to true accepted, refl, length-all_to true accepted)
    by_action reject_all h = (all_to false accepted, refl, length-all_to false accepted)
    by_action accept_change h = decide_change-GoesOn r.change_index true accepted h
    by_action reject_change h = decide_change-GoesOn r.change_index false accepted h
    by_action approve h = (accepted, refl, refl)

-- With decisions in range the loop reaches its end.
pub decide_all_complete :
    (decisions : List Record) (accepted : List Bool)
    → All (InRange (length accepted)) decisions
    → (result : List Bool) × (decide_all decisions accepted ≡ some result)
unfolding decide_all
decide_all_complete [] accepted a = (accepted, refl)
decide_all_complete (r ∷ rest) accepted a =
    by_first (decide-GoesOn r accepted a.0) (decide_all_complete rest)
  where
    by_first :
        GoesOn (length accepted) (decide r accepted)
        → ((middle : List Bool)
            → All (InRange (length middle)) rest
            → (result : List Bool) × (decide_all rest middle ≡ some result))
        → (result : List Bool) × (decide_all (r ∷ rest) accepted ≡ some result)
    by_first (middle, e, n) later =
        let (result, h) = later middle (subst (λ k. All (InRange k) rest) (sym n) a.1) in
        (result, rw (e, decide_all) h)
