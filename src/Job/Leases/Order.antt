-- ===== src/Job/Leases/Order.antt =====
-- Which job `claim` picks: the first in the order of the query.
use voice_asset_server.Base.{
  ◌≡◌, refl, subst, Bool, true, false, not, ◌&&◌, Option, none, some, List, [], ◌∷◌, arith, All,
  Bool-cases, inl, inr, ◌⊎◌,
}
use voice_asset_server.Base.Paging.{text_ltb_asym, text_ltb_split}
use voice_asset_server.Text.{Bytes}
use voice_asset_server.Job.{Job, Row, Time}
use voice_asset_server.Job.Leases.{is_claimable, comes_before, first_of, pick}

comes_before_asym : (i j : Job) → comes_before i j ≡ true → comes_before j i ≡ false
unfolding comes_before
comes_before_asym i j h = let x = text_ltb_asym i.id j.id in ground arith

comes_before_self : (i : Job) → comes_before i i ≡ false
comes_before_self i = by_test (comes_before i i) refl
  where
    by_test : (b : Bool) → comes_before i i ≡ b → comes_before i i ≡ false
    by_test true h = comes_before_asym i i h
    by_test false h = h

-- What does not come before j does not come before i either, if j does not come before i.
comes_before_split :
    (k j i : Job) → comes_before k j ≡ false → comes_before j i ≡ false → comes_before k i ≡ false
unfolding comes_before
comes_before_split k j i h g = let x = text_ltb_split k.id j.id i.id in ground arith

module _ (locked : Bytes → Bool) (kind : Bytes) (now : Time) where
  abbrev is_free : Row → Bool
  is_free r = is_claimable kind now r.job && not (locked r.job.id)

  -- The job is that of a row that can be claimed and is not locked.
  abbrev pub IsFree : Job → List Row → Type 0
  IsFree j [] = ⊥
  IsFree j (r ∷ rows) = ((r.job ≡ j) × (is_free r ≡ true)) ⊎ IsFree j rows

  -- No other job that can be claimed comes before.
  abbrev pub IsBefore : Job → List Row → Type 0
  IsBefore j rows = All (λ r. is_free r ≡ true → comes_before r.job j ≡ false) rows

  -- No job at all, or one of those that can be claimed, before which none of them comes.
  abbrev pub IsFirst : Option Job → List Row → Type 0
  IsFirst none rows = All (λ r. is_free r ≡ false) rows
  IsFirst (some j) rows = IsFree j rows × IsBefore j rows

  weaken :
      (j i : Job) (rows : List Row) → comes_before j i ≡ false → IsBefore j rows → IsBefore i rows
  weaken j i [] h a = tt
  weaken j i (r ∷ rows) h a =
      ((λ free. comes_before_split r.job j i (a.0 free) h), weaken j i rows h a.1)

  none_free : (i : Job) (rows : List Row) → IsFirst none rows → IsBefore i rows
  none_free i [] a = tt
  none_free i (r ∷ rows) a = ((λ free. absurd (both (is_free r) free a.0)), none_free i rows a.1)
    where
      both : (b : Bool) → b ≡ true → b ≡ false → ⊥
      both b h k = ground arith

  first_of-IsFirst :
      (r : Row) (o : Option Job) (rows : List Row)
      → is_free r ≡ true
      → IsFirst o rows
      → IsFirst (some (first_of r.job o)) (r ∷ rows)
  unfolding first_of
  first_of-IsFirst r none rows free a =
      (inl (refl, free), ((λ f. comes_before_self r.job), none_free r.job rows a))
  first_of-IsFirst r (some j) rows free (there, a) = elim (Bool-cases (comes_before j r.job)) [
    | inl earlier ↦
        let e : j ≡ first_of r.job (some j) = rw earlier refl in
        subst (λ i. IsFirst (some i) (r ∷ rows)) e
          (inr there, ((λ f. comes_before_asym j r.job earlier), a))
    | inr later ↦
        let e : r.job ≡ first_of r.job (some j) = rw later refl in
        subst (λ i. IsFirst (some i) (r ∷ rows)) e
          (inl (refl, free), ((λ f. comes_before_self r.job), weaken j r.job rows later a))
  ]

  skipped :
      (r : Row) (o : Option Job) (rows : List Row)
      → is_free r ≡ false
      → IsFirst o rows
      → IsFirst o (r ∷ rows)
  skipped r none rows h a = (h, a)
  skipped r (some j) rows h (there, a) =
      (inr there, ((λ free. absurd (both (is_free r) free h)), a))
    where
      both : (b : Bool) → b ≡ true → b ≡ false → ⊥
      both b g k = ground arith

  -- The job that is picked is that of a row which can be claimed and is not locked, and comes first of all
  -- such jobs: a job whose lease has expired before one that waits, then by the time from which it is
  -- available, by its creation and by its identifier. Nothing is picked only when there is no such job.
  pub pick-IsFirst : (rows : List Row) → IsFirst (pick locked kind now rows) rows
  unfolding pick
  pick-IsFirst [] = tt
  pick-IsFirst (r ∷ rows) = elim (Bool-cases (is_free r)) [
    | inl free ↦
        rw (free, pick)
          (first_of-IsFirst r (pick locked kind now rows) rows free (pick-IsFirst rows))
    | inr busy ↦
        rw (busy, pick) (skipped r (pick locked kind now rows) rows busy (pick-IsFirst rows))
  ]
