-- ===== src/Job/Attempts.antt =====
-- The rows of job_attempts under the two changes that are made to them.
use voice_asset_server.Base.{
  ℕ, ◌≤◌, ◌≡◌, refl, sym, subst, true, false, Option, List, [], ◌∷◌, arith, text_eq, text_eq_sound,
  text_eq_comm, ok, ◌==◌, ==_iff, Bool-cases, inl, inr,
}
use voice_asset_server.Text.{Bytes}
use voice_asset_server.Job.{
  Attempt, Outcome, Time, count_attempts, count_open, close_open, finish_attempt,
}

pub count_open-le-count_attempts :
    (id : Bytes) (n : ℕ) (rows : List Attempt) → count_open id n rows ≤ count_attempts id n rows
unfolding count_open count_attempts
count_open-le-count_attempts id n [] = omega arith
count_open-le-count_attempts id n (a ∷ rows) =
    ground (arith, count_open-le-count_attempts id n rows)

-- One text is not two.
distinct : (s i id : Bytes) → text_eq i id ≡ false → text_eq s i ≡ true → text_eq s id ≡ false
distinct s i id h e = subst (λ t. text_eq t id ≡ false) (sym (text_eq_sound s i e)) h

-- What another job sees of a list of attempts.
pub record Agrees (id : Bytes) (old new : List Attempt) : Type 0 where
  pub same_attempts :
      (i : Bytes) (n : ℕ) → text_eq i id ≡ false → count_attempts i n new ≡ count_attempts i n old
  pub same_open :
      (i : Bytes) (n : ℕ) → text_eq i id ≡ false → count_open i n new ≡ count_open i n old

pub Agrees-refl : (id : Bytes) (rows : List Attempt) → Agrees id rows rows
Agrees-refl id rows = record { same_attempts = λ i n h. refl; same_open = λ i n h. refl }

module _ (id : Bytes) (k : ℕ) (o : Outcome) (code : Option Bytes) (now : Time) where
  count_attempts-close_open :
      (i : Bytes) (n : ℕ) (rows : List Attempt)
      → count_attempts i n (close_open id k o code now rows) ≡ count_attempts i n rows
  unfolding count_attempts close_open
  count_attempts-close_open i n [] = refl
  count_attempts-close_open i n (a ∷ rows) = ground (arith, count_attempts-close_open i n rows)

  count_open-close_open :
      (i : Bytes) (n : ℕ) (rows : List Attempt)
      → text_eq i id ≡ false
      → count_open i n (close_open id k o code now rows) ≡ count_open i n rows
  unfolding count_open close_open
  count_open-close_open i n [] h = refl
  count_open-close_open i n (a ∷ rows) h =
      ground (arith, count_open-close_open i n rows, distinct a.job_id i id)

  count_open-close_open_self :
      (rows : List Attempt) → count_open id k (close_open id k o code now rows) ≡ 0
  unfolding count_open close_open
  count_open-close_open_self [] = refl
  count_open-close_open_self (a ∷ rows) = ground (arith, count_open-close_open_self rows)

  count_open-close_open_le :
      (n : ℕ) (rows : List Attempt)
      → count_open id n (close_open id k o code now rows) ≤ count_open id n rows
  unfolding count_open close_open
  count_open-close_open_le n [] = omega arith
  count_open-close_open_le n (a ∷ rows) = ground (arith, count_open-close_open_le n rows)

  -- If no other attempt of the job is open, none is once this one is finished.
  pub finish_attempt-count_open :
      (rows rows' : List Attempt)
      → finish_attempt id k o code now rows ≡ ok rows'
      → ((n : ℕ) → (n == k) ≡ false → count_open id n rows ≡ 0)
      → (n : ℕ) → count_open id n rows' ≡ 0
  unfolding finish_attempt
  finish_attempt-count_open rows rows' h others n =
      let e : rows' ≡ close_open id k o code now rows = ground arith in
      elim (Bool-cases (n == k)) [
        | inl same ↦
            let m : n ≡ k = (==_iff n k).0 same in rw (e, m) (count_open-close_open_self rows)
        | inr differs ↦ rw e (omega (arith, others n differs, count_open-close_open_le n rows))
      ]

  pub Agrees-finish_attempt :
      (rows rows' : List Attempt)
      → finish_attempt id k o code now rows ≡ ok rows'
      → Agrees id rows rows'
  unfolding finish_attempt
  Agrees-finish_attempt rows rows' h =
      let e : rows' ≡ close_open id k o code now rows = ground arith in
      rw e (record {
        same_attempts = λ i n d. count_attempts-close_open i n rows;
        same_open = λ i n d. count_open-close_open i n rows d;
      })

  -- The numbers of the attempts stay.
  pub count_attempts-finish_attempt :
      (rows rows' : List Attempt)
      → finish_attempt id k o code now rows ≡ ok rows'
      → (i : Bytes) (n : ℕ) → count_attempts i n rows' ≡ count_attempts i n rows
  unfolding finish_attempt
  count_attempts-finish_attempt rows rows' h i n =
      let e : rows' ≡ close_open id k o code now rows = ground arith in
      rw e (count_attempts-close_open i n rows)

  pub finish_attempt-ok :
      (rows : List Attempt)
      → count_open id k rows ≡ 1
      → finish_attempt id k o code now rows ≡ ok (close_open id k o code now rows)
  unfolding finish_attempt
  finish_attempt-ok rows h = ground arith

-- A new attempt is seen by its own job only.
pub Agrees-cons :
    (a : Attempt) (old new : List Attempt) → Agrees a.job_id old new → Agrees a.job_id old (a ∷ new)
unfolding count_attempts count_open
Agrees-cons a old new g = record {
  same_attempts = λ i n h. ground (arith, text_eq_comm i a.job_id, g.same_attempts i n h);
  same_open = λ i n h. ground (arith, text_eq_comm i a.job_id, g.same_open i n h);
}
