-- ===== src/Asr/Calls/Bounds.antt =====
-- How often the providers are called for one transcription, and what is returned.
use voice_asset_server.Base.{
  ℕ, zero, suc, ◌+◌, ◌≤◌, ◌≡◌, refl, true, false, not, ◌||◌, Option, none, some, List, [], ◌∷◌,
  arith, ◌==◌, Result, ok, err, All, Bool-cases, inl, inr, ◌⊎◌,
}
use voice_asset_server.Text.{Bytes}
use voice_asset_server.Asr.{Target, Registry, active_targets, retry_delay}
use voice_asset_server.Asr.Calls.{
  ContextError, Failure, Outside, with_slot, call_with_limit, checked, woken, retried,
  attempts_from, transcribe_target, failed_over, last_failure, transcribe_route, transcribe,
  is_retryable, can_failover, retry_after,
}

-- A counter of the calls: waiting and pauses leave it alone.
pub record Counts {A W : Type 0} (o : Outside A W) (calls : W → ℕ) : Type 0 where
  pub slot_keeps : (t : Target) (w : W) → calls (o.take_slot t w).1 ≡ calls w
  pub sleep_keeps : (delay : ℕ) (w : W) → calls (o.sleep delay w).1 ≡ calls w
  pub call_adds : (t : Target) (w : W) → calls (o.call t w).1 ≡ suc (calls w)

-- The attempts that the policies of the targets allow.
abbrev pub budget : List Target → ℕ
budget [] = 0
budget (t ∷ ts) = t.profile.retry.max_attempts + budget ts

-- The names of a result belong to one of the targets.
abbrev pub ComesFrom : Bytes → Bytes → List Target → Type 0
ComesFrom provider profile [] = ⊥
ComesFrom provider profile (t ∷ ts) =
    ((t.provider.id ≡ provider) × (t.profile.id ≡ profile)) ⊎ ComesFrom provider profile ts

module _ {A W : Type 0} (o : Outside A W) (calls : W → ℕ) (c : Counts o calls) where
  abbrev Good : Result Failure A → Type 0
  Good (ok a) = o.is_valid a ≡ true
  Good (err f) = Unit

  abbrev Within : ℕ → Result Failure A × W → Type 0
  Within bound out = (calls out.1 ≤ bound) × Good out.0

  call_with_limit-calls : (t : Target) (w : W) → calls (call_with_limit o t w).1 ≤ suc (calls w)
  unfolding call_with_limit with_slot
  call_with_limit-calls t w = by_slot (o.take_slot t w) (c.slot_keeps t w)
    where
      by_slot :
          (s : Option ContextError × W)
          → calls s.1 ≡ calls w
          → calls (with_slot o t s).1 ≤ suc (calls w)
      by_slot (some e, v) same = omega arith
      by_slot (none, v) same = let one = c.call_adds t v in omega arith

  checked-Good : (r : Result Failure A) → Good (checked o r)
  unfolding checked
  checked-Good (err f) = tt
  checked-Good (ok a) = elim (Bool-cases (o.is_valid a)) [
    | inl valid ↦ rw valid valid
    | inr invalid ↦ rw invalid tt
  ]

  retried-Within :
      (bound : ℕ) (t : Target) (left attempt : ℕ) (next : W → Result Failure A × W) (w : W)
      (r : Result Failure A)
      → ((left ≡ 0) ⊎ ((v : W) → calls v ≡ calls w → Within bound (next v)))
      → calls w ≤ bound
      → Good r
      → Within bound (retried o t left attempt next w r)
  unfolding retried woken
  retried-Within bound t left attempt next w (ok a) more room good = (room, good)
  retried-Within bound t left attempt next w (err f) more room good =
      elim (Bool-cases (not (is_retryable f) || left == 0)) [
        | inl stop ↦ rw stop (room, tt)
        | inr again ↦ rw again (by_more more again)
      ]
    where
      by_sleep :
          ((v : W) → calls v ≡ calls w → Within bound (next v))
          → (s : Option ContextError × W) → calls s.1 ≡ calls w
          → Within bound (woken o next s)
      by_sleep go (some e, v) same = (omega arith, tt)
      by_sleep go (none, v) same = go v same

      by_more :
          ((left ≡ 0) ⊎ ((v : W) → calls v ≡ calls w → Within bound (next v)))
          → (not (is_retryable f) || left == 0) ≡ false
          → Within bound
              (woken o next (o.sleep (retry_delay t.profile.retry attempt (retry_after f)) w))
      by_more (inl none_left) again = absurd (ground arith)
      by_more (inr go) again = by_sleep go _ (c.sleep_keeps _ w)

  attempts_from-Within :
      (left attempt : ℕ) (t : Target) (w : W)
      → Within (suc left + calls w) (attempts_from o (suc left) attempt t w)
  unfolding attempts_from
  attempts_from-Within zero attempt t w =
      let one = call_with_limit-calls t w in
      retried-Within _ t zero attempt _ (call_with_limit o t w).1
        (checked o (call_with_limit o t w).0) (inl refl) (omega arith)
        (checked-Good (call_with_limit o t w).0)
  attempts_from-Within (suc left) attempt t w =
      let one = call_with_limit-calls t w in
      retried-Within _ t (suc left) attempt _ (call_with_limit o t w).1
        (checked o (call_with_limit o t w).0)
        (inr (λ v same.
          let rest = attempts_from-Within left (suc attempt) t v in
          (omega (arith, rest.0), rest.1)))
        (omega arith) (checked-Good (call_with_limit o t w).0)

  abbrev Named : List Target → Result Failure (A × Bytes × Bytes) → Type 0
  Named ts (ok (a, provider, profile)) = (o.is_valid a ≡ true) × ComesFrom provider profile ts
  Named ts (err f) = Unit

  abbrev pub Ends : ℕ → List Target → Result Failure (A × Bytes × Bytes) × W → Type 0
  Ends bound ts out = (calls out.1 ≤ bound) × Named ts out.0

  abbrev pub HasAttempts : List Target → Type 0
  HasAttempts = All (λ t. 1 ≤ t.profile.retry.max_attempts)

  transcribe_target-Within :
      (t : Target) (w : W)
      → 1 ≤ t.profile.retry.max_attempts
      → Within (t.profile.retry.max_attempts + calls w) (transcribe_target o t w)
  unfolding transcribe_target
  transcribe_target-Within t w some_attempts =
      by_attempts t.profile.retry.max_attempts some_attempts
    where
      by_attempts : (n : ℕ) → 1 ≤ n → Within (n + calls w) (attempts_from o n 1 t w)
      by_attempts zero h = absurd (omega arith)
      by_attempts (suc n) h = attempts_from-Within n 1 t w

  Named-later :
      (t : Target) (ts : List Target) (r : Result Failure (A × Bytes × Bytes))
      → Named ts r
      → Named (t ∷ ts) r
  Named-later t ts (ok (a, provider, profile)) n = (n.0, inr n.1)
  Named-later t ts (err f) n = tt

  failed_over-Ends :
      (bound : ℕ) (t : Target) (ts : List Target)
      (next : Failure → W → Result Failure (A × Bytes × Bytes) × W) (out : Result Failure A × W)
      → ((f : Failure) (w : W) → calls w ≤ bound → Ends (budget ts + bound) ts (next f w))
      → Within bound out
      → Ends (budget ts + bound) (t ∷ ts) (failed_over o t next out)
  unfolding failed_over
  failed_over-Ends bound t ts next (ok a, w) go h = (omega (arith, h.0), (h.1, inl (refl, refl)))
  failed_over-Ends bound t ts next (err f, w) go h = elim (Bool-cases (not (can_failover f))) [
    | inl stop ↦ rw stop (omega (arith, h.0), tt)
    | inr further ↦
        let rest = go f w h.0 in rw further (rest.0, Named-later t ts (next f w).0 rest.1)
  ]

  transcribe_route-Ends :
      (ts : List Target) (f : Failure) (w : W)
      → HasAttempts ts
      → Ends (budget ts + calls w) ts (transcribe_route o ts (some f) w)
  unfolding transcribe_route last_failure
  transcribe_route-Ends [] f w a = (omega arith, tt)
  transcribe_route-Ends (t ∷ ts) f w a =
      let bound = t.profile.retry.max_attempts + calls w in
      let out =
        failed_over-Ends bound t ts (λ g v. transcribe_route o ts (some g) v)
          (transcribe_target o t w)
          (λ g v room.
            let rest = transcribe_route-Ends ts g v a.1 in (omega (arith, rest.0), rest.1))
          (transcribe_target-Within t w a.0) in
      (omega (arith, out.0), out.1)

  -- When the route is not empty and each of its targets allows at least one attempt, the providers are
  -- called at most as often as the policies of the targets allow together, whatever fails. A result
  -- that is returned is valid, and it is named after a target of the route.
  pub transcribe-Ends :
      (g : Registry) (t : Target) (ts : List Target) (w : W)
      → active_targets g ≡ ok (t ∷ ts)
      → HasAttempts (t ∷ ts)
      → Ends (budget (t ∷ ts) + calls w) (t ∷ ts) (transcribe o g w)
  unfolding transcribe transcribe_route
  transcribe-Ends g t ts w routed a =
      let bound = t.profile.retry.max_attempts + calls w in
      let out =
        failed_over-Ends bound t ts (λ f v. transcribe_route o ts (some f) v)
          (transcribe_target o t w)
          (λ f v room.
            let rest = transcribe_route-Ends ts f v a.1 in (omega (arith, rest.0), rest.1))
          (transcribe_target-Within t w a.0) in
      rw (routed, transcribe) (omega (arith, out.0), out.1)
