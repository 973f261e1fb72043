-- ===== src/Asr/Calls.antt =====
-- `Transcribe` of internal/asr/registry.go: attempts with delays on each target of the route, and the
-- failover to the next. What the outside does is a parameter, the record Outside: waiting for a free slot of
-- a target, a call of its provider, a pause, and the check of a result (`ValidateResult`).
pub mod Bounds
pub mod Total
use voice_asset_server.Base.{
  ℕ, zero, suc, ◌+◌, Bool, true, false, not, ◌&&◌, ◌||◌, Option, none, some, List, [], ◌∷◌, ltb,
  leb, ◌==◌, if◌then◌else◌, Result, ok, err,
}
use voice_asset_server.Text.{Bytes, codes}
use voice_asset_server.Asr.{
  ErrorClass, invalid_configuration, authentication, authorization, rate_limited, invalid_audio,
  unsupported, transient, rejected, canceled, Error, missing_active_profile, Target, Registry,
  active_targets, retry_delay,
}

-- The errors of a context: `context.Canceled` and `context.DeadlineExceeded`.
pub data ContextError : Type 0 where
  was_canceled deadline_exceeded : ContextError

-- A `ProviderError` with its class, code and `RetryAfter`; an error of the context; any other error.
pub data Failure : Type 0 where
  provider_error : ErrorClass → Bytes → ℕ → Failure
  context_error : ContextError → Failure
  other_error : Failure

-- `ErrorClassOf`
abbrev pub error_class_of : Failure → Option ErrorClass
error_class_of (provider_error class code wait) = some class
error_class_of (context_error e) = none
error_class_of other_error = none

abbrev retryable_class : ErrorClass → Bool
retryable_class rate_limited = true
retryable_class transient = true
retryable_class _ = false

-- `IsRetryable`
abbrev pub is_retryable : Failure → Bool
is_retryable (provider_error class code wait) = retryable_class class
is_retryable (context_error e) = false
is_retryable other_error = false

abbrev failover_class : ErrorClass → Bool
failover_class invalid_configuration = false
failover_class invalid_audio = false
failover_class canceled = false
failover_class _ = true

-- `canFailover`
abbrev pub can_failover : Failure → Bool
can_failover (provider_error class code wait) = failover_class class
can_failover (context_error e) = false
can_failover other_error = false

-- `retryAfter`
abbrev pub retry_after : Failure → ℕ
retry_after (provider_error class code wait) = wait
retry_after (context_error e) = 0
retry_after other_error = 0

-- `contextProviderFailure`
abbrev pub context_provider_failure : ContextError → Failure
context_provider_failure was_canceled = provider_error canceled (codes "context_canceled") 0
context_provider_failure deadline_exceeded = provider_error transient (codes "context_deadline") 0

-- `normalizeProviderFailure`
abbrev pub normalize_provider_failure : Failure → Failure
normalize_provider_failure (provider_error class code wait) = provider_error class code wait
normalize_provider_failure (context_error e) = context_provider_failure e
normalize_provider_failure other_error = provider_error rejected (codes "provider_error") 0

-- The outside, with a state of its own. `empty` is the result that Go starts from.
pub record Outside (A W : Type 0) : Type 0 where
  pub empty : A
  pub is_valid : A → Bool
  pub take_slot : Target → W → Option ContextError × W
  pub call : Target → W → Result Failure A × W
  pub sleep : ℕ → W → Option ContextError × W

module _ {A W : Type 0} (o : Outside A W) where
  with_slot : Target → Option ContextError × W → Result Failure A × W
  with_slot t (some e, w) = (err (context_provider_failure e), w)
  with_slot t (none, w) = o.call t w

  -- `callWithConcurrencyLimit`
  unfoldable pub call_with_limit : Target → W → Result Failure A × W
  unfolding with_slot
  call_with_limit t w = with_slot t (o.take_slot t w)

  -- The result of a call, checked.
  unfoldable pub checked : Result Failure A → Result Failure A
  checked (ok a) =
      if o.is_valid a then ok a else err (provider_error rejected (codes "invalid_result") 0)
  checked (err f) = err (normalize_provider_failure f)

  woken : (W → Result Failure A × W) → Option ContextError × W → Result Failure A × W
  woken next (some e, w) = (err (context_provider_failure e), w)
  woken next (none, w) = next w

  retried :
      Target → ℕ → ℕ → (W → Result Failure A × W) → W → Result Failure A → Result Failure A × W
  unfolding woken
  retried t left attempt next w (ok a) = (ok a, w)
  retried t left attempt next w (err f) =
      if not (is_retryable f) || left == 0
      then (err f, w)
      else woken next (o.sleep (retry_delay t.profile.retry attempt (retry_after f)) w)

  -- The loop over the attempts: how many are left, and the number of the next one. A policy without
  -- attempts would give the empty result without an error.
  unfoldable pub attempts_from : ℕ → ℕ → Target → W → Result Failure A × W
  unfolding retried
  attempts_from zero attempt t w = (ok o.empty, w)
  attempts_from (suc left) attempt t w =
      let out = call_with_limit t w in
      retried t left attempt (attempts_from left (suc attempt) t) out.1 (checked out.0)

  -- `transcribeTarget`
  unfoldable pub transcribe_target : Target → W → Result Failure A × W
  unfolding attempts_from
  transcribe_target t w = attempts_from t.profile.retry.max_attempts 1 t w

  last_failure : Option Failure → W → Result Failure (A × Bytes × Bytes) × W
  last_failure none w = (ok (o.empty, [], []), w)
  last_failure (some f) w = (err f, w)

  failed_over :
      Target
      → (Failure → W → Result Failure (A × Bytes × Bytes) × W)
      → Result Failure A × W
      → Result Failure (A × Bytes × Bytes) × W
  failed_over t next (ok a, w) = (ok (a, t.provider.id, t.profile.id), w)
  failed_over t next (err f, w) = if not (can_failover f) then (err f, w) else next f w

  -- The loop over the targets.
  unfoldable pub transcribe_route :
      List Target → Option Failure → W → Result Failure (A × Bytes × Bytes) × W
  unfolding transcribe_target last_failure failed_over
  transcribe_route [] last w = last_failure last w
  transcribe_route (t ∷ ts) last w =
      failed_over t (λ f w'. transcribe_route ts (some f) w') (transcribe_target t w)

  refusal : Error → Failure
  refusal missing_active_profile =
      provider_error invalid_configuration (codes "missing_active_profile") 0
  refusal _ = provider_error invalid_configuration (codes "no_active_profile") 0

  -- `Transcribe`: the result, with the provider and the profile that it comes from.
  unfoldable pub transcribe : Registry → W → Result Failure (A × Bytes × Bytes) × W
  unfolding transcribe_route refusal
  transcribe g w = elim (active_targets g) [
    | err e ↦ (err (refusal e), w)
    | ok ts ↦ transcribe_route ts none w
  ]
