-- ===== src/Asr.antt =====
-- Speech recognition: the registry of internal/asr/registry.go, with the classes of failures of
-- internal/asr/errors.go. An adapter is a parameter, the record Provider. The registry's lock makes each
-- operation one function.
pub mod Route
pub mod Delays
pub mod Calls
pub mod Capability
mod Tests
use voice_asset_server.Base.{
  ℕ, zero, suc, ◌+◌, ◌-◌, ◌*◌, ◌/◌, Bool, true, false, not, ◌&&◌, ◌||◌, Option, none, some, List,
  [], ◌∷◌, ltb, leb, ◌==◌, if◌then◌else◌, text_eq, Result, ok, err,
}
use voice_asset_server.Base.Table.{find, modify}
use voice_asset_server.Text.{Bytes, trim_space}

pub data ErrorClass : Type 0 where
  invalid_configuration authentication authorization rate_limited invalid_audio unsupported
        transient rejected canceled :
      ErrorClass

pub data Error : Type 0 where
  invalid_profile already_registered not_registered profile_active no_active_profile
        missing_active_profile refused_by_adapter :
      Error

-- Durations are in nanoseconds. They are positive: `ValidateProfile` refuses a policy in which they are not.
pub record RetryPolicy : Type 0 where
  pub max_attempts : ℕ
  pub base_delay : ℕ
  pub max_delay : ℕ

pub record Profile : Type 0 where
  pub id : Bytes
  pub provider_id : Bytes
  pub endpoint : Bytes
  pub region : Bytes
  pub model : Bytes
  pub language : Bytes
  pub dialect : Bytes
  pub sample_rate : ℕ
  pub audio_format : Bytes
  pub punctuation : Bool
  pub timestamps : Bool
  pub word_timestamps : Bool
  pub speaker_diarization : Bool
  pub number_normalization : Bool
  pub hotword_set_id : Bytes
  pub timeout : ℕ
  pub retry : RetryPolicy
  pub concurrency : ℕ
  pub vendor_extension : Bytes

-- An adapter: its name, and what `ValidateProfile` says.
pub record Provider : Type 0 where
  pub id : Bytes
  pub validates : Profile → Bool

pub record Target : Type 0 where
  pub profile : Profile
  pub provider : Provider
  pub slots : ℕ

pub record Registry : Type 0 where
  pub targets : List Target
  pub active : List Bytes

abbrev pub new_registry : Registry
new_registry = record { targets = []; active = [] }

abbrev pub target_id : Target → Bytes
target_id t = t.profile.id

unfoldable pub is_registered : Bytes → List Target → Bool
is_registered id [] = false
is_registered id (t ∷ targets) = text_eq t.profile.id id || is_registered id targets

abbrev pub target_of : Profile → Provider → Target
target_of profile provider = record {
  profile = profile;
  provider = provider;
  slots = profile.concurrency;
}

-- `set`, for an adapter that is not nil.
unfoldable pub set_provider : Registry → Profile → Provider → Bool → Result Error Registry
set_provider g profile provider replace =
    if text_eq (trim_space profile.id) [] || not (text_eq profile.provider_id provider.id)
    then err invalid_profile
    else if not (provider.validates profile)
    then err refused_by_adapter
    else if is_registered profile.id g.targets
    then (if replace
        then ok (record g {
          targets = modify target_id profile.id (λ t. target_of profile provider) g.targets;
        })
        else err already_registered)
    else if replace
    then err not_registered
    else ok (record g { targets = target_of profile provider ∷ g.targets })

-- `Register` and `Replace`
unfoldable pub set : Registry → Profile → Option Provider → Bool → Result Error Registry
unfolding set_provider
set g profile none replace = err invalid_profile
set g profile (some provider) replace = set_provider g profile provider replace

unfoldable pub is_in : Bytes → List Bytes → Bool
is_in id [] = false
is_in id (s ∷ ids) = text_eq s id || is_in id ids

-- The loop of `Activate`, with the identifiers that were seen.
unfoldable pub route : List Target → List Bytes → List Bytes → Result Error (List Bytes)
route targets seen [] = ok []
route targets seen (id ∷ ids) =
    let rest = route targets (trim_space id ∷ seen) ids in
    if not (is_registered (trim_space id) targets)
    then err not_registered
    else if is_in (trim_space id) seen
    then err invalid_profile
    else elim rest [ err e ↦ err e | ok normalized ↦ ok (trim_space id ∷ normalized) ]

-- `Activate`
unfoldable pub activate : Registry → List Bytes → Result Error Registry
unfolding route
activate g [] = err invalid_profile
activate g (id ∷ ids) = elim (route g.targets [] (id ∷ ids)) [
  | err e ↦ err e
  | ok normalized ↦ ok (record g { active = normalized })
]

-- delete(registry.targets, profileID)
unfoldable pub without : Bytes → List Target → List Target
without id [] = []
without id (t ∷ targets) =
    let rest = without id targets in if text_eq t.profile.id id then rest else t ∷ rest

-- `Remove`
unfoldable pub remove : Registry → Bytes → Result Error Registry
unfolding is_in
remove g id =
    if not (is_registered id g.targets)
    then err not_registered
    else if is_in id g.active
    then err profile_active
    else ok (record g { targets = without id g.targets })

-- The targets of a route, in its order.
unfoldable pub targets_of : List Target → List Bytes → Result Error (List Target)
targets_of targets [] = ok []
targets_of targets (id ∷ ids) = elim (find target_id id targets) [
  | none ↦ err missing_active_profile
  | some t ↦ elim (targets_of targets ids) [ err e ↦ err e | ok rest ↦ ok (t ∷ rest) ]
]

unfoldable pub route_targets : List Target → List Bytes → Result Error (List Target)
unfolding targets_of
route_targets targets [] = err no_active_profile
route_targets targets (id ∷ ids) = targets_of targets (id ∷ ids)

-- `activeTargets`
unfoldable pub active_targets : Registry → Result Error (List Target)
unfolding route_targets
active_targets g = route_targets g.targets g.active

-- The loop of `retryDelay`: the delay before the next attempt, doubled for each failed one but the first.
unfoldable pub doubled : ℕ → ℕ → ℕ → ℕ
doubled zero delay limit = delay
doubled (suc left) delay limit =
    let rest = doubled left (delay * 2) limit in
    if not (ltb delay limit) then delay else if ltb (limit / 2) delay then limit else rest

-- `retryDelay`, where `failed` attempts have failed, at least one.
unfoldable pub retry_delay : RetryPolicy → ℕ → ℕ → ℕ
unfolding doubled
retry_delay policy failed vendor_delay =
    let delay = doubled (failed - 1) policy.base_delay policy.max_delay in
    let longer = if ltb delay vendor_delay then vendor_delay else delay in
    if ltb policy.max_delay longer then policy.max_delay else longer
