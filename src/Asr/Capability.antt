-- ===== src/Asr/Capability.antt =====
-- internal/asr/capability.go: what every adapter demands of a profile. Whether texts are equal under
-- Unicode case-folding (`strings.EqualFold`) and whether bytes are JSON (`json.Valid`) are parameters.
use voice_asset_server.Base.{
  ℕ, ◌*◌, ◌≤◌, ◌≡◌, Bool, true, false, not, ◌&&◌, ◌||◌, List, [], ◌∷◌, arith, leb, ◌==◌, length,
  text_eq,
}
use voice_asset_server.Text.{Bytes, codes, trim_space, between}
use voice_asset_server.Asr.{Profile, RetryPolicy}

pub record Capabilities : Type 0 where
  pub provider_id : Bytes
  pub batch : Bool
  pub realtime : Bool
  pub sentence : Bool
  pub languages : List Bytes
  pub models : List Bytes
  pub formats : List Bytes
  pub sample_rates : List ℕ
  pub hotwords : Bool
  pub temporary_hotwords : Bool
  pub timestamps : Bool
  pub word_timestamps : Bool
  pub speaker_diarization : Bool
  pub punctuation : Bool
  pub number_normalization : Bool
  pub max_duration_ms : ℕ
  pub max_file_size_bytes : ℕ
  pub max_concurrency : ℕ

-- `Capabilities.Validate`
unfoldable pub capabilities_are_valid : Capabilities → Bool
capabilities_are_valid c =
    not (text_eq (trim_space c.provider_id) [])
    && c.batch
    && not (length c.formats == 0)
    && not (length c.sample_rates == 0)
    && not (c.max_duration_ms == 0)
    && not (c.max_file_size_bytes == 0)
    && not (c.max_concurrency == 0)
    && (not c.word_timestamps || c.timestamps)

-- `containsInt`
contains_int : List ℕ → ℕ → Bool
contains_int [] target = false
contains_int (n ∷ ns) target = n == target || contains_int ns target

abbrev millisecond : ℕ
millisecond = 1000000

abbrev minute : ℕ
minute = 60000 * millisecond

abbrev max_vendor_extension_bytes : ℕ
max_vendor_extension_bytes = 32 * 1024

-- The limits of a retry policy.
unfoldable pub policy_is_safe : RetryPolicy → Bool
policy_is_safe p =
    between 1 10 p.max_attempts
    && between (100 * millisecond) (5 * minute) p.base_delay
    && between p.base_delay (30 * minute) p.max_delay

abbrev starts_object : Bytes → Bool
starts_object [] = false
starts_object (c ∷ s) = c == b'{'

module _ (fold_eq : Bytes → Bytes → Bool) (is_json : Bytes → Bool) where
  -- `containsFold`
  contains_fold : List Bytes → Bytes → Bool
  contains_fold [] target = false
  contains_fold (s ∷ ss) target =
      fold_eq (trim_space s) (trim_space target) || contains_fold ss target

  -- `validateVendorExtension`
  extension_is_valid : Bytes → Bool
  extension_is_valid raw =
      let trimmed = trim_space raw in
      text_eq trimmed []
      || (leb (length trimmed) max_vendor_extension_bytes
          && starts_object trimmed
          && is_json trimmed)

  -- The features that a profile asks for.
  features_are_available : Profile → Capabilities → Bool
  features_are_available p c =
      (not p.word_timestamps || c.word_timestamps)
      && (not p.timestamps || c.timestamps)
      && (not p.speaker_diarization || c.speaker_diarization)
      && (not p.punctuation || c.punctuation)
      && (not p.number_normalization || c.number_normalization)
      && (text_eq (trim_space p.hotword_set_id) [] || c.hotwords)

  -- The audio, the model and the language that a profile names.
  input_is_supported : Profile → Capabilities → Bool
  unfolding contains_fold contains_int
  input_is_supported p c =
      not (p.sample_rate == 0)
      && contains_int c.sample_rates p.sample_rate
      && contains_fold c.formats p.audio_format
      && (text_eq p.model [] || length c.models == 0 || contains_fold c.models p.model)
      && (text_eq p.language []
          || length c.languages == 0
          || contains_fold c.languages p.language
          || contains_fold c.languages (codes "*"))

  -- `ValidateProfileAgainst`: whether it gives no error.
  unfoldable pub validate_profile_against : Profile → Capabilities → Bool
  unfolding input_is_supported features_are_available extension_is_valid
  validate_profile_against p c =
      capabilities_are_valid c
      && text_eq (trim_space p.provider_id) c.provider_id
      && input_is_supported p c
      && features_are_available p c
      && between (1000 * millisecond) (120 * minute) p.timeout
      && between 1 c.max_concurrency p.concurrency
      && policy_is_safe p.retry
      && extension_is_valid p.vendor_extension

  -- A profile that is accepted allows at least one attempt and at most ten.
  pub validate_profile_against-attempts :
      (p : Profile) (c : Capabilities)
      → validate_profile_against p c ≡ true
      → (1 ≤ p.retry.max_attempts) × (p.retry.max_attempts ≤ 10)
  unfolding validate_profile_against policy_is_safe
  validate_profile_against-attempts p c h = ground arith
