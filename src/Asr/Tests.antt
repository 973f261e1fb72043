-- ===== src/Asr/Tests.antt =====
-- The theorems on speech recognition at concrete inputs.
use voice_asset_server.Base.{
  ℕ, suc, ◌+◌, ◌≡◌, refl, true, false, none, some, List, [], ◌∷◌, ◌≤◌, ◌*◌, arith, ltb, leb, ◌==◌,
  if◌then◌else◌, text_eq, length, ok, err,
}
use voice_asset_server.Base.Table.{find}
use voice_asset_server.Text.{codes, trim_space}
use voice_asset_server.Asr.{
  RetryPolicy, Profile, Provider, Target, Registry, new_registry, target_of, active_targets,
  targets_of, transient, retry_delay,
}
use voice_asset_server.Asr.Capability.{
  Capabilities, capabilities_are_valid, policy_is_safe, validate_profile_against,
  validate_profile_against-attempts,
}
use voice_asset_server.Asr.Calls.Total.{transcribe-calls}
use voice_asset_server.Asr.Delays.{backoff, smaller, larger, retry_delay-backoff}
use voice_asset_server.Asr.Route.{
  Operation, sets, activates, removes, after_all, Distinct, Answers, active_targets-Targets,
}
use voice_asset_server.Asr.Calls.{Outside, provider_error, transcribe}
use voice_asset_server.Asr.Calls.Bounds.{Counts, Ends, budget, transcribe-Ends}

abbrev policy : RetryPolicy
policy = record { max_attempts = 3; base_delay = 100000000; max_delay = 1000000000 }

abbrev profile : Profile
profile = record {
  id = codes "p";
  provider_id = codes "v";
  endpoint = [];
  region = [];
  model = [];
  language = [];
  dialect = [];
  sample_rate = 16000;
  audio_format = codes "wav";
  punctuation = false;
  timestamps = false;
  word_timestamps = false;
  speaker_diarization = false;
  number_normalization = false;
  hotword_set_id = [];
  timeout = 2000000000;
  retry = policy;
  concurrency = 2;
  vendor_extension = [];
}

abbrev provider : Provider
provider = record { id = codes "v"; validates = λ p. leb 1 p.retry.max_attempts }

retry_delay-backoff_example :
    retry_delay policy 5 30 ≡ smaller 1000000000 (larger 30 (backoff 4 100000000))
retry_delay-backoff_example = retry_delay-backoff policy 4 30

active_targets-Targets_example :
    let g = after_all new_registry (
      sets profile (some provider) false
      ∷ activates (codes " p" ∷ [])
      ∷ removes (codes "p")
      ∷ []) in
    Distinct g.active × Answers g.active (active_targets g)
active_targets-Targets_example =
    active_targets-Targets
      (sets profile (some provider) false ∷ activates (codes " p" ∷ []) ∷ removes (codes "p") ∷ [])

abbrev target : Target
target = target_of profile provider

abbrev registry : Registry
registry = record { targets = target ∷ []; active = codes "p" ∷ [] }

-- A provider that fails once; the state is the number of calls.
abbrev fails_once : Outside ℕ ℕ
fails_once = record {
  empty = 0;
  is_valid = λ a. ltb 0 a;
  take_slot = λ t w. (none, w);
  call = λ t w. (if w == 0 then err (provider_error transient (codes "busy") 0) else ok 5, suc w);
  sleep = λ d w. (none, w);
}

fails_once-Counts : Counts fails_once (λ w. w)
fails_once-Counts = record {
  slot_keeps = λ t w. refl;
  sleep_keeps = λ d w. refl;
  call_adds = λ t w. refl;
}

is_routed : active_targets registry ≡ ok (target ∷ [])
unfolding active_targets targets_of find text_eq codes
is_routed = refl

transcribe-Ends_example :
    Ends fails_once
      (λ w. w)
      fails_once-Counts
      (budget (target ∷ []) + 0)
      (target ∷ [])
      (transcribe fails_once registry 0)
transcribe-Ends_example =
    transcribe-Ends fails_once (λ w. w) fails_once-Counts registry target [] 0 is_routed
      (omega arith, tt)

abbrev capabilities : Capabilities
capabilities = record {
  provider_id = codes "v";
  batch = true;
  realtime = false;
  sentence = false;
  languages = [];
  models = [];
  formats = codes "wav" ∷ [];
  sample_rates = 16000 ∷ [];
  hotwords = false;
  temporary_hotwords = false;
  timestamps = false;
  word_timestamps = false;
  speaker_diarization = false;
  punctuation = false;
  number_normalization = false;
  max_duration_ms = 1000;
  max_file_size_bytes = 1000;
  max_concurrency = 4;
}

abbrev adapter : Provider
adapter = record {
  id = codes "v";
  validates = λ p. validate_profile_against text_eq (λ s. true) p capabilities;
}

-- The profile above is accepted.
accepts : adapter.validates profile ≡ true
unfolding validate_profile_against capabilities_are_valid policy_is_safe text_eq codes trim_space
accepts = refl

abbrev operations : List Operation
operations = sets profile (some adapter) false ∷ activates (codes "p" ∷ []) ∷ []

transcribe-calls_example :
    (transcribe fails_once (after_all new_registry operations) 0).1
    ≤ 10 * length (after_all new_registry operations).active + 0
transcribe-calls_example =
    transcribe-calls fails_once (λ w. w) fails_once-Counts operations 0
      ((λ p h. validate_profile_against-attempts text_eq (λ s. true) p capabilities h), (tt, tt))
