-- ===== src/Realtime.antt =====
-- The realtime transcription package (internal/realtime): its errors, and its constants.
pub mod Protocol
pub mod Session
pub mod Hub
pub mod MockStream
pub mod Repository
pub mod Service
pub mod Samples
use voice_asset_server.Base.{ℕ, ◌*◌}

-- The error values of the package. `internal` stands for every error that wraps none of them.
pub data Error : Type 0 where
  invalid_event state_conflict session_mismatch sequence_gap frame_size session_expired
        final_sequence forbidden not_found idempotency_conflict version_conflict stream_attached
        stream_unavailable stale_stream_lease transport_ended provider_stream internal :
      Error

abbrev pub max_frame_bytes : ℕ
max_frame_bytes = 64 * 1024

abbrev pub max_transcript_bytes : ℕ
max_transcript_bytes = 256 * 1024

-- Times and durations are in nanoseconds; a time counts from the zero value of `time.Time`.
abbrev pub Time : Type 0
Time = ℕ

abbrev pub second : ℕ
second = 1000000000

abbrev pub default_session_ttl : ℕ
default_session_ttl = 2 * 3600 * second

abbrev pub default_reconnect_window : ℕ
default_reconnect_window = 90 * second
