-- ===== src/Realtime/Session.antt =====
-- internal/realtime/session.go: the durable state machine of a recording session. A method returns
-- the new session or an error; on an error the callers keep the session that they had.
pub mod Lifecycle
pub mod RowChecks
pub mod Operations
pub mod Frames
pub mod Keeps
pub mod Diagram
pub mod Delivery
pub mod Reconnect
mod Tests
use voice_asset_server.Base.{
  ℕ, suc, ◌+◌, ◌*◌, ◌%◌, ◌≤◌, ◌<◌, ◌≡◌, refl, Bool, true, false, not, ◌&&◌, ◌||◌, Option, none,
  some, List, [], ◌∷◌, arith, ltb, leb, ◌==◌, if◌then◌else◌, length, all, text_eq, Result, ok, err,
}
use voice_asset_server.Base.Int.{ℤ, pos, negsuc, ◌+ℤ◌, ◌-ℤ◌, ltb_ℤ, leb_ℤ, eqb_ℤ, wrap64, pos_part}
use voice_asset_server.Text.{
  Bytes, codes, valid_string, trim_space, matches_language_tag, matches_provider_id,
}
use voice_asset_server.Realtime.{
  Error, invalid_event, state_conflict, session_mismatch, sequence_gap, frame_size, session_expired,
  final_sequence, Time, second, max_frame_bytes, max_transcript_bytes, default_session_ttl,
  default_reconnect_window,
}
use voice_asset_server.Realtime.Protocol.{
  StartEvent, ResumeEvent, AudioEvent, FinishEvent, canonical_uuid, start_is_valid, resume_is_valid,
  audio_is_valid, finish_is_valid, pcm, frame_bytes,
}

pub data State : Type 0 where
  streaming interrupted finalizing completed failed expired : State

pub record Session : Type 0 where
  pub id : Bytes
  pub workspace_id : Bytes
  pub created_by : Bytes
  pub client_session_id : Bytes
  pub provider_profile_id : Bytes
  pub hotword_set_id : Bytes
  pub idempotency_key : Bytes
  pub encoding : Bytes
  pub sample_rate_hz : ℤ
  pub channels : ℤ
  pub frame_duration_ms : ℤ
  pub language : Bytes
  pub state : State
  pub next_sequence : ℤ
  pub received_bytes : ℤ
  pub last_captured_at_ms : ℤ
  pub final_transcript : Bytes
  pub final_language : Bytes
  pub final_provider_id : Bytes
  pub client_archive_sha256 : Bytes
  pub captured_duration_ms : ℤ
  pub last_error_code : Bytes
  pub version : ℤ
  pub started_at : Time
  pub last_frame_at : Option Time
  pub interrupted_at : Option Time
  pub reconnect_by : Option Time
  pub expires_at : Time
  pub completed_at : Option Time
  pub updated_at : Time

-- `Now` and `TTL` are the clock's reading and a duration, which may be negative.
pub record NewSessionParams : Type 0 where
  pub id : Bytes
  pub workspace_id : Bytes
  pub created_by : Bytes
  pub start : StartEvent
  pub now : Time
  pub ttl : ℤ

pub data FrameDisposition : Type 0 where
  accepted duplicate : FrameDisposition

pub record ProviderResult : Type 0 where
  pub text : Bytes
  pub language : Bytes
  pub provider_id : Bytes

abbrev pub is_streaming : State → Bool
is_streaming streaming = true
is_streaming _ = false

abbrev pub is_interrupted : State → Bool
is_interrupted interrupted = true
is_interrupted _ = false

abbrev pub is_finalizing : State → Bool
is_finalizing finalizing = true
is_finalizing _ = false

abbrev pub is_completed : State → Bool
is_completed completed = true
is_completed _ = false

-- `terminalState`
abbrev pub is_terminal : State → Bool
is_terminal completed = true
is_terminal failed = true
is_terminal expired = true
is_terminal _ = false

-- The next value of a counter of 64 bits, and the value before.
abbrev pub inc64 : ℤ → ℤ
inc64 n = wrap64 (n +ℤ pos 1)

abbrev pub dec64 : ℤ → ℤ
dec64 n = wrap64 (n -ℤ pos 1)

-- A duration of 0 means the default.
abbrev or_default : ℤ → ℕ → ℤ
or_default d n = if eqb_ℤ d (pos 0) then pos n else d

start_session : NewSessionParams → ℤ → Result Error Session
start_session p ttl =
    if not (leb_ℤ (pos 1) ttl) || not (leb_ℤ ttl (pos default_session_ttl))
    then err invalid_event
    else ok (record {
      id = p.id;
      workspace_id = p.workspace_id;
      created_by = p.created_by;
      client_session_id = start.client_session_id;
      provider_profile_id = start.provider_profile_id;
      hotword_set_id = start.hotword_set_id;
      idempotency_key = start.idempotency_key;
      encoding = start.encoding;
      sample_rate_hz = start.sample_rate_hz;
      channels = start.channels;
      frame_duration_ms = start.frame_duration_ms;
      language = start.language;
      state = streaming;
      next_sequence = pos 0;
      received_bytes = pos 0;
      last_captured_at_ms = pos 0;
      final_transcript = [];
      final_language = [];
      final_provider_id = [];
      client_archive_sha256 = [];
      captured_duration_ms = pos 0;
      last_error_code = [];
      version = pos 1;
      started_at = now;
      last_frame_at = none;
      interrupted_at = none;
      reconnect_by = none;
      expires_at = now + pos_part ttl;
      completed_at = none;
      updated_at = now;
    })
  where
    open p use {start, now}

unfoldable pub new_session : NewSessionParams → Result Error Session
unfolding start_session
new_session p =
    if not (canonical_uuid p.id)
      || not (canonical_uuid p.workspace_id)
      || not (canonical_uuid p.created_by)
      || not (start_is_valid p.start)
    then err invalid_event
    else if p.now == 0
    then err invalid_event
    else start_session p (or_default p.ttl default_session_ttl)

-- `maximumFrameBytes`
unfoldable pub maximum_frame_bytes : Session → ℤ
maximum_frame_bytes s =
    let bytes = frame_bytes s.sample_rate_hz s.channels s.frame_duration_ms in
    if ltb_ℤ bytes (pos 1) || ltb_ℤ (pos max_frame_bytes) bytes then pos max_frame_bytes else bytes

-- `AcknowledgedSequence`
abbrev pub acknowledged_sequence : Session → ℤ
acknowledged_sequence s = dec64 s.next_sequence

-- The length of a frame that may be taken in.
abbrev pub frame_length : Option Bytes → ℕ
frame_length none = 0
frame_length (some p) = length p

abbrev pub frame_size_is_bad : Session → Option Bytes → Bool
frame_size_is_bad s none = true
frame_size_is_bad s (some p) =
    length p == 0 || not (length p % 2 == 0) || ltb_ℤ (maximum_frame_bytes s) (pos (length p))

pub take_frame : Session → AudioEvent → Time → Session
take_frame s e now = record s {
  next_sequence = inc64 s.next_sequence;
  received_bytes = wrap64 (s.received_bytes +ℤ pos (frame_length (pcm e)));
  last_captured_at_ms = e.captured_at_ms;
  last_frame_at = some now;
  updated_at = now;
  version = inc64 s.version;
}

unfoldable pub apply_audio : Session → AudioEvent → Time → Result Error (Session × FrameDisposition)
unfolding take_frame
apply_audio s e now =
    if not (is_streaming s.state)
    then err state_conflict
    else if not (audio_is_valid e) || now == 0
    then err invalid_event
    else if not (text_eq e.session_id s.id)
    then err session_mismatch
    else if not (ltb now s.expires_at)
    then err session_expired
    else if ltb_ℤ e.sequence s.next_sequence
    then ok (s, duplicate)
    else if ltb_ℤ s.next_sequence e.sequence
    then err sequence_gap
    else if ltb_ℤ (pos 0) s.next_sequence && ltb_ℤ e.captured_at_ms s.last_captured_at_ms
    then err invalid_event
    else if frame_size_is_bad s (pcm e)
    then err frame_size
    else ok (take_frame s e now, accepted)
