-- ===== src/Realtime/Protocol.antt =====
-- internal/realtime/protocol.go: the events of a client and their validation. A JSON integer of an
-- event is an integer, which may be negative; text is bytes.
use voice_asset_server.Base.{
  ◌%◌, Bool, false, not, ◌&&◌, ◌||◌, Option, none, some, [], leb, ◌==◌, length, all, text_eq,
}
use voice_asset_server.Base.Int.{ℤ, pos, negsuc, leb_ℤ, eqb_ℤ, ◌*ℤ◌, wrap64, quot}
use voice_asset_server.Text.{
  Bytes, codes, chunks, valid_string, trim_space, is_control, matches_language_tag, matches_sha256,
}
use voice_asset_server.Identifier.{normalize_uuid}
use voice_asset_server.Realtime.{max_frame_bytes}
use voice_asset_server.Text.Base64

pub record StartEvent : Type 0 where
  pub type : Bytes
  pub protocol_version : Bytes
  pub client_session_id : Bytes
  pub idempotency_key : Bytes
  pub encoding : Bytes
  pub sample_rate_hz : ℤ
  pub channels : ℤ
  pub frame_duration_ms : ℤ
  pub language : Bytes
  pub provider_profile_id : Bytes
  pub hotword_set_id : Bytes

pub record ResumeEvent : Type 0 where
  pub type : Bytes
  pub protocol_version : Bytes
  pub session_id : Bytes
  pub last_acknowledged_sequence : ℤ

pub record AudioEvent : Type 0 where
  pub type : Bytes
  pub session_id : Bytes
  pub sequence : ℤ
  pub captured_at_ms : ℤ
  pub pcm_base64 : Bytes

pub record FinishEvent : Type 0 where
  pub type : Bytes
  pub session_id : Bytes
  pub final_sequence : ℤ
  pub captured_duration_ms : ℤ
  pub client_archive_sha256 : Bytes

pub record HeartbeatEvent : Type 0 where
  pub type : Bytes
  pub session_id : Bytes
  pub sent_at_ms : ℤ

-- The event that `ClientEvent` points to.
pub data ClientEvent : Type 0 where
  start : StartEvent → ClientEvent
  resume : ResumeEvent → ClientEvent
  audio : AudioEvent → ClientEvent
  finish : FinishEvent → ClientEvent
  heartbeat : HeartbeatEvent → ClientEvent

abbrev pub event_start : Bytes
event_start = codes "start"

abbrev pub event_resume : Bytes
event_resume = codes "resume"

abbrev pub event_audio : Bytes
event_audio = codes "audio"

abbrev pub event_finish : Bytes
event_finish = codes "finish"

abbrev pub event_heartbeat : Bytes
event_heartbeat = codes "heartbeat"

abbrev pub protocol_version : Bytes
protocol_version = codes "1"

abbrev pub encoding_pcm_s16le : Bytes
encoding_pcm_s16le = codes "pcm_s16le"

abbrev is_normal : Bytes → Option Bytes → Bool
is_normal s none = false
is_normal s (some n) = text_eq n s

unfoldable pub canonical_uuid : Bytes → Bool
canonical_uuid s = is_normal s (normalize_uuid s)

unfoldable pub valid_idempotency_key : Bytes → Bool
valid_idempotency_key s =
    leb 1 (length s)
    && leb (length s) 200
    && valid_string s
    && text_eq (trim_space s) s
    && all (λ c. not (is_control c.rune)) (chunks s)

unfoldable pub valid_sample_rate : ℤ → Bool
valid_sample_rate r =
    eqb_ℤ r (pos 8000) || eqb_ℤ r (pos 16000) || eqb_ℤ r (pos 24000) || eqb_ℤ r (pos 48000)

-- rate * channels * 2 * duration / 1000, in 64 bits. (Each product wraps; so does the whole.)
unfoldable pub frame_bytes : ℤ → ℤ → ℤ → ℤ
frame_bytes rate channels duration = quot (wrap64 (rate *ℤ channels *ℤ pos 2 *ℤ duration)) 1000

-- An identifier that may be left out.
unfoldable pub optional_uuid : Bytes → Bool
optional_uuid s = text_eq s [] || canonical_uuid s

-- `validate() == nil`, for each kind of event.
unfoldable pub start_is_valid : StartEvent → Bool
start_is_valid e =
    text_eq e.type event_start
    && text_eq e.protocol_version protocol_version
    && canonical_uuid e.client_session_id
    && valid_idempotency_key e.idempotency_key
    && text_eq e.encoding encoding_pcm_s16le
    && eqb_ℤ e.channels (pos 1)
    && leb_ℤ (pos 20) e.frame_duration_ms
    && leb_ℤ e.frame_duration_ms (pos 100)
    && valid_sample_rate e.sample_rate_hz
    && matches_language_tag e.language
    && optional_uuid e.provider_profile_id
    && optional_uuid e.hotword_set_id
    && leb_ℤ (frame_bytes e.sample_rate_hz e.channels e.frame_duration_ms) (pos max_frame_bytes)

unfoldable pub resume_is_valid : ResumeEvent → Bool
resume_is_valid e =
    text_eq e.type event_resume
    && text_eq e.protocol_version protocol_version
    && canonical_uuid e.session_id
    && leb_ℤ (negsuc 0) e.last_acknowledged_sequence

-- `PCM`; the error of the decoder wraps `ErrInvalidEvent`.
unfoldable pub pcm : AudioEvent → Option Bytes
pcm e = Base64.decode e.pcm_base64

abbrev pub pcm_is_valid : Option Bytes → Bool
pcm_is_valid none = false
pcm_is_valid (some p) = not (length p == 0) && leb (length p) max_frame_bytes && length p % 2 == 0

unfoldable pub audio_is_valid : AudioEvent → Bool
audio_is_valid e =
    text_eq e.type event_audio
    && canonical_uuid e.session_id
    && leb_ℤ (pos 0) e.sequence
    && leb_ℤ (pos 0) e.captured_at_ms
    && pcm_is_valid (pcm e)

unfoldable pub finish_is_valid : FinishEvent → Bool
finish_is_valid e =
    text_eq e.type event_finish
    && canonical_uuid e.session_id
    && leb_ℤ (negsuc 0) e.final_sequence
    && leb_ℤ (pos 0) e.captured_duration_ms
    && matches_sha256 e.client_archive_sha256

unfoldable pub heartbeat_is_valid : HeartbeatEvent → Bool
heartbeat_is_valid e =
    text_eq e.type event_heartbeat && canonical_uuid e.session_id && leb_ℤ (pos 0) e.sent_at_ms

-- `clientEventSessionID`
unfoldable pub client_event_session_id : ClientEvent → Bytes
client_event_session_id (audio e) = e.session_id
client_event_session_id (finish e) = e.session_id
client_event_session_id (heartbeat e) = e.session_id
client_event_session_id _ = []
