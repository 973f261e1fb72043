-- ===== src/Realtime/Samples.antt =====
-- The data that the tests of this package run on.
use voice_asset_server.Base.{◌*◌, ◌+◌, none, some, List, [], ◌∷◌}
use voice_asset_server.Base.Int.{pos}
use voice_asset_server.Text.{Bytes, codes}
use voice_asset_server.Auth.{Principal, transcriptions_write}
use voice_asset_server.Realtime.{Time, second, default_session_ttl}
use voice_asset_server.Realtime.Protocol.{
  StartEvent, AudioEvent, ResumeEvent, event_start, event_audio, event_resume, protocol_version,
  encoding_pcm_s16le,
}
use voice_asset_server.Realtime.Session.{Session, NewSessionParams, streaming, interrupted}

abbrev pub session_id : Bytes
session_id = codes "00000000-0000-4000-8000-000000000001"

abbrev pub user_id : Bytes
user_id = codes "00000000-0000-4000-8000-000000000002"

abbrev pub workspace_id : Bytes
workspace_id = codes "00000000-0000-4000-8000-000000000003"

abbrev pub client_id : Bytes
client_id = codes "00000000-0000-4000-8000-000000000004"

abbrev pub start_event : StartEvent
start_event = record {
  type = event_start;
  protocol_version = protocol_version;
  client_session_id = client_id;
  idempotency_key = codes "key-1";
  encoding = encoding_pcm_s16le;
  sample_rate_hz = pos 16000;
  channels = pos 1;
  frame_duration_ms = pos 20;
  language = codes "en-GB";
  provider_profile_id = [];
  hotword_set_id = [];
}

abbrev pub session_params : NewSessionParams
session_params = record {
  id = session_id;
  workspace_id = workspace_id;
  created_by = user_id;
  start = start_event;
  now = 5 * second;
  ttl = pos 0;
}

-- What `NewSession` makes of `session_params`.
abbrev pub session : Session
session = record {
  id = session_id;
  workspace_id = workspace_id;
  created_by = user_id;
  client_session_id = client_id;
  provider_profile_id = [];
  hotword_set_id = [];
  idempotency_key = codes "key-1";
  encoding = encoding_pcm_s16le;
  sample_rate_hz = pos 16000;
  channels = pos 1;
  frame_duration_ms = pos 20;
  language = codes "en-GB";
  state = streaming;
  next_sequence = pos 0;
  received_bytes = pos 0;
  last_captured_at_ms = pos 0;
  final_transcript = [];
  final_language = [];
  final_provider_id = [];
  client_archive_sha256 = [];
  captured_duration_ms = pos 0;
  last_error_code = [];
  version = pos 1;
  started_at = 5 * second;
  last_frame_at = none;
  interrupted_at = none;
  reconnect_by = none;
  expires_at = 5 * second + default_session_ttl;
  completed_at = none;
  updated_at = 5 * second;
}

-- The first frame, of two bytes, and what the session is after it.
abbrev pub frame : AudioEvent
frame = record {
  type = event_audio;
  session_id = session_id;
  sequence = pos 0;
  captured_at_ms = pos 20;
  pcm_base64 = codes "AAA=";
}

abbrev pub frame_time : Time
frame_time = 6 * second

abbrev pub session_after_frame : Session
session_after_frame = record session {
  next_sequence = pos 1;
  received_bytes = pos 2;
  last_captured_at_ms = pos 20;
  last_frame_at = some frame_time;
  updated_at = frame_time;
  version = pos 2;
}

-- The client is gone, and back.
abbrev pub pause_time : Time
pause_time = 7 * second

abbrev pub paused_session : Session
paused_session = record session_after_frame {
  state = interrupted;
  interrupted_at = some pause_time;
  reconnect_by = some (97 * second);
  updated_at = pause_time;
  version = pos 3;
}

abbrev pub resume_event : ResumeEvent
resume_event = record {
  type = event_resume;
  protocol_version = protocol_version;
  session_id = session_id;
  last_acknowledged_sequence = pos 0;
}

abbrev pub principal : Principal
principal = record {
  user_id = user_id;
  workspace_id = workspace_id;
  role = codes "editor";
  email = codes "a@example.org";
  scopes = transcriptions_write ∷ [];
  credential_type = codes "token";
  credential_id = client_id;
}

-- The frame arrives twice.
abbrev pub repeated_frame : List (AudioEvent × Time)
repeated_frame = (frame, frame_time) ∷ (frame, pause_time) ∷ []
