-- ===== src/Realtime/Session/Tests.antt =====
-- The theorems on sessions at concrete inputs.
use voice_asset_server.Base.{
  ◌≡◌, refl, arith, ◌⊎◌, ok, err, length, text_eq, text_eq_refl, ◌+◌, ◌*◌, true, ap,
}
use voice_asset_server.Base.Int.{pos, wrap64, ◌+ℤ◌, ◌-ℤ◌, ◌*ℤ◌, quot}
use voice_asset_server.Text.{
  codes, chunks, valid_string, trim_space, matches_language_tag, is_control, decode_rune, is_alpha,
  is_digit, is_lower, is_space,
}
use voice_asset_server.Identifier.{normalize_uuid, is_uuid}
use voice_asset_server.Realtime.{second, state_conflict}
use voice_asset_server.Text.Base64
use voice_asset_server.Realtime.Protocol.{
  canonical_uuid, start_is_valid, audio_is_valid, resume_is_valid, pcm, frame_bytes,
  valid_idempotency_key, valid_sample_rate, optional_uuid,
}
use voice_asset_server.Realtime.Session.{
  accepted, duplicate, new_session, start_session, maximum_frame_bytes, apply_audio, inc64, failed,
}
use voice_asset_server.Realtime.Session.Lifecycle.{interrupt, resume}
use voice_asset_server.Realtime.Session.Operations.{audio, expires, step, session_of}
use voice_asset_server.Realtime.Session.RowChecks.{IsRow}
use voice_asset_server.Realtime.Session.Keeps.{step-IsRow, new_session-IsRow}
use voice_asset_server.Realtime.Session.Diagram.{step-⟶, step-terminal, ◌⟶◌, SameRecording}
use voice_asset_server.Realtime.Session.Delivery.{
  receive_all-Counts, apply_audio-resend, receive_all, accepted_frames, Counts, CountsFrom, payload,
}
use voice_asset_server.Realtime.Session.Reconnect.{resume-interrupt, resumed}
use voice_asset_server.Realtime.Samples.{
  session, session_params, frame, frame_time, session_after_frame, paused_session, pause_time,
  resume_event, session_id, repeated_frame,
}

new_session_runs : new_session session_params ≡ ok session
unfolding new_session canonical_uuid normalize_uuid is_uuid codes text_eq start_is_valid
    valid_idempotency_key valid_string trim_space is_control valid_sample_rate matches_language_tag
    optional_uuid frame_bytes quot wrap64 ◌*ℤ◌ start_session chunks decode_rune is_alpha is_digit
    is_lower is_space
new_session_runs = refl

apply_audio_runs : apply_audio session frame frame_time ≡ ok (session_after_frame, accepted)
unfolding apply_audio audio_is_valid text_eq codes canonical_uuid normalize_uuid is_uuid pcm
    Base64.decode Base64.sixbit maximum_frame_bytes frame_bytes quot wrap64 ◌*ℤ◌ ◌+ℤ◌
apply_audio_runs = refl

new_session-IsRow_example : IsRow session
new_session-IsRow_example = new_session-IsRow session_params session new_session_runs

step_audio : step session (audio frame frame_time) ≡ ok session_after_frame
unfolding step
step_audio = ap session_of apply_audio_runs

step-IsRow_example : IsRow session_after_frame
step-IsRow_example =
    step-IsRow session session_after_frame (audio frame frame_time) step_audio (omega arith)
      new_session-IsRow_example

step-⟶_example :
    (session.state ⟶ session_after_frame.state)
    × SameRecording session session_after_frame
    × ((session_after_frame ≡ session) ⊎ (session_after_frame.version ≡ inc64 session.version))
step-⟶_example = step-⟶ session session_after_frame (audio frame frame_time) step_audio

step-terminal_example :
    step (record session { state = failed }) (expires (8000 * second)) ≡ err state_conflict
step-terminal_example =
    step-terminal (record session { state = failed }) (expires (8000 * second)) refl

receive_all-Counts_example :
    CountsFrom 0 (accepted_frames session repeated_frame)
    × Counts
        (receive_all session repeated_frame)
        (0 + length (accepted_frames session repeated_frame))
        (0 + payload (accepted_frames session repeated_frame))
receive_all-Counts_example =
    receive_all-Counts session repeated_frame 0 0 (refl, refl) (omega arith) (omega arith)

apply_audio-resend_example :
    apply_audio session_after_frame frame pause_time ≡ ok (session_after_frame, duplicate)
apply_audio-resend_example =
    apply_audio-resend session session_after_frame frame frame_time pause_time 0 refl (omega arith)
      apply_audio_runs refl (omega arith)

interrupt_runs : interrupt session_after_frame pause_time (pos 0) ≡ ok paused_session
unfolding interrupt wrap64 ◌+ℤ◌
interrupt_runs = refl

resume_event_valid : resume_is_valid resume_event ≡ true
unfolding resume_is_valid text_eq codes canonical_uuid normalize_uuid is_uuid
resume_event_valid = refl

resume-interrupt_example :
    resume paused_session resume_event (97 * second)
    ≡ ok (resumed session_after_frame (97 * second))
unfolding ◌+ℤ◌ ◌-ℤ◌ wrap64
resume-interrupt_example =
    resume-interrupt session_after_frame paused_session resume_event pause_time (97 * second)
      interrupt_runs resume_event_valid (text_eq_refl session_id) refl
