-- ===== src/Realtime/Session/Lifecycle.antt =====
-- internal/realtime/session.go: the transitions of a session other than `NewSession` and
-- `ApplyAudio`, and `normalizeProviderResult` of internal/realtime/controller.go.
use voice_asset_server.Base.{
  ◌+◌, ◌*◌, Bool, true, not, ◌&&◌, ◌||◌, Option, none, some, ltb, leb, ◌==◌, if◌then◌else◌, length,
  text_eq, Result, ok, err,
}
use voice_asset_server.Base.Int.{ℤ, pos, ltb_ℤ, leb_ℤ, eqb_ℤ, pos_part}
use voice_asset_server.Text.{
  Bytes, codes, valid_string, trim_space, matches_language_tag, matches_provider_id,
}
use voice_asset_server.Realtime.{
  Error, invalid_event, state_conflict, session_mismatch, sequence_gap, session_expired,
  final_sequence, Time, second, max_transcript_bytes, default_reconnect_window,
}
use voice_asset_server.Realtime.Protocol.{
  ResumeEvent, FinishEvent, resume_is_valid, finish_is_valid,
}
use voice_asset_server.Realtime.Session.{
  streaming, interrupted, finalizing, completed, failed, expired, Session, ProviderResult,
  is_streaming, is_interrupted, is_finalizing, is_terminal, inc64, acknowledged_sequence,
  or_default,
}

-- The window is cut at the end of the session.
abbrev pub earlier : Time → Time → Time
earlier a b = if ltb b a then b else a

-- `window` is positive where this is called.
interrupt_for : Session → Time → ℤ → Result Error Session
interrupt_for s now window =
    if not (leb_ℤ (pos 1) window) || not (leb_ℤ window (pos (600 * second)))
    then err invalid_event
    else if not (ltb now s.expires_at)
    then err session_expired
    else ok (record s {
      state = interrupted;
      interrupted_at = some now;
      reconnect_by = some (earlier (now + pos_part window) s.expires_at);
      updated_at = now;
      version = inc64 s.version;
    })

-- `Interrupt`
unfoldable pub interrupt : Session → Time → ℤ → Result Error Session
unfolding interrupt_for
interrupt s now window =
    if not (is_streaming s.state)
    then err state_conflict
    else if now == 0
    then err invalid_event
    else interrupt_for s now (or_default window default_reconnect_window)

-- `session.ReconnectBy == nil || current.After(*session.ReconnectBy)`
abbrev is_past_reconnect : Option Time → Time → Bool
is_past_reconnect none now = true
is_past_reconnect (some t) now = ltb t now

-- `Resume`
unfoldable pub resume : Session → ResumeEvent → Time → Result Error Session
resume s e now =
    if not (is_interrupted s.state)
    then err state_conflict
    else if not (resume_is_valid e) || now == 0
    then err invalid_event
    else if not (text_eq e.session_id s.id)
    then err session_mismatch
    else if ltb_ℤ (acknowledged_sequence s) e.last_acknowledged_sequence
    then err sequence_gap
    else if is_past_reconnect s.reconnect_by now || not (ltb now s.expires_at)
    then err session_expired
    else ok (record s {
      state = streaming;
      interrupted_at = none;
      reconnect_by = none;
      updated_at = now;
      version = inc64 s.version;
    })

-- `BeginFinalization`
unfoldable pub begin_finalization : Session → FinishEvent → Time → Result Error Session
begin_finalization s e now =
    if not (is_streaming s.state) && not (is_interrupted s.state)
    then err state_conflict
    else if not (finish_is_valid e) || now == 0
    then err invalid_event
    else if not (text_eq e.session_id s.id)
    then err session_mismatch
    else if not (eqb_ℤ e.final_sequence (acknowledged_sequence s))
    then err final_sequence
    else if ltb_ℤ e.captured_duration_ms s.last_captured_at_ms
    then err invalid_event
    else if not (ltb now s.expires_at)
    then err session_expired
    else ok (record s {
      state = finalizing;
      client_archive_sha256 = e.client_archive_sha256;
      captured_duration_ms = e.captured_duration_ms;
      interrupted_at = none;
      reconnect_by = none;
      updated_at = now;
      version = inc64 s.version;
    })

abbrev trim_result : ProviderResult → ProviderResult
trim_result r = record {
  text = trim_space r.text;
  language = trim_space r.language;
  provider_id = trim_space r.provider_id;
}

unfoldable pub result_is_valid : ProviderResult → Bool
result_is_valid r =
    not (length r.text == 0)
    && leb (length r.text) max_transcript_bytes
    && valid_string r.text
    && matches_language_tag r.language
    && matches_provider_id r.provider_id

-- `normalizeProviderResult`
unfoldable pub normalize_provider_result : ProviderResult → ProviderResult × Bool
normalize_provider_result r = (trim_result r, result_is_valid (trim_result r))

complete_with : Session → Time → ProviderResult × Bool → Result Error Session
complete_with s now (r, valid) =
    if not valid
    then err invalid_event
    else ok (record s {
      state = completed;
      final_transcript = r.text;
      final_language = r.language;
      final_provider_id = r.provider_id;
      completed_at = some now;
      updated_at = now;
      version = inc64 s.version;
    })

-- `Complete`
unfoldable pub complete : Session → ProviderResult → Time → Result Error Session
unfolding complete_with normalize_provider_result
complete s r now =
    if not (is_finalizing s.state)
    then err state_conflict
    else if now == 0
    then err invalid_event
    else complete_with s now (normalize_provider_result r)

-- `safeRealtimeErrorCode`
unfoldable pub safe_realtime_error_code : Bytes → Bool
safe_realtime_error_code s =
    text_eq s (codes "client_closed")
    || text_eq s (codes "internal_error")
    || text_eq s (codes "provider_rejected")
    || text_eq s (codes "provider_unavailable")
    || text_eq s (codes "stream_timeout")

-- `Fail`
unfoldable pub fail : Session → Bytes → Result Error Session
fail s code =
    if is_terminal s.state
    then err state_conflict
    else if not (safe_realtime_error_code code)
    then err invalid_event
    else ok (record s {
      state = failed;
      last_error_code = code;
      interrupted_at = none;
      reconnect_by = none;
      version = inc64 s.version;
    })

-- `Expire`
unfoldable pub expire : Session → Time → Result Error Session
expire s now =
    if is_terminal s.state || ltb now s.expires_at
    then err state_conflict
    else ok (record s {
      state = expired;
      interrupted_at = none;
      reconnect_by = none;
      version = inc64 s.version;
    })
