-- ===== src/Realtime/Session/RowChecks.antt =====
-- The CHECK constraints of the table recording_sessions
-- (migrations/000013_realtime_recording_sessions.up.sql), on the row that a session is written to.
-- An empty text is written as NULL.
use voice_asset_server.Base.{
  text_eq, if◌then◌else◌, ◌^◌, ◌<◌, ◌≡◌, Bool, true, false, not, ◌&&◌, ◌||◌, Option, none, some, [],
  ◌∷◌, leb, length,
}
use voice_asset_server.Base.Int.{ℤ, pos, eqb_ℤ, leb_ℤ, ◌≤ℤ◌}
use voice_asset_server.Text.{
  Bytes, codes, rune_count, matches_language_tag, matches_provider_id, matches_sha256,
}
use voice_asset_server.Realtime.{max_transcript_bytes, Time}
use voice_asset_server.Realtime.Session.{State, interrupted, finalizing, completed, failed, Session}

abbrev pub is_null : Bytes → Bool
is_null [] = true
is_null (c ∷ s) = false

abbrev pub is_none {ℓ} : {A : Type ℓ} → Option A → Bool
is_none none = true
is_none (some a) = false

abbrev eqb : Bool → Bool → Bool
eqb true b = b
eqb false b = not b

-- (next_sequence = 0) = (last_frame_at IS NULL)
abbrev pub frames_check : Session → Bool
frames_check s = eqb (eqb_ℤ s.next_sequence (pos 0)) (is_none s.last_frame_at)

abbrev pauses : State → Option Time → Option Time → Bool
pauses interrupted at by = not (is_none at) && not (is_none by)
pauses _ at by = is_none at && is_none by

abbrev pub pause_check : Session → Bool
pause_check s = pauses s.state s.interrupted_at s.reconnect_by

abbrev archives : State → Bytes → Bool
archives finalizing sha = not (is_null sha)
archives completed sha = not (is_null sha)
archives _ sha = true

-- The archive's digest is there once the session is finalizing, and well formed if it is there.
abbrev pub archive_check : Session → Bool
archive_check s =
    archives s.state s.client_archive_sha256
    && (is_null s.client_archive_sha256 || matches_sha256 s.client_archive_sha256)

abbrev results : State → Session → Bool
results completed s =
    not (is_null s.final_transcript)
    && not (is_null s.final_language)
    && not (is_null s.final_provider_id)
    && not (is_none s.completed_at)
results _ s =
    is_null s.final_transcript
    && is_null s.final_language
    && is_null s.final_provider_id
    && is_none s.completed_at

abbrev pub result_check : Session → Bool
result_check s = results s.state s

abbrev failures : State → Bytes → Bool
failures failed code = not (is_null code)
failures _ code = is_null code

abbrev pub failure_check : Session → Bool
failure_check s = failures s.state s.last_error_code

abbrev pub result_text_check : Session → Bool
result_text_check s =
    is_null s.final_transcript
    || (leb (length s.final_transcript) max_transcript_bytes
        && (is_null s.final_language || matches_language_tag s.final_language)
        && (is_null s.final_provider_id || matches_provider_id s.final_provider_id))

-- idempotency_key, whose length counts code points, audio_encoding, sample_rate_hz, channels and
-- frame_duration_ms.
unfoldable pub start_check : Bytes → Bytes → ℤ → ℤ → ℤ → Bool
start_check key encoding rate channels duration =
    leb 1 (rune_count key)
    && leb (rune_count key) 200
    && text_eq encoding (codes "pcm_s16le")
    && (eqb_ℤ rate (pos 8000)
        || eqb_ℤ rate (pos 16000)
        || eqb_ℤ rate (pos 24000)
        || eqb_ℤ rate (pos 48000))
    && eqb_ℤ channels (pos 1)
    && leb_ℤ (pos 20) duration
    && leb_ℤ duration (pos 100)

-- The length of last_error_code.
unfoldable pub code_check : Bytes → Bool
code_check code = leb (rune_count code) 64

-- The columns last_captured_at_ms and captured_duration_ms, by `nullableLastCapture` and
-- `nullableDuration`.
abbrev pub captured_column : Session → Option ℤ
captured_column s = if eqb_ℤ s.next_sequence (pos 0) then none else some s.last_captured_at_ms

abbrev pub duration_column : Session → Option ℤ
duration_column s = if is_null s.client_archive_sha256 then none else some s.captured_duration_ms

-- (next_sequence = 0) = (last_captured_at_ms IS NULL), and the same of the digest and the duration.
unfoldable pub columns_check : Session → Bool
columns_check s =
    eqb (eqb_ℤ s.next_sequence (pos 0)) (is_none (captured_column s))
    && eqb (is_null s.client_archive_sha256) (is_none (duration_column s))

-- The constraints on the columns that are written from a session. Those on the lengths of the two language
-- tags are left out, since the code does not keep them, and those on what is no part of a session: the
-- request hash, and protocol_version, which is always written as "1".
pub record IsRow (s : Session) : Type 0 where
  pub start :
      start_check s.idempotency_key s.encoding s.sample_rate_hz s.channels s.frame_duration_ms
      ≡ true
  pub columns : columns_check s ≡ true
  pub error_code : code_check s.last_error_code ≡ true
  pub next_nonneg : pos 0 ≤ℤ s.next_sequence
  pub received_nonneg : pos 0 ≤ℤ s.received_bytes
  pub captured_nonneg : pos 0 ≤ℤ s.last_captured_at_ms
  pub duration_nonneg : pos 0 ≤ℤ s.captured_duration_ms
  pub version_pos : pos 1 ≤ℤ s.version
  pub frames : frames_check s ≡ true
  pub pause : pause_check s ≡ true
  pub archive : archive_check s ≡ true
  pub result : result_check s ≡ true
  pub result_text : result_text_check s ≡ true
  pub failure : failure_check s ≡ true
  pub lives : s.started_at < s.expires_at

-- The counters have room for one more frame and one more version: nothing wraps.
pub record HasRoom (s : Session) : Type 0 where
  pub next_room : s.next_sequence ≤ℤ pos (2 ^ 62)
  pub received_room : s.received_bytes ≤ℤ pos (2 ^ 62)
  pub version_room : s.version ≤ℤ pos (2 ^ 62)
