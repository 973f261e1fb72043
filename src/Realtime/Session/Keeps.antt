-- ===== src/Realtime/Session/Keeps.antt =====
-- Every operation on a session keeps the constraints of the table.
use voice_asset_server.Base.{
  inl, inr, ◌⊎◌, ℕ, ◌+◌, ◌^◌, ◌≤◌, ◌<◌, ◌≡◌, refl, true, false, [], ◌∷◌, arith, ◌==◌, length,
  text_eq, text_eq_sound, subst, sym, Result, ok, err,
}
use voice_asset_server.Base.Int.{ℤ, pos, ◌+ℤ◌, ◌≤ℤ◌, pos_part, neg_part, wrap64}
use voice_asset_server.Text.{
  Bytes, codes, rune_count, trim_space, matches_language_tag, matches_provider_id, matches_sha256,
}
use voice_asset_server.Text.Count.{rune_count_some, rune_count-le-length}
use voice_asset_server.Realtime.{Error, Time, max_frame_bytes}
use voice_asset_server.Realtime.Protocol.{
  StartEvent, AudioEvent, ResumeEvent, FinishEvent, start_is_valid, valid_idempotency_key,
  valid_sample_rate, finish_is_valid, audio_is_valid, pcm,
}
use voice_asset_server.Realtime.Session.{
  Session, ProviderResult, NewSessionParams, new_session, apply_audio, take_frame, FrameDisposition,
  inc64, frame_length,
}
use voice_asset_server.Realtime.Session.Lifecycle.{
  interrupt, resume, begin_finalization, complete, fail, expire, result_is_valid,
  safe_realtime_error_code,
}
use voice_asset_server.Realtime.Session.Operations.{
  Operation, audio, interrupts, resumes, finishes, completes, fails, expires, session_of, step,
}
use voice_asset_server.Realtime.Session.RowChecks.{
  IsRow, HasRoom, is_null, start_check, columns_check, code_check,
}

-- A counter with room steps by one.
pub inc64_room :
    (n : ℤ)
    → pos 0 ≤ℤ n
    → n ≤ℤ pos (2 ^ 62)
    → (neg_part (inc64 n) ≡ 0) × (pos_part (inc64 n) ≡ pos_part n + 1)
unfolding wrap64 ◌+ℤ◌
inc64_room n h k = ground arith

pub add64_room :
    (n : ℤ) (k : ℕ)
    → pos 0 ≤ℤ n
    → n ≤ℤ pos (2 ^ 62)
    → k ≤ max_frame_bytes
    → (neg_part (wrap64 (n +ℤ pos k)) ≡ 0) × (pos_part (wrap64 (n +ℤ pos k)) ≡ pos_part n + k)
unfolding wrap64 ◌+ℤ◌
add64_room n k h r l = ground arith

pub audio_facts :
    (v : AudioEvent)
    → audio_is_valid v ≡ true
    → (pos 0 ≤ℤ v.sequence)
      × (pos 0 ≤ℤ v.captured_at_ms)
      × (0 < frame_length (pcm v))
      × (frame_length (pcm v) ≤ max_frame_bytes)
unfolding audio_is_valid
audio_facts v h = ground arith

sha256_text : (s : Bytes) → matches_sha256 s ≡ true → is_null s ≡ false
unfolding matches_sha256
sha256_text [] h = absurd (ground arith)
sha256_text (c ∷ s) h = refl

language_text : (s : Bytes) → matches_language_tag s ≡ true → is_null s ≡ false
unfolding matches_language_tag
language_text [] h = absurd (ground arith)
language_text (c ∷ s) h = refl

provider_text : (s : Bytes) → matches_provider_id s ≡ true → is_null s ≡ false
unfolding matches_provider_id
provider_text [] h = absurd (ground arith)
provider_text (c ∷ s) h = refl

error_code_text : (s : Bytes) → safe_realtime_error_code s ≡ true → is_null s ≡ false
unfolding safe_realtime_error_code text_eq codes
error_code_text [] h = absurd (ground arith)
error_code_text (c ∷ s) h = refl

text_of_length : (s : Bytes) → (length s == 0) ≡ false → is_null s ≡ false
text_of_length [] h = absurd (ground arith)
text_of_length (c ∷ s) h = refl

-- The two columns that are NULL together with another one.
columns_hold : (s : Session) → columns_check s ≡ true
unfolding columns_check
columns_hold s = ground arith

-- The codes of errors that a session may have are short.
error_code_short : (c : Bytes) → safe_realtime_error_code c ≡ true → code_check c ≡ true
unfolding safe_realtime_error_code code_check rune_count codes
error_code_short c h = ground (
  arith,
  check_same c (codes "client_closed") refl,
  check_same c (codes "internal_error") refl,
  check_same c (codes "provider_rejected") refl,
  check_same c (codes "provider_unavailable") refl,
  check_same c (codes "stream_timeout") refl,
)
  where
    check_same : (c d : Bytes) → code_check d ≡ true → text_eq c d ≡ true → code_check c ≡ true
    check_same c d k e = subst (λ t. code_check t ≡ true) (sym (text_eq_sound c d e)) k

interrupt-IsRow :
    (s s' : Session) (now : Time) (window : ℤ)
    → interrupt s now window ≡ ok s'
    → HasRoom s
    → IsRow s
    → IsRow s'
unfolding interrupt
interrupt-IsRow s s' now window e room row = ground (arith, inc64_room s.version, columns_hold s')

resume-IsRow :
    (s s' : Session) (v : ResumeEvent) (now : Time)
    → resume s v now ≡ ok s'
    → HasRoom s
    → IsRow s
    → IsRow s'
unfolding resume
resume-IsRow s s' v now e room row = ground (arith, inc64_room s.version, columns_hold s')

begin_finalization-IsRow :
    (s s' : Session) (v : FinishEvent) (now : Time)
    → begin_finalization s v now ≡ ok s'
    → HasRoom s
    → IsRow s
    → IsRow s'
unfolding begin_finalization finish_is_valid
begin_finalization-IsRow s s' v now e room row =
    ground (arith, inc64_room s.version, columns_hold s', sha256_text v.client_archive_sha256)

complete-IsRow :
    (s s' : Session) (r : ProviderResult) (now : Time)
    → complete s r now ≡ ok s'
    → HasRoom s
    → IsRow s
    → IsRow s'
unfolding complete result_is_valid
complete-IsRow s s' r now e room row = ground (
  arith,
  inc64_room s.version,
  columns_hold s',
  text_of_length (trim_space r.text),
  language_text (trim_space r.language),
  provider_text (trim_space r.provider_id),
)

fail-IsRow : (s s' : Session) (code : Bytes) → fail s code ≡ ok s' → HasRoom s → IsRow s → IsRow s'
unfolding fail
fail-IsRow s s' code e room row =
    ground
      (arith, inc64_room s.version, columns_hold s', error_code_text code, error_code_short code)

expire-IsRow : (s s' : Session) (now : Time) → expire s now ≡ ok s' → HasRoom s → IsRow s → IsRow s'
unfolding expire
expire-IsRow s s' now e room row = ground (arith, inc64_room s.version, columns_hold s')

take_frame-IsRow :
    (s : Session) (v : AudioEvent) (now : Time)
    → audio_is_valid v ≡ true
    → HasRoom s
    → IsRow s
    → IsRow (take_frame s v now)
unfolding take_frame
take_frame-IsRow s v now valid room row = ground (
  arith,
  inc64_room s.version,
  columns_hold (take_frame s v now),
  inc64_room s.next_sequence,
  add64_room s.received_bytes (frame_length (pcm v)),
  audio_facts v,
)

-- A frame that is accepted is taken in, and another one leaves the session as it is.
apply_audio_cases :
    (s s' : Session) (v : AudioEvent) (now : Time) (d : FrameDisposition)
    → apply_audio s v now ≡ ok (s', d)
    → (s' ≡ s) ⊎ ((s' ≡ take_frame s v now) × (audio_is_valid v ≡ true))
unfolding apply_audio
apply_audio_cases s s' v now d e = ground arith

apply_audio-IsRow :
    (s s' : Session) (v : AudioEvent) (now : Time) (d : FrameDisposition)
    → apply_audio s v now ≡ ok (s', d)
    → HasRoom s
    → IsRow s
    → IsRow s'
apply_audio-IsRow s s' v now d e room row = elim (apply_audio_cases s s' v now d e) [
  | inl same ↦ subst IsRow (sym same) row
  | inr (taken, valid) ↦ subst IsRow (sym taken) (take_frame-IsRow s v now valid room row)
]

audio-IsRow :
    (s s' : Session) (v : AudioEvent) (now : Time) (r : Result Error (Session × FrameDisposition))
    → apply_audio s v now ≡ r
    → session_of r ≡ ok s'
    → HasRoom s
    → IsRow s
    → IsRow s'
audio-IsRow s s' v now (err e) h k room row = absurd (ground arith)
audio-IsRow s s' v now (ok (t, d)) h k room row =
    apply_audio-IsRow s s' v now d (ground arith) room row

-- Every operation that a well-formed session accepts gives a well-formed session: one that meets the CHECK
-- constraints of the table recording_sessions on the columns that are written from a session, those on the
-- lengths of its two language tags apart. The counters of the session must be at most 2 ^ 62.
pub step-IsRow :
    (s s' : Session) (o : Operation) → step s o ≡ ok s' → HasRoom s → IsRow s → IsRow s'
unfolding step
step-IsRow s s' (audio v now) e room row = audio-IsRow s s' v now _ refl e room row
step-IsRow s s' (interrupts now window) e room row = interrupt-IsRow s s' now window e room row
step-IsRow s s' (resumes v now) e room row = resume-IsRow s s' v now e room row
step-IsRow s s' (finishes v now) e room row = begin_finalization-IsRow s s' v now e room row
step-IsRow s s' (completes r now) e room row = complete-IsRow s s' r now e room row
step-IsRow s s' (fails code) e room row = fail-IsRow s s' code e room row
step-IsRow s s' (expires now) e room row = expire-IsRow s s' now e room row

-- The validation of a start event gives the constraints on the columns that are written from it.
start_is_valid-start_check :
    (e : StartEvent)
    → start_is_valid e ≡ true
    → start_check e.idempotency_key e.encoding e.sample_rate_hz e.channels e.frame_duration_ms
      ≡ true
unfolding start_is_valid start_check valid_idempotency_key valid_sample_rate
start_is_valid-start_check e h =
    ground (arith, rune_count_some e.idempotency_key, rune_count-le-length e.idempotency_key)

code_of_none : code_check [] ≡ true
unfolding code_check rune_count
code_of_none = refl

-- A new session is well formed: its validation gives the CHECK constraints of the table recording_sessions
-- on the columns that are written from a session, those on the lengths of its two language tags apart.
pub new_session-IsRow : (p : NewSessionParams) (s : Session) → new_session p ≡ ok s → IsRow s
unfolding new_session
new_session-IsRow p s e =
    ground (arith, start_is_valid-start_check p.start, columns_hold s, code_of_none)
