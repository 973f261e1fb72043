-- ===== src/Realtime/MockStream.antt =====
-- internal/realtime/mock_stream.go: the provider stream that replays a fixed transcript, and
-- `validTranscriptUpdate` of internal/realtime/controller.go. `ended` says that the caller's context has
-- ended. The transcript, which internal/asr gives, is an argument: of it only the fields in use are kept.
pub mod Updates
mod Tests
use voice_asset_server.Base.{
  ℕ, zero, suc, ◌+◌, ◌-◌, ◌%◌, Bool, true, false, not, ◌&&◌, ◌||◌, Option, none, some, List, [],
  ◌∷◌, ◌++◌, ltb, leb, ◌==◌, if◌then◌else◌, length, get_elem?, take, drop, text_eq, Result, ok, err,
}
use voice_asset_server.Base.Int.{ℤ, pos, ◌+ℤ◌, ltb_ℤ, leb_ℤ, eqb_ℤ, wrap64}
use voice_asset_server.Text.{Bytes, codes, valid_string}
use voice_asset_server.Realtime.{
  Error, invalid_event, state_conflict, sequence_gap, frame_size, internal, max_transcript_bytes,
}
use voice_asset_server.Realtime.Protocol.{valid_sample_rate, encoding_pcm_s16le, AudioEvent}
use voice_asset_server.Realtime.Session.{Session, ProviderResult, inc64, maximum_frame_bytes}
use voice_asset_server.Realtime.Hub.{ProviderFrame, TranscriptUpdate}

pub record Segment : Type 0 where
  pub end_ms : ℤ
  pub text : Bytes

pub record Transcript : Type 0 where
  pub language : Bytes
  pub text : Bytes
  pub segments : List Segment
  pub provider_id : Bytes

-- `mockProviderStream`
pub record MockStream : Type 0 where
  pub result : Transcript
  pub frame_duration_ms : ℤ
  pub max_frame_bytes : ℤ
  pub next_sequence : ℤ
  pub last_captured_ms : ℤ
  pub emitted_segments : ℕ
  pub revision : ℤ
  pub closed : Bool
  pub finished : Bool

open_with : Session → Option Transcript → Result Error MockStream
open_with s none = err internal
open_with s (some result) = ok (record {
  result = result;
  frame_duration_ms = s.frame_duration_ms;
  max_frame_bytes = maximum_frame_bytes s;
  next_sequence = pos 0;
  last_captured_ms = pos 0;
  emitted_segments = 0;
  revision = pos 0;
  closed = false;
  finished = false;
})

-- `Open`; `transcribe` answers for a language, or fails.
unfoldable pub open_stream : (Bytes → Option Transcript) → Session → Result Error MockStream
unfolding open_with
open_stream transcribe s =
    if not (text_eq s.encoding encoding_pcm_s16le)
      || not (valid_sample_rate s.sample_rate_hz)
      || not (eqb_ℤ s.channels (pos 1))
      || ltb_ℤ s.frame_duration_ms (pos 20)
      || ltb_ℤ (pos 100) s.frame_duration_ms
    then err invalid_event
    else open_with s (transcribe s.language)

-- How many of these segments, from the first on, end by this time.
ended_by : ℤ → List Segment → ℕ
ended_by through [] = 0
ended_by through (g ∷ gs) =
    let rest = ended_by through gs in if leb_ℤ g.end_ms through then suc rest else 0

-- The language's tag starts with zh, in either case.
abbrev is_chinese : Bytes → Bool
is_chinese (a ∷ b ∷ s) = (a == b'z' || a == b'Z') && (b == b'h' || b == b'H')
is_chinese s = false

-- strings.Join
abbrev join : Bytes → List Segment → Bytes
join separator [] = []
join separator (g ∷ []) = g.text
join separator (g ∷ h ∷ gs) = g.text ++ separator ++ join separator (h ∷ gs)

abbrev joined_text : Transcript → ℕ → Bytes
joined_text t count = join (if is_chinese t.language then [] else codes " ") (take count t.segments)

abbrev end_of : Option Segment → ℤ
end_of none = pos 0
end_of (some g) = g.end_ms

-- The end of the frame.
abbrev pub frame_end : ℤ → ℤ → ℤ
frame_end captured duration = wrap64 (captured +ℤ duration)

emit : MockStream → ℕ → Option TranscriptUpdate × MockStream
emit st zero = (none, st)
emit st (suc more) =
    let count = st.emitted_segments + suc more in
    (
      some (record {
        revision = inc64 st.revision;
        text = joined_text st.result count;
        final_through_ms = end_of (get_elem? st.result.segments (st.emitted_segments + more));
      }),
      record st { emitted_segments = count; revision = inc64 st.revision },
    )

abbrev pub frame_is_bad : MockStream → ProviderFrame → Bool
frame_is_bad st f =
    length f.pcm == 0
    || ltb_ℤ st.max_frame_bytes (pos (length f.pcm))
    || not (length f.pcm % 2 == 0)
    || ltb_ℤ f.captured_at_ms (pos 0)
    || (ltb_ℤ (pos 0) f.sequence && ltb_ℤ f.captured_at_ms st.last_captured_ms)

take_in : MockStream → ProviderFrame → Option TranscriptUpdate × MockStream
unfolding emit ended_by
take_in st f =
    emit (record st { next_sequence = inc64 st.next_sequence; last_captured_ms = f.captured_at_ms })
      (ended_by (frame_end f.captured_at_ms st.frame_duration_ms)
        (drop st.emitted_segments st.result.segments))

-- `Push`
unfoldable pub push :
    Bool → MockStream → ProviderFrame → Result Error (Option TranscriptUpdate) × MockStream
unfolding take_in
push ended st f =
    if ended
    then (err internal, st)
    else if st.closed || st.finished
    then (err state_conflict, st)
    else if not (eqb_ℤ f.sequence st.next_sequence)
    then (err sequence_gap, st)
    else if frame_is_bad st f
    then (err frame_size, st)
    else (ok (take_in st f).0, (take_in st f).1)

-- `Finish`
unfoldable pub finish : Bool → MockStream → Result Error ProviderResult × MockStream
finish ended st =
    if ended
    then (err internal, st)
    else if st.closed || st.finished || eqb_ℤ st.next_sequence (pos 0)
    then (err state_conflict, st)
    else (
      ok (record {
        text = st.result.text;
        language = st.result.language;
        provider_id = st.result.provider_id;
      }),
      record st { finished = true },
    )

-- `Close`
unfoldable pub close : MockStream → MockStream
close st = record st { closed = true }

-- `validTranscriptUpdate`
unfoldable pub valid_transcript_update : TranscriptUpdate → ℤ → AudioEvent → ℤ → Bool
valid_transcript_update u last_revision frame duration =
    ltb_ℤ last_revision u.revision
    && leb_ℤ (pos 0) u.final_through_ms
    && ltb_ℤ (pos 0) duration
    && leb_ℤ u.final_through_ms (frame_end frame.captured_at_ms duration)
    && valid_string u.text
    && leb (length u.text) max_transcript_bytes
