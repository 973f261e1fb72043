-- ===== src/Realtime/Session/Frames.antt =====
-- What `ApplyAudio` decides: the two outcomes that are no errors.
use voice_asset_server.Base.{◌<◌, ◌≡◌, true, false, ◌&&◌, arith, ◌==◌, text_eq, ok}
use voice_asset_server.Base.Int.{ℤ, pos, ltb_ℤ, ◌<ℤ◌}
use voice_asset_server.Realtime.{Time}
use voice_asset_server.Realtime.Protocol.{AudioEvent, audio_is_valid, pcm}
use voice_asset_server.Realtime.Session.{
  streaming, Session, apply_audio, frame_size_is_bad, accepted, duplicate, take_frame,
}

-- The guards that an accepted frame has passed.
pub record Accepts (s : Session) (v : AudioEvent) (now : Time) : Type 0 where
  pub live : s.state ≡ streaming
  pub valid : audio_is_valid v ≡ true
  pub clock : (now == 0) ≡ false
  pub own : text_eq v.session_id s.id ≡ true
  pub in_time : now < s.expires_at
  pub next : v.sequence ≡ s.next_sequence
  pub ordered :
      (ltb_ℤ (pos 0) s.next_sequence && ltb_ℤ v.captured_at_ms s.last_captured_at_ms) ≡ false
  pub sized : frame_size_is_bad s (pcm v) ≡ false

pub eqb_of_ltb : (a b : ℤ) → ltb_ℤ a b ≡ false → ltb_ℤ b a ≡ false → a ≡ b
eqb_of_ltb a b h k = ground arith

-- An accepted frame has passed every guard, and what changes is written out by `take_frame`.
pub apply_audio-accepted :
    (s s' : Session) (v : AudioEvent) (now : Time)
    → apply_audio s v now ≡ ok (s', accepted)
    → Accepts s v now × (s' ≡ take_frame s v now)
unfolding apply_audio
apply_audio-accepted s s' v now e = ground (arith, eqb_of_ltb v.sequence s.next_sequence)

-- A duplicate changes nothing.
pub apply_audio-duplicate :
    (s s' : Session) (v : AudioEvent) (now : Time)
    → apply_audio s v now ≡ ok (s', duplicate)
    → (s' ≡ s) × (s.state ≡ streaming) × (v.sequence <ℤ s.next_sequence)
unfolding apply_audio
apply_audio-duplicate s s' v now e = ground arith
