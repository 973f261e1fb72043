-- ===== src/Realtime/Session/Delivery.antt =====
-- Exactly-once delivery of audio: what a session holds after any sequence of frames, with losses,
-- repetitions and frames out of order.
use voice_asset_server.Base.{
  suc, subst, sym, ap, ◌∙◌, ℕ, ◌+◌, ◌*◌, ◌^◌, ◌≤◌, ◌<◌, ◌≡◌, refl, false, [], ◌∷◌, arith, lt→ltb,
  ◌==◌, length, Result, ok, err, List,
}
use voice_asset_server.Base.Int.{ℤ, pos, ◌+ℤ◌, pos_part, neg_part, wrap64}
use voice_asset_server.Realtime.{Error, Time, max_frame_bytes}
use voice_asset_server.Realtime.Protocol.{AudioEvent, pcm}
use voice_asset_server.Realtime.Session.{
  Session, apply_audio, FrameDisposition, accepted, duplicate, take_frame, frame_length,
}
use voice_asset_server.Realtime.Session.Frames.{
  Accepts, apply_audio-accepted, apply_audio-duplicate,
}
use voice_asset_server.Realtime.Session.Keeps.{audio_facts}

-- The session after a frame; a refused frame changes nothing.
abbrev after : Session → Result Error (Session × FrameDisposition) → Session
after s (ok (t, d)) = t
after s (err e) = s

abbrev kept :
    AudioEvent → Result Error (Session × FrameDisposition) → List AudioEvent → List AudioEvent
kept v (ok (t, accepted)) vs = v ∷ vs
kept v (ok (t, duplicate)) vs = vs
kept v (err e) vs = vs

-- The session after a sequence of frames, each with the time of its arrival.
unfoldable pub receive_all : Session → List (AudioEvent × Time) → Session
receive_all s [] = s
receive_all s ((v, now) ∷ vs) = receive_all (after s (apply_audio s v now)) vs

-- The frames that it accepted, in the order of arrival.
unfoldable pub accepted_frames : Session → List (AudioEvent × Time) → List AudioEvent
accepted_frames s [] = []
accepted_frames s ((v, now) ∷ vs) =
    let r = apply_audio s v now in kept v r (accepted_frames (after s r) vs)

-- Sequence numbers that count up from n.
abbrev pub CountsFrom : ℕ → List AudioEvent → Type 0
CountsFrom n [] = Unit
CountsFrom n (v ∷ vs) = (v.sequence ≡ pos n) × CountsFrom (suc n) vs

abbrev pub payload : List AudioEvent → ℕ
payload [] = 0
payload (v ∷ vs) = frame_length (pcm v) + payload vs

-- The counters of a session, as numbers.
abbrev pub Counts : Session → ℕ → ℕ → Type 0
Counts s next received = (s.next_sequence ≡ pos next) × (s.received_bytes ≡ pos received)

pos_of_parts : (a : ℤ) (n : ℕ) → neg_part a ≡ 0 → pos_part a ≡ n → a ≡ pos n
pos_of_parts a n h k = ground arith

take_frame-Counts :
    (s : Session) (v : AudioEvent) (now : Time) (next received : ℕ)
    → Counts s next received
    → next < 2 ^ 62
    → received < 2 ^ 62
    → frame_length (pcm v) ≤ max_frame_bytes
    → Counts (take_frame s v now) (suc next) (received + frame_length (pcm v))
unfolding take_frame wrap64 ◌+ℤ◌
take_frame-Counts s v now next received c h k l = ground arith

abbrev Delivered : Session → List (AudioEvent × Time) → ℕ → ℕ → List AudioEvent → Type 0
Delivered s vs next received taken =
    CountsFrom next taken
    × Counts (receive_all s vs) (next + length taken) (received + payload taken)

-- What is to be shown of the rest, from any counters that leave room.
abbrev Rest : Session → List (AudioEvent × Time) → Type 0
Rest s vs =
    (next received : ℕ)
    → Counts s next received
    → next + length vs ≤ 2 ^ 62
    → received + max_frame_bytes * length vs ≤ 2 ^ 62
    → Delivered s vs next received (accepted_frames s vs)

deliver_one :
    (s : Session) (v : AudioEvent) (now : Time) (vs : List (AudioEvent × Time))
    (r : Result Error (Session × FrameDisposition))
    → apply_audio s v now ≡ r
    → (next received : ℕ) → Counts s next received
    → next + suc (length vs) ≤ 2 ^ 62
    → received + max_frame_bytes * suc (length vs) ≤ 2 ^ 62
    → Rest (after s r) vs
    → CountsFrom next (kept v r (accepted_frames (after s r) vs))
      × Counts
          (receive_all (after s r) vs)
          (next + length (kept v r (accepted_frames (after s r) vs)))
          (received + payload (kept v r (accepted_frames (after s r) vs)))
deliver_one s v now vs (err x) e next received c h k rest =
    rest next received c (omega arith) (omega arith)
deliver_one s v now vs (ok (t, duplicate)) e next received c h k rest =
    let (same, _, _) = apply_audio-duplicate s t v now e in
    rest next received (subst (λ u. Counts u next received) (sym same) c) (omega arith)
      (omega arith)
deliver_one s v now vs (ok (t, accepted)) e next received c h k rest =
    let (a, same) = apply_audio-accepted s t v now e in
    let small = (audio_facts v a.valid).3 in
    let (order, counts) =
      rest (suc next) (received + frame_length (pcm v))
        (subst (λ u. Counts u (suc next) (received + frame_length (pcm v))) (sym same)
          (take_frame-Counts s v now next received c (omega arith) (omega arith) small))
        (omega arith) (omega arith) in
    ((a.next ∙ c.0, order), (counts.0 ∙ ap pos (omega arith), counts.1 ∙ ap pos (omega arith)))

-- Whatever frames arrive, in whatever order and however often: those that the session accepts are
-- numbered in sequence from its next number, and its counters are then the number of accepted frames
-- and the number of their bytes further on. The counters must leave room for all frames below 2 ^ 62.
pub receive_all-Counts :
    (s : Session) (vs : List (AudioEvent × Time)) (next received : ℕ)
    → Counts s next received
    → next + length vs ≤ 2 ^ 62
    → received + max_frame_bytes * length vs ≤ 2 ^ 62
    → CountsFrom next (accepted_frames s vs)
      × Counts
          (receive_all s vs)
          (next + length (accepted_frames s vs))
          (received + payload (accepted_frames s vs))
unfolding receive_all accepted_frames
receive_all-Counts s [] next received c h k =
    (tt, (c.0 ∙ ap pos (omega arith), c.1 ∙ ap pos (omega arith)))
receive_all-Counts s ((v, now) ∷ vs) next received c h k =
    deliver_one s v now vs (apply_audio s v now) refl next received c (omega arith) (omega arith)
      (receive_all-Counts (after s (apply_audio s v now)) vs)

resend :
    (s : Session) (v : AudioEvent) (now later : Time) (next : ℕ)
    → s.next_sequence ≡ pos next
    → next < 2 ^ 62
    → Accepts s v now
    → (later == 0) ≡ false
    → later < s.expires_at
    → apply_audio (take_frame s v now) v later ≡ ok (take_frame s v now, duplicate)
unfolding apply_audio take_frame wrap64 ◌+ℤ◌
resend s v now later next c room a h k = ground (arith, lt→ltb later s.expires_at)

-- A frame that was accepted and is sent again before the session ends is acknowledged as a duplicate
-- and changes nothing, whatever came of the first acknowledgement. The next number is below 2 ^ 62.
pub apply_audio-resend :
    (s s' : Session) (v : AudioEvent) (now later : Time) (next : ℕ)
    → s.next_sequence ≡ pos next
    → next < 2 ^ 62
    → apply_audio s v now ≡ ok (s', accepted)
    → (later == 0) ≡ false
    → later < s.expires_at
    → apply_audio s' v later ≡ ok (s', duplicate)
apply_audio-resend s s' v now later next c room e h k =
    let (a, same) = apply_audio-accepted s s' v now e in
    subst (λ t. apply_audio t v later ≡ ok (t, duplicate)) (sym same)
      (resend s v now later next c room a h k)
