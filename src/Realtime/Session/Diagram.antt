-- ===== src/Realtime/Session/Diagram.antt =====
-- The state diagram of a session, and what a reconnect gives.
use voice_asset_server.Base.{
  ◌≡◌, refl, sym, subst, ◌⊎◌, inl, inr, true, false, ◌||◌, arith, ok, err,
}
use voice_asset_server.Realtime.{state_conflict, Time}
use voice_asset_server.Realtime.Protocol.{AudioEvent}
use voice_asset_server.Realtime.Session.{
  State, streaming, interrupted, finalizing, completed, failed, expired, Session, apply_audio,
  FrameDisposition, accepted, duplicate, inc64, take_frame, is_terminal, is_streaming,
  is_interrupted,
}
use voice_asset_server.Realtime.Session.Lifecycle.{
  interrupt, resume, begin_finalization, complete, fail, expire,
}
use voice_asset_server.Realtime.Session.Operations.{
  Operation, audio, interrupts, resumes, finishes, completes, fails, expires, session_of-inv, step,
}
use voice_asset_server.Realtime.Session.Frames.{apply_audio-accepted, apply_audio-duplicate}

infix 40 ◌⟶◌
pub data ◌⟶◌ : State → State → Type 0 where
  receive : streaming ⟶ streaming
  pause : streaming ⟶ interrupted
  reconnect : interrupted ⟶ streaming
  seal : streaming ⟶ finalizing
  seal_paused : interrupted ⟶ finalizing
  publish : finalizing ⟶ completed
  give_up : {s : State} → is_terminal s ≡ false → s ⟶ failed
  run_out : {s : State} → is_terminal s ≡ false → s ⟶ expired

-- The fields that are fixed when the session is made.
pub record SameRecording (s t : Session) : Type 0 where
  pub same_id : t.id ≡ s.id
  pub same_workspace : t.workspace_id ≡ s.workspace_id
  pub same_creator : t.created_by ≡ s.created_by
  pub same_client : t.client_session_id ≡ s.client_session_id
  pub same_profile : t.provider_profile_id ≡ s.provider_profile_id
  pub same_hotwords : t.hotword_set_id ≡ s.hotword_set_id
  pub same_encoding : t.encoding ≡ s.encoding
  pub same_channels : t.channels ≡ s.channels
  pub same_language : t.language ≡ s.language
  pub same_key : t.idempotency_key ≡ s.idempotency_key
  pub same_rate : t.sample_rate_hz ≡ s.sample_rate_hz
  pub same_duration : t.frame_duration_ms ≡ s.frame_duration_ms
  pub same_start : t.started_at ≡ s.started_at
  pub same_end : t.expires_at ≡ s.expires_at

along : (a b : State) {x y : State} → a ≡ x → b ≡ y → x ⟶ y → a ⟶ b
along a b p q e = rw (p, q) e

seals : (a b : State) → (is_streaming a || is_interrupted a) ≡ true → b ≡ finalizing → a ⟶ b
seals streaming b h q = rw q seal
seals interrupted b h q = rw q seal_paused
seals _ b h q = absurd (ground arith)

abbrev Follows : Session → Session → Type 0
Follows s s' =
    (s.state ⟶ s'.state) × SameRecording s s' × ((s' ≡ s) ⊎ (s'.version ≡ inc64 s.version))

SameRecording-refl : (s : Session) → SameRecording s s
SameRecording-refl s = ground arith

audio-Follows :
    (s s' : Session) (v : AudioEvent) (now : Time) (d : FrameDisposition)
    → apply_audio s v now ≡ ok (s', d)
    → Follows s s'
unfolding take_frame
audio-Follows s s' v now accepted e =
    let (a, p) = apply_audio-accepted s s' v now e in
    subst (λ t. Follows s t) (sym p) (rw a.live receive, ground arith, inr refl)
audio-Follows s s' v now duplicate e =
    let (p, live, h) = apply_audio-duplicate s s' v now e in
    subst (λ t. Follows s t) (sym p) (rw live receive, ground arith, inl refl)

-- An accepted operation follows an edge of the diagram, changes nothing that is fixed at the start,
-- and either leaves the session as it was or steps its version by one.
pub step-⟶ :
    (s s' : Session) (o : Operation)
    → step s o ≡ ok s'
    → (s.state ⟶ s'.state) × SameRecording s s' × ((s' ≡ s) ⊎ (s'.version ≡ inc64 s.version))
unfolding step apply_audio interrupt resume begin_finalization complete fail expire
step-⟶ s s' (audio v now) e = let (d, h) = session_of-inv _ e in audio-Follows s s' v now d h
step-⟶ s s' (interrupts now window) e = (
  along (s.state) (s'.state) (ground arith) (ground arith) pause,
  ground arith,
  inr (ground arith),
)
step-⟶ s s' (resumes v now) e = (
  along (s.state) (s'.state) (ground arith) (ground arith) reconnect,
  ground arith,
  inr (ground arith),
)
step-⟶ s s' (finishes v now) e =
    (seals s.state s'.state (ground arith) (ground arith), ground arith, inr (ground arith))
step-⟶ s s' (completes r now) e = (
  along (s.state) (s'.state) (ground arith) (ground arith) publish,
  ground arith,
  inr (ground arith),
)
step-⟶ s s' (fails code) e = (
  subst (λ t. s.state ⟶ t) (ground arith) (give_up (ground arith)),
  ground arith,
  inr (ground arith),
)
step-⟶ s s' (expires now) e = (
  subst (λ t. s.state ⟶ t) (ground arith) (run_out (ground arith)),
  ground arith,
  inr (ground arith),
)

-- From a terminal state every operation is refused as a state conflict.
pub step-terminal :
    (s : Session) (o : Operation) → is_terminal s.state ≡ true → step s o ≡ err state_conflict
unfolding step apply_audio interrupt resume begin_finalization complete fail expire
step-terminal s (audio v now) h = ground arith
step-terminal s _ h = ground arith
