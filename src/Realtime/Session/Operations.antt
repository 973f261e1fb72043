-- ===== src/Realtime/Session/Operations.antt =====
-- The operations of a session as one step function: what the callers in
-- internal/realtime/service.go ask of it.
use voice_asset_server.Base.{◌≡◌, Result, ok, err, arith}
use voice_asset_server.Base.Int.{ℤ}
use voice_asset_server.Text.{Bytes}
use voice_asset_server.Realtime.{Error, Time}
use voice_asset_server.Realtime.Protocol.{AudioEvent, ResumeEvent, FinishEvent}
use voice_asset_server.Realtime.Session.{Session, ProviderResult, FrameDisposition, apply_audio}
use voice_asset_server.Realtime.Session.Lifecycle.{
  interrupt, resume, begin_finalization, complete, fail, expire,
}

-- What the callers may ask of a session.
pub data Operation : Type 0 where
  audio : AudioEvent → Time → Operation
  interrupts : Time → ℤ → Operation
  resumes : ResumeEvent → Time → Operation
  finishes : FinishEvent → Time → Operation
  completes : ProviderResult → Time → Operation
  fails : Bytes → Operation
  expires : Time → Operation

abbrev pub session_of : Result Error (Session × FrameDisposition) → Result Error Session
session_of (ok (s, d)) = ok s
session_of (err e) = err e

unfoldable pub step : Session → Operation → Result Error Session
step s (audio v now) = session_of (apply_audio s v now)
step s (interrupts now window) = interrupt s now window
step s (resumes v now) = resume s v now
step s (finishes v now) = begin_finalization s v now
step s (completes r now) = complete s r now
step s (fails code) = fail s code
step s (expires now) = expire s now

pub session_of-inv :
    (r : Result Error (Session × FrameDisposition)) {s : Session}
    → session_of r ≡ ok s
    → (d : FrameDisposition) × (r ≡ ok (s, d))
session_of-inv (ok (t, d)) h = (d, ground arith)
session_of-inv (err e) h = absurd (ground arith)
