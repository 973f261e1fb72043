-- ===== src/Realtime/Session/Reconnect.antt =====
-- What a client gets back when it reconnects to an interrupted session.
use voice_asset_server.Base.{
  ◌+◌, ◌≡◌, true, false, ◌&&◌, none, some, arith, ltb, leb, ◌==◌, text_eq, if◌then◌else◌, ok, err,
}
use voice_asset_server.Base.Int.{pos, ltb_ℤ}
use voice_asset_server.Realtime.{sequence_gap, session_expired, default_reconnect_window, Time}
use voice_asset_server.Realtime.Protocol.{ResumeEvent, resume_is_valid}
use voice_asset_server.Realtime.Session.{
  streaming, interrupted, Session, inc64, acknowledged_sequence,
}
use voice_asset_server.Realtime.Session.Lifecycle.{interrupt, resume, earlier}

-- The session as it streams on after an interruption: progress, expiry and format are as before.
abbrev pub resumed : Session → Time → Session
resumed s now = record s {
  state = streaming;
  interrupted_at = none;
  reconnect_by = none;
  updated_at = now;
  version = inc64 (inc64 s.version);
}

-- The session while it waits for its client.
abbrev paused : Session → Time → Session
paused s now = record s {
  state = interrupted;
  interrupted_at = some now;
  reconnect_by = some (earlier (now + default_reconnect_window) s.expires_at);
  updated_at = now;
  version = inc64 s.version;
}

interrupt-paused :
    (s s' : Session) (now : Time) → interrupt s now (pos 0) ≡ ok s' → s' ≡ paused s now
unfolding interrupt
interrupt-paused s s' now e = ground arith

resume-paused :
    (s : Session) (v : ResumeEvent) (now later : Time)
    → resume_is_valid v ≡ true
    → text_eq v.session_id s.id ≡ true
    → (later == 0) ≡ false
    → resume (paused s now) v later ≡ (
        if ltb_ℤ (acknowledged_sequence s) v.last_acknowledged_sequence
        then err sequence_gap
        else if leb later (now + default_reconnect_window) && ltb later s.expires_at
        then ok (resumed s later)
        else err session_expired)
unfolding resume
resume-paused s v now later valid own h = rw (valid, own, h) (ground arith)

-- A session interrupted with the default window is resumed by a valid event that claims no frame the
-- server has not acknowledged, exactly until the window or the session ends: then it streams on with
-- the same progress. After that the event is refused as expired; an event that claims more is refused
-- as a gap.
pub resume-interrupt :
    (s s' : Session) (v : ResumeEvent) (now later : Time)
    → interrupt s now (pos 0) ≡ ok s'
    → resume_is_valid v ≡ true
    → text_eq v.session_id s.id ≡ true
    → (later == 0) ≡ false
    → resume s' v later ≡ (
        if ltb_ℤ (acknowledged_sequence s) v.last_acknowledged_sequence
        then err sequence_gap
        else if leb later (now + default_reconnect_window) && ltb later s.expires_at
        then ok (resumed s later)
        else err session_expired)
resume-interrupt s s' v now later e valid own h =
    rw (interrupt-paused s s' now e) (resume-paused s v now later valid own h)
