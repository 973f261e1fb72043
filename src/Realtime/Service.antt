-- ===== src/Realtime/Service.antt =====
-- internal/realtime/service.go over the repository. `random` is what the random source holds, `now`
-- the clock, `db_now` the database's, at each attempt, `hash` the request hash (encoding/json and SHA-256, which are
-- parameters here). `others` is what other requests do to the database between a read and the write
-- that follows it.
use voice_asset_server.Base.{
  ℕ, suc, zero, Bool, not, Option, none, some, if◌then◌else◌, Result, ok, err,
}
use voice_asset_server.Base.Int.{pos}
use voice_asset_server.Text.{Bytes}
use voice_asset_server.Identifier.{new_uuid_from}
use voice_asset_server.Auth.{Principal, can, transcriptions_write}
use voice_asset_server.Realtime.{
  Error, invalid_event, forbidden, not_found, version_conflict, internal, Time,
  default_reconnect_window,
}
use voice_asset_server.Realtime.Protocol.{
  StartEvent, AudioEvent, ResumeEvent, FinishEvent, canonical_uuid,
}
use voice_asset_server.Realtime.Session.{
  Session, ProviderResult, FrameDisposition, accepted, duplicate, new_session, apply_audio,
}
use voice_asset_server.Realtime.Session.Lifecycle.{
  interrupt as interrupt_session, resume as resume_session,
  begin_finalization as begin_finalization_session, complete as complete_session,
  fail as fail_session,
}
use voice_asset_server.Realtime.Repository
use voice_asset_server.Realtime.Repository.{
  Database, Audit, AuditAction, session_started, session_interrupted, session_resumed,
  session_finalizing, session_completed, session_failed, create, update,
}

-- The parts of the world that a request reads.
pub record Env : Type 0 where
  pub principal : Principal
  pub random : Bytes
  pub now : ℕ → Time
  pub db_now : ℕ → Time
  pub others : ℕ → Database → Database

-- `newAudit`, and what is left of the random source.
abbrev audit_from : Principal → AuditAction → Bytes → Audit
audit_from p action id = record { id = id; actor_id = p.user_id; action = action }

create_session :
    Database → Env → Bytes → Audit → Result Error Session → Result Error (Session × Bool) × Database
create_session db env hash a (ok s) = create db s hash a
create_session db env hash a (err e) = (err invalid_event, db)

start_as :
    Database → Env → StartEvent → Bytes → Bytes → Bytes → Result Error (Session × Bool) × Database
unfolding create_session
start_as db env event hash id random = elim (new_uuid_from random) [
  | err e ↦ (err internal, db)
  | ok (audit_id, rest) ↦
      create_session db env hash (audit_from env.principal session_started audit_id) (
        new_session (record {
          id = id;
          workspace_id = env.principal.workspace_id;
          created_by = env.principal.user_id;
          start = event;
          now = env.now 0;
          ttl = pos 0;
        }))
]

-- `Start`
unfoldable pub start :
    Database → Env → StartEvent → (StartEvent → Bytes) → Result Error (Session × Bool) × Database
unfolding start_as
start db env event hash =
    if not (can env.principal transcriptions_write)
    then (err forbidden, db)
    else elim (new_uuid_from env.random) [
      | err e ↦ (err internal, db)
      | ok (id, rest) ↦ start_as db env event (hash event) id rest
    ]

-- `Get`
unfoldable pub get : Database → Principal → Bytes → Result Error Session
get db p id =
    if not (can p transcriptions_write)
    then err forbidden
    else if not (canonical_uuid id)
    then err not_found
    else Repository.get db p.workspace_id id

-- `saveTransition`
unfoldable pub save_transition :
    Database → Env → Session → Session → AuditAction → Result Error Session × Database
save_transition db env current updated action = elim (new_uuid_from env.random) [
  | err e ↦ (err internal, db)
  | ok (audit_id, rest) ↦
      update db current.version updated (some (audit_from env.principal action audit_id))
        (env.db_now 0)
]

save_if :
    Database → Env → Session → Result Error Session → AuditAction → Result Error Session × Database
save_if db env current (ok updated) action =
    save_transition (env.others 0 db) env current updated action
save_if db env current (err e) action = (err e, db)

change_found :
    Database
    → Env
    → (Session → Result Error Session)
    → AuditAction
    → Result Error Session
    → Result Error Session × Database
unfolding save_if
change_found db env change action (ok current) = save_if db env current (change current) action
change_found db env change action (err e) = (err e, db)

-- What the five transitions share: read, change, write. A refused change writes nothing; `others` act
-- before the write.
unfoldable pub transition :
    Database
    → Env
    → Bytes
    → (Session → Result Error Session)
    → AuditAction
    → Result Error Session × Database
unfolding change_found
transition db env id change action = change_found db env change action (get db env.principal id)

-- `Interrupt`
unfoldable pub interrupt : Database → Env → Bytes → Result Error Session × Database
interrupt db env id =
    transition db env id (λ s. interrupt_session s (env.now 0) (pos default_reconnect_window))
      session_interrupted

-- `Resume`
unfoldable pub resume : Database → Env → ResumeEvent → Result Error Session × Database
resume db env event =
    transition db env event.session_id (λ s. resume_session s event (env.now 0)) session_resumed

-- `BeginFinalization`
unfoldable pub begin_finalization : Database → Env → FinishEvent → Result Error Session × Database
begin_finalization db env event =
    transition db env event.session_id (λ s. begin_finalization_session s event (env.now 0))
      session_finalizing

-- `Complete`
unfoldable pub complete : Database → Env → Bytes → ProviderResult → Result Error Session × Database
complete db env id result =
    transition db env id (λ s. complete_session s result (env.now 0)) session_completed

-- `Fail`
unfoldable pub fail : Database → Env → Bytes → Bytes → Result Error Session × Database
fail db env id code = transition db env id (λ s. fail_session s code) session_failed

-- One round of the loop of `AcceptAudio`: an answer, or `none` to try again.
abbrev Attempt : Type 0
Attempt = Option (Result Error (Session × FrameDisposition)) × Database

-- After the write: a version conflict is tried again.
saved : Result Error Session × Database → Attempt
saved (ok s, db) = (some (ok (s, accepted)), db)
saved (err version_conflict, db) = (none, db)
saved (err e, db) = (some (err e), db)

write_frame : Database → Env → ℕ → Session → Result Error (Session × FrameDisposition) → Attempt
unfolding saved
write_frame db env round current (err e) = (some (err e), db)
write_frame db env round current (ok (updated, duplicate)) = (some (ok (current, duplicate)), db)
write_frame db env round current (ok (updated, accepted)) =
    saved (update (env.others round db) current.version updated none (env.db_now round))

attempt_found : Database → Env → ℕ → AudioEvent → Result Error Session → Attempt
unfolding write_frame
attempt_found db env round event (err e) = (some (err e), db)
attempt_found db env round event (ok current) =
    write_frame db env round current (apply_audio current event (env.now round))

attempt : Database → Env → ℕ → AudioEvent → Attempt
unfolding attempt_found
attempt db env round event =
    attempt_found db env round event (get db env.principal event.session_id)

abbrev retry :
    Attempt
    → (Database → Result Error (Session × FrameDisposition) × Database)
    → Result Error (Session × FrameDisposition) × Database
retry (some answer, db) again = (answer, db)
retry (none, db) again = again db

-- The rounds that are left, and the number of the next one.
attempts :
    ℕ → ℕ → Database → Env → AudioEvent → Result Error (Session × FrameDisposition) × Database
unfolding attempt
attempts zero round db env event = (err version_conflict, db)
attempts (suc left) round db env event =
    retry (attempt db env round event) (λ db'. attempts left (suc round) db' env event)

-- `AcceptAudio`
unfoldable pub accept_audio :
    Database → Env → AudioEvent → Result Error (Session × FrameDisposition) × Database
unfolding attempts
accept_audio db env event = attempts 3 0 db env event
