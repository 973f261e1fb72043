-- ===== src/Realtime/Repository.antt =====
-- internal/realtime/postgres_repository.go, with the table recording_sessions as a list of rows and
-- the table audit_logs as a list. A transaction either returns a value and its rows, or an error and
-- the rows that it began with. The database answers every query; the metadata of an audit entry is left
-- out. `db_now` is `clock_timestamp()`.
pub mod Locking
pub mod Replay
mod Tests
use voice_asset_server.Base.{
  ℕ, ◌+◌, Bool, true, false, not, ◌&&◌, ◌||◌, Option, none, some, List, [], ◌∷◌, ◌++◌, ◌==◌,
  if◌then◌else◌, length, text_eq, Result, ok, err,
}
use voice_asset_server.Base.Int.{ℤ, pos, eqb_ℤ}
use voice_asset_server.Text.{Bytes, between}
use voice_asset_server.Realtime.{
  Error, invalid_event, not_found, idempotency_conflict, version_conflict, internal, Time,
}
use voice_asset_server.Realtime.Protocol.{canonical_uuid}
use voice_asset_server.Realtime.Session.{Session, inc64}

pub data AuditAction : Type 0 where
  session_started session_interrupted session_resumed session_finalizing session_completed
        session_failed :
      AuditAction

pub record Audit : Type 0 where
  pub id : Bytes
  pub actor_id : Bytes
  pub action : AuditAction

pub record Row : Type 0 where
  pub session : Session
  pub request_hash : Bytes

-- `enabled_profiles` and `enabled_hotwords` are what the two EXISTS queries see, as pairs of an
-- identifier and a workspace.
pub record Database : Type 0 where
  pub rows : List Row
  pub audits : List Audit
  pub enabled_profiles : List (Bytes × Bytes)
  pub enabled_hotwords : List (Bytes × Bytes)

unfoldable pub has_reference : Bytes → Bytes → List (Bytes × Bytes) → Bool
has_reference id workspace [] = false
has_reference id workspace ((i, w) ∷ rest) =
    (text_eq i id && text_eq w workspace) || has_reference id workspace rest

-- `validateSessionReferences`
unfoldable pub references_are_valid : Database → Session → Bool
references_are_valid db s =
    (text_eq s.provider_profile_id []
      || has_reference s.provider_profile_id s.workspace_id db.enabled_profiles)
    && (text_eq s.hotword_set_id []
        || has_reference s.hotword_set_id s.workspace_id db.enabled_hotwords)

-- `validSessionAudit`
unfoldable pub audit_is_valid : Audit → Bool
audit_is_valid a = canonical_uuid a.id && canonical_uuid a.actor_id

-- WHERE workspace_id = $1 AND idempotency_key = $2
unfoldable pub find_key : Bytes → Bytes → List Row → Option Row
find_key workspace key [] = none
find_key workspace key (r ∷ rows) =
    if text_eq r.session.workspace_id workspace && text_eq r.session.idempotency_key key
    then some r
    else find_key workspace key rows

-- The primary key, and UNIQUE (workspace_id, client_session_id).
unfoldable pub violates_unique : Session → List Row → Bool
violates_unique s [] = false
violates_unique s (r ∷ rows) =
    text_eq r.session.id s.id
    || (text_eq r.session.workspace_id s.workspace_id
        && text_eq r.session.client_session_id s.client_session_id)
    || violates_unique s rows

-- CHECK (length(language) BETWEEN 2 AND 35), here of ASCII texts.
abbrev pub language_fits : Bytes → Bool
language_fits language = between 2 35 (length language)

-- The same of a nullable column.
abbrev pub final_language_fits : Bytes → Bool
final_language_fits language = text_eq language [] || language_fits language

insert_session : Database → Session → Bytes → Audit → Result Error (Session × Bool) × Database
insert_session db s hash a =
    if not (references_are_valid db s)
    then (err invalid_event, db)
    else if not (language_fits s.language)
    then (err internal, db)
    else if violates_unique s db.rows
    then (err idempotency_conflict, db)
    else if not (audit_is_valid a)
    then (err invalid_event, db)
    else (
      ok (s, false),
      record db {
        rows = (record { session = s; request_hash = hash }) ∷ db.rows;
        audits = a ∷ db.audits;
      },
    )

create_after :
    Database → Session → Bytes → Audit → Option Row → Result Error (Session × Bool) × Database
unfolding insert_session
create_after db s hash a none = insert_session db s hash a
create_after db s hash a (some r) =
    if text_eq r.request_hash hash
    then (ok (r.session, true), db)
    else (err idempotency_conflict, db)

-- `Create`: the session, and whether it is an earlier request's.
unfoldable pub create :
    Database → Session → Bytes → Audit → Result Error (Session × Bool) × Database
unfolding create_after
create db s hash a = create_after db s hash a (find_key s.workspace_id s.idempotency_key db.rows)

-- WHERE id = $1 AND workspace_id = $2
abbrev pub is_row_of : Bytes → Bytes → Row → Bool
is_row_of workspace id r = text_eq r.session.id id && text_eq r.session.workspace_id workspace

unfoldable pub find_session : Bytes → Bytes → List Row → Option Session
find_session workspace id [] = none
find_session workspace id (r ∷ rows) =
    if is_row_of workspace id r then some r.session else find_session workspace id rows

abbrev found_or_missing : Option Session → Result Error Session
found_or_missing none = err not_found
found_or_missing (some s) = ok s

-- `Get`
unfoldable pub get : Database → Bytes → Bytes → Result Error Session
get db workspace id = found_or_missing (find_session workspace id db.rows)

-- The row after `UPDATE`: these columns are set, the others stay. An empty text, and a time of capture
-- before the first frame, are written as NULL and read as zero.
unfoldable pub updated_row : Session → Session → Time → Session
updated_row old s db_now = record old {
  state = s.state;
  next_sequence = s.next_sequence;
  received_bytes = s.received_bytes;
  last_captured_at_ms = if eqb_ℤ s.next_sequence (pos 0) then pos 0 else s.last_captured_at_ms;
  final_transcript = s.final_transcript;
  final_language = s.final_language;
  final_provider_id = s.final_provider_id;
  client_archive_sha256 = s.client_archive_sha256;
  captured_duration_ms =
      if text_eq s.client_archive_sha256 [] then pos 0 else s.captured_duration_ms;
  last_error_code = s.last_error_code;
  version = s.version;
  last_frame_at = s.last_frame_at;
  interrupted_at = s.interrupted_at;
  reconnect_by = s.reconnect_by;
  completed_at = s.completed_at;
  updated_at = db_now;
}

-- `WHERE id = $1 AND workspace_id = $2 AND version = $3 RETURNING ...`: the updated session, if a row
-- was met, and the rows. (`id` is the primary key, so that one row at most is met.)
unfoldable pub update_rows : ℤ → Session → Time → List Row → Option Session × List Row
update_rows expected s db_now [] = (none, [])
update_rows expected s db_now (r ∷ rows) =
    let (found, rest) = update_rows expected s db_now rows in
    if is_row_of s.workspace_id s.id r && eqb_ℤ r.session.version expected
    then (
      some (updated_row r.session s db_now),
      (record r { session = updated_row r.session s db_now }) ∷ rows,
    )
    else (found, r ∷ rest)

abbrev pub audit_passes : Option Audit → Bool
audit_passes none = true
audit_passes (some a) = audit_is_valid a

abbrev pub add_audit : Option Audit → List Audit → List Audit
add_audit none audits = audits
add_audit (some a) audits = a ∷ audits

commit_update :
    Database → Option Audit → Option Session × List Row → Result Error Session × Database
commit_update db a (none, rows) = (err version_conflict, db)
commit_update db a (some s, rows) =
    if not (final_language_fits s.final_language)
    then (err internal, db)
    else if audit_passes a
    then (ok s, record db { rows = rows; audits = add_audit a db.audits })
    else (err invalid_event, db)

-- `Update`
unfoldable pub update :
    Database → ℤ → Session → Option Audit → Time → Result Error Session × Database
unfolding commit_update
update db expected s a db_now =
    if not (eqb_ℤ s.version (inc64 expected))
    then (err version_conflict, db)
    else commit_update db a (update_rows expected s db_now db.rows)
