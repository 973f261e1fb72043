-- ===== src/Realtime/Repository/Replay.antt =====
-- A session that is created again under its key, whatever is written in between.
use voice_asset_server.Base.{
  ◌≡◌, Bool, true, false, ◌&&◌, Option, some, List, [], ◌∷◌, text_eq, if◌then◌else◌, Result, ok,
  err,
}
use voice_asset_server.Base.Int.{ℤ}
use voice_asset_server.Text.{Bytes}
use voice_asset_server.Realtime.{Error, idempotency_conflict, Time}
use voice_asset_server.Realtime.Session.{Session}
use voice_asset_server.Realtime.Repository.{Database, Row, Audit, create, find_key, update}

-- What other requests write.
pub data SessionWrite : Type 0 where
  creates : Session → Bytes → Audit → SessionWrite
  updates : ℤ → Session → Option Audit → Time → SessionWrite

unfoldable pub after : Database → SessionWrite → Database
after db (creates s hash a) = (create db s hash a).1
after db (updates expected s a db_now) = (update db expected s a db_now).1

unfoldable pub after_all : Database → List SessionWrite → Database
unfolding after
after_all db [] = db
after_all db (w ∷ ws) = after_all (after db w) ws

module _ (workspace key id hash : Bytes) where
  abbrev has_key : Row → Bool
  has_key r = text_eq r.session.workspace_id workspace && text_eq r.session.idempotency_key key

  abbrev IsOurs : Row → Type 0
  IsOurs r = (r.session.id ≡ id) × (r.request_hash ≡ hash)

  -- The key leads to the session, with the hash of the request that has created it.
  abbrev Keyed : List Row → Type 0
  Keyed rows = (r : Row) × (find_key workspace key rows ≡ some r) × IsOurs r

-- The answer to another request under the key: the session, as it is by then, if the hash is the same.
abbrev pub Replays :
    Bytes → Bytes → Bytes → Database → Result Error (Session × Bool) × Database → Type 0
Replays id hash hash' db out =
    (found : Session) × (found.id ≡ id)
    × (out ≡ ((if text_eq hash hash' then ok (found, true) else err idempotency_conflict), db))

-- A session that has just been created is found under its key.
abbrev Made : Session → Bytes → Result Error (Session × Bool) × Database → Type 0
Made s hash (err e, db) = Unit
Made s hash (ok (u, true), db) = Unit
Made s hash (ok (u, false), db) = Keyed s.workspace_id s.idempotency_key s.id hash db.rows
