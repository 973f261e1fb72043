-- ===== src/Realtime/Hub.antt =====
-- internal/realtime/stream_hub.go: the provider streams that are kept for the sessions, and the leases
-- on them. A `*managedStream` is an index into `entries`, so that a lease and the map share the entry.
-- Provider streams are an interface of the program: a parameter. The hub and a lease are not nil.
pub mod Streams
pub mod Leases
mod Tests
use voice_asset_server.Base.{
  ℕ, suc, ◌+◌, ◌%◌, ◌^◌, Bool, true, false, not, ◌&&◌, ◌||◌, Option, none, some, List, [], ◌∷◌,
  ◌++◌, ltb, leb, ◌==◌, if◌then◌else◌, length, get_elem?, set, text_eq, Result, ok, err,
}
use voice_asset_server.Base.Int.{ℤ}
use voice_asset_server.Text.{Bytes}
use voice_asset_server.Realtime.{
  Error, stream_attached, stream_unavailable, stale_stream_lease, internal, Time,
}
use voice_asset_server.Realtime.Protocol.{canonical_uuid}
use voice_asset_server.Realtime.Session.{Session, ProviderResult, is_streaming, is_interrupted}

pub record ProviderFrame : Type 0 where
  pub sequence : ℤ
  pub captured_at_ms : ℤ
  pub pcm : Bytes

pub record TranscriptUpdate : Type 0 where
  pub revision : ℤ
  pub text : Bytes
  pub final_through_ms : ℤ

-- What `Open` returns: a stream, no stream, or an error.
pub data Opened (S : Type 0) : Type 0 where
  opened : S → Opened S
  no_stream : Opened S
  open_failed : Opened S

-- `StreamFactory` and `ProviderStream`. Each call returns the stream's next state; `close` says
-- whether it failed.
pub record StreamFactory : Type 1 where
  pub Stream : Type 0
  pub open_stream : Session → Opened Stream
  pub push : Stream → ProviderFrame → Result Error (Option TranscriptUpdate) × Stream
  pub finish : Stream → Result Error ProviderResult × Stream
  pub close : Stream → Bool × Stream

-- `managedStream`. `cancelled` is set by `cancel`; the context also ends at `expires_at`. A
-- `reconnect_by` of 0 is the zero time.
pub record ManagedStream (S : Type 0) : Type 0 where
  pub stream : S
  pub cancelled : Bool
  pub expires_at : Time
  pub reconnect_by : Time
  pub lease : ℕ
  pub attached : Bool
  pub closed : Bool

pub record StreamLease : Type 0 where
  pub session_id : Bytes
  pub lease : ℕ
  pub entry : ℕ

-- `lifetimeCtx.Err() != nil`, when the context's timer reads `clock`.
abbrev pub lifetime_ended : {S : Type 0} → ManagedStream S → Time → Bool
lifetime_ended e clock = e.cancelled || leb e.expires_at clock

pub record StreamHub (S : Type 0) : Type 0 where
  pub entries : List (ManagedStream S)
  pub streams : List (Bytes × ℕ)

-- `hub.streams[id]`
unfoldable pub lookup : Bytes → List (Bytes × ℕ) → Option ℕ
lookup id [] = none
lookup id ((k, p) ∷ m) = if text_eq k id then some p else lookup id m

-- `delete(hub.streams, id)`
unfoldable pub delete : Bytes → List (Bytes × ℕ) → List (Bytes × ℕ)
delete id [] = []
delete id ((k, p) ∷ m) = let rest = delete id m in if text_eq k id then rest else (k, p) ∷ rest

abbrev points_to : ℕ → Option ℕ → Bool
points_to p none = false
points_to p (some q) = p == q

module _ {S : Type 0} where
  -- `remove`
  unfoldable pub remove : StreamHub S → Bytes → ℕ → StreamHub S
  remove hub id p =
      if points_to p (lookup id hub.streams)
      then record hub { streams = delete id hub.streams }
      else hub

  abbrev pub store : StreamHub S → ℕ → ManagedStream S → StreamHub S
  store hub p e = record hub { entries = set hub.entries p e }

  -- `NewStreamHub`
  abbrev pub new_stream_hub : StreamHub S
  new_stream_hub = record { entries = []; streams = [] }

  -- `Size`
  abbrev pub size : StreamHub S → ℕ
  size hub = length hub.streams

  -- The entry cannot be used under this lease.
  abbrev pub is_stale : StreamLease → ManagedStream S → Bool
  is_stale l e = e.closed || not e.attached || not (e.lease == l.lease)

  -- `Detach`, once the entry is locked.
  detach_entry :
      StreamHub S
      → StreamLease
      → Time
      → Option (ManagedStream S)
      → Result Error (Unit {0}) × StreamHub S
  detach_entry hub l reconnect_by none = (err stale_stream_lease, hub)
  detach_entry hub l reconnect_by (some e) =
      if is_stale l e then (err stale_stream_lease, hub) else (
        ok tt,
        store hub l.entry (record e {
          attached = false;
          reconnect_by = if ltb e.expires_at reconnect_by then e.expires_at else reconnect_by;
        }),
      )

  -- `Detach`
  unfoldable pub detach : StreamHub S → StreamLease → Time → Result Error (Unit {0}) × StreamHub S
  unfolding detach_entry
  detach hub l reconnect_by =
      if reconnect_by == 0
      then (err stale_stream_lease, hub)
      else detach_entry hub l reconnect_by (get_elem? hub.entries l.entry)

  resume_entry :
      StreamHub S
      → Session
      → ℕ
      → Time
      → Time
      → Option (ManagedStream S)
      → Result Error StreamLease × StreamHub S
  resume_entry hub s p now clock none = (err stream_unavailable, hub)
  resume_entry hub s p now clock (some e) =
      if e.closed
        || lifetime_ended e clock
        || not (ltb now e.expires_at)
        || (not (e.reconnect_by == 0) && ltb e.reconnect_by now)
      then (err stream_unavailable, hub)
      else if e.attached
      then (err stream_attached, hub)
      else let next = (e.lease + 1) % 2 ^ 64 in
        (
          ok (record { session_id = s.id; lease = next; entry = p }),
          store hub p (record e { lease = next; attached = true; reconnect_by = 0 }),
        )

  resume_at :
      StreamHub S → Session → Time → Time → Option ℕ → Result Error StreamLease × StreamHub S
  unfolding resume_entry
  resume_at hub s now clock none = (err stream_unavailable, hub)
  resume_at hub s now clock (some p) = resume_entry hub s p now clock (get_elem? hub.entries p)

  -- `Resume`; the context's timer reads `clock`.
  unfoldable pub resume :
      StreamHub S → Session → Time → Time → Result Error StreamLease × StreamHub S
  unfolding resume_at
  resume hub s now clock =
      if now == 0 || not (is_interrupted s.state || is_streaming s.state)
      then (err stream_unavailable, hub)
      else resume_at hub s now clock (lookup s.id hub.streams)
