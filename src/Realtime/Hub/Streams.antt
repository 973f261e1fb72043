-- ===== src/Realtime/Hub/Streams.antt =====
-- The operations of internal/realtime/stream_hub.go that call the provider: `Start`, `Push`, `Finish`,
-- `Close` and `Reap`.
use voice_asset_server.Base.{
  ℕ, ◌+◌, Bool, true, false, not, ◌&&◌, ◌||◌, Option, none, some, List, [], ◌∷◌, ◌++◌, ltb, ◌==◌,
  if◌then◌else◌, length, get_elem?, Result, ok, err,
}
use voice_asset_server.Text.{Bytes}
use voice_asset_server.Realtime.{
  Error, stream_attached, stream_unavailable, stale_stream_lease, internal, Time,
}
use voice_asset_server.Realtime.Protocol.{canonical_uuid}
use voice_asset_server.Realtime.Session.{Session, ProviderResult, is_streaming}
use voice_asset_server.Realtime.Hub.{
  ProviderFrame, TranscriptUpdate, Opened, opened, no_stream, open_failed, StreamFactory,
  ManagedStream, StreamLease, StreamHub, lifetime_ended, lookup, remove, store, is_stale,
}

-- `_, exists := hub.streams[id]`
abbrev pub exists : Option ℕ → Bool
exists none = false
exists (some p) = true

module _ (f : StreamFactory) where
  open f use {
    Stream, open_stream, push as push_stream, finish as finish_stream, close as close_stream,
  }

  -- The stream is closed and its context cancelled.
  abbrev pub closed_entry : ManagedStream Stream → Stream → ManagedStream Stream
  closed_entry e s = record e { stream = s; closed = true; cancelled = true }

  -- Under the second lock of `Start`. A stream that lost the race is closed and dropped.
  register : StreamHub Stream → Session → Stream → Result Error StreamLease × StreamHub Stream
  register hub s stream = if exists (lookup s.id hub.streams) then (err stream_attached, hub) else (
    ok (record { session_id = s.id; lease = 1; entry = length hub.entries }),
    record {
      entries =
          hub.entries
          ++ (record {
            stream = stream;
            cancelled = false;
            expires_at = s.expires_at;
            reconnect_by = 0;
            lease = 1;
            attached = true;
            closed = false;
          })
            ∷ [];
      streams = (s.id, length hub.entries) ∷ hub.streams;
    },
  )

  start_with :
      StreamHub Stream → Session → Opened Stream → Result Error StreamLease × StreamHub Stream
  unfolding register
  start_with hub s (opened stream) = register hub s stream
  start_with hub s no_stream = (err stream_unavailable, hub)
  start_with hub s open_failed = (err internal, hub)

  -- `Start`. `others` is what other goroutines do to the hub while the stream is opened.
  unfoldable pub start :
      StreamHub Stream
      → (StreamHub Stream → StreamHub Stream)
      → Session
      → Time
      → Result Error StreamLease × StreamHub Stream
  unfolding start_with
  start hub others s now =
      if not (canonical_uuid s.id)
        || now == 0
        || not (is_streaming s.state)
        || not (ltb now s.expires_at)
      then (err stream_unavailable, hub)
      else if exists (lookup s.id hub.streams)
      then (err stream_attached, hub)
      else start_with (others hub) s (open_stream s)

  push_entry :
      StreamHub Stream
      → StreamLease
      → ProviderFrame
      → Time
      → Option (ManagedStream Stream)
      → Result Error (Option TranscriptUpdate) × StreamHub Stream
  push_entry hub l frame clock none = (err stale_stream_lease, hub)
  push_entry hub l frame clock (some e) =
      if is_stale l e
      then (err stale_stream_lease, hub)
      else if lifetime_ended e clock
      then (err stream_unavailable, hub)
      else let (r, stream) = push_stream e.stream frame in
        (r, store hub l.entry (record e { stream = stream }))

  -- `Push`
  unfoldable pub push :
      StreamHub Stream
      → StreamLease
      → ProviderFrame
      → Time
      → Result Error (Option TranscriptUpdate) × StreamHub Stream
  unfolding push_entry
  push hub l frame clock = push_entry hub l frame clock (get_elem? hub.entries l.entry)

  -- An error of the provider's `Finish` or of its `Close` is returned.
  abbrev finish_result : Result Error ProviderResult → Bool → Result Error ProviderResult
  finish_result (ok r) false = ok r
  finish_result (ok r) true = err internal
  finish_result (err e) failed = err e

  finish_entry :
      StreamHub Stream
      → StreamLease
      → Option (ManagedStream Stream)
      → Result Error ProviderResult × StreamHub Stream
  finish_entry hub l none = (err stale_stream_lease, hub)
  finish_entry hub l (some e) =
      if is_stale l e
      then (err stale_stream_lease, hub)
      else let (r, stream) = finish_stream e.stream in
        let (failed, done) = close_stream stream in
        (
          finish_result r failed,
          remove (store hub l.entry (closed_entry e done)) l.session_id l.entry,
        )

  -- `Finish`
  unfoldable pub finish :
      StreamHub Stream → StreamLease → Result Error ProviderResult × StreamHub Stream
  unfolding finish_entry
  finish hub l = finish_entry hub l (get_elem? hub.entries l.entry)

  close_entry :
      StreamHub Stream
      → StreamLease
      → Option (ManagedStream Stream)
      → Result Error (Unit {0}) × StreamHub Stream
  close_entry hub l none = (err stale_stream_lease, hub)
  close_entry hub l (some e) =
      if e.closed || not (e.lease == l.lease)
      then (err stale_stream_lease, hub)
      else let (failed, done) = close_stream e.stream in
        (
          (if failed then err internal else ok tt),
          remove (store hub l.entry (closed_entry e done)) l.session_id l.entry,
        )

  -- `Close`; it does not ask for the lease to be attached.
  unfoldable pub close : StreamHub Stream → StreamLease → Result Error (Unit {0}) × StreamHub Stream
  unfolding close_entry
  close hub l = close_entry hub l (get_elem? hub.entries l.entry)

  -- The entry has outlived its session or its reconnect window.
  abbrev pub is_overdue : ManagedStream Stream → Time → Bool
  is_overdue e now =
      not (ltb now e.expires_at)
      || (not e.attached && not (e.reconnect_by == 0) && ltb e.reconnect_by now)

  -- One round of the loop of `Reap`: the hub, and the number of streams closed so far.
  reap_entry :
      StreamHub Stream → ℕ → Time → Bytes → ℕ → Option (ManagedStream Stream) → StreamHub Stream × ℕ
  reap_entry hub reaped now id p none = (hub, reaped)
  reap_entry hub reaped now id p (some e) =
      let (failed, done) = close_stream e.stream in
      if e.closed
      then (remove hub id p, reaped)
      else if is_overdue e now
      then (remove (store hub p (closed_entry e done)) id p, reaped + 1)
      else (hub, reaped)

  reap_from : StreamHub Stream → ℕ → Time → List (Bytes × ℕ) → StreamHub Stream × ℕ
  unfolding reap_entry
  reap_from hub reaped now [] = (hub, reaped)
  reap_from hub reaped now ((id, p) ∷ rest) =
      let (h, n) = reap_entry hub reaped now id p (get_elem? hub.entries p) in
      reap_from h n now rest

  -- `Reap`, over a snapshot of the map.
  unfoldable pub reap : StreamHub Stream → Time → StreamHub Stream × ℕ
  unfolding reap_from
  reap hub now = if now == 0 then (hub, 0) else reap_from hub 0 now hub.streams
