-- ===== src/Realtime/Hub/Leases.antt =====
-- Who may use a provider stream: only the holder of the newest lease, and nobody after the end.
use voice_asset_server.Base.{
  ℕ, ◌+◌, ◌%◌, ◌^◌, ◌<◌, ◌≡◌, refl, Bool, true, false, not, ◌||◌, Option, none, some, List, [], ◌∷◌,
  arith, ◌==◌, if◌then◌else◌, get_elem?, get_elem?-set_self, get_elem?-lt, Result, ok, err,
}
use voice_asset_server.Text.{Bytes}
use voice_asset_server.Realtime.{Error, stream_unavailable, stale_stream_lease, Time}
use voice_asset_server.Realtime.Session.{Session}
use voice_asset_server.Realtime.Hub.{
  ProviderFrame, StreamFactory, ManagedStream, StreamLease, StreamHub, lookup, delete, remove,
  store, is_stale, detach, resume, resume_at, resume_entry,
}
use voice_asset_server.Realtime.Hub.Streams.{push, finish, close, closed_entry}

unless_refused :
    {A H : Type 0} {h' : H} {a : A} (e : Error) (h : H) (b : Bool) (x : Result Error A × H)
    → (if b then (err e, h) else x) ≡ (ok a, h')
    → x ≡ (ok a, h')
unless_refused e h true x k = absurd (ground arith)
unless_refused e h false x k = k

same_branches : {A : Type 0} (b : Bool) (x : A) → (if b then x else x) ≡ x
same_branches true x = refl
same_branches false x = refl

lookup-delete : (id : Bytes) (m : List (Bytes × ℕ)) → lookup id (delete id m) ≡ none
unfolding lookup delete
lookup-delete id [] = refl
lookup-delete id ((k, p) ∷ m) = ground (arith, lookup-delete id m)

module _ {S : Type 0} where
  -- The entry as a successful `resume` leaves it.
  abbrev pub reattached : ManagedStream S → ManagedStream S
  reattached e = record e { lease = (e.lease + 1) % 2 ^ 64; attached = true; reconnect_by = 0 }

  -- What a successful `resume` has found and done.
  pub record Resumed (hub : StreamHub S) (s : Session) (now : Time) (l : StreamLease)
      (hub' : StreamHub S) : Type 0 where
    pub old : ManagedStream S
    pub registered : lookup s.id hub.streams ≡ some l.entry
    pub found : get_elem? hub.entries l.entry ≡ some old
    pub open_still : old.closed ≡ false
    pub detached : old.attached ≡ false
    pub in_time : now < old.expires_at
    pub renumbered : l.lease ≡ (old.lease + 1) % 2 ^ 64
    pub stored : hub' ≡ store hub l.entry (reattached old)

  resume_entry-Resumed :
      (hub : StreamHub S) (s : Session) (p : ℕ) (now clock : Time) (o : Option (ManagedStream S))
      (l : StreamLease) (hub' : StreamHub S)
      → resume_entry hub s p now clock o ≡ (ok l, hub')
      → get_elem? hub.entries p ≡ o
      → lookup s.id hub.streams ≡ some p
      → Resumed hub s now l hub'
  unfolding resume_entry
  resume_entry-Resumed hub s p now clock none l hub' h g k = absurd (ground arith)
  resume_entry-Resumed hub s p now clock (some e) l hub' h g k = record {
    old = e;
    registered = ground arith;
    found = ground arith;
    open_still = ground arith;
    detached = ground arith;
    in_time = ground arith;
    renumbered = ground arith;
    stored = ground arith;
  }

  resume_at-Resumed :
      (hub : StreamHub S) (s : Session) (o : Option ℕ) (now clock : Time) (l : StreamLease)
      (hub' : StreamHub S)
      → resume_at hub s now clock o ≡ (ok l, hub')
      → lookup s.id hub.streams ≡ o
      → Resumed hub s now l hub'
  unfolding resume_at
  resume_at-Resumed hub s none now clock l hub' h k = absurd (ground arith)
  resume_at-Resumed hub s (some p) now clock l hub' h k =
      resume_entry-Resumed hub s p now clock _ l hub' h refl k

  resume-Resumed :
      (hub : StreamHub S) (s : Session) (now clock : Time) (l : StreamLease) (hub' : StreamHub S)
      → resume hub s now clock ≡ (ok l, hub')
      → Resumed hub s now l hub'
  unfolding resume
  resume-Resumed hub s now clock l hub' h =
      resume_at-Resumed hub s (lookup s.id hub.streams) now clock l hub'
        (unless_refused stream_unavailable hub _ _ h) refl

  stale_reattached :
      (e : ManagedStream S) (l : StreamLease)
      → e.lease < 2 ^ 64
      → l.lease ≡ e.lease
      → is_stale l (reattached e) ≡ true
  stale_reattached e l h k = ground arith

  remove-registered :
      (hub : StreamHub S) (id : Bytes) (p : ℕ)
      → lookup id hub.streams ≡ some p
      → remove hub id p ≡ record hub { streams = delete id hub.streams }
  unfolding remove
  remove-registered hub id p h = rw h (ground arith)

module _ (f : StreamFactory) where
  open f use {Stream}

  -- No operation of the lease does anything.
  pub record IsRefused (hub : StreamHub Stream) (l : StreamLease) : Type 0 where
    pub no_push :
        (frame : ProviderFrame) (clock : Time)
        → push f hub l frame clock ≡ (err stale_stream_lease, hub)
    pub no_detach : (by : Time) → detach hub l by ≡ (err stale_stream_lease, hub)
    pub no_finish : finish f hub l ≡ (err stale_stream_lease, hub)
    pub no_close : close f hub l ≡ (err stale_stream_lease, hub)

  refuse :
      (hub : StreamHub Stream) (l : StreamLease) (e : ManagedStream Stream)
      → get_elem? hub.entries l.entry ≡ some e
      → (e.closed || not (e.lease == l.lease)) ≡ true
      → IsRefused hub l
  unfolding push detach finish close
  refuse hub l e g h = record {
    no_push = λ frame clock. rw (g, stale) refl;
    no_detach = λ by. rw (g, stale) (same_branches (by == 0) _);
    no_finish = rw (g, stale) refl;
    no_close = rw (g, h) refl;
  }
    where
      stale : is_stale l e ≡ true
      stale = ground arith

  -- When a client resumes, the entry of its session gets a new lease, and the lease that held the entry
  -- before is refused by every operation. Lease numbers are below 2 ^ 64.
  pub resume-IsRefused :
      (hub hub' : StreamHub Stream) (s : Session) (now clock : Time) (l old : StreamLease)
      (e : ManagedStream Stream)
      → resume hub s now clock ≡ (ok l, hub')
      → get_elem? hub.entries l.entry ≡ some e
      → e.lease < 2 ^ 64
      → old.entry ≡ l.entry
      → old.lease ≡ e.lease
      → IsRefused hub' old × (lookup s.id hub'.streams ≡ some l.entry)
  resume-IsRefused hub hub' s now clock l old e h g small p q =
      let r = resume-Resumed hub s now clock l hub' h in
      let same : r.old ≡ e = ground (arith, r.found) in
      rw r.stored (
        refuse _ old (reattached e)
            (rw (p, same)
              (get_elem?-set_self hub.entries l.entry (reattached e)
                (get_elem?-lt hub.entries l.entry g)))
            (ground arith),
        r.registered,
      )

  close_lem :
      (hub : StreamHub Stream) (l : StreamLease) (e : ManagedStream Stream)
      → get_elem? hub.entries l.entry ≡ some e
      → e.closed ≡ false
      → e.lease ≡ l.lease
      → (close f hub l).1
        ≡ remove (store hub l.entry (closed_entry f e (f.close e.stream).1)) l.session_id l.entry
  unfolding close
  close_lem hub l e g open_still same = rw (g, open_still) (ground arith)

  -- When the holder of the current lease closes the stream of a registered session, the session is no
  -- longer registered, so that it cannot be resumed, and every lease on the entry is refused.
  pub close-final :
      (hub : StreamHub Stream) (l : StreamLease) (e : ManagedStream Stream)
      → get_elem? hub.entries l.entry ≡ some e
      → e.closed ≡ false
      → e.lease ≡ l.lease
      → lookup l.session_id hub.streams ≡ some l.entry
      → let hub' = (close f hub l).1 in
        (lookup l.session_id hub'.streams ≡ none)
        × ((other : StreamLease) → other.entry ≡ l.entry → IsRefused hub' other)
  close-final hub l e g open_still same reg =
      rw
        (
          close_lem hub l e g open_still same,
          remove-registered (store hub l.entry (closed_entry f e (f.close e.stream).1)) l.session_id
              l.entry reg,
        )
        (
          lookup-delete l.session_id hub.streams,
          λ other p.
              refuse _ other (closed_entry f e (f.close e.stream).1)
                (rw p
                  (get_elem?-set_self hub.entries l.entry _ (get_elem?-lt hub.entries l.entry g)))
                refl,
        )
