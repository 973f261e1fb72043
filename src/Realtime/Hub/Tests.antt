-- ===== src/Realtime/Hub/Tests.antt =====
-- The theorems on the hub at concrete inputs: a provider whose streams are empty.
use voice_asset_server.Base.{ℕ, ◌*◌, ◌≡◌, refl, arith, false, none, some, [], ◌∷◌, ok, text_eq}
use voice_asset_server.Text.{codes}
use voice_asset_server.Realtime.{second}
use voice_asset_server.Realtime.Hub.{
  StreamFactory, ManagedStream, StreamHub, StreamLease, opened, lookup, resume, store,
}
use voice_asset_server.Realtime.Hub.Streams.{close}
use voice_asset_server.Realtime.Hub.Leases.{resume-IsRefused, close-final, IsRefused, reattached}
use voice_asset_server.Realtime.Samples.{session_id, paused_session}

abbrev silent : StreamFactory
silent = record {
  Stream = Unit;
  open_stream = λ s. opened tt;
  push = λ s frame. (ok none, tt);
  finish = λ s. (ok (record { text = []; language = []; provider_id = [] }), tt);
  close = λ s. (false, tt);
}

abbrev detached : ManagedStream Unit
detached = record {
  stream = tt;
  cancelled = false;
  expires_at = 7000 * second;
  reconnect_by = 97 * second;
  lease = 1;
  attached = false;
  closed = false;
}

abbrev waiting : StreamHub Unit
waiting = record { entries = detached ∷ []; streams = (session_id, 0) ∷ [] }

abbrev lease_numbered : ℕ → StreamLease
lease_numbered n = record { session_id = session_id; lease = n; entry = 0 }

abbrev resumed_hub : StreamHub Unit
resumed_hub = store waiting 0 (reattached detached)

resume_runs :
    resume waiting paused_session (20 * second) (20 * second) ≡ (ok (lease_numbered 2), resumed_hub)
unfolding resume lookup text_eq codes
resume_runs = refl

resume-IsRefused_example :
    IsRefused silent resumed_hub (lease_numbered 1)
    × (lookup session_id resumed_hub.streams ≡ some 0)
resume-IsRefused_example =
    resume-IsRefused silent waiting resumed_hub paused_session (20 * second) (20 * second)
      (lease_numbered 2) (lease_numbered 1) detached resume_runs refl (omega arith) refl refl

registered : lookup session_id waiting.streams ≡ some 0
unfolding lookup text_eq codes
registered = refl

close-final_example :
    let hub' = (close silent waiting (lease_numbered 1)).1 in
    (lookup session_id hub'.streams ≡ none)
    × ((other : StreamLease) → other.entry ≡ 0 → IsRefused silent hub' other)
close-final_example =
    close-final silent waiting (lease_numbered 1) detached refl refl refl registered
