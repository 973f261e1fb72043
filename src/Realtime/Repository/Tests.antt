-- ===== src/Realtime/Repository/Tests.antt =====
-- The theorems on the repository at concrete inputs.
use voice_asset_server.Base.{◌≡◌, refl, none, [], ◌∷◌, ok, err, text_eq, ◌*◌}
use voice_asset_server.Base.Int.{pos, wrap64, ◌+ℤ◌}
use voice_asset_server.Text.{Bytes, codes}
use voice_asset_server.Realtime.{version_conflict, second}
use voice_asset_server.Realtime.Repository.{
  Database, Audit, session_started, update, update_rows, updated_row,
}
use voice_asset_server.Realtime.Repository.Locking.{update-conflict}
use voice_asset_server.Realtime.Samples.{session, session_after_frame, client_id, user_id}

abbrev no_rows : Database
no_rows = record { rows = []; audits = []; enabled_profiles = []; enabled_hotwords = [] }

abbrev digest : Bytes
digest = codes "h"

abbrev started : Audit
started = record { id = client_id; actor_id = user_id; action = session_started }

abbrev one_row : Database
one_row = record {
  rows = (record { session = session; request_hash = [] }) ∷ [];
  audits = [];
  enabled_profiles = [];
  enabled_hotwords = [];
}

abbrev one_row_after : Database
one_row_after = record one_row {
  rows =
      (record {
        session = record session_after_frame { updated_at = 9 * second };
        request_hash = [];
      })
      ∷ [];
}

update_runs :
    update one_row (pos 1) session_after_frame none (9 * second)
    ≡ (ok (record session_after_frame { updated_at = 9 * second }), one_row_after)
unfolding update update_rows updated_row text_eq codes wrap64 ◌+ℤ◌
update_runs = refl

update-conflict_example :
    update one_row_after (pos 1) session_after_frame none (10 * second)
    ≡ (err version_conflict, one_row_after)
update-conflict_example =
    update-conflict one_row one_row_after (pos 1) session_after_frame session_after_frame
      (record session_after_frame { updated_at = 9 * second }) none none (9 * second) (10 * second)
      (tt, tt) refl update_runs
