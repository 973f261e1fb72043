-- ===== src/Realtime/MockStream/Tests.antt =====
-- The theorem on updates at a concrete input: two segments, of which the first is over.
use voice_asset_server.Base.{◌≡◌, ◌<◌, refl, arith, false, some, [], ◌∷◌, ◌&&◌, leb, length, ok}
use voice_asset_server.Base.Int.{pos, wrap64, ◌+ℤ◌}
use voice_asset_server.Text.{codes, valid_string}
use voice_asset_server.Realtime.{max_transcript_bytes}
use voice_asset_server.Realtime.Hub.{ProviderFrame, TranscriptUpdate}
use voice_asset_server.Realtime.MockStream.{MockStream, push, valid_transcript_update}
use voice_asset_server.Realtime.MockStream.Updates.{push-valid_transcript_update}
use voice_asset_server.Realtime.Samples.{frame}

abbrev opened : MockStream
opened = record {
  result = record {
    language = codes "en";
    text = codes "one two";
    segments =
        record { end_ms = pos 30; text = codes "one" }
        ∷ record { end_ms = pos 90; text = codes "two" }
        ∷ [];
    provider_id = codes "mock";
  };
  frame_duration_ms = pos 20;
  max_frame_bytes = pos 640;
  next_sequence = pos 0;
  last_captured_ms = pos 0;
  emitted_segments = 0;
  revision = pos 0;
  closed = false;
  finished = false;
}

abbrev first_frame : ProviderFrame
first_frame = record { sequence = pos 0; captured_at_ms = pos 20; pcm = 0 ∷ 0 ∷ [] }

abbrev update : TranscriptUpdate
update = record { revision = pos 1; text = codes "one"; final_through_ms = pos 30 }

abbrev opened_after : MockStream
opened_after = record opened {
  next_sequence = pos 1;
  last_captured_ms = pos 20;
  emitted_segments = 1;
  revision = pos 1;
}

push_runs : push false opened first_frame ≡ (ok (some update), opened_after)
unfolding push codes wrap64 ◌+ℤ◌
push_runs = refl

push-valid_transcript_update_example :
    (valid_transcript_update update (pos 0) frame (pos 20)
      ≡ (valid_string update.text && leb (length update.text) max_transcript_bytes))
    × (0 < 1)
    × (pos 1 ≡ pos 1)
push-valid_transcript_update_example =
    push-valid_transcript_update opened opened_after first_frame frame update push_runs refl
      (omega arith) (omega arith) (omega arith) (omega arith)
