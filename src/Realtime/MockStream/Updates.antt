-- ===== src/Realtime/MockStream/Updates.antt =====
-- The updates of the replayed transcript.
use voice_asset_server.Base.{
  ℕ, zero, suc, ◌+◌, ◌^◌, ◌<◌, ◌≡◌, refl, false, ◌&&◌, some, List, [], ◌∷◌, arith, subst, leb,
  length, get_elem?, drop, All, ok, ◌∙◌, sym,
}
use voice_asset_server.Base.Int.{ℤ, pos, ◌+ℤ◌, wrap64, ◌≤ℤ◌, ◌<ℤ◌}
use voice_asset_server.Text.{valid_string}
use voice_asset_server.Realtime.{max_transcript_bytes}
use voice_asset_server.Realtime.Protocol.{AudioEvent}
use voice_asset_server.Realtime.Session.{inc64}
use voice_asset_server.Realtime.Hub.{ProviderFrame, TranscriptUpdate}
use voice_asset_server.Realtime.MockStream.{
  Segment, MockStream, ended_by, end_of, frame_end, emit, take_in, push, valid_transcript_update,
}

get_elem?-drop :
    (n : ℕ) (gs : List Segment) (k : ℕ) → get_elem? (drop n gs) k ≡ get_elem? gs (n + k)
get_elem?-drop zero gs k = ground arith
get_elem?-drop (suc n) [] k = ground arith
get_elem?-drop (suc n) (g ∷ gs) k = ground (arith, get_elem?-drop n gs k)

-- The last of the segments that are over ends by the time.
ended_by-last :
    (through : ℤ) (gs : List Segment) (k : ℕ)
    → All (λ g. pos 0 ≤ℤ g.end_ms) gs
    → ended_by through gs ≡ suc k
    → (pos 0 ≤ℤ end_of (get_elem? gs k)) × (end_of (get_elem? gs k) ≤ℤ through)
unfolding ended_by
ended_by-last through [] k a h = absurd (ground arith)
ended_by-last through (g ∷ []) k a h = ground arith
ended_by-last through (g ∷ g' ∷ gs) zero a h = ground arith
ended_by-last through (g ∷ g' ∷ gs) (suc k) a h = ground (arith, ended_by-last through (g' ∷ gs) k)

All-drop :
    (n : ℕ) (gs : List Segment)
    → All (λ g. pos 0 ≤ℤ g.end_ms) gs
    → All (λ g. pos 0 ≤ℤ g.end_ms) (drop n gs)
All-drop zero gs a = a
All-drop (suc n) [] a = a
All-drop (suc n) (g ∷ gs) a = All-drop n gs a.1

-- What an update was made of.
record Emits (st : MockStream) (n : ℕ) (u : TranscriptUpdate) (st' : MockStream) : Type 0 where
  more : ℕ
  counted : n ≡ suc more
  revised : u.revision ≡ inc64 st.revision
  through : u.final_through_ms ≡ end_of (get_elem? st.result.segments (st.emitted_segments + more))
  emitted : st'.emitted_segments ≡ st.emitted_segments + suc more
  kept : st'.revision ≡ inc64 st.revision

emit-Emits :
    (st st' : MockStream) (n : ℕ) (u : TranscriptUpdate)
    → emit st n ≡ (some u, st')
    → Emits st n u st'
unfolding emit
emit-Emits st st' zero u h = absurd (ground arith)
emit-Emits st st' (suc more) u h = record {
  more = more;
  counted = refl;
  revised = ground arith;
  through = ground arith;
  emitted = ground arith;
  kept = ground arith;
}

push-take_in :
    (st st' : MockStream) (f : ProviderFrame) (u : TranscriptUpdate)
    → push false st f ≡ (ok (some u), st')
    → take_in st f ≡ (some u, st')
unfolding push
push-take_in st st' f u h = ground arith

-- The update's end is the end of a segment that is over by the end of the frame.
Emits_through :
    (st st' : MockStream) (u : TranscriptUpdate) (end : ℤ)
    → Emits st (ended_by end (drop st.emitted_segments st.result.segments)) u st'
    → All (λ g. pos 0 ≤ℤ g.end_ms) st.result.segments
    → (pos 0 ≤ℤ u.final_through_ms) × (u.final_through_ms ≤ℤ end)
Emits_through st st' u end e a =
    let last =
      ended_by-last end (drop st.emitted_segments st.result.segments) e.more
        (All-drop st.emitted_segments st.result.segments a) e.counted in
    rw (e.through, sym (get_elem?-drop st.emitted_segments st.result.segments e.more)) last

inc64_lt : (n : ℤ) → pos 0 ≤ℤ n → n <ℤ pos (2 ^ 62) → n <ℤ inc64 n
unfolding wrap64 ◌+ℤ◌
inc64_lt n h k = ground arith

check_eq :
    (u : TranscriptUpdate) (last : ℤ) (event : AudioEvent) (duration : ℤ)
    → last <ℤ u.revision
    → pos 0 ≤ℤ u.final_through_ms
    → pos 0 <ℤ duration
    → u.final_through_ms ≤ℤ frame_end event.captured_at_ms duration
    → valid_transcript_update u last event duration
      ≡ (valid_string u.text && leb (length u.text) max_transcript_bytes)
unfolding valid_transcript_update
check_eq u last event duration a b c d = ground arith

-- When the replayed transcript gives an update for a frame, more segments are emitted than before, and
-- of the controller's check of the update only the one of its text is left: the revision and the times
-- always pass. Revisions are below 2 ^ 62, the frame's duration is positive, no segment ends before 0.
pub push-valid_transcript_update :
    (st st' : MockStream) (f : ProviderFrame) (event : AudioEvent) (u : TranscriptUpdate)
    → push false st f ≡ (ok (some u), st')
    → event.captured_at_ms ≡ f.captured_at_ms
    → pos 0 ≤ℤ st.revision
    → st.revision <ℤ pos (2 ^ 62)
    → pos 0 <ℤ st.frame_duration_ms
    → All (λ g. pos 0 ≤ℤ g.end_ms) st.result.segments
    → (valid_transcript_update u st.revision event st.frame_duration_ms
        ≡ (valid_string u.text && leb (length u.text) max_transcript_bytes))
      × (st.emitted_segments < st'.emitted_segments)
      × (st'.revision ≡ u.revision)
unfolding take_in
push-valid_transcript_update st st' f event u h same from room long a =
    let st1 = record st {
      next_sequence = inc64 st.next_sequence;
      last_captured_ms = f.captured_at_ms;
    } in
    let end = frame_end f.captured_at_ms st.frame_duration_ms in
    let e : Emits st1 (ended_by end (drop st.emitted_segments st.result.segments)) u st' =
      emit-Emits st1 st' _ u (push-take_in st st' f u h) in
    let (low, high) = Emits_through st1 st' u end e a in
    (
      check_eq u st.revision event st.frame_duration_ms
          (subst (λ r. st.revision <ℤ r) (sym e.revised) (inc64_lt st.revision from room)) low long
          (subst (λ c. u.final_through_ms ≤ℤ frame_end c st.frame_duration_ms) (sym same) high),
      omega (arith, e.emitted),
      e.kept ∙ sym e.revised,
    )
