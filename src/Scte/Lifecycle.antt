-- ===== src/Scte/Lifecycle.antt =====
-- The range over its breaks (src/worker/worker.cpp, `persistHlsScteRangeState`).
use multi_coder.Prelude.{ℕ, true, false, [], ◌≡◌, ◌≢◌, refl, arith, Bytes}
use multi_coder.Prelude.Int.{ℤ, pos, ◌≤ℤ◌}
use multi_coder.Json.{Object}
use multi_coder.Scte.{
  Range, Now, Break, starts, ends, other, break_of, range_id, current_range,
  read_hls_scte_range_state, persist_break, persist_hls_scte_range_state,
}

-- A break that is on has an id and no end; one that is over does not end before it starts; none
-- starts in the future.
pub record IsCoherent (now : ℕ) (r : Range) : Type 0 where
  pub on : r.active ≡ true → (r.id ≢ []) × (r.end_date_utc ≡ []) × (r.end_epoch_ms ≡ pos 0)
  pub over : r.active ≡ false → r.id ≢ [] → r.start_epoch_ms ≤ℤ r.end_epoch_ms
  pub past : r.start_epoch_ms ≤ℤ pos now

range_id-ne : (encoder : ℕ) (event_id : Bytes) → range_id encoder event_id ≢ []
range_id-ne encoder event_id h = cc

persist_break-IsCoherent :
    (b : Break) (encoder : ℕ) (action event_id cue : Bytes) (now : Now) (o : Object) (r : Range)
    → IsCoherent now.now_ms r
    → IsCoherent now.now_ms (persist_break b encoder action event_id cue now o r).1
unfolding persist_break
persist_break-IsCoherent starts encoder action event_id cue now o r h = record {
  on = λ _. (range_id-ne encoder event_id, refl, refl);
  over = λ e _. cc;
  past = omega arith;
}
persist_break-IsCoherent ends encoder action event_id cue now o r h = record {
  on = λ e. cc;
  over = λ _ _. ground arith;
  past = ground arith;
}
persist_break-IsCoherent other encoder action event_id cue now o r h = record {
  on = λ e. cc;
  over = λ _ n. absurd (n refl);
  past = omega arith;
}

-- Every action leaves a coherent range in memory, whatever the event, the cue and the file, if
-- the range that it starts from, in memory or in the file, is coherent at the time.
pub persist-IsCoherent :
    (parse_utc : Bytes → ℤ) (encoder : ℕ) (action event_id cue : Bytes) (now : Now) (o : Object)
    (in_memory : Range)
    → IsCoherent now.now_ms (current_range in_memory (read_hls_scte_range_state parse_utc o))
    → IsCoherent now.now_ms
        (persist_hls_scte_range_state parse_utc encoder action event_id cue now o in_memory).1
unfolding persist_hls_scte_range_state
persist-IsCoherent parse_utc encoder action event_id cue now o in_memory h =
    persist_break-IsCoherent (break_of action) encoder action event_id cue now o _ h
