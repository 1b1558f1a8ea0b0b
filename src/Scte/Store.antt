-- ===== src/Scte/Store.antt =====
-- The range in the configuration file (src/worker/worker.cpp, the assignments of
-- `persistHlsScteRangeState` and `readHlsScteRangeState`).
use multi_coder.Prelude.{
  ℕ, List, [], ◌∷◌, All, Bool-cases, inl, inr, is_empty, ap, ◌∙◌, ◌^◌, ◌≤◌, ◌<◌, false, ◌≡◌, ◌≢◌,
  refl, Bytes, beq, some,
}
use multi_coder.Prelude.Int.{ℤ, pos_part, neg_part}
use multi_coder.Strings.{trim_copy, stoll, int_to_string}
use multi_coder.Strings.Numbers.{
  int_to_string-Visible, trim_copy-Visible, signed_number-int_to_string,
}
use multi_coder.Json.{Object}
use multi_coder.Json.Access.{
  get_string-set_string, get_string-set_bool, get_bool-set_bool, get_bool-set_string,
}
use multi_coder.Scte.{
  Now, Break, starts, ends, other, break_of, persist_break, persist_hls_scte_range_state, Range,
  current_range, no_range, read_epoch, read_hls_scte_range_state, write_range, needs_date,
}

abbrev pub IsTrimmed : Bytes → Type 0
IsTrimmed s = trim_copy s ≡ s

abbrev pub IsLong : ℤ → Type 0
IsLong n = (pos_part n < 2 ^ 63) × (neg_part n ≤ 2 ^ 63)

-- The texts have no blanks around them, the two times fit `int64_t`, and a time that is not above 0
-- has no date.
pub record IsStorable (r : Range) : Type 0 where
  pub id : IsTrimmed r.id
  pub event_id : IsTrimmed r.event_id
  pub action_out : IsTrimmed r.action_out
  pub action_in : IsTrimmed r.action_in
  pub cue_out : IsTrimmed r.cue_out
  pub cue_in : IsTrimmed r.cue_in
  pub start_date : IsTrimmed r.start_date_utc
  pub end_date : IsTrimmed r.end_date_utc
  pub start_ms : IsLong r.start_epoch_ms
  pub end_ms : IsLong r.end_epoch_ms
  pub start_dated : needs_date r.start_epoch_ms r.start_date_utc ≡ false
  pub end_dated : needs_date r.end_epoch_ms r.end_date_utc ≡ false

stoll-int_to_string : (n : ℤ) → IsLong n → stoll (trim_copy (int_to_string n)) ≡ some n
unfolding stoll
stoll-int_to_string n h =
    rw (trim_copy-Visible (int_to_string n) (int_to_string-Visible n))
      (signed_number-int_to_string (2 ^ 63) n h.0 h.1)

ruleset access =
    (get_string-set_string, get_string-set_bool, get_bool-set_bool, get_bool-set_string)

-- A range that can be stored is the same when it is written to a configuration file and read back,
-- whatever else the file held.
pub read-write_range :
    (parse_utc : Bytes → ℤ) (o : Object) (r : Range) (iso : Bytes)
    → IsStorable r
    → read_hls_scte_range_state parse_utc (write_range o r iso) ≡ r
unfolding read_hls_scte_range_state write_range read_epoch beq
read-write_range parse_utc o r iso h = simp (
  access,
  h.id,
  h.event_id,
  h.action_out,
  h.action_in,
  h.cue_out,
  h.cue_in,
  h.start_date,
  h.end_date,
  stoll-int_to_string r.start_epoch_ms h.start_ms,
  stoll-int_to_string r.end_epoch_ms h.end_ms,
  h.start_dated,
  h.end_dated,
)

persist_break-read :
    (parse_utc : Bytes → ℤ) (b : Break) (encoder : ℕ) (action event_id cue : Bytes) (now : Now)
    (o : Object) (r : Range)
    → b ≢ other
    → IsStorable (persist_break b encoder action event_id cue now o r).1
    → read_hls_scte_range_state parse_utc (persist_break b encoder action event_id cue now o r).0
      ≡ (persist_break b encoder action event_id cue now o r).1
unfolding persist_break
persist_break-read parse_utc starts encoder action event_id cue now o r n h =
    read-write_range parse_utc o _ now.now_iso h
persist_break-read parse_utc ends encoder action event_id cue now o r n h =
    read-write_range parse_utc o _ now.now_iso h
persist_break-read parse_utc other encoder action event_id cue now o r n h = absurd (n refl)

-- After an action that starts or ends a break, the file reads back as the range in memory, if that
-- range can be stored: its texts have no blanks around them, its two times are in the range of
-- `int64_t`, and it has no start date where the start is not above 0, and no end date where the end
-- is not above 0.
pub persist-read :
    (parse_utc : Bytes → ℤ) (encoder : ℕ) (action event_id cue : Bytes) (now : Now) (o : Object)
    (in_memory : Range)
    → break_of action ≢ other
    → IsStorable
        (persist_hls_scte_range_state parse_utc encoder action event_id cue now o in_memory).1
    → read_hls_scte_range_state parse_utc
        (persist_hls_scte_range_state parse_utc encoder action event_id cue now o in_memory).0
      ≡ (persist_hls_scte_range_state parse_utc encoder action event_id cue now o in_memory).1
unfolding persist_hls_scte_range_state
persist-read parse_utc encoder action event_id cue now o in_memory n h =
    persist_break-read parse_utc (break_of action) encoder action event_id cue now o _ n h

-- A range that the file and the memory agree on is the one that the next action starts from.
current_range-same : (r : Range) → current_range r r ≡ r
current_range-same r = elim (Bool-cases (is_empty r.id)) [ inl e ↦ rw e | inr e ↦ rw e ]

-- A cue's action with its event, its text and the time.
pub record Occurrence : Type 0 where
  pub action : Bytes
  pub event_id : Bytes
  pub cue : Bytes
  pub now : Now

abbrev pub IsNoBreak : Occurrence → Type 0
IsNoBreak a = break_of a.action ≡ other

module _ (parse_utc : Bytes → ℤ) (encoder : ℕ) where
  -- One call, on the file and the range in memory.
  abbrev pub persist : Object × Range → Occurrence → Object × Range
  persist s a =
      persist_hls_scte_range_state parse_utc encoder a.action a.event_id a.cue a.now s.0 s.1

  -- The calls for a list of actions, in order.
  abbrev pub persist_all : Object × Range → List Occurrence → Object × Range
  persist_all s [] = s
  persist_all s (a ∷ rest) = persist_all (persist s a) rest

  -- One that is no break keeps the file and empties the memory.
  persist-other :
      (s : Object × Range) (a : Occurrence) → IsNoBreak a → persist s a ≡ (s.0, no_range)
  unfolding persist_hls_scte_range_state persist_break
  persist-other s a h = rw h

  persist_all-other :
      (o : Object) (quiet : List Occurrence)
      → All IsNoBreak quiet
      → persist_all (o, no_range) quiet ≡ (o, no_range)
  persist_all-other o [] all = refl
  persist_all-other o (a ∷ rest) all =
      rw (persist-other (o, no_range) a all.0) (persist_all-other o rest all.1)

  -- Where the file reads back as the range in memory, it may be emptied.
  persist-emptied :
      (o : Object) (r : Range) (next : Occurrence)
      → read_hls_scte_range_state parse_utc o ≡ r
      → persist (o, no_range) next ≡ persist (o, r) next
  unfolding persist_hls_scte_range_state
  persist-emptied o r next back = rw (back, current_range-same r)

  -- Actions that are no break change nothing of what follows a break: an action that starts or ends
  -- a break, any number of actions that do neither, and then any action leave the same file and the
  -- same range in memory as they do without those between, if the range after the first can be
  -- stored: its texts have no blanks around them, its two times are in the range of `int64_t`, and
  -- it has no start date where the start is not above 0, and no end date where the end is not
  -- above 0.
  pub persist_all-absorbed :
      (s : Object × Range) (first : Occurrence) (quiet : List Occurrence) (next : Occurrence)
      → break_of first.action ≢ other
      → IsStorable (persist s first).1
      → All IsNoBreak quiet
      → persist (persist_all (persist s first) quiet) next ≡ persist (persist s first) next
  persist_all-absorbed s first [] next n h all = refl
  persist_all-absorbed s first (a ∷ rest) next n h all =
      let o = (persist s first).0 in
      let quieted =
        ap (λ t. persist_all t rest) (persist-other (persist s first) a all.0)
        ∙ persist_all-other o rest all.1 in
      ap (λ t. persist t next) quieted
      ∙ (persist-emptied o (persist s first).1 next (
          persist-read parse_utc encoder first.action first.event_id first.cue first.now s.0 s.1 n
            h))
