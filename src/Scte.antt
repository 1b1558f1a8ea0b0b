-- ===== src/Scte.antt =====
-- The SCTE range of an HLS playlist (src/worker/worker.cpp: `HlsScteRangeState` of worker.h,
-- `readHlsScteRangeState`, `persistHlsScteRangeState` and what they call).
pub mod Lifecycle
pub mod Inject
pub mod Store
pub mod DateRange
use multi_coder.Prelude.{
  ℕ, zero, suc, ◌+◌, ◌-◌, ◌*◌, ◌/◌, ◌%◌, ◌^◌, Bool, true, false, not, ◌&&◌, ◌||◌, List, [], ◌∷◌,
  ◌++◌, Option, none, some, Bytes, codes, beq, drop, length, starts_with, is_empty, to_string, leb,
  ltb, ◌==◌, if◌then◌else◌, get_elem?,
}
use multi_coder.Prelude.Int.{ℤ, pos, negsuc, ltb_ℤ, pos_part, ◌-ℤ◌}
use multi_coder.Strings.{
  stoll, trim_copy, is_xdigit, is_alnum, is_space, drop_while, digits_value, int_to_string,
}
use multi_coder.Json.{Object, get_string, get_bool, set_string, set_bool}

-- `HlsScteRangeState`; the two times are `int64_t` milliseconds.
pub record Range : Type 0 where
  pub active : Bool
  pub id : Bytes
  pub event_id : Bytes
  pub action_out : Bytes
  pub action_in : Bytes
  pub cue_out : Bytes
  pub cue_in : Bytes
  pub start_date_utc : Bytes
  pub end_date_utc : Bytes
  pub start_epoch_ms : ℤ
  pub end_epoch_ms : ℤ

abbrev pub no_range : Range
no_range = record {
  active = false;
  id = [];
  event_id = [];
  action_out = [];
  action_in = [];
  cue_out = [];
  cue_in = [];
  start_date_utc = [];
  end_date_utc = [];
  start_epoch_ms = pos 0;
  end_epoch_ms = pos 0;
}

abbrev or_zero : Option ℤ → ℤ
or_zero none = pos 0
or_zero (some n) = n

-- `ms <= 0 && !date.empty()`
abbrev pub needs_date : ℤ → Bytes → Bool
needs_date ms date = not (ltb_ℤ (pos 0) ms) && not (is_empty date)

-- `parseUtcIso8601ToEpochMs` is an argument: its calendar is the C library's.
module _ (parse_utc : Bytes → ℤ) where
  abbrev pub read_field : Object → Bytes → Bytes
  read_field o k = trim_copy (get_string o k [])

  unfoldable pub read_epoch : Object → Bytes → ℤ
  read_epoch o k = or_zero (stoll (trim_copy (get_string o k (codes "0"))))

  abbrev pub dated : ℤ → Bytes → ℤ
  dated ms date = if needs_date ms date then parse_utc date else ms

  unfoldable pub read_hls_scte_range_state : Object → Range
  unfolding read_epoch
  read_hls_scte_range_state o =
      let start_date = read_field o (codes "hlsScteStartDate") in
      let end_date = read_field o (codes "hlsScteEndDate") in
      record {
        active = get_bool o (codes "hlsScteActive") false;
        id = read_field o (codes "hlsScteId");
        event_id = read_field o (codes "hlsScteEventId");
        action_out = read_field o (codes "hlsScteActionOut");
        action_in = read_field o (codes "hlsScteActionIn");
        cue_out = read_field o (codes "hlsScteCueOut");
        cue_in = read_field o (codes "hlsScteCueIn");
        start_date_utc = start_date;
        end_date_utc = end_date;
        start_epoch_ms = dated (read_epoch o (codes "hlsScteStartEpochMs")) start_date;
        end_epoch_ms = dated (read_epoch o (codes "hlsScteEndEpochMs")) end_date;
      }

-- The reading of the clock that `persistHlsScteRangeState` takes, as a number and as text.
pub record Now : Type 0 where
  pub now_ms : ℕ
  pub now_iso : Bytes

abbrev pub range_id : ℕ → Bytes → Bytes
range_id encoder event_id = codes "scte-enc" ++ (to_string encoder ++ (codes "-" ++ event_id))

abbrev or_text : Bytes → Bytes → Bytes
or_text a b = if is_empty a then b else a

abbrev pub start_range : ℕ → Bytes → Bytes → Bytes → Now → Range → Range
start_range encoder action event_id cue now r = record {
  active = true;
  id = range_id encoder event_id;
  event_id = event_id;
  action_out = action;
  action_in = [];
  cue_out = cue;
  cue_in = [];
  start_date_utc = now.now_iso;
  end_date_utc = [];
  start_epoch_ms = pos now.now_ms;
  end_epoch_ms = pos 0;
}

abbrev pub end_range : ℕ → Bytes → Bytes → Bytes → Now → Range → Range
end_range encoder action event_id cue now r = record {
  active = false;
  id = or_text r.id (range_id encoder event_id);
  event_id = or_text r.event_id event_id;
  action_out = or_text r.action_out (codes "START_BREAK");
  action_in = action;
  cue_out = r.cue_out;
  cue_in = or_text cue r.cue_in;
  start_date_utc = or_text r.start_date_utc now.now_iso;
  end_date_utc = now.now_iso;
  start_epoch_ms = if is_empty r.start_date_utc then pos now.now_ms else r.start_epoch_ms;
  end_epoch_ms = pos now.now_ms;
}

pub data Break : Type 0 where
  starts ends other : Break

-- the tests of the action's name
unfoldable pub break_of : Bytes → Break
break_of action =
    if beq action (codes "START_BREAK")
    then starts
    else if beq action (codes "END_BREAK") || beq action (codes "END_BREAK_NOW")
    then ends
    else other

-- the twelve assignments to the file
unfoldable pub write_range : Object → Range → Bytes → Object
write_range o r iso =
    let o1 = set_bool o (codes "hlsScteActive") r.active in
    let o2 = set_string o1 (codes "hlsScteId") r.id in
    let o3 = set_string o2 (codes "hlsScteEventId") r.event_id in
    let o4 = set_string o3 (codes "hlsScteActionOut") r.action_out in
    let o5 = set_string o4 (codes "hlsScteActionIn") r.action_in in
    let o6 = set_string o5 (codes "hlsScteCueOut") r.cue_out in
    let o7 = set_string o6 (codes "hlsScteCueIn") r.cue_in in
    let o8 = set_string o7 (codes "hlsScteStartDate") r.start_date_utc in
    let o9 = set_string o8 (codes "hlsScteEndDate") r.end_date_utc in
    let o10 = set_string o9 (codes "hlsScteStartEpochMs") (int_to_string r.start_epoch_ms) in
    let o11 = set_string o10 (codes "hlsScteEndEpochMs") (int_to_string r.end_epoch_ms) in
    set_string o11 (codes "hlsScteUpdatedUtc") iso

-- The state that an action starts from: the one in memory, or the file's where that has no id.
abbrev pub current_range : Range → Range → Range
current_range in_memory stored = if is_empty in_memory.id then stored else in_memory

-- the two results of the mutator: the file, and `nextState`, which stays empty on its `return`
unfoldable pub persist_break :
    Break → ℕ → Bytes → Bytes → Bytes → Now → Object → Range → Object × Range
persist_break starts encoder action event_id cue now o r =
    let next = start_range encoder action event_id cue now r in
    (write_range o next now.now_iso, next)
persist_break ends encoder action event_id cue now o r =
    let next = end_range encoder action event_id cue now r in (write_range o next now.now_iso, next)
persist_break other encoder action event_id cue now o r = (o, no_range)

unfoldable pub persist_hls_scte_range_state :
    (Bytes → ℤ) → ℕ → Bytes → Bytes → Bytes → Now → Object → Range → Object × Range
unfolding persist_break
persist_hls_scte_range_state parse_utc encoder action event_id cue now o in_memory =
    persist_break (break_of action) encoder action event_id cue now o
      (current_range in_memory (read_hls_scte_range_state parse_utc o))
