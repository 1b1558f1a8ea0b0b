-- ===== src/Cue/Handler.antt =====
-- One cue message (src/worker/worker.cpp, the lambda `processCueMessage` of `listenCueTcpPort`).
-- The clock's reading is an argument. `metadata_runtime.json` is the object that it holds; log
-- lines are left out.
pub mod Checks
use multi_coder.Prelude.{
  ℕ, ◌+◌, Bool, true, false, not, ◌&&◌, ◌||◌, List, [], ◌∷◌, ◌++◌, Option, none, some, Bytes, codes,
  beq, find_byte, is_empty, is_some, if◌then◌else◌,
}
use multi_coder.Prelude.Int.{ℤ, pos, pos_part}
use multi_coder.Strings.{trim_copy, lower_copy, clamp_int}
use multi_coder.Json.{Object, parse, get_string, get_int, get_bool, get_raw_value, set_string}
use multi_coder.Xml.{xml_field, extract_cue_from_xml}
use multi_coder.Net.{is_allowlisted}
use multi_coder.Cue.Rows.{
  CueCommandRow, parse_cue_command_rows, rows_or_default, find_matched_action, json_array_strings,
}
use multi_coder.Cue.Gate.{CueRuntime, Limits, Verdict, rate_limited, replayed, accepted, gate}

-- what `lastScteRejected` is set to
pub data Reason : Type 0 where
  delivery_type empty_cue event_id_required token_mismatch allowlist rate_limit dedupe : Reason
  no_match passthrough_off unknown_action : Reason

abbrev pub reason_text : Reason → Bytes
reason_text delivery_type = codes "delivery-type"
reason_text empty_cue = codes "empty-cue"
reason_text event_id_required = codes "event-id-required"
reason_text token_mismatch = codes "token-mismatch"
reason_text allowlist = codes "allowlist"
reason_text rate_limit = codes "rate-limit"
reason_text dedupe = codes "dedupe"
reason_text no_match = codes "no-match"
reason_text passthrough_off = codes "passthrough-off"
reason_text unknown_action = codes "unknown-action"

-- `cueValue`, `eventId`, `token`, and how the message was read
pub record Fields : Type 0 where
  pub cue_value : Bytes
  pub event_id : Bytes
  pub token : Bytes
  pub is_json : Bool
  pub is_xml : Bool

abbrev cue_keys : List Bytes
cue_keys =
    codes "command"
    ∷ codes "cue"
    ∷ codes "action"
    ∷ codes "event"
    ∷ codes "eventName"
    ∷ codes "scte"
    ∷ codes "message"
    ∷ codes "name"
    ∷ []

-- The first key with a value that is not empty once trimmed.
first_value : Object → List Bytes → Bytes
first_value req [] = []
first_value req (k ∷ ks) =
    let v = trim_copy (get_string req k []) in if is_empty v then first_value req ks else v

abbrev default_tags : List Bytes
default_tags = codes "SCTE" ∷ codes "Event_ID" ∷ codes "Event_Duration" ∷ []

or_default_tags : List Bytes → List Bytes
or_default_tags [] = default_tags
or_default_tags (t ∷ ts) = t ∷ ts

watch_tags : Object → List Bytes
watch_tags scte = or_default_tags (
    json_array_strings
      (get_raw_value scte (codes "watchTags") (codes "[\"SCTE\",\"Event_ID\",\"Event_Duration\"]")))

json_fields : Object → Fields
json_fields req = record {
  cue_value = first_value req cue_keys;
  event_id = trim_copy (get_string req (codes "eventId") (get_string req (codes "event_id") []));
  token = trim_copy (get_string req (codes "token") []);
  is_json = true;
  is_xml = false;
}

text_fields : Object → Bytes → Fields
text_fields scte msg =
    if is_some (find_byte b'<' msg)
    then record {
      cue_value = extract_cue_from_xml msg (watch_tags scte);
      event_id = trim_copy (xml_field msg (codes "Event_ID" ∷ []));
      token = trim_copy (xml_field msg (codes "Token" ∷ []));
      is_json = false;
      is_xml = true;
    }
    else record {
      cue_value = trim_copy msg;
      event_id = [];
      token = [];
      is_json = false;
      is_xml = false;
    }

parsed_fields : Object → Bytes → Option (Bool × Object) → Fields
parsed_fields scte msg none = text_fields scte msg
parsed_fields scte msg (some (is_json, req)) =
    if is_json then json_fields req else text_fields scte msg

unfoldable pub read_fields : Object → Bytes → Fields
unfolding parsed_fields json_fields text_fields first_value watch_tags or_default_tags
read_fields scte msg = parsed_fields scte msg (parse msg)

-- `deliveryType`, with its default for an empty text
abbrev delivery_type_of : Object → Bytes
delivery_type_of scte =
    let t = lower_copy (trim_copy (get_string scte (codes "cueDeliveryType") (codes "json"))) in
    if is_empty t then codes "json" else t

unfoldable pub delivery_allowed : Object → Fields → Bool
delivery_allowed scte f =
    let t = delivery_type_of scte in
    let both = beq t (codes "both") in
    not (
      f.is_json && not (beq t (codes "json") || both)
      || f.is_xml && not (beq t (codes "xml") || both))

-- The limits from the encoder's settings or the system's, clamped.
unfoldable pub limits_of : Object → Object → Limits
limits_of scte sys =
    let count = get_int sys (codes "scteGlobalRateLimitCount") (pos 5) in
    let window = get_int sys (codes "scteGlobalRateLimitWindowSec") (pos 10) in
    let gap = get_int sys (codes "scteGlobalDedupeSeconds") (pos 30) in
    let own_rate = get_bool scte (codes "overrideRateLimit") false in
    let own_dedupe = get_bool scte (codes "overrideDedupe") false in
    let rate_count = if own_rate then get_int scte (codes "rateLimitCount") count else count in
    let rate_window =
      if own_rate then get_int scte (codes "rateLimitWindowSec") window else window in
    let dedupe = if own_dedupe then get_int scte (codes "dedupeSeconds") gap else gap in
    record {
      rate_count = pos_part (clamp_int rate_count (pos 1) (pos 10000));
      rate_window_sec = pos_part (clamp_int rate_window (pos 1) (pos 3600));
      dedupe_sec = pos_part (clamp_int dedupe (pos 0) (pos 86400));
    }

-- `expectedToken.empty() || token != expectedToken`
unfoldable pub token_refused : Object → Fields → Bool
token_refused scte f =
    let expected = trim_copy (get_string scte (codes "token") []) in
    is_empty expected || not (beq f.token expected)

-- The state that the handler changes, with what `executeControlCommand` works on.
pub record CueState (S : Type 0) : Type 0 where
  pub worker : S
  pub gate_runtime : CueRuntime
  pub runtime_file : Object

-- `executeControlCommand` answers whether it knew the action; it gets the action, the event's id
-- and the cue. `inet_pton` is as in Net.
module _ {S : Type 0} (inet_pton : Bytes → Option ℕ)
    (execute_control_command : Bytes → Bytes → Bytes → S → Bool × S) where
  write_scte_runtime : Bytes → Bytes → CueState S → CueState S
  write_scte_runtime key v st = record st { runtime_file = set_string st.runtime_file key v }

  reject : Reason → CueState S → CueState S
  reject r st = write_scte_runtime (codes "lastScteRejected") (reason_text r) st

  executed : Bytes → CueState S → Bool × S → CueState S
  executed action st (true, w) =
      write_scte_runtime (codes "lastScteSent") action (record st { worker = w })
  executed action st (false, w) = reject unknown_action (record st { worker = w })

  -- from the lookup of the action on
  unfoldable pub dispatch_cue : Object → Fields → CueState S → CueState S
  unfolding executed reject write_scte_runtime
  dispatch_cue scte f st =
      let rows =
        rows_or_default
          (parse_cue_command_rows (get_raw_value scte (codes "commandRows") (codes "[]"))) in
      let received = write_scte_runtime (codes "lastScteReceived") f.cue_value st in
      let action = find_matched_action f.cue_value rows in
      let mode =
        lower_copy (trim_copy (get_string scte (codes "passthroughMode") (codes "pass-through"))) in
      if is_empty action
      then reject no_match received
      else if beq mode (codes "off")
      then reject passthrough_off received
      else executed action received
          (execute_control_command action f.event_id f.cue_value st.worker)

  gated : Object → Fields → CueState S → Verdict × CueRuntime → CueState S
  gated scte f st (rate_limited, rt) = reject rate_limit (record st { gate_runtime = rt })
  gated scte f st (replayed, rt) = reject dedupe (record st { gate_runtime = rt })
  gated scte f st (accepted, rt) = dispatch_cue scte f (record st { gate_runtime = rt })

  -- the checks in the code's order, and what they let through
  unfoldable pub check_cue : Object → Object → ℕ → Bytes → Fields → CueState S → CueState S
  unfolding gated reject write_scte_runtime
  check_cue scte sys now peer_ip f st =
      if not (delivery_allowed scte f)
      then reject delivery_type st
      else if is_empty f.cue_value
      then reject empty_cue st
      else if get_bool scte (codes "requireEventId") false && is_empty f.event_id
      then reject event_id_required st
      else if get_bool scte (codes "requireToken") false && token_refused scte f
      then reject token_mismatch st
      else if not (
          is_allowlisted inet_pton trim_copy peer_ip
            (get_bool scte (codes "whitelistEnabled") false)
            (json_array_strings (get_raw_value scte (codes "whitelistEntries") (codes "[]"))))
      then reject allowlist st
      else gated scte f st (gate (limits_of scte sys) now f.cue_value st.gate_runtime)

  unfoldable pub process_cue_message : Object → Object → ℕ → Bytes → Bytes → CueState S → CueState S
  unfolding check_cue
  process_cue_message scte sys now peer_ip msg st =
      check_cue scte sys now peer_ip (read_fields scte msg) st
