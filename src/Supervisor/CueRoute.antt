-- ===== src/Supervisor/CueRoute.antt =====
-- A cue sent to the supervisor (src/supervisor/supervisor_api.cpp, the route `cue` of `handleReq`).
-- `inet_pton` is a parameter.
pub mod Handle
pub mod Sends
pub mod Safe
pub mod Race
pub mod States
pub mod History
use multi_coder.Prelude.{
  ℕ, ◌+◌, ◌*◌, Bool, true, false, not, ◌&&◌, ◌||◌, List, [], ◌∷◌, ◌++◌, Option, none, some, Bytes,
  codes, beq, is_empty, length, leb, ltb, ◌==◌, if◌then◌else◌,
}
use multi_coder.Prelude.Int.{ℤ, pos, negsuc}
use multi_coder.Prelude.Map.{get, put}
use multi_coder.Strings.{trim, lower_copy}
use multi_coder.Strings.Lines.{concat, contains}
use multi_coder.Json.{
  Object, parse_object, get_string, get_int, get_bool, get_raw_value, get_sub_object, set_string,
}
use multi_coder.Net.{is_allowlisted}
use multi_coder.Cue.Rows.{CueCommandRow, rows_or_default, find_matched_action}
use multi_coder.Cue.Gate.{Limits, window, drop_old, is_replay}
use multi_coder.Supervisor.Http.{Response, parse_header, parse_body}
use multi_coder.Supervisor.Host.{
  Host, World, CueRuntimeState, encoder_file, system_path, metadata_runtime_path, read_json_file,
  append_encoder_log, append_logs, write_json, write_metadata_runtime_field,
  send_worker_control_command,
}
use multi_coder.Supervisor.Text.{json, bool_text, error_body, json_escape, or_text, parse_ok}
use multi_coder.Supervisor.Cues.{
  parse_json_string_array, parse_cue_command_rows, extract_cue_value_from_xml,
  extract_cue_value_from_json, extract_loose_field_from_body, extract_cue_value_from_loose_body,
}

-- `encEnabled && listenEnabled`, and the transport
unfoldable pub listen_error : Object → Object → Option (Bytes × Bytes)
listen_error sys scte =
    let transport =
      or_text (lower_copy (get_string scte (codes "listenTransport") (codes "http")))
        (codes "http") in
    if not (get_bool sys (codes "scteGlobalEnabled") true)
    then some (codes "SCTE disabled globally", codes "global SCTE cue handling disabled")
    else if not (get_bool scte (codes "enabled") false)
        || not (get_bool scte (codes "listenEnabled") false)
    then some (codes "SCTE disabled for encoder", codes "per-encoder SCTE listening disabled")
    else if not (beq transport (codes "http") || beq transport (codes "both"))
    then some (codes "HTTP cue ingest disabled", codes "HTTP ingest disabled by transport setting")
    else none

unfoldable pub source_allowed : (Bytes → Option ℕ) → Object → Bytes → Bool
source_allowed inet_pton scte client_ip =
    is_allowlisted inet_pton trim client_ip (get_bool scte (codes "whitelistEnabled") false)
      (parse_json_string_array (get_raw_value scte (codes "whitelistEntries") (codes "[]")))

abbrev at_least : ℕ → ℤ → ℕ
at_least m (pos n) = if ltb n m then m else n
at_least m (negsuc n) = m

-- The limits of the encoder where they override those of the system.
unfoldable pub limits_of : Object → Object → Limits
limits_of sys scte =
    let count = get_int sys (codes "scteGlobalRateLimitCount") (pos 5) in
    let window_sec = get_int sys (codes "scteGlobalRateLimitWindowSec") (pos 10) in
    let dedupe = get_int sys (codes "scteGlobalDedupeSeconds") (pos 30) in
    let own_rate = get_bool scte (codes "overrideRateLimit") false in
    let own_dedupe = get_bool scte (codes "overrideDedupe") false in
    record {
      rate_count =
          at_least 1 (if own_rate then get_int scte (codes "rateLimitCount") count else count);
      rate_window_sec =
          at_least 1
            (if own_rate then get_int scte (codes "rateLimitWindowSec") window_sec else window_sec);
      dedupe_sec =
          at_least 0 (if own_dedupe then get_int scte (codes "dedupeSeconds") dedupe else dedupe);
    }

pub record CueFields : Type 0 where
  pub is_json : Bool
  pub cue : Bytes
  pub event_id : Bytes
  pub payload_token : Bytes

abbrev watch_default : Bytes
watch_default = codes "[\"SCTE\",\"Event_ID\",\"Event_Duration\"]"

json_fields : Object → CueFields
json_fields req = record {
  is_json = true;
  cue = trim (extract_cue_value_from_json req);
  event_id = get_string req (codes "eventId") (get_string req (codes "event_id") []);
  payload_token = get_string req (codes "token") [];
}

text_fields : Object → Bytes → CueFields
text_fields scte body =
    let loose = extract_loose_field_from_body body in
    let tags = parse_json_string_array (get_raw_value scte (codes "watchTags") watch_default) in
    let event_id = or_text (loose (codes "eventId")) (loose (codes "event_id")) in
    record {
      is_json = false;
      cue =
          trim (
            or_text (extract_cue_value_from_loose_body body)
              (extract_cue_value_from_xml body tags));
      event_id = or_text event_id (extract_cue_value_from_xml body (codes "Event_ID" ∷ []));
      payload_token =
          or_text (loose (codes "token")) (extract_cue_value_from_xml body (codes "Token" ∷ []));
    }

unfoldable pub read_cue : Object → Bytes → CueFields
unfolding json_fields text_fields
read_cue scte body =
    if parse_ok body then json_fields (parse_object body) else text_fields scte body

-- `requireToken`: the header's token goes before that of the body.
unfoldable pub token_refused : Object → Bytes → CueFields → Bool
token_refused scte auth_token f =
    let expected = get_string scte (codes "token") [] in
    is_empty expected || not (beq (or_text auth_token f.payload_token) expected)

unfoldable pub value_error : Object → Bytes → CueFields → Bytes
value_error scte auth_token f =
    if is_empty f.cue
    then codes "No cue value found"
    else if get_bool scte (codes "requireEventId") false && is_empty (trim f.event_id)
    then codes "Event ID required"
    else if get_bool scte (codes "requireToken") false && token_refused scte auth_token f
    then codes "Token required/mismatch"
    else []

-- The three tests in turn, each of which may set the reason again.
unfoldable pub delivery_error : Bytes → Bytes → Bool → Bytes
delivery_error delivery content_type is_json =
    let allows_json = beq delivery (codes "json") || beq delivery (codes "both") in
    let allows_xml = beq delivery (codes "xml") || beq delivery (codes "both") in
    let r1 = if is_json && not allows_json then codes "JSON delivery disabled" else [] in
    let r2 = if not is_json && not allows_xml then codes "XML delivery disabled" else r1 in
    if not is_json && (not (contains (codes "xml") content_type) && beq delivery (codes "json"))
    then codes "JSON delivery required"
    else r2

-- `rejectReason`, empty where there is none.
unfoldable pub reject_reason : Object → Bytes → Bytes → CueFields → Bytes
unfolding value_error delivery_error token_refused
reject_reason scte content_type auth_token f =
    let delivery =
      or_text (lower_copy (get_string scte (codes "cueDeliveryType") (codes "json")))
        (codes "json") in
    or_text (value_error scte auth_token f) (delivery_error delivery content_type f.is_json)

unfoldable pub set_cue_state : ℕ → CueRuntimeState → Host → Host
set_cue_state enc cs h = record h { cue_states = λ k. if k == enc then cs else h.cue_states k }
