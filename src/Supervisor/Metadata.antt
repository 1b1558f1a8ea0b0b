-- ===== src/Supervisor/Metadata.antt =====
-- The metadata listener of an encoder (src/supervisor/supervisor_api.cpp, the routes
-- `metadata/start`, `metadata/stop`, `metadata/connect` and `metadata/status` of `handleReq`).
use multi_coder.Prelude.{
  ℕ, ◌+◌, ◌-◌, ◌*◌, Bool, false, not, [], ◌∷◌, ◌++◌, Option, none, some, Bytes, codes, beq,
  is_empty, to_string, if◌then◌else◌,
}
use multi_coder.Prelude.Int.{ℤ, pos}
use multi_coder.Strings.{int_to_string, lower_copy}
use multi_coder.Strings.Lines.{concat}
use multi_coder.Json.{Object, parse_object, get_string, get_int, get_bool, set_string, set_int}
use multi_coder.Supervisor.Http.{Response}
use multi_coder.Supervisor.Host.{
  Host, World, encoder_file, runtime_state_path, metadata_runtime_path, read_json_file, append_logs,
  write_json, write_runtime_state,
}
use multi_coder.Supervisor.Text.{json, bool_text, error_body, json_escape}
use multi_coder.Supervisor.Input.{in_port_range}

abbrev metadata_path : ℕ → Bytes
metadata_path enc = encoder_file enc (codes "metadata.json")

pub record Source : Type 0 where
  pub mode : Bytes
  pub listen_port : ℤ
  pub pull_host : Bytes
  pub pull_port : ℤ

-- `if (mode != "listen" && mode != "pull") mode = "listen";`
abbrev known_mode : Bytes → Bytes
known_mode mode = if beq mode (codes "pull") then codes "pull" else codes "listen"

abbrev default_port : ℕ → ℤ
default_port enc = pos (9000 + (enc - 1) * 10)

unfoldable pub read_source : ℕ → Object → Object → Source
read_source enc req cfg = record {
  mode =
      known_mode (
        lower_copy
          (get_string req (codes "mode") (get_string cfg (codes "mode") (codes "listen"))));
  listen_port =
      get_int req (codes "listenPort") (get_int cfg (codes "listenPort") (default_port enc));
  pull_host =
      get_string req (codes "dataConnectHost") (get_string cfg (codes "dataConnectHost") []);
  pull_port = get_int req (codes "dataConnectPort") (get_int cfg (codes "dataConnectPort") (pos 0));
}

unfoldable pub source_error : Source → Bytes
source_error s =
    if beq s.mode (codes "listen")
    then (if in_port_range s.listen_port
        then []
        else codes "Listen mode requires a valid listen port (1-65535)")
    else if is_empty s.pull_host
    then codes "Pull mode requires Data Connect Host/IP"
    else if in_port_range s.pull_port
    then []
    else codes "Pull mode requires Data Connect Port (1-65535)"

set_source : Source → Object → Object
set_source s cfg =
    set_int
      (set_string
        (set_int (set_string cfg (codes "mode") s.mode) (codes "listenPort") s.listen_port)
        (codes "dataConnectHost") s.pull_host)
      (codes "dataConnectPort") s.pull_port

requested_text : Bool → Source → Bytes
requested_text start s =
    if not start
    then codes "Metadata stop requested"
    else if beq s.mode (codes "listen")
    then codes "Metadata start requested in LISTEN mode on port " ++ int_to_string s.listen_port
    else concat (
        codes "Metadata start requested in PULL mode from "
        ∷ s.pull_host
        ∷ codes ":"
        ∷ int_to_string s.pull_port
        ∷ [])

module _ (w : World) where
  -- The configuration is written first, then the runtime state.
  store_source : ℕ → Bool → Source → Object → Host → Host
  unfolding set_source
  store_source enc start s cfg h =
      let h1 = write_json w (metadata_path enc) (set_source s cfg) h in
      let control =
        get_bool (read_json_file h1 (runtime_state_path enc)) (codes "controlListenerRunning")
          false in
      write_runtime_state w enc control start h1

  -- `metadata/start` and `metadata/stop`: only a start is checked.
  unfoldable pub metadata_start : Bool → ℕ → Bytes → Host → Response × Host
  unfolding store_source requested_text source_error read_source
  metadata_start start enc body h =
      let cfg = read_json_file h (metadata_path enc) in
      let s = read_source enc (parse_object body) cfg in
      let err = if start then source_error s else [] in
      if is_empty err
      then (
        json 200 (
            concat (
              codes "{\"ok\":true,\"listener\":\"metadata\",\"state\":\""
              ∷ (if start then codes "running" else codes "stopped")
              ∷ codes "\",\"mode\":\""
              ∷ s.mode
              ∷ codes "\"}"
              ∷ [])),
        append_logs enc (requested_text start s) (store_source enc start s cfg h),
      )
      else (json 400 (error_body err), append_logs enc (codes "Metadata start FAILED: " ++ err) h)

-- `metadata/connect`; `test` is `testTcpConnect`, with its error.
metadata_tested : ℕ → Bytes → Option Bytes → Host → Response × Host
metadata_tested enc target none h = (
  json 200 (codes "{\"ok\":true,\"status\":\"success\"}"),
  append_logs enc (codes "Metadata test connect SUCCESS to " ++ target) h,
)
metadata_tested enc target (some err) h = (
  json 200 (
      concat (
        codes "{\"ok\":false,\"status\":\"failed\",\"error\":\""
        ∷ json_escape err
        ∷ codes "\"}"
        ∷ [])),
  append_logs enc
      (concat
        (codes "Metadata test connect FAILED to " ∷ target ∷ codes " (" ∷ err ∷ codes ")" ∷ []))
      h,
)

unfoldable pub metadata_connect : (Bytes → ℤ → Option Bytes) → ℕ → Bytes → Host → Response × Host
unfolding metadata_tested
metadata_connect test enc body h =
    let req = parse_object body in
    let host = get_string req (codes "host") [] in
    let port = get_int req (codes "port") (pos 0) in
    let target = concat (host ∷ codes ":" ∷ int_to_string port ∷ []) in
    metadata_tested enc target (test host port)
      (append_logs enc (codes "Metadata test connect requested to " ++ target) h)

number_member : Object → Bytes → Bytes
number_member o k =
    concat (codes ",\"" ∷ k ∷ codes "\":" ∷ int_to_string (get_int o k (pos 0)) ∷ [])

text_member : Object → Bytes → Bytes
text_member o k =
    concat (codes ",\"" ∷ k ∷ codes "\":\"" ∷ json_escape (get_string o k []) ∷ codes "\"" ∷ [])

unfoldable pub metadata_status : ℕ → Host → Response
unfolding number_member text_member
metadata_status enc h =
    let runtime = read_json_file h (runtime_state_path enc) in
    let cfg = read_json_file h (metadata_path enc) in
    let rt = read_json_file h (metadata_runtime_path enc) in
    let running = get_bool runtime (codes "metadataListenerRunning") false in
    json 200 (
      concat (
        codes "{\"listenerRunning\":"
        ∷ bool_text running
        ∷ codes ",\"mode\":\""
        ∷ json_escape (get_string cfg (codes "mode") (codes "listen"))
        ∷ codes "\""
        ∷ codes ",\"listenPort\":"
        ∷ int_to_string (get_int cfg (codes "listenPort") (default_port enc))
        ∷ text_member cfg (codes "dataConnectHost")
        ∷ number_member cfg (codes "dataConnectPort")
        ∷ number_member rt (codes "eventCount")
        ∷ number_member rt (codes "dispatchQueueDepth")
        ∷ number_member rt (codes "metadataDispatchQueueDepth")
        ∷ number_member rt (codes "sidecarDispatchQueueDepth")
        ∷ number_member rt (codes "metadataDispatchDropped")
        ∷ number_member rt (codes "sidecarDispatchDropped")
        ∷ text_member rt (codes "lastPayloadUtc")
        ∷ text_member rt (codes "lastRawXml")
        ∷ text_member rt (codes "lastFormattedAAC")
        ∷ text_member rt (codes "lastFormattedMP3")
        ∷ text_member rt (codes "lastFormattedHLS")
        ∷ text_member rt (codes "lastFormattedSRT")
        ∷ text_member rt (codes "lastScteReceived")
        ∷ text_member rt (codes "lastScteSent")
        ∷ text_member rt (codes "lastScteRejected")
        ∷ codes ",\"cueEndpoint\":\"/api/encoder/"
        ∷ to_string enc
        ∷ codes "/cue\"}"
        ∷ []))
