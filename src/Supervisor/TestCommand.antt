-- ===== src/Supervisor/TestCommand.antt =====
-- A command sent for a test (src/supervisor/supervisor_api.cpp, `buildSctePayload` and the route
-- `test-command` of `handleReq`).
use multi_coder.Prelude.{
  ℕ, Bool, ◌||◌, [], ◌∷◌, ◌++◌, map, length, Option, none, some, Bytes, codes, beq, is_empty,
  to_string, ◌==◌, if◌then◌else◌,
}
use multi_coder.Strings.{trim, lower_copy}
use multi_coder.Strings.Lines.{concat}
use multi_coder.Json.{parse_object, get_string}
use multi_coder.Xml.{xml_escape}
use multi_coder.Supervisor.Http.{Response, crlf}
use multi_coder.Supervisor.Host.{Host, append_encoder_log, append_logs}
use multi_coder.Supervisor.Text.{json, error_body, json_escape}
use multi_coder.Supervisor.Targets.{
  OutboundTarget, TargetError, TargetResult, host_required, invalid_port, invalid_host_port,
  host_empty, port_required, parsed_target, target_error, parse_target_host_port,
}

-- the content type and the payload
unfoldable pub build_scte_payload : Bytes → Bytes → Bytes × Bytes
build_scte_payload cmd format =
    let fmt = lower_copy format in
    if beq fmt (codes "plain")
    then (codes "text/plain", cmd)
    else if beq fmt (codes "xml")
    then (
      codes "application/xml",
      concat (codes "<cue><command>" ∷ xml_escape cmd ∷ codes "</command></cue>" ∷ []),
    )
    else (
      codes "application/json",
      concat (codes "{\"command\":\"" ∷ json_escape cmd ∷ codes "\"}" ∷ []),
    )

abbrev error_text : TargetError → Bytes
error_text host_required = codes "destination host/url is required"
error_text invalid_port = codes "invalid port"
error_text invalid_host_port = codes "invalid destination port in host/url"
error_text host_empty = codes "destination host is empty"
error_text port_required = codes "destination port is required"

pub data Protocol : Type 0 where
  tcp udp http : Protocol

-- `if (protocol != "tcp" && protocol != "udp" && protocol != "http") protocol = "tcp";`
abbrev protocol_of : Bytes → Protocol
protocol_of s = if beq s (codes "udp") then udp else if beq s (codes "http") then http else tcp

abbrev pub protocol_text : Protocol → Bytes
protocol_text tcp = codes "tcp"
protocol_text udp = codes "udp"
protocol_text http = codes "http"

-- What `dispatchTcpLine`, `dispatchUdpLine` and `dispatchHttpPost` put on the wire.
unfoldable pub wire : Protocol → OutboundTarget → Bytes → Bytes → Bytes
wire tcp target content_type payload = payload ++ 10 ∷ []
wire udp target content_type payload = payload
wire http target content_type payload = concat (
    codes "POST "
    ∷ (if is_empty target.path then codes "/" else target.path)
    ∷ codes " HTTP/1.1"
    ∷ crlf
    ∷ codes "Host: "
    ∷ target.host
    ∷ crlf
    ∷ codes "Content-Type: "
    ∷ content_type
    ∷ crlf
    ∷ codes "Content-Length: "
    ∷ to_string (length payload)
    ∷ crlf
    ∷ codes "Connection: close"
    ∷ crlf
    ∷ crlf
    ∷ payload
    ∷ [])

-- The payload, its content type and the format that is logged.
unfoldable pub prepared : Bool → Bytes → Bytes → Bytes × Bytes × Bytes
unfolding build_scte_payload
prepared is_scte cmd format =
    let (content_type, payload) = build_scte_payload cmd format in
    let known =
      beq format (codes "plain") || beq format (codes "json") || beq format (codes "xml") in
    if is_scte
    then (content_type, payload, if known then format else codes "json")
    else (codes "text/plain", cmd, codes "plain")

abbrev destination : Protocol → OutboundTarget → Bytes
destination http t = concat (t.host ∷ codes ":" ∷ to_string t.port ∷ t.path ∷ [])
destination tcp t = concat (t.host ∷ codes ":" ∷ to_string t.port ∷ [])
destination udp t = concat (t.host ∷ codes ":" ∷ to_string t.port ∷ [])

one_line : Bytes → Bytes
one_line s = map (λ c. if c == 13 || c == 10 then 32 else c) s

dispatched : ℕ → Bytes → Bytes → Option Bytes → Host → Response × Host
dispatched enc tag to none h = (
  json 200 (codes "{\"ok\":true,\"dispatched\":true}"),
  append_logs enc
      (concat (codes "[Test Command] " ∷ tag ∷ codes " dispatch=success destination=" ∷ to ∷ [])) h,
)
dispatched enc tag to (some err) h = (
  json 200 (
      concat (
        codes "{\"ok\":false,\"dispatched\":false,\"error\":\""
        ∷ json_escape err
        ∷ codes "\"}"
        ∷ [])),
  append_logs enc
      (concat (
        codes "[Test Command] "
        ∷ tag
        ∷ codes " dispatch=failed destination="
        ∷ to
        ∷ codes " reason="
        ∷ err
        ∷ []))
      h,
)

-- The connection and the sending of the bytes, with its error.
module _ (send : Protocol → Bytes → ℕ → Bytes → Option Bytes) where
  send_command : ℕ → Bool → Protocol → Bytes → Bytes → TargetResult → Host → Response × Host
  unfolding dispatched one_line prepared wire
  send_command enc is_scte protocol cmd format (target_error e) h = (
    json 400 (error_body (error_text e)),
    append_encoder_log enc
        (concat (
          codes "[Test Command] ["
          ∷ (if is_scte then codes "SCTE-35 Command" else codes "Encoder Control")
          ∷ codes "] dispatch=failed reason="
          ∷ error_text e
          ∷ []))
        h,
  )
  send_command enc is_scte protocol cmd format (parsed_target t) h =
      let tag = if is_scte then codes "[SCTE-35 Command]" else codes "[Encoder Control]" in
      let (content_type, payload, shown) = prepared is_scte cmd format in
      let line = concat (
        codes "[Test Command] "
        ∷ tag
        ∷ codes " protocol="
        ∷ protocol_text protocol
        ∷ codes " destination="
        ∷ destination protocol t
        ∷ codes " format="
        ∷ shown
        ∷ codes " payload="
        ∷ one_line payload
        ∷ []) in
      dispatched enc tag (destination protocol t)
        (send protocol t.host t.port (wire protocol t content_type payload))
        (append_logs enc line h)

  unfoldable pub test_command : ℕ → Bytes → Host → Response × Host
  unfolding send_command parse_target_host_port
  test_command enc body h =
      let req = parse_object body in
      let is_scte =
        beq (lower_copy (get_string req (codes "kind") (codes "encoder-control")))
          (codes "scte-35") in
      let cmd = trim (get_string req (codes "command") []) in
      let host = trim (get_string req (codes "host") []) in
      let port = trim (get_string req (codes "port") []) in
      let protocol = protocol_of (lower_copy (get_string req (codes "protocol") (codes "tcp"))) in
      let format = lower_copy (get_string req (codes "format") (codes "plain")) in
      if is_empty cmd
      then (
        json 400 (error_body (codes "command is required")),
        append_encoder_log enc (codes "[Test Command] rejected: empty command payload") h,
      )
      else send_command enc is_scte protocol cmd format
          (parse_target_host_port host port (protocol_text protocol)) h
