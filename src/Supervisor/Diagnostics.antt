-- ===== src/Supervisor/Diagnostics.antt =====
-- The diagnosis of an encoder's network (src/supervisor/supervisor_api.cpp,
-- `isSafeRouteProbeTarget`, `isIpv4Multicast`, `looksLikeIpv4`, `extractRouteDevice`,
-- `appendDiagnosticsHistoryEntry` and the route `/api/admin/diagnostics/run` of `handleReq`).
mod Reasons
pub mod Run
use multi_coder.Prelude.{
  ℕ, ◌+◌, Bool, true, false, not, ◌&&◌, ◌||◌, List, [], ◌∷◌, ◌++◌, Option, none, some, or_else,
  is_some, Bytes, codes, beq, is_empty, drop, length, find, starts_with, to_string, leb, ◌==◌,
  if◌then◌else◌,
}
use multi_coder.Prelude.Int.{ℤ, pos, negsuc, ltb_ℤ}
use multi_coder.Prelude.Map.{get, put}
use multi_coder.Strings.{is_digit, is_space, trim, lower_copy, int_to_string}
use multi_coder.Strings.Lines.{concat, contains, break_at}
use multi_coder.Json.{Object, parse_object, get_string, get_int}
use multi_coder.Supervisor.Http.{Response}
use multi_coder.Supervisor.Host.{
  Host, World, encoder_file, runtime_state_path, read_file, read_json_file, write_file,
  append_encoder_log,
}
use multi_coder.Supervisor.Text.{json, bool_text, json_escape}
use multi_coder.Supervisor.Encoders.{max_encoders}
use multi_coder.Supervisor.Input.{in_port_range}
use multi_coder.Supervisor.Diagnostics.Reasons.{
  Severity, error, warning, info, Reason, mcast_invalid_address, mcast_address_valid,
  mcast_invalid_port, mcast_port_valid, iface_auto, iface_not_found, iface_down, iface_ok, iface_ip,
  route_lookup_failed, route_interface_mismatch, route_ok, route_dev_unknown, mcast_socket_failed,
  mcast_bind_failed, mcast_join_failed, mcast_packets_received, mcast_no_packets,
  payload_parse_mismatch, dns_skipped, dns_ok, dns_resolve_failed, unicast_skipped,
  unicast_connect_ok, unicast_connect_failed,
}

-- `MulticastProbeResult`
pub record MulticastProbeResult : Type 0 where
  pub socket_created : Bool
  pub bind_ok : Bool
  pub join_ok : Bool
  pub packet_received : Bool
  pub bytes_received : ℕ
  pub error : Bytes

-- What the operating system answers: `inet_pton`, the interface's state (`none` where there is no
-- such interface), `ip route get`, the probe, the resolver (the count of addresses, or its error)
-- and a connection.
pub record Network : Type 0 where
  pub inet_pton : Bytes → Option ℕ
  pub operstate : Bytes → Option Bytes
  pub route_get : Bytes → Bytes
  pub multicast_probe : Bytes → ℤ → Bytes → MulticastProbeResult
  pub resolve : Bytes → ℕ × Option Bytes
  pub connect : Bytes → ℤ → Option Bytes

digits_and_dots : Bytes → Bool
digits_and_dots [] = true
digits_and_dots (c ∷ s) = (is_digit c || c == b'.') && digits_and_dots s

unfoldable pub is_safe_route_probe_target : Bytes → Bool
unfolding digits_and_dots
is_safe_route_probe_target text = not (is_empty text) && digits_and_dots text

in_multicast : Option ℕ → Bool
in_multicast none = false
in_multicast (some a) = leb 0xE0000000 a && leb a 0xEFFFFFFF

unfoldable pub extract_route_device : Bytes → Bytes
unfolding find starts_with break_at
extract_route_device output = elim (find (codes " dev ") output) [
  | none ↦ []
  | some p ↦ trim (break_at is_space (drop (p + 5) output)).0
]

-- The parameters: of the request, else of the configuration.
pub record Targets : Type 0 where
  pub mcast_addr : Bytes
  pub mcast_port : ℤ
  pub mcast_iface : Bytes
  pub unicast_host : Bytes
  pub unicast_port : ℤ
  pub dns_host : Bytes

unfoldable pub read_targets : Object → Object → Targets
read_targets req cfg =
    let text =
      λ (a : Bytes) (b : Bytes). get_string req a (get_string req b (get_string cfg b [])) in
    let int = λ (a : Bytes) (b : Bytes) (d : ℤ). get_int req a (get_int req b (get_int cfg b d)) in
    let unicast_host = text (codes "unicastHost") (codes "srtHost") in
    record {
      mcast_addr = text (codes "multicastAddress") (codes "rtpAddress");
      mcast_port = int (codes "multicastPort") (codes "rtpPort") (pos 5004);
      mcast_iface = text (codes "multicastInterface") (codes "rtpInterface");
      unicast_host = unicast_host;
      unicast_port = int (codes "unicastPort") (codes "srtPort") (pos 0);
      dns_host = get_string req (codes "dnsHost") unicast_host;
    }

abbrev pub is_error : Severity → Bool
is_error error = true
is_error warning = false
is_error info = false

-- `overallOk`: `addReason` clears it for each error.
unfoldable pub overall_ok : List Reason → Bool
overall_ok [] = true
overall_ok (r ∷ rs) = not (is_error r.severity) && overall_ok rs

module _ (n : Network) where
  unfoldable pub is_ipv4_multicast : Bytes → Bool
  unfolding in_multicast
  is_ipv4_multicast addr = in_multicast (n.inet_pton addr)

  looks_like_ipv4 : Bytes → Bool
  looks_like_ipv4 text = is_some (n.inet_pton text)

  oper_reason : Option Bytes → Reason
  oper_reason none = iface_not_found
  oper_reason (some state) =
      let oper = trim state in
      if beq oper (codes "up") || beq oper (codes "unknown") then iface_ok else iface_down

  iface_reason : Bytes → Reason
  unfolding oper_reason looks_like_ipv4
  iface_reason iface =
      if not (is_empty iface) && not (looks_like_ipv4 iface)
      then oper_reason (n.operstate iface)
      else if is_empty iface
      then iface_auto
      else iface_ip

  route_reason : Targets → Reason
  unfolding extract_route_device looks_like_ipv4
  route_reason t =
      let output = n.route_get t.mcast_addr in
      let dev = extract_route_device output in
      if is_empty output
      then route_lookup_failed
      else if not (is_empty t.mcast_iface)
          && (not (looks_like_ipv4 t.mcast_iface)
              && (not (is_empty dev) && not (beq dev t.mcast_iface)))
      then route_interface_mismatch
      else if not (is_empty dev)
      then route_ok dev
      else route_dev_unknown

  probe_reason : MulticastProbeResult → Reason
  probe_reason p =
      if not p.socket_created
      then mcast_socket_failed
      else if not p.bind_ok
      then mcast_bind_failed
      else if not p.join_ok
      then mcast_join_failed
      else if p.packet_received
      then mcast_packets_received
      else mcast_no_packets

  dns_reason : Bytes → Reason
  dns_reason host =
      let (count, err) = n.resolve host in
      if is_empty host
      then dns_skipped
      else (elim err [ none ↦ dns_ok count | some e ↦ dns_resolve_failed ])

  unfoldable pub can_connect : Targets → Bool
  can_connect t = not (is_empty t.unicast_host) && in_port_range t.unicast_port

  unicast_reason : Targets → Reason
  unfolding can_connect
  unicast_reason t =
      if can_connect t
      then (elim (n.connect t.unicast_host t.unicast_port) [
        | none ↦ unicast_connect_ok
        | some e ↦ unicast_connect_failed
      ])
      else unicast_skipped

  abbrev when : Bool → Reason → List Reason
  when b r = if b then r ∷ [] else []

  -- The reasons in the order of the calls.
  unfoldable pub reasons : Targets → Object → List Reason
  unfolding iface_reason route_reason probe_reason dns_reason unicast_reason is_ipv4_multicast
      is_safe_route_probe_target
  reasons t runtime =
      let addr_valid = is_ipv4_multicast t.mcast_addr in
      let port_valid = in_port_range t.mcast_port in
      let warning_text = get_string runtime (codes "inputWarning") [] in
      (if addr_valid then mcast_address_valid else mcast_invalid_address)
      ∷ (if port_valid then mcast_port_valid else mcast_invalid_port)
      ∷ iface_reason t.mcast_iface
      ∷ (when (addr_valid && is_safe_route_probe_target t.mcast_addr) (route_reason t)
          ++ (when (addr_valid && port_valid)
                (probe_reason (n.multicast_probe t.mcast_addr t.mcast_port t.mcast_iface))
              ++ (when (contains (codes "parse") (lower_copy warning_text)) payload_parse_mismatch
                  ++ (dns_reason t.dns_host ∷ unicast_reason t ∷ []))))
