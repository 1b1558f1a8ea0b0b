-- ===== src/Supervisor/Diagnostics/Run.antt =====
-- The result of a diagnosis, and its history (src/supervisor/supervisor_api.cpp, the route
-- `/api/admin/diagnostics/run` of `handleReq`, `appendDiagnosticsHistoryEntry`).
use multi_coder.Prelude.{
  ℕ, Bool, true, false, not, ◌&&◌, List, [], ◌∷◌, ◌++◌, some, or_else, is_some, Bytes, codes,
  is_empty, length, to_string, leb, if◌then◌else◌,
}
use multi_coder.Prelude.Int.{ℤ, pos, negsuc}
use multi_coder.Prelude.Map.{get}
use multi_coder.Strings.{int_to_string}
use multi_coder.Strings.Lines.{concat}
use multi_coder.Json.{parse_object, get_int}
use multi_coder.Supervisor.Http.{Response}
use multi_coder.Supervisor.Host.{
  Host, World, encoder_file, runtime_state_path, read_json_file, atomic_write_text_file,
  append_encoder_log,
}
use multi_coder.Supervisor.Text.{json, bool_text, json_escape}
use multi_coder.Supervisor.Encoders.{max_encoders}
use multi_coder.Supervisor.Input.{in_port_range}
use multi_coder.Supervisor.Diagnostics.Reasons.{Severity, error, warning, info, Reason}
use multi_coder.Supervisor.Diagnostics.{
  Network, MulticastProbeResult, Targets, read_targets, is_ipv4_multicast, can_connect, overall_ok,
  reasons,
}

abbrev severity_text : Severity → Bytes
severity_text error = codes "error"
severity_text warning = codes "warning"
severity_text info = codes "info"

abbrev quoted : Bytes → Bytes
quoted s = concat (codes "\"" ∷ json_escape s ∷ codes "\"" ∷ [])

reason_json : Reason → Bytes
reason_json r = concat (
    codes "{\"code\":"
    ∷ quoted r.code
    ∷ codes ",\"severity\":"
    ∷ quoted (severity_text r.severity)
    ∷ codes ",\"message\":"
    ∷ quoted r.message
    ∷ codes ",\"remediation\":"
    ∷ quoted r.remediation
    ∷ codes "}"
    ∷ [])

reasons_from : Bool → List Reason → Bytes
unfolding reason_json
reasons_from first [] = []
reasons_from first (r ∷ rs) =
    concat ((if first then [] else codes ",") ∷ reason_json r ∷ reasons_from false rs ∷ [])

-- What the probe leaves where it does not run.
abbrev no_probe : MulticastProbeResult
no_probe = record {
  socket_created = false;
  bind_ok = false;
  join_ok = false;
  packet_received = false;
  bytes_received = 0;
  error = [];
}

-- An encoder out of range is put at the end that is nearer.
abbrev clamped_encoder : ℤ → ℕ
clamped_encoder (pos n) = if leb 1 n then (if leb n max_encoders then n else max_encoders) else 1
clamped_encoder (negsuc n) = 1

module _ (n : Network) where
  probe_of : Targets → MulticastProbeResult
  probe_of t =
      if is_ipv4_multicast n t.mcast_addr && in_port_range t.mcast_port
      then n.multicast_probe t.mcast_addr t.mcast_port t.mcast_iface
      else no_probe

  checks : Targets → Bytes
  unfolding probe_of
  checks t =
      let p = probe_of t in
      let (count, dns_err) = if is_empty t.dns_host then (0, some []) else n.resolve t.dns_host in
      let tried = can_connect n t in
      let connect_err = if tried then n.connect t.unicast_host t.unicast_port else some [] in
      concat (
        codes "{\"multicast\":{\"address\":"
        ∷ quoted t.mcast_addr
        ∷ codes ",\"port\":"
        ∷ int_to_string t.mcast_port
        ∷ codes ",\"interface\":"
        ∷ quoted t.mcast_iface
        ∷ codes ",\"socketCreated\":"
        ∷ bool_text p.socket_created
        ∷ codes ",\"bindOk\":"
        ∷ bool_text p.bind_ok
        ∷ codes ",\"joinOk\":"
        ∷ bool_text p.join_ok
        ∷ codes ",\"packetReceived\":"
        ∷ bool_text p.packet_received
        ∷ codes ",\"bytesReceived\":"
        ∷ to_string p.bytes_received
        ∷ codes ",\"error\":"
        ∷ quoted p.error
        ∷ codes "},\"dns\":{\"host\":"
        ∷ quoted t.dns_host
        ∷ codes ",\"ok\":"
        ∷ bool_text (not (is_some dns_err))
        ∷ codes ",\"addressCount\":"
        ∷ to_string count
        ∷ codes ",\"error\":"
        ∷ quoted (or_else dns_err [])
        ∷ codes "},\"unicast\":{\"host\":"
        ∷ quoted t.unicast_host
        ∷ codes ",\"port\":"
        ∷ int_to_string t.unicast_port
        ∷ codes ",\"ok\":"
        ∷ bool_text (not (is_some connect_err))
        ∷ codes ",\"error\":"
        ∷ quoted (or_else connect_err [])
        ∷ codes "}}"
        ∷ [])

  module _ (w : World) where
    unfoldable pub diagnostics_run : Bytes → Host → Response × Host
    unfolding checks reasons_from reasons read_targets overall_ok
    diagnostics_run body h =
        let req = if is_empty body then [] else parse_object body in
        let enc = clamped_encoder (get_int req (codes "encoder") (pos 1)) in
        let t = read_targets req (read_json_file h (encoder_file enc (codes "input.json"))) in
        let rs = reasons n t (read_json_file h (runtime_state_path enc)) in
        let ok = overall_ok rs in
        let result = concat (
          codes "{\"ok\":"
          ∷ bool_text ok
          ∷ codes ",\"encoder\":"
          ∷ to_string enc
          ∷ codes ",\"timestamp\":"
          ∷ quoted w.now_iso
          ∷ codes ",\"checks\":"
          ∷ checks t
          ∷ codes ",\"reasons\":"
          ∷ codes "["
          ∷ reasons_from true rs
          ∷ codes "]"
          ∷ codes "}"
          ∷ []) in
        let history = encoder_file enc (codes "diagnostics_history.jsonl") in
        let h' =
          (atomic_write_text_file w history
            (or_else (get history h.files) [] ++ (result ++ 10 ∷ [])) h).1 in
        (
          json 200 result,
          append_encoder_log enc
              (concat (
                codes "Network diagnostics run: "
                ∷ (if ok then codes "PASS" else codes "FAIL")
                ∷ codes " reasons="
                ∷ to_string (length rs)
                ∷ []))
              h',
        )
