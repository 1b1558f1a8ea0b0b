-- ===== src/Supervisor/Diagnostics/Reasons.antt =====
-- The reasons of a network diagnosis (src/supervisor/supervisor_api.cpp, the calls of `addReason` in
-- the route `/api/admin/diagnostics/run` of `handleReq`).
use multi_coder.Prelude.{ℕ, [], ◌∷◌, Bytes, codes, to_string}
use multi_coder.Strings.Lines.{concat}

pub data Severity : Type 0 where
  error warning info : Severity

pub record Reason : Type 0 where
  pub code : Bytes
  pub severity : Severity
  pub message : Bytes
  pub remediation : Bytes

abbrev reason : Bytes → Severity → Bytes → Bytes → Reason
reason code severity message remediation = record {
  code = code;
  severity = severity;
  message = message;
  remediation = remediation;
}

abbrev no_action : Bytes
no_action = codes "No action required."

abbrev pub mcast_invalid_address : Reason
mcast_invalid_address =
    reason (codes "MCAST_INVALID_ADDRESS") error
      (codes "Multicast address is invalid or not in 224.0.0.0/4.")
      (codes "Use a valid multicast group such as 239.x.x.x and save input settings.")

abbrev pub mcast_address_valid : Reason
mcast_address_valid =
    reason (codes "MCAST_ADDRESS_VALID") info (codes "Multicast group address format is valid.")
      no_action

abbrev pub mcast_invalid_port : Reason
mcast_invalid_port =
    reason (codes "MCAST_INVALID_PORT") error (codes "Multicast UDP port is outside valid range.")
      (codes "Use a port in the range 1-65535.")

abbrev pub mcast_port_valid : Reason
mcast_port_valid =
    reason (codes "MCAST_PORT_VALID") info (codes "Multicast UDP port is valid.") no_action

abbrev pub iface_auto : Reason
iface_auto =
    reason (codes "IFACE_AUTO") warning
      (codes "No interface selected; OS auto-selection will be used.")
      (codes "Select a specific interface when host has multiple NICs.")

abbrev pub iface_not_found : Reason
iface_not_found =
    reason (codes "IFACE_NOT_FOUND") error (codes "Configured network interface was not found.")
      (codes "Pick an interface name that exists on the host.")

abbrev pub iface_down : Reason
iface_down =
    reason (codes "IFACE_DOWN") error (codes "Configured interface exists but is down.")
      (codes "Bring the interface up and confirm link connectivity.")

abbrev pub iface_ok : Reason
iface_ok =
    reason (codes "IFACE_OK") info (codes "Configured interface exists and appears up.") no_action

abbrev pub iface_ip : Reason
iface_ip =
    reason (codes "IFACE_IP") info (codes "Interface override is set as IPv4 address.") no_action

abbrev pub route_lookup_failed : Reason
route_lookup_failed =
    reason (codes "ROUTE_LOOKUP_FAILED") warning
      (codes "Route lookup for multicast group returned no result.")
      (codes "Install iproute2 tools and verify host multicast routing.")

abbrev pub route_interface_mismatch : Reason
route_interface_mismatch =
    reason (codes "ROUTE_INTERFACE_MISMATCH") error
      (codes "Route to multicast group resolves to a different interface.")
      (codes
        "Update route so group uses selected interface (ip route replace <group>/32 dev <iface>).")

abbrev pub route_ok : Bytes → Reason
route_ok dev =
    reason (codes "ROUTE_OK") info
      (concat (
        codes "Kernel route lookup for multicast group succeeded on interface "
        ∷ dev
        ∷ codes "."
        ∷ []))
      no_action

abbrev pub route_dev_unknown : Reason
route_dev_unknown =
    reason (codes "ROUTE_DEV_UNKNOWN") warning
      (codes "Route lookup succeeded but device could not be parsed.")
      (codes "Run 'ip route get <group>' manually and verify dev output.")

abbrev pub mcast_socket_failed : Reason
mcast_socket_failed =
    reason (codes "MCAST_SOCKET_FAILED") error
      (codes "Unable to create UDP socket for multicast probe.")
      (codes "Confirm container/host permissions and network stack health.")

abbrev pub mcast_bind_failed : Reason
mcast_bind_failed =
    reason (codes "MCAST_BIND_FAILED") error
      (codes "Failed to bind UDP probe socket on configured port.")
      (codes "Ensure port is available and not blocked by policy.")

abbrev pub mcast_join_failed : Reason
mcast_join_failed =
    reason (codes "MCAST_JOIN_FAILED") error
      (codes "Socket bind succeeded but multicast group join failed.")
      (codes "Check IGMP/multicast policy, interface selection, and host route rules.")

abbrev pub mcast_packets_received : Reason
mcast_packets_received =
    reason (codes "MCAST_PACKETS_RECEIVED") info
      (codes "Multicast probe received UDP payload on socket.") no_action

abbrev pub mcast_no_packets : Reason
mcast_no_packets =
    reason (codes "MCAST_NO_PACKETS") warning
      (codes "Multicast join succeeded but no packets arrived during probe window.")
      (codes "Verify source is active, VLAN allows multicast, and host firewall accepts UDP.")

abbrev pub payload_parse_mismatch : Reason
payload_parse_mismatch =
    reason (codes "PAYLOAD_PARSE_MISMATCH") warning
      (codes
        "Runtime warning suggests packets are present but payload parsing may not match expected format.")
      (codes "Verify RTP payload type/format from source and update input settings accordingly.")

abbrev pub dns_skipped : Reason
dns_skipped =
    reason (codes "DNS_SKIPPED") warning
      (codes "DNS test skipped because no hostname was provided.")
      (codes "Enter a business-network hostname to validate DNS resolution.")

abbrev pub dns_ok : ℕ → Reason
dns_ok count =
    reason (codes "DNS_OK") info
      (concat (codes "DNS resolved host to " ∷ to_string count ∷ codes " address(es)." ∷ []))
      no_action

abbrev pub dns_resolve_failed : Reason
dns_resolve_failed =
    reason (codes "DNS_RESOLVE_FAILED") error (codes "DNS resolution failed for host.")
      (codes "Check DNS server, search domain, and host spelling.")

abbrev pub unicast_skipped : Reason
unicast_skipped =
    reason (codes "UNICAST_SKIPPED") warning
      (codes "Unicast TCP test skipped because host/port was incomplete.")
      (codes "Provide a target host and port for business-network reachability testing.")

abbrev pub unicast_connect_ok : Reason
unicast_connect_ok =
    reason (codes "UNICAST_CONNECT_OK") info (codes "Unicast TCP connection succeeded.") no_action

abbrev pub unicast_connect_failed : Reason
unicast_connect_failed =
    reason (codes "UNICAST_CONNECT_FAILED") error (codes "Unicast TCP connection failed.")
      (codes "Check route, ACL/firewall, NAT, and remote service listener.")
