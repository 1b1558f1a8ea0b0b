-- ===== src/Supervisor/Targets.antt =====
-- Where the supervisor sends a cue to (src/supervisor/supervisor_api.cpp, `OutboundTarget`,
-- `parseOptionalPort`, `parseTargetHostPort`).
pub mod Sound
use multi_coder.Prelude.{
  ℕ, ◌+◌, ◌≤◌, Bool, true, false, not, ◌&&◌, ◌||◌, List, [], ◌∷◌, ◌++◌, Option, none, some, Bytes,
  codes, beq, drop, take, starts_with, find_byte, is_empty, leb, ltb, ◌==◌, ◌≡◌, ◌≢◌, ◌⊎◌, inl, inr,
  refl, arith, if◌then◌else◌, Bool-cases,
}
use multi_coder.Prelude.Int.{ℤ, pos, negsuc}
use multi_coder.Strings.{trim, lower_copy, is_digit, stoi, split_last}

-- `OutboundTarget`
pub record OutboundTarget : Type 0 where
  pub host : Bytes
  pub port : ℕ
  pub path : Bytes

-- what `err` is set to
pub data TargetError : Type 0 where
  host_required invalid_port invalid_host_port host_empty port_required : TargetError

pub data TargetResult : Type 0 where
  parsed_target : OutboundTarget → TargetResult
  target_error : TargetError → TargetResult

only_digits : Bytes → Bool
only_digits [] = true
only_digits (c ∷ s) = is_digit c && only_digits s

port_in_range : Option ℤ → Option ℕ
port_in_range none = none
port_in_range (some (negsuc n)) = none
port_in_range (some (pos n)) = if leb 1 n && leb n 65535 then some n else none

-- `none` is `return false`; an empty text is port 0.
unfoldable pub parse_optional_port : Bytes → Option ℕ
unfolding only_digits port_in_range
parse_optional_port text =
    let t = trim text in
    if is_empty t then some 0 else if only_digits t then port_in_range (stoi t) else none

-- The host, and the path from its slash on.
split_path : Bytes → Option ℕ → Bytes × Bytes
split_path s none = (s, codes "/")
split_path s (some slash) = (take slash s, drop slash s)

with_digits : Bytes → Option ℕ → Option (Bytes × ℕ)
with_digits host none = none
with_digits host (some p) = some (host, p)

-- A port behind the last colon, where only digits follow it: the host and the port, or a fault.
host_port_at : Bytes → Option (Bytes × Bytes) → Option (Bytes × ℕ)
unfolding with_digits
host_port_at s none = some (s, 0)
host_port_at s (some (host, digits)) =
    if not (is_empty digits) && only_digits digits
    then with_digits host (parse_optional_port digits)
    else some (s, 0)

-- `finalPort`; `none` where one is required
final_port : ℕ → ℕ → Bool → Bool → Option ℕ
final_port explicit host_port is_http is_https =
    let port = if ltb 0 explicit then explicit else host_port in
    if ltb 0 port then some port else if is_http then some (if is_https then 443 else 80) else none

with_port : Bytes → Bytes → Option ℕ → TargetResult
with_port host path none = target_error port_required
with_port host path (some port) =
    parsed_target
      (record { host = host; port = port; path = if is_empty path then codes "/" else path })

with_host : Bytes → ℕ → Bytes → Bool → Option (Bytes × ℕ) → TargetResult
unfolding with_port final_port
with_host protocol explicit path is_https none = target_error invalid_host_port
with_host protocol explicit path is_https (some (given, host_port)) =
    let host = trim given in
    if is_empty host
    then target_error host_empty
    else with_port host path (final_port explicit host_port (beq protocol (codes "http")) is_https)

abbrev pub is_https_url : Bytes → Bool
is_https_url input = starts_with (codes "https://") (lower_copy input)

abbrev pub without_scheme : Bytes → Bytes
without_scheme input =
    if is_https_url input
    then drop 8 input
    else if starts_with (codes "http://") (lower_copy input)
    then drop 7 input
    else input

with_explicit : Bytes → Bytes → Option ℕ → TargetResult
unfolding with_host host_port_at split_path
with_explicit protocol input none = target_error invalid_port
with_explicit protocol input (some explicit) =
    let rest = without_scheme input in
    let (host, path) = split_path rest (find_byte b'/' rest) in
    with_host protocol explicit path (is_https_url input) (host_port_at host (split_last b':' host))

unfoldable pub parse_target_host_port : Bytes → Bytes → Bytes → TargetResult
unfolding with_explicit parse_optional_port
parse_target_host_port raw_host raw_port protocol =
    let input = trim raw_host in
    if is_empty input
    then target_error host_required
    else with_explicit protocol input (parse_optional_port raw_port)
