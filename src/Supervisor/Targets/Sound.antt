-- ===== src/Supervisor/Targets/Sound.antt =====
-- What a target that was parsed may be (src/supervisor/supervisor_api.cpp, `parseTargetHostPort`).
use multi_coder.Prelude.{
  ℕ, ◌≤◌, Bool, not, ◌&&◌, [], ◌∷◌, Option, none, some, Bytes, codes, beq, find_byte, is_empty, ◌≡◌,
  ◌≢◌, inl, inr, refl, arith, if◌then◌else◌, Bool-cases,
}
use multi_coder.Prelude.Int.{ℤ, pos, negsuc}
use multi_coder.Strings.{trim, stoi, split_last}
use multi_coder.Supervisor.Targets.{
  OutboundTarget, TargetError, TargetResult, parsed_target, target_error, only_digits,
  port_in_range, parse_optional_port, split_path, with_digits, host_port_at, final_port, with_port,
  with_host, is_https_url, without_scheme, with_explicit, parse_target_host_port,
}

-- A fault, or a target with a port from 1 to 65535, a host and a path, whose port is the explicit one
-- where there is one.
pub data IsSound (explicit : Option ℕ) : TargetResult → Type 0 where
  failed : {e : TargetError} → IsSound explicit (target_error e)
  sound :
      {t : OutboundTarget}
      → 1 ≤ t.port
      → t.port ≤ 65535
      → t.host ≢ []
      → t.path ≢ []
      → ((p : ℕ) → explicit ≡ some p → 1 ≤ p → t.port ≡ p)
      → IsSound explicit (parsed_target t)

port_in_range-le : (n : Option ℤ) (p : ℕ) → port_in_range n ≡ some p → p ≤ 65535
unfolding port_in_range
port_in_range-le none p h = cc
port_in_range-le (some (negsuc n)) p h = cc
port_in_range-le (some (pos n)) p h = ground arith

optional_port-le : (text : Bytes) (p : ℕ) → parse_optional_port text ≡ some p → p ≤ 65535
unfolding parse_optional_port
optional_port-le text p h = elim (Bool-cases (is_empty (trim text))) [
  | inl e ↦ ground arith
  | inr e ↦ elim (Bool-cases (only_digits (trim text))) [
    | inl d ↦ port_in_range-le (stoi (trim text)) p (rw (e, d) at h)
    | inr d ↦ absurd (ground arith)
  ]
]

with_digits-le :
    (text given host : Bytes) (port : ℕ) (o : Option ℕ)
    → parse_optional_port text ≡ o
    → with_digits given o ≡ some (host, port)
    → port ≤ 65535
unfolding with_digits
with_digits-le text given host port none e h = cc
with_digits-le text given host port (some p) e h =
    let le = optional_port-le text p e in ground arith

host_port_at-le :
    (s : Bytes) (o : Option (Bytes × Bytes)) (host : Bytes) (port : ℕ)
    → host_port_at s o ≡ some (host, port)
    → port ≤ 65535
unfolding host_port_at
host_port_at-le s none host port h = ground arith
host_port_at-le s (some (given, digits)) host port h =
    elim (Bool-cases (not (is_empty digits) && only_digits digits)) [
      | inl e ↦ with_digits-le digits given host port (parse_optional_port digits) refl (rw e at h)
      | inr e ↦ ground arith
    ]

final_port_sound :
    (explicit host_port p : ℕ) (is_http is_https : Bool)
    → explicit ≤ 65535
    → host_port ≤ 65535
    → final_port explicit host_port is_http is_https ≡ some p
    → (1 ≤ p) × (p ≤ 65535) × (1 ≤ explicit → p ≡ explicit)
unfolding final_port
final_port_sound explicit host_port p is_http is_https he hp h = ground arith

path_given : (path : Bytes) → (if is_empty path then codes "/" else path) ≢ []
path_given [] q = cc
path_given (c ∷ s) q = cc

with_port-IsSound :
    (host path : Bytes) (explicit : ℕ) (o : Option ℕ)
    → host ≢ []
    → ((p : ℕ) → o ≡ some p → (1 ≤ p) × (p ≤ 65535) × (1 ≤ explicit → p ≡ explicit))
    → IsSound (some explicit) (with_port host path o)
unfolding with_port
with_port-IsSound host path explicit none ne h = failed
with_port-IsSound host path explicit (some p) ne h =
    let (low, high, same) = h p refl in sound low high ne (path_given path) (λ q e le. ground arith)

with_host-IsSound :
    (protocol : Bytes) (explicit : ℕ) (path : Bytes) (is_https : Bool) (o : Option (Bytes × ℕ))
    → explicit ≤ 65535
    → ((host : Bytes) (port : ℕ) → o ≡ some (host, port) → port ≤ 65535)
    → IsSound (some explicit) (with_host protocol explicit path is_https o)
unfolding with_host
with_host-IsSound protocol explicit path is_https none he hp = failed
with_host-IsSound protocol explicit path is_https (some (given, host_port)) he hp =
    let http = beq protocol (codes "http") in
    elim (Bool-cases (is_empty (trim given))) [
      | inl e ↦ rw e failed
      | inr e ↦ rw e (
          with_port-IsSound (trim given) path explicit (final_port explicit host_port http is_https)
            (λ q. ground arith)
            (λ p q.
              final_port_sound explicit host_port p http is_https he (hp given host_port refl) q))
    ]

with_explicit-IsSound :
    (protocol input : Bytes) (o : Option ℕ)
    → ((p : ℕ) → o ≡ some p → p ≤ 65535)
    → IsSound o (with_explicit protocol input o)
unfolding with_explicit
with_explicit-IsSound protocol input none h = failed
with_explicit-IsSound protocol input (some explicit) h =
    let rest = without_scheme input in
    let (host, path) = split_path rest (find_byte b'/' rest) in
    with_host-IsSound protocol explicit path (is_https_url input)
      (host_port_at host (split_last b':' host)) (h explicit refl)
      (host_port_at-le host (split_last b':' host))

-- Whatever the texts, a target that is parsed has a port from 1 to 65535, a host and a path that are
-- not empty, and the port of its own field where that gives one.
pub parse_target-IsSound :
    (raw_host raw_port protocol : Bytes)
    → IsSound (parse_optional_port raw_port) (parse_target_host_port raw_host raw_port protocol)
unfolding parse_target_host_port
parse_target-IsSound raw_host raw_port protocol = elim (Bool-cases (is_empty (trim raw_host))) [
  | inl e ↦ rw e failed
  | inr e ↦ rw e (
      with_explicit-IsSound protocol (trim raw_host) (parse_optional_port raw_port)
        (optional_port-le raw_port))
]
