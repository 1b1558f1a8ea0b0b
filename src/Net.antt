-- ===== src/Net.antt =====
-- Allowlists: `ipInCidr` of src/worker/worker.cpp and src/supervisor/supervisor_api.cpp, the lambda
-- `isAllowlisted` of the worker and `isAllowedByWhitelist` of the supervisor. `inet_pton` with
-- `ntohl`, in `parseIpv4`, is a parameter.
pub mod Cidr
use Prim.Native.Nat.{bit_and}
use multi_coder.Prelude.{
  ℕ, ◌+◌, ◌-◌, ◌*◌, ◌%◌, ◌^◌, Bool, true, false, ◌||◌, List, [], ◌∷◌, Option, none, some, Bytes,
  drop, take, find_byte, is_empty, leb, ◌==◌, if◌then◌else◌,
}
use multi_coder.Prelude.Int.{ℤ, pos, negsuc}
use multi_coder.Strings.{stoi}

-- `bits == 0 ? 0u : (0xFFFFFFFFu << (32 - bits))`
unfoldable pub mask_of : ℕ → ℕ
mask_of bits = if bits == 0 then 0 else 0xFFFFFFFF * 2 ^ (32 - bits) % 2 ^ 32

-- the network, once the prefix length is known to lie in 0 .. 32
unfoldable pub same_network : ℕ → ℕ → ℕ → Bool
unfolding mask_of
same_network ip net bits = bit_and ip (mask_of bits) == bit_and net (mask_of bits)

-- `bits < 0 || bits > 32`
prefix_length : Option ℤ → Option ℕ
prefix_length (some (pos n)) = if leb n 32 then some n else none
prefix_length (some (negsuc n)) = none
prefix_length none = none

module _ (inet_pton : Bytes → Option ℕ) where
  in_network : ℕ → Option ℕ → Option ℕ → Bool
  in_network ip none net = false
  in_network ip (some bits) none = false
  in_network ip (some bits) (some net) = same_network ip net bits

  is_address : ℕ → Option ℕ → Bool
  is_address ip none = false
  is_address ip (some one) = one == ip

  -- what follows the split at the slash
  in_entry : ℕ → Bytes → Option ℕ → Bool
  in_entry ip entry none = is_address ip (inet_pton entry)
  in_entry ip entry (some slash) =
      in_network ip (prefix_length (stoi (drop (slash + 1) entry))) (inet_pton (take slash entry))

  in_range : Option ℕ → Bytes → Bool
  in_range none entry = false
  in_range (some ip) entry = in_entry ip entry (find_byte b'/' entry)

  unfoldable pub ip_in_cidr : Bytes → Bytes → Bool
  unfolding in_range in_entry in_network is_address prefix_length find_byte
  ip_in_cidr ip entry = in_range (inet_pton ip) entry

  any_entry : (Bytes → Bytes) → Bytes → List Bytes → Bool
  any_entry trim ip [] = false
  any_entry trim ip (e ∷ es) = ip_in_cidr ip (trim e) || any_entry trim ip es

  -- The two programs trim an entry each by its own `trimCopy`.
  unfoldable pub is_allowlisted : (Bytes → Bytes) → Bytes → Bool → List Bytes → Bool
  unfolding any_entry
  is_allowlisted trim ip enabled entries =
      if enabled then (if is_empty ip then false else any_entry trim ip entries) else true
