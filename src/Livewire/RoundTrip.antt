-- ===== src/Livewire/RoundTrip.antt =====
-- Channels and addresses correspond (src/livewire/LivewireMapping.cpp).
use multi_coder.Prelude.{
  ℕ, ◌+◌, ◌*◌, ◌/◌, ◌%◌, ◌<◌, ◌≤◌, ◌≡◌, arith, Bytes, Option, some, none, leb, if◌then◌else◌, ◌++◌,
  ◌∷◌, to_string, starts_with,
}
use multi_coder.Livewire.{address_prefix, channel_to_multicast, multicast_to_channel}
use multi_coder.Livewire.Octets.{octet-to_string, digits_run-dot, digits_run-to_string}

abbrev pub bind_address : Option Bytes → Option ℕ
bind_address none = none
bind_address (some ip) = multicast_to_channel ip

address_read :
    (a b : ℕ)
    → a < 256
    → b < 256
    → multicast_to_channel (address_prefix ++ (to_string a ++ (b'.' ∷ to_string b)))
      ≡ some (a * 256 + b)
unfolding multicast_to_channel
address_read a b ha hb =
    unfold starts_with in
    ground (
      arith,
      digits_run-dot a (to_string b) ha,
      digits_run-to_string b hb,
      octet-to_string a ha,
      octet-to_string b hb,
    )

-- Every channel up to 65535 has an address from which the channel is read back; no other channel
-- has an address.
pub channel_round_trip :
    (n : ℕ) → bind_address (channel_to_multicast n) ≡ (if leb n 65535 then some n else none)
unfolding channel_to_multicast
channel_round_trip n =
    ground (arith, address_read (n / 256 % 256) (n % 256) (omega arith) (omega arith))

-- A channel read from an address is at most 65535.
multicast-bounded : (ip : Bytes) (n : ℕ) → multicast_to_channel ip ≡ some n → n ≤ 65535
unfolding multicast_to_channel
multicast-bounded ip n h = ground arith
