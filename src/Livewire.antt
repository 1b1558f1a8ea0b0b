-- ===== src/Livewire.antt =====
-- src/livewire/LivewireMapping.cpp: Livewire channels and their multicast addresses.
pub mod Octets
pub mod RoundTrip
use multi_coder.Prelude.{
  ℕ, zero, suc, ◌+◌, ◌-◌, ◌*◌, ◌/◌, ◌%◌, Bool, true, false, ◌&&◌, List, [], ◌∷◌, ◌++◌, Option, none,
  some, Bytes, codes, drop, length, starts_with, to_string, is_empty, leb, ltb, ◌==◌, if◌then◌else◌,
}
use multi_coder.Strings.{is_digit}

abbrev pub address_prefix : Bytes
address_prefix = codes "239.192."

abbrev pub livewire_rtp_port : ℕ
livewire_rtp_port = 5004

-- `std::to_string` and `<<` write the same digits; `& 0xFF` is `% 256`.
unfoldable pub channel_to_multicast : ℕ → Option Bytes
channel_to_multicast channel =
    if ltb 65535 channel
    then none
    else some
        (address_prefix ++ (to_string (channel / 256 % 256) ++ (b'.' ∷ to_string (channel % 256))))

-- The digits that a text begins with, and the rest.
unfoldable pub digits_run : Bytes → Bytes × Bytes
digits_run [] = ([], [])
digits_run (c ∷ s) =
    let (ds, rest) = digits_run s in if is_digit c then (c ∷ ds, rest) else ([], c ∷ s)

-- The value of a text of digits.
abbrev pub value_from : ℕ → Bytes → ℕ
value_from acc [] = acc
value_from acc (d ∷ ds) = value_from (acc * 10 + (d - b'0')) ds

-- `\d{1,3}`
abbrev pub octet_size : Bytes → Bool
octet_size ds = leb 1 (length ds) && leb (length ds) 3

-- `(\d{1,3})$`, with the range check on the second group
last_octet : ℕ → Bytes × Bytes → Option ℕ
last_octet a (ds, rest) =
    let b = value_from 0 ds in
    if octet_size ds && is_empty rest
    then (if leb a 255 && leb b 255 then some (a * 256 + b) else none)
    else none

after_dot : ℕ → Bytes → Option ℕ
after_dot a [] = none
after_dot a (c ∷ s) = if c == b'.' then last_octet a (digits_run s) else none

-- `(\d{1,3})\.`; a digit run stands before a byte that is no digit, so the match is unique
first_octet : Bytes × Bytes → Option ℕ
first_octet (ds, rest) = if octet_size ds then after_dot (value_from 0 ds) rest else none

unfoldable pub multicast_to_channel : Bytes → Option ℕ
unfolding first_octet after_dot last_octet
multicast_to_channel ip =
    if starts_with address_prefix ip then first_octet (digits_run (drop 8 ip)) else none
