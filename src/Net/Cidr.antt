-- ===== src/Net/Cidr.antt =====
-- Membership in a network (`ipInCidr` of src/worker/worker.cpp).
use Prim.Native.Nat.{bit_and}
use multi_coder.Prelude.{
  ℕ, ◌+◌, ◌-◌, ◌^◌, ◌≤◌, ◌<◌, true, ◌≡◌, ◌↔◌, refl, sym, ◌∙◌, ap, arith, ◌==◌, ==_iff,
}
use multi_coder.Bits.{
  every_below, every_below_at, high_ones, halved, doubled, bit_and-high_ones, halved-lt,
  halved-halved, doubled_injective,
}
use multi_coder.Net.{mask_of, same_network}

mask_table : every_below (λ bits. mask_of bits == high_ones bits (32 - bits)) 33 ≡ true
unfolding every_below mask_of
mask_table = refl

mask_of-high_ones : (bits : ℕ) → bits ≤ 32 → mask_of bits ≡ high_ones bits (32 - bits)
mask_of-high_ones bits h =
    (==_iff _ _).0
      (every_below_at (λ n. mask_of n == high_ones n (32 - n)) 33 bits mask_table (omega arith))

masked :
    (a bits : ℕ)
    → a < 2 ^ 32
    → bits ≤ 32
    → bit_and a (mask_of bits) ≡ doubled (32 - bits) (halved (32 - bits) a)
masked a bits h b =
    let whole : (32 - bits) + bits ≡ 32 = omega arith in
    rw (mask_of-high_ones bits b) (
      bit_and-high_ones (32 - bits) bits a
        (rw (halved-halved (32 - bits) bits a) (rw whole (halved-lt 32 a h))))

-- Two addresses below 2^32 lie in one network of `bits` bits exactly when they agree after a right
-- shift by `32 - bits`, for every prefix length from 0 to 32.
pub same_network_iff :
    (ip net bits : ℕ)
    → ip < 2 ^ 32
    → net < 2 ^ 32
    → bits ≤ 32
    → (same_network ip net bits ≡ true) ↔ (halved (32 - bits) ip ≡ halved (32 - bits) net)
unfolding same_network
same_network_iff ip net bits hi hn hb = (
  (λ e.
      doubled_injective (32 - bits) _ _
        (sym (masked ip bits hi hb) ∙ (==_iff _ _).0 e ∙ masked net bits hn hb)),
  λ e.
      ((==_iff _ _).1
        (masked ip bits hi hb ∙ ap (doubled (32 - bits)) e ∙ sym (masked net bits hn hb))),
)
