-- ===== src/Livewire/Octets.antt =====
-- A byte in decimal digits (src/livewire/LivewireMapping.cpp).
use multi_coder.Prelude.{
  ℕ, ◌<◌, Bool, true, false, ◌&&◌, [], ◌∷◌, ◌++◌, ◌≡◌, refl, arith, Bytes, to_string, ◌==◌,
}
use multi_coder.Bits.{every_below, every_below_at}
use multi_coder.Strings.{is_digit}
use multi_coder.Livewire.{digits_run, value_from, octet_size}

all_digits : Bytes → Bool
all_digits [] = true
all_digits (c ∷ s) = is_digit c && all_digits s

byte_printed : ℕ → Bool
byte_printed a =
    all_digits (to_string a) && (octet_size (to_string a) && value_from 0 (to_string a) == a)

byte_table : every_below byte_printed 256 ≡ true
unfolding every_below byte_printed all_digits to_string
byte_table = refl

pub octet-to_string :
    (a : ℕ) → a < 256 → (octet_size (to_string a) ≡ true) × (value_from 0 (to_string a) ≡ a)
octet-to_string a h =
    unfold byte_printed in ground (arith, every_below_at byte_printed 256 a byte_table h)

digits_to_string : (a : ℕ) → a < 256 → all_digits (to_string a) ≡ true
digits_to_string a h =
    unfold byte_printed in ground (arith, every_below_at byte_printed 256 a byte_table h)

digits_run-append :
    (ds : Bytes) (c : ℕ) (s : Bytes)
    → all_digits ds ≡ true
    → is_digit c ≡ false
    → digits_run (ds ++ c ∷ s) ≡ (ds, c ∷ s)
unfolding digits_run all_digits
digits_run-append [] c s h k = ground arith
digits_run-append (d ∷ ds) c s h k = ground (arith, digits_run-append ds c s)

digits_run_all : (ds : Bytes) → all_digits ds ≡ true → digits_run ds ≡ (ds, [])
unfolding digits_run all_digits
digits_run_all [] h = refl
digits_run_all (d ∷ ds) h = ground (arith, digits_run_all ds)

pub digits_run-dot :
    (a : ℕ) (s : Bytes) → a < 256 → digits_run (to_string a ++ b'.' ∷ s) ≡ (to_string a, b'.' ∷ s)
digits_run-dot a s h = digits_run-append (to_string a) b'.' s (digits_to_string a h) refl

pub digits_run-to_string : (a : ℕ) → a < 256 → digits_run (to_string a) ≡ (to_string a, [])
digits_run-to_string a h = digits_run_all (to_string a) (digits_to_string a h)
