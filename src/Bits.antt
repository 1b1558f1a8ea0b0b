-- ===== src/Bits.antt =====
-- `&` with a mask, as in `ipInCidr` of src/worker/worker.cpp, the shifts beside it, and tests at every value of a small
-- range.
use Prim.Native.Nat.{
  ℕ, zero, suc, ◌+◌, ◌*◌, ◌/◌, ◌%◌, ◌^◌, ◌≤◌, ◌<◌, min, bit_and, digits, bit_and-bitwise,
}
use mathlib.Core.Path.{◌≡◌, refl, sym, ap, ◌∙◌}
use mathlib.Core.Logic.{inl, inr}
use multi_coder.Prelude.{leb, ltb, if◌then◌else◌, Bool-cases}
use mathlib.Core.Bool.{Bool, true, false}
use native.Mathlib.Omega.{arith}
use native.Mathlib.Nat.{pow-suc, zero-add, suc-add}

-- A test that is evaluated at each number below a bound.
unfoldable pub every_below : (ℕ → Bool) → ℕ → Bool
every_below test zero = true
every_below test (suc n) = let lower = every_below test n in if test n then lower else false

pub every_below_at :
    (test : ℕ → Bool) (bound x : ℕ) → every_below test bound ≡ true → x < bound → test x ≡ true
unfolding every_below
every_below_at test zero x all h = absurd (omega arith)
every_below_at test (suc n) x all h =
    let here : test n ≡ true = ground arith in
    let ih = every_below_at test n x (ground arith) in
    elim (Bool-cases (ltb x n)) [
      | inl e ↦ ih (ground arith)
      | inr e ↦ let same : x ≡ n = ground arith in rw same here
    ]

-- The native `&` is this on both of its numbers, with the first as fuel.
abbrev common : ℕ → ℕ → ℕ → ℕ
common fuel x y = digits (λ b. zero) min fuel x y

common_more : (fuel x y : ℕ) → x ≤ fuel → common (suc fuel) x y ≡ common fuel x y
common_more zero zero y h = refl
common_more zero (suc x) y h = absurd (omega arith)
common_more (suc fuel) zero y h = refl
common_more (suc fuel) (suc x) y h =
    omega (arith, common_more fuel (suc x / 2) (y / 2) (omega arith))

-- Fuel beyond the first number changes nothing.
common_enough : (fuel x y : ℕ) → x ≤ fuel → common fuel x y ≡ bit_and x y
common_enough zero zero y h = sym (bit_and-bitwise 0 y)
common_enough zero (suc x) y h = absurd (omega arith)
common_enough (suc fuel) x y h = elim (Bool-cases (leb x fuel)) [
  | inl e ↦ let le : x ≤ fuel = ground arith in common_more fuel x y le ∙ common_enough fuel x y le
  | inr e ↦
      let same : x ≡ suc fuel = ground arith in
      ap (λ n. common n x y) (sym same) ∙ sym (bit_and-bitwise x y)
]

-- Every digit of the result stands alone: the lowest, and those above it.
bit_and_halves : (x y : ℕ) → bit_and x y ≡ bit_and (x / 2) (y / 2) * 2 + min (x % 2) (y % 2)
bit_and_halves zero y = omega (arith, bit_and-bitwise 0 y, bit_and-bitwise 0 (y / 2))
bit_and_halves (suc x) y =
    bit_and-bitwise (suc x) y
    ∙ ap (λ n. n * 2 + min (suc x % 2) (y % 2)) (common_enough x (suc x / 2) (y / 2) (omega arith))

no_common : (fuel x : ℕ) → x ≤ fuel → common fuel x 0 ≡ 0
no_common zero zero h = refl
no_common zero (suc x) h = absurd (omega arith)
no_common (suc fuel) zero h = refl
no_common (suc fuel) (suc x) h = omega (arith, no_common fuel (suc x / 2) (omega arith))

bit_and-nothing : (x : ℕ) → bit_and x 0 ≡ 0
bit_and-nothing x = bit_and-bitwise x 0 ∙ no_common x x (omega arith)

-- `m` ones.
abbrev pub ones : ℕ → ℕ
ones zero = 0
ones (suc m) = ones m * 2 + 1

-- `m` ones, with `k` zeros behind them.
abbrev pub high_ones : ℕ → ℕ → ℕ
high_ones m zero = ones m
high_ones m (suc k) = high_ones m k * 2

-- `a / 2 ^ k`, by halving.
abbrev pub halved : ℕ → ℕ → ℕ
halved zero a = a
halved (suc k) a = halved k (a / 2)

abbrev pub doubled : ℕ → ℕ → ℕ
doubled zero a = a
doubled (suc k) a = doubled k a * 2

-- Below `2 ^ m`, by halving.
abbrev pub Fits : ℕ → ℕ → Type 0
Fits m a = halved m a ≡ 0

pub bit_and-ones : (m a : ℕ) → Fits m a → bit_and a (ones m) ≡ a
bit_and-ones zero a h = omega (arith, bit_and-nothing a)
bit_and-ones (suc m) a h =
    let e : (ones m * 2 + 1) / 2 ≡ ones m = omega arith in
    rw (bit_and_halves a (ones m * 2 + 1)) (rw e (rw (bit_and-ones m (a / 2) h) (omega arith)))

-- A mask of `m` ones above `k` zeros clears the `k` lowest bits.
pub bit_and-high_ones :
    (k m a : ℕ) → Fits m (halved k a) → bit_and a (high_ones m k) ≡ doubled k (halved k a)
bit_and-high_ones zero m a h = bit_and-ones m a h
bit_and-high_ones (suc k) m a h =
    let e : high_ones m k * 2 / 2 ≡ high_ones m k = omega arith in
    rw (bit_and_halves a (high_ones m k * 2))
      (rw e (rw (bit_and-high_ones k m (a / 2) h) (omega arith)))

pub halved-lt : (k a : ℕ) → a < 2 ^ k → halved k a ≡ 0
halved-lt zero a h = omega arith
halved-lt (suc k) a h =
    let p : 2 ^ suc k ≡ 2 ^ k * 2 = pow-suc 2 k in halved-lt k (a / 2) (omega (arith, p))

pub halved-halved : (k m a : ℕ) → halved m (halved k a) ≡ halved (k + m) a
halved-halved zero m a = rw zero-add
halved-halved (suc k) m a = rw suc-add (halved-halved k m (a / 2))

pub doubled_injective : (k x y : ℕ) → doubled k x ≡ doubled k y → x ≡ y
doubled_injective zero x y h = h
doubled_injective (suc k) x y h = doubled_injective k x y (omega arith)
