-- ===== src/Icecast/Base64.antt =====
-- Base64 by groups of three bytes (src/worker/worker.cpp, `sendIcecastMetaUpdate`).
use multi_coder.Prelude.{
  ℕ, suc, ◌+◌, ◌-◌, ◌*◌, ◌/◌, ◌%◌, ◌^◌, ◌<◌, [], ◌∷◌, ◌++◌, ◌≡◌, refl, ap, arith, Bytes, All,
  length, replicate,
}
use multi_coder.Icecast.{base64_char, push_sextets, base64_from, padded, base64}

-- The encoding as it is specified: four characters for three bytes, and `=` where bytes are missing.
abbrev pub groups : Bytes → Bytes
groups [] = []
groups (a ∷ []) = base64_char (a / 4) ∷ base64_char (a % 4 * 16) ∷ b'=' ∷ b'=' ∷ []
groups (a ∷ b ∷ []) =
    base64_char (a / 4) ∷ base64_char (a % 4 * 16 + b / 16) ∷ base64_char (b % 16 * 4) ∷ b'=' ∷ []
groups (a ∷ b ∷ c ∷ s) =
    base64_char (a / 4)
    ∷ base64_char (a % 4 * 16 + b / 16)
    ∷ base64_char (b % 16 * 4 + c / 64)
    ∷ base64_char (c % 64)
    ∷ groups s

abbrev pub AreBytes : Bytes → Type 0
AreBytes s = All (λ c. c < 256) s

abbrev shifted : ℕ → ℕ → ℕ
shifted val c = (val * 2 ^ 8 + c) % 2 ^ 32

first_sextet : (v a : ℕ) → a < 256 → shifted v a / 2 ^ 2 % 2 ^ 6 ≡ a / 4
first_sextet v a h = omega arith

second_sextet :
    (v a b : ℕ) → a < 256 → b < 256 → shifted (shifted v a) b / 2 ^ 4 % 2 ^ 6 ≡ a % 4 * 16 + b / 16
second_sextet v a b h k = omega arith

third_sextet :
    (v b c : ℕ) → b < 256 → c < 256 → shifted (shifted v b) c / 2 ^ 6 % 2 ^ 6 ≡ b % 16 * 4 + c / 64
third_sextet v b c h k = omega arith

fourth_sextet : (v c : ℕ) → c < 256 → shifted v c / 2 ^ 0 % 2 ^ 6 ≡ c % 64
fourth_sextet v c h = omega arith

last_of_one : (v a : ℕ) → a < 256 → shifted v a * 2 ^ 8 / 2 ^ 4 % 2 ^ 6 ≡ a % 4 * 16
last_of_one v a h = omega arith

last_of_two : (v b : ℕ) → b < 256 → shifted v b * 2 ^ 8 / 2 ^ 6 % 2 ^ 6 ≡ b % 16 * 4
last_of_two v b h = omega arith

push_one : (v : ℕ) → push_sextets 8 v 8 ≡ (base64_char (v / 2 ^ 2 % 2 ^ 6) ∷ [], 2)
unfolding push_sextets
push_one v = refl

push_two : (v : ℕ) → push_sextets 10 v 10 ≡ (base64_char (v / 2 ^ 4 % 2 ^ 6) ∷ [], 4)
unfolding push_sextets
push_two v = refl

push_three :
    (v : ℕ)
    → push_sextets 12 v 12
      ≡ (base64_char (v / 2 ^ 6 % 2 ^ 6) ∷ base64_char (v / 2 ^ 0 % 2 ^ 6) ∷ [], 0)
unfolding push_sextets
push_three v = refl

pads_repeat : (n : ℕ) → (4 - suc (suc (suc (suc n))) % 4) % 4 ≡ (4 - n % 4) % 4
pads_repeat n = omega arith

padded-four : (x y z w : ℕ) (t : Bytes) → padded (x ∷ y ∷ z ∷ w ∷ t) ≡ x ∷ y ∷ z ∷ w ∷ padded t
unfolding padded
padded-four x y z w t = ap (λ n. x ∷ y ∷ z ∷ w ∷ (t ++ replicate n b'=')) (pads_repeat (length t))

-- One round of three bytes, at any `val` left over from the rounds before.
from_three :
    (v a b c : ℕ) (s : Bytes)
    → a < 256
    → b < 256
    → c < 256
    → base64_from v 0 (a ∷ b ∷ c ∷ s)
      ≡ base64_char (a / 4)
        ∷ base64_char (a % 4 * 16 + b / 16)
        ∷ base64_char (b % 16 * 4 + c / 64)
        ∷ base64_char (c % 64)
        ∷ base64_from (shifted (shifted (shifted v a) b) c) 0 s
unfolding base64_from push_sextets
from_three v a b c s ha hb hc = rw (
  first_sextet v a ha,
  second_sextet v a b ha hb,
  third_sextet (shifted v a) b c hb hc,
  fourth_sextet (shifted (shifted v a) b) c hc,
)

from_two :
    (v a b : ℕ) → a < 256 → b < 256 → padded (base64_from v 0 (a ∷ b ∷ [])) ≡ groups (a ∷ b ∷ [])
unfolding base64_from push_sextets padded
from_two v a b ha hb =
    rw (first_sextet v a ha, second_sextet v a b ha hb, last_of_two (shifted v a) b hb)

from_one : (v a : ℕ) → a < 256 → padded (base64_from v 0 (a ∷ [])) ≡ groups (a ∷ [])
unfolding base64_from push_sextets padded
from_one v a ha = rw (first_sextet v a ha, last_of_one v a ha)

from-groups : (v : ℕ) (s : Bytes) → AreBytes s → padded (base64_from v 0 s) ≡ groups s
from-groups v [] h = unfold base64_from padded in refl
from-groups v (a ∷ []) (ha, h) = from_one v a ha
from-groups v (a ∷ b ∷ []) (ha, (hb, h)) = from_two v a b ha hb
from-groups v (a ∷ b ∷ c ∷ s) (ha, (hb, (hc, h))) = rw (
  from_three v a b c s ha hb hc,
  padded-four (base64_char (a / 4)) (base64_char (a % 4 * 16 + b / 16))
      (base64_char (b % 16 * 4 + c / 64)) (base64_char (c % 64))
      (base64_from (shifted (shifted (shifted v a) b) c) 0 s),
  from-groups (shifted (shifted (shifted v a) b) c) s h,
)

-- For bytes (values below 256), the loop with its accumulator of 32 bits gives the encoding by
-- groups of three bytes, however long the credentials are: four characters for each group, and `=`
-- where the last one lacks bytes.
pub base64-groups : (s : Bytes) → AreBytes s → base64 s ≡ groups s
unfolding base64
base64-groups s h = from-groups 0 s h
