-- ===== src/Icecast/Percent.antt =====
-- What a server reads back from a percent-encoded title (src/worker/worker.cpp,
-- `sendIcecastMetaUpdate`).
use multi_coder.Prelude.{
  ℕ, ◌+◌, ◌-◌, ◌*◌, ◌/◌, ◌%◌, ◌<◌, true, false, Bool, ◌||◌, Bool-cases, inl, inr, [], ◌∷◌, ◌++◌,
  ◌≡◌, refl, ap, ◌∙◌, arith, Bytes, All, ltb, ◌==◌, if◌then◌else◌,
}
use multi_coder.Icecast.{hex_digit, is_unreserved, percent_byte, percent_encode}

abbrev hex_value : ℕ → ℕ
hex_value d = if ltb d b'A' then d - b'0' else 10 + (d - b'A')

-- `%XY` stands for one byte, everything else for itself.
abbrev pub percent_decode : Bytes → Bytes
percent_decode (c ∷ x ∷ y ∷ s) =
    let whole = percent_decode s in
    let rest = percent_decode (x ∷ y ∷ s) in
    if c == b'%' then (hex_value x * 16 + hex_value y) ∷ whole else c ∷ rest
percent_decode s = s

hex_value-digit : (n : ℕ) → n < 16 → hex_value (hex_digit n) ≡ n
hex_value-digit n h = ground arith

code_value :
    (c : ℕ) → c < 256 → hex_value (hex_digit (c / 16)) * 16 + hex_value (hex_digit (c % 16)) ≡ c
code_value c h =
    let high = hex_value-digit (c / 16) (omega arith) in
    let low = hex_value-digit (c % 16) (omega arith) in rw (high, low) omega arith

decode_code :
    (c : ℕ) (s : Bytes)
    → c < 256
    → percent_decode (b'%' ∷ hex_digit (c / 16) ∷ hex_digit (c % 16) ∷ s) ≡ c ∷ percent_decode s
decode_code c s h = ap (λ v. v ∷ percent_decode s) (code_value c h)

decode_plain :
    (c : ℕ) (s : Bytes) → (c == b'%') ≡ false → percent_decode (c ∷ s) ≡ c ∷ percent_decode s
decode_plain c [] h = refl
decode_plain c (x ∷ []) h = refl
decode_plain c (x ∷ y ∷ s) h = rw h

unreserved_plain : (c : ℕ) → is_unreserved c ≡ true → (c == b'%') ≡ false
unreserved_plain c h = ground arith

decode_encoded :
    (c : ℕ) (s : Bytes) → c < 256 → percent_decode (percent_byte c ++ s) ≡ c ∷ percent_decode s
unfolding percent_byte
decode_encoded c s h = ground (arith, decode_code c s h, decode_plain c s, unreserved_plain c)

decode-encode : (s : Bytes) → All (λ c. c < 256) s → percent_decode (percent_encode s) ≡ s
unfolding percent_encode
decode-encode [] h = refl
decode-encode (c ∷ s) (hc, h) =
    decode_encoded c (percent_encode s) hc ∙ ap (λ t. c ∷ t) (decode-encode s h)

-- a byte that neither ends a parameter of the query nor the line it is in
abbrev pub stays_in_query : ℕ → Bool
stays_in_query c = is_unreserved c || c == b'%'

hex_digit_stays : (n : ℕ) → n < 16 → stays_in_query (hex_digit n) ≡ true
hex_digit_stays n h = ground arith

escape_stays :
    (c : ℕ) (s : Bytes)
    → c < 256
    → All (λ b. stays_in_query b ≡ true) s
    → All (λ b. stays_in_query b ≡ true) (b'%' ∷ hex_digit (c / 16) ∷ hex_digit (c % 16) ∷ s)
escape_stays c s h hs =
    (refl, (hex_digit_stays (c / 16) (omega arith), (hex_digit_stays (c % 16) (omega arith), hs)))

plain_stays : (c : ℕ) → is_unreserved c ≡ true → stays_in_query c ≡ true
plain_stays c h = rw h

All-percent_byte :
    (c : ℕ) (s : Bytes)
    → c < 256
    → All (λ b. stays_in_query b ≡ true) s
    → All (λ b. stays_in_query b ≡ true) (percent_byte c ++ s)
unfolding percent_byte
All-percent_byte c s h hs = elim (Bool-cases (is_unreserved c)) [
  | inl e ↦ rw e (plain_stays c e, hs)
  | inr e ↦ let es = escape_stays c s h hs in rw e es
]

All-percent_encode :
    (s : Bytes) → All (λ c. c < 256) s → All (λ b. stays_in_query b ≡ true) (percent_encode s)
unfolding percent_encode
All-percent_encode [] h = h
All-percent_encode (c ∷ s) (hc, h) =
    All-percent_byte c (percent_encode s) hc (All-percent_encode s h)

-- The title, percent-encoded as bytes (values below 256), holds letters, digits and `-_.~%` only,
-- so that it ends neither the parameter nor the line of the request, and it is read back from there
-- as it was.
pub title_is_read_back :
    (title : Bytes)
    → All (λ c. c < 256) title
    → All (λ b. stays_in_query b ≡ true) (percent_encode title)
      × percent_decode (percent_encode title) ≡ title
title_is_read_back title h = (All-percent_encode title h, decode-encode title h)
