-- ===== src/Strings/Numbers.antt =====
-- Numbers printed by `std::to_string` are read back by `std::stoi` and `std::stoll`.
use multi_coder.Prelude.{
  ℕ, zero, suc, ◌+◌, ◌-◌, ◌*◌, ◌/◌, ◌%◌, ◌≤◌, ◌<◌, Bool, true, false, [], ◌∷◌, ◌≡◌, refl, ◌∙◌,
  arith, Bytes, some, Bool-cases, inl, inr, ltb→lt, ltb, leb, ◌==◌, to_string, All,
}
use multi_coder.Prelude.Text.{digits_onto}
use multi_coder.Prelude.Int.{ℤ, pos, negsuc, pos_part, neg_part}
use multi_coder.Strings.{
  is_digit, is_space, drop_while, digits_value, is_blank, drop_last_while, trim_copy, signed_number,
  signed_after_space, signed_value, fit, int_to_string,
}

digits_value_digit :
    (n d acc : ℕ) (seen : Bool) (s : Bytes)
    → d < 10
    → acc * 10 + d ≡ n
    → digits_value acc seen ((b'0' + d) ∷ s) ≡ digits_value n true s
unfolding digits_value
digits_value_digit n d acc seen s h e =
    let digit : is_digit (b'0' + d) ≡ true = ground arith in
    let same : acc * 10 + (b'0' + d - b'0') ≡ n = omega arith in rw (digit, same)

digits_value-onto :
    (f n : ℕ) (seen : Bool) (s : Bytes)
    → n < f
    → digits_value 0 seen (digits_onto f n s) ≡ digits_value n true s
unfolding digits_onto
digits_value-onto zero n seen s h = absurd (omega arith)
digits_value-onto (suc f) n seen s h = elim (Bool-cases (ltb n 10)) [
  | inl e ↦ rw e (digits_value_digit n n 0 seen s (ltb→lt n 10 e) (omega arith))
  | inr e ↦ rw e (
      digits_value-onto f (n / 10) seen _ (ground arith)
      ∙ digits_value_digit n (n % 10) (n / 10) true s (omega arith) (omega arith))
]

pub digits_value-to_string : (n : ℕ) → digits_value 0 false (to_string n) ≡ some n
unfolding to_string
digits_value-to_string n =
    digits_value-onto (suc n) n false [] (omega arith) ∙ unfold digits_value in refl

-- The first byte of a printed number is a digit.
pub BeginsWithDigit : Bytes → Type 0
BeginsWithDigit [] = ⊥
BeginsWithDigit (c ∷ s) = is_digit c ≡ true

digits_onto-digit : (f n : ℕ) (s : Bytes) → n < f → BeginsWithDigit (digits_onto f n s)
unfolding digits_onto BeginsWithDigit
digits_onto-digit zero n s h = absurd (omega arith)
digits_onto-digit (suc f) n s h = elim (Bool-cases (ltb n 10)) [
  | inl e ↦ rw e (ground arith)
  | inr e ↦ rw e (digits_onto-digit f (n / 10) _ (ground arith))
]

pub to_string-digit : (n : ℕ) → BeginsWithDigit (to_string n)
unfolding to_string
to_string-digit n = digits_onto-digit (suc n) n [] (omega arith)

-- No byte of the text is a space, a control or a blank.
pub Visible : Bytes → Type 0
Visible s = All (λ c. 32 < c) s

digits_onto-Visible : (f n : ℕ) (s : Bytes) → Visible s → Visible (digits_onto f n s)
unfolding digits_onto Visible
digits_onto-Visible zero n s h = h
digits_onto-Visible (suc f) n s h =
    let here : Visible ((b'0' + n % 10) ∷ s) = (omega arith, h) in
    let later = digits_onto-Visible f (n / 10) ((b'0' + n % 10) ∷ s) here in
    elim (Bool-cases (ltb n 10)) [ inl e ↦ rw e (omega arith, h) | inr e ↦ rw e later ]

pub int_to_string-Visible : (n : ℤ) → Visible (int_to_string n)
unfolding int_to_string to_string Visible
int_to_string-Visible (pos n) = digits_onto-Visible (suc n) n [] tt
int_to_string-Visible (negsuc n) = (omega arith, digits_onto-Visible (suc (suc n)) (suc n) [] tt)

drop_while-Visible :
    (p : ℕ → Bool) (s : Bytes) → ((c : ℕ) → 32 < c → p c ≡ false) → Visible s → drop_while p s ≡ s
unfolding drop_while Visible
drop_while-Visible p [] h v = refl
drop_while-Visible p (c ∷ s) h v = rw (h c v.0)

drop_last_while-Visible :
    (p : ℕ → Bool) (s : Bytes)
    → ((c : ℕ) → 32 < c → p c ≡ false)
    → Visible s
    → drop_last_while p s ≡ s
unfolding drop_last_while Visible
drop_last_while-Visible p [] h v = refl
drop_last_while-Visible p (c ∷ s) h v =
    let rest = drop_last_while-Visible p s h v.1 in rw (rest, h c v.0) (ground arith)

pub trim_copy-Visible : (s : Bytes) → Visible s → trim_copy s ≡ s
unfolding trim_copy
trim_copy-Visible s v =
    rw (drop_while-Visible is_blank s (λ c h. ground arith) v)
      (drop_last_while-Visible is_blank s (λ c h. ground arith) v)

signed_value-digits :
    (limit n : ℕ) (s : Bytes) (minus : Bool)
    → digits_value 0 false s ≡ some n
    → signed_value limit s minus ≡ fit limit minus n
unfolding signed_value
signed_value-digits limit n s minus h = rw (signed_value, h)

signed_after_space-digits :
    (limit n : ℕ) (s : Bytes)
    → BeginsWithDigit s
    → digits_value 0 false s ≡ some n
    → n < limit
    → signed_after_space limit s ≡ some (pos n)
unfolding signed_after_space fit BeginsWithDigit
signed_after_space-digits limit n [] b h lt = absurd b
signed_after_space-digits limit n (c ∷ s) b h lt =
    let minus : c == b'-' ≡ false = ground arith in
    let plus : c == b'+' ≡ false = ground arith in
    let fits : ltb n limit ≡ true = ground arith in
    rw (minus, plus) (signed_value-digits limit n (c ∷ s) false h ∙ rw fits)

signed_after_space-minus :
    (limit n : ℕ) (s : Bytes)
    → digits_value 0 false s ≡ some (suc n)
    → suc n ≤ limit
    → signed_after_space limit (b'-' ∷ s) ≡ some (negsuc n)
unfolding signed_after_space fit
signed_after_space-minus limit n s h le =
    let fits : leb (suc n) limit ≡ true = ground arith in
    signed_value-digits limit (suc n) s true h ∙ rw fits

signed_after_space-int_to_string :
    (limit : ℕ) (n : ℤ)
    → pos_part n < limit
    → neg_part n ≤ limit
    → signed_after_space limit (int_to_string n) ≡ some n
unfolding int_to_string
signed_after_space-int_to_string limit (pos n) h k =
    signed_after_space-digits limit n (to_string n) (to_string-digit n) (digits_value-to_string n) h
signed_after_space-int_to_string limit (negsuc n) h k =
    signed_after_space-minus limit n (to_string (suc n)) (digits_value-to_string (suc n)) k

-- A number that is printed is read back, within the range of the type.
pub signed_number-int_to_string :
    (limit : ℕ) (n : ℤ)
    → pos_part n < limit
    → neg_part n ≤ limit
    → signed_number limit (int_to_string n) ≡ some n
unfolding signed_number
signed_number-int_to_string limit n h k =
    rw
      (drop_while-Visible is_space (int_to_string n) (λ c h. ground arith)
        (int_to_string-Visible n))
      (signed_after_space-int_to_string limit n h k)
