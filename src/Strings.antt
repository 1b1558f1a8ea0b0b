-- ===== src/Strings.antt =====
-- The small text helpers of the two programs: the `trim` of src/common/SimpleJson.cpp, `trimCopy`,
-- `lowerCopy`, `singleLine`, `splitLines`, `clampInt` of src/worker/worker.cpp, and `std::stoi`.
pub mod Laws
pub mod Lines
pub mod Numbers
use multi_coder.Prelude.{
  ℕ, zero, suc, ◌+◌, ◌-◌, ◌*◌, ◌^◌, Bool, true, false, not, ◌&&◌, ◌||◌, List, [], ◌∷◌, ◌++◌, map,
  Option, none, some, Bytes, codes, beq, is_empty, to_string, ltb, leb, ◌==◌, if◌then◌else◌,
}
use multi_coder.Prelude.Int.{ℤ, pos, negsuc, ltb_ℤ}

-- `std::isspace` in the C locale
abbrev pub is_space : ℕ → Bool
is_space c = c == 32 || leb 9 c && leb c 13

-- `" \t\r\n"`
abbrev pub is_blank : ℕ → Bool
is_blank c = c == 32 || c == 9 || c == 13 || c == 10

abbrev pub is_digit : ℕ → Bool
is_digit c = leb b'0' c && leb c b'9'

abbrev pub is_alpha : ℕ → Bool
is_alpha c = leb b'a' c && leb c b'z' || leb b'A' c && leb c b'Z'

abbrev pub is_alnum : ℕ → Bool
is_alnum c = is_digit c || is_alpha c

abbrev pub is_xdigit : ℕ → Bool
is_xdigit c = is_digit c || leb b'a' c && leb c b'f' || leb b'A' c && leb c b'F'

unfoldable pub drop_while : (ℕ → Bool) → Bytes → Bytes
drop_while p [] = []
drop_while p (c ∷ s) = let rest = drop_while p s in if p c then rest else c ∷ s

unfoldable pub drop_last_while : (ℕ → Bool) → Bytes → Bytes
drop_last_while p [] = []
drop_last_while p (c ∷ s) =
    let rest = drop_last_while p s in if is_empty rest && p c then [] else c ∷ rest

abbrev trim_by : (ℕ → Bool) → Bytes → Bytes
trim_by p s = drop_last_while p (drop_while p s)

-- SimpleJson's `trim`, and the supervisor's `trimCopy`
unfoldable pub trim : Bytes → Bytes
unfolding drop_while drop_last_while
trim s = trim_by is_space s

-- the worker's `trimCopy`
unfoldable pub trim_copy : Bytes → Bytes
unfolding drop_while drop_last_while
trim_copy s = trim_by is_blank s

abbrev pub to_lower : ℕ → ℕ
to_lower c = if leb b'A' c && leb c b'Z' then c + 32 else c

unfoldable pub lower_copy : Bytes → Bytes
lower_copy s = map to_lower s

-- `upperAscii`
unfoldable pub upper_ascii : Bytes → Bytes
upper_ascii s = map (λ c. if leb b'a' c && leb c b'z' then c - 32 else c) s

unfoldable pub single_line : Bytes → Bytes
single_line s = map (λ c. if c == 13 || c == 10 || c == 9 then 32 else c) s

-- The loop of `splitLines`, with the current line.
split_lines_from : Bytes → Bytes → List Bytes
split_lines_from cur [] = if is_empty cur then [] else trim_copy cur ∷ []
split_lines_from cur (c ∷ s) =
    let rest =
      split_lines_from (if c == 10 then [] else if c == 13 then cur else cur ++ c ∷ []) s in
    if c == 10 then trim_copy cur ∷ rest else rest

unfoldable pub split_lines : Bytes → List Bytes
unfolding split_lines_from
split_lines s = split_lines_from [] s

unfoldable pub clamp_int : ℤ → ℤ → ℤ → ℤ
clamp_int value min_value max_value =
    if ltb_ℤ value min_value then min_value else if ltb_ℤ max_value value then max_value else value

-- The value of the leading digits, and whether there is one.
pub digits_value : ℕ → Bool → Bytes → Option ℕ
digits_value acc seen [] = if seen then some acc else none
digits_value acc seen (c ∷ s) =
    let rest = digits_value (acc * 10 + (c - b'0')) true s in
    if is_digit c then rest else if seen then some acc else none

abbrev negate : ℕ → ℤ
negate zero = pos 0
negate (suc n) = negsuc n

-- The range check, for the type whose least value is minus `limit`.
fit : ℕ → Bool → ℕ → Option ℤ
fit limit true n = if leb n limit then some (negate n) else none
fit limit false n = if ltb n limit then some (pos n) else none

signed_value : ℕ → Bytes → Bool → Option ℤ
signed_value limit s minus = elim (digits_value 0 false s) [
  | none ↦ none
  | some n ↦ fit limit minus n
]

signed_after_space : ℕ → Bytes → Option ℤ
signed_after_space limit [] = none
signed_after_space limit (c ∷ s) =
    if c == b'-'
    then signed_value limit s true
    else if c == b'+'
    then signed_value limit s false
    else signed_value limit (c ∷ s) false

unfoldable pub signed_number : ℕ → Bytes → Option ℤ
unfolding drop_while digits_value fit signed_value signed_after_space
signed_number limit s = signed_after_space limit (drop_while is_space s)

-- `std::stoi`; `none` where it throws
unfoldable pub stoi : Bytes → Option ℤ
unfolding signed_number
stoi s = signed_number (2 ^ 31) s

-- `std::stoll`; `none` where it throws
unfoldable pub stoll : Bytes → Option ℤ
unfolding signed_number
stoll s = signed_number (2 ^ 63) s

-- `std::to_string` of an `int`
unfoldable pub int_to_string : ℤ → Bytes
int_to_string (pos n) = to_string n
int_to_string (negsuc n) = b'-' ∷ to_string (suc n)

-- `rfind(c)`: the text in front of the last `c`, and the text behind it.
unfoldable pub split_last : ℕ → Bytes → Option (Bytes × Bytes)
split_last c [] = none
split_last c (x ∷ s) = elim (split_last c s) [
  | some (before, behind) ↦ some (x ∷ before, behind)
  | none ↦ if x == c then some ([], s) else none
]
