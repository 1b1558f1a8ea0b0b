-- ===== src/Json.antt =====
-- The flat JSON object of src/common/SimpleJson.cpp and src/include/SimpleJson.h. An index into
-- the text is the rest of the text from there, so `i < t.size()` is that the rest is not empty,
-- and `i < t.size() - 1` that it has two bytes at least. `std::map` is a list in the order of its
-- keys.
pub mod Order
pub mod Access
pub mod Total
pub mod RoundTrip
use multi_coder.Prelude.{
  ℕ, zero, suc, ◌+◌, ◌-◌, Bool, true, false, not, ◌&&◌, ◌||◌, List, [], ◌∷◌, ◌++◌, Option, none,
  some, Bytes, codes, beq, is_empty, length, ltb, ◌==◌, is_some, if◌then◌else◌,
}
use multi_coder.Prelude.Int.{ℤ}
use multi_coder.Strings.{is_space, trim, drop_while, stoi, int_to_string}

-- What a backslash and `c` stand for.
abbrev unescape_byte : ℕ → ℕ
unescape_byte c =
    if c == b'"'
    then b'"'
    else if c == b'\\'
    then b'\\'
    else if c == b'n'
    then 10
    else if c == b'r'
    then 13
    else if c == b't'
    then 9
    else c

-- the loop of `unescape`, with its flag `esc`
pub unescape_from : Bool → Bytes → Bytes
unescape_from esc [] = []
unescape_from true (c ∷ s) = unescape_byte c ∷ unescape_from false s
unescape_from false (c ∷ s) =
    let rest = unescape_from false s in
    let escaped = unescape_from true s in if c == b'\\' then escaped else c ∷ rest

unfoldable pub unescape : Bytes → Bytes
unescape s = unescape_from false s

pub escape_byte : ℕ → Bytes
escape_byte c =
    if c == b'"'
    then b'\\' ∷ b'"' ∷ []
    else if c == b'\\'
    then b'\\' ∷ b'\\' ∷ []
    else if c == 10
    then b'\\' ∷ b'n' ∷ []
    else if c == 13
    then b'\\' ∷ b'r' ∷ []
    else if c == 9
    then b'\\' ∷ b't' ∷ []
    else c ∷ []

unfoldable pub escape : Bytes → Bytes
escape [] = []
escape (c ∷ s) = escape_byte c ++ escape s

-- `Object::Entry`
pub record Entry : Type 0 where
  pub raw : Bytes
  pub quoted : Bool

-- `Object`: the field `values_`
abbrev pub Object : Type 0
Object = List (Bytes × Entry)

-- `operator<` on strings
unfoldable pub bytes_lt : Bytes → Bytes → Bool
bytes_lt [] [] = false
bytes_lt [] (y ∷ ys) = true
bytes_lt (x ∷ xs) [] = false
bytes_lt (x ∷ xs) (y ∷ ys) = ltb x y || x == y && bytes_lt xs ys

-- `values_[key] = entry`
unfoldable pub insert : Bytes → Entry → Object → Object
insert k v [] = (k, v) ∷ []
insert k v ((j, w) ∷ m) =
    let rest = insert k v m in
    if beq j k then (k, v) ∷ m else if bytes_lt k j then (k, v) ∷ (j, w) ∷ m else (j, w) ∷ rest

-- `values_.find(key)`
unfoldable pub lookup : Bytes → Object → Option Entry
lookup k [] = none
lookup k ((j, v) ∷ m) = if beq j k then some v else lookup k m

abbrev consed : ℕ → Bytes × Bytes → Bytes × Bytes
consed c (tok, rest) = (c ∷ tok, rest)

-- A token up to the next quote that no backslash precedes, and what follows that quote; `none`
-- where the text ends first. The flag says that the byte before was a backslash that escapes.
pub scan_quoted : Bool → Bytes → Option (Bytes × Bytes)
scan_quoted esc [] = none
scan_quoted esc (c ∷ s) =
    if not esc && c == b'"' then some ([], s) else elim (scan_quoted (not esc && c == b'\\') s) [
      | none ↦ none
      | some (tok, rest) ↦ some (c ∷ tok, rest)
    ]

-- One round of the loop over a value that is not quoted, on `depth` and `inString`; `none` is
-- `break`. The flag says that the byte before, inside the value, was a backslash.
unfoldable pub raw_step : Bool → ℕ → Bool → ℕ → Option (ℕ × Bool)
raw_step esc depth in_string c =
    if c == b'"' && not esc
    then some (depth, not in_string)
    else if in_string
    then some (depth, in_string)
    else if c == b'{' || c == b'['
    then some (depth + 1, in_string)
    else if c == b'}' || c == b']'
    then (if depth == 0 then none else some (depth - 1, in_string))
    else if c == b',' && depth == 0
    then none
    else some (depth, in_string)

pub scan_raw : Bool → ℕ → Bool → Bytes → Bytes × Bytes
scan_raw esc depth in_string [] = ([], [])
scan_raw esc depth in_string (c ∷ s) =
    if is_empty s then ([], c ∷ s) else elim (raw_step esc depth in_string c) [
      | none ↦ ([], c ∷ s)
      | some (depth', in_string') ↦ consed c (scan_raw (c == b'\\') depth' in_string' s)
    ]

-- the value, from its first byte
pub parse_value : Bytes → Option (Entry × Bytes)
parse_value [] = none
parse_value (c ∷ s) =
    if c == b'"'
    then elim (scan_quoted false s) [
      | none ↦ none
      | some (tok, rest) ↦ some (record { raw = unescape tok; quoted = true }, rest)
    ]
    else (let (tok, rest) = scan_raw false 0 false (c ∷ s) in
        some (record { raw = trim tok; quoted = false }, rest))

-- the colon
pub parse_colon : Bytes → Option (Entry × Bytes)
parse_colon [] = none
parse_colon (c ∷ s) = if c == b':' then parse_value (drop_while is_space s) else none

-- One member of the object, behind the quote that opens its key.
pub parse_member : Bytes → Option (Bytes × Entry × Bytes)
parse_member s = elim (scan_quoted false s) [
  | none ↦ none
  | some (tok, rest) ↦ elim (parse_colon (drop_while is_space rest)) [
    | none ↦ none
    | some (entry, rest') ↦ some (unescape tok, entry, rest')
  ]
]

-- `i >= t.size() - 1`
abbrev pub at_end : Bytes → Bool
at_end [] = true
at_end (c ∷ s) = is_empty s

pub skip_separators : Bytes → Bytes
skip_separators [] = []
skip_separators (c ∷ s) =
    let rest = skip_separators s in
    if not (is_empty s) && (is_space c || c == b',') then rest else c ∷ s

-- The member that stands after the separators: none left, a fault, or one with what follows.
pub data Member : Type 0 where
  end fault : Member
  member : Bytes → Entry → Bytes → Member

pub open_member : Bytes → Member
open_member [] = end
open_member (c ∷ s) =
    if is_empty s
    then end
    else if c == b'"'
    then elim (parse_member s) [ none ↦ fault | some (k, e, rest) ↦ member k e rest ]
    else fault

-- The loop of `parse`; `none` is that the fuel runs out. On a fault the members read so far stay.
pub parse_members : ℕ → Bytes → Object → Option (Bool × Object)
parse_members zero s o = none
parse_members (suc fuel) s o = elim (open_member (skip_separators s)) [
  | end ↦ some (true, o)
  | fault ↦ some (false, o)
  | member k e rest ↦ parse_members fuel rest (insert k e o)
]

-- `t.back()`, of a text that is not empty
pub last_is : ℕ → Bytes → Bool
last_is b [] = false
last_is b (c ∷ s) = let rest = last_is b s in if is_empty s then c == b else rest

parse_trimmed : Bytes → Option (Bool × Object)
parse_trimmed [] = some (false, [])
parse_trimmed (c ∷ s) =
    if c == b'{' && last_is b'}' s then parse_members (suc (length s)) s [] else some (false, [])

unfoldable pub parse : Bytes → Option (Bool × Object)
unfolding parse_trimmed
parse text = parse_trimmed (trim text)

-- The object that `parse` leaves, whatever it returns.
abbrev parsed : Option (Bool × Object) → Object
parsed none = []
parsed (some (_, o)) = o

unfoldable pub parse_object : Bytes → Object
parse_object text = parsed (parse text)

entry_string : Option Entry → Bytes → Bytes
entry_string none fallback = fallback
entry_string (some e) fallback = if e.quoted then e.raw else fallback

unfoldable pub get_string : Object → Bytes → Bytes → Bytes
unfolding entry_string
get_string o k fallback = entry_string (lookup k o) fallback

entry_int : Option Entry → ℤ → ℤ
entry_int none fallback = fallback
entry_int (some e) fallback = elim (stoi (if e.quoted then e.raw else trim e.raw)) [
  | none ↦ fallback
  | some n ↦ n
]

unfoldable pub get_int : Object → Bytes → ℤ → ℤ
unfolding entry_int
get_int o k fallback = entry_int (lookup k o) fallback

bool_text : Bytes → Bool → Bool
bool_text v fallback =
    if beq v (codes "true") || beq v (codes "1") || beq v (codes "yes")
    then true
    else if beq v (codes "false") || beq v (codes "0") || beq v (codes "no")
    then false
    else fallback

entry_bool : Option Entry → Bool → Bool
entry_bool none fallback = fallback
entry_bool (some e) fallback = bool_text (if e.quoted then e.raw else trim e.raw) fallback

unfoldable pub get_bool : Object → Bytes → Bool → Bool
unfolding entry_bool bool_text
get_bool o k fallback = entry_bool (lookup k o) fallback

unfoldable pub has : Object → Bytes → Bool
has o k = is_some (lookup k o)

entry_raw : Option Entry → Bytes → Bytes
entry_raw none fallback = fallback
entry_raw (some e) fallback = e.raw

unfoldable pub get_raw_value : Object → Bytes → Bytes → Bytes
unfolding entry_raw
get_raw_value o k fallback = entry_raw (lookup k o) fallback

entry_object : Option Entry → Object
entry_object none = []
entry_object (some e) = if e.quoted then [] else parse_object e.raw

unfoldable pub get_sub_object : Object → Bytes → Object
unfolding entry_object
get_sub_object o k = entry_object (lookup k o)

unfoldable pub set_string : Object → Bytes → Bytes → Object
set_string o k v = insert k (record { raw = v; quoted = true }) o

unfoldable pub set_int : Object → Bytes → ℤ → Object
set_int o k n = insert k (record { raw = int_to_string n; quoted = false }) o

unfoldable pub set_bool : Object → Bytes → Bool → Object
set_bool o k b =
    insert k (record { raw = if b then codes "true" else codes "false"; quoted = false }) o

unfoldable pub set_raw : Object → Bytes → Bytes → Object
set_raw o k v = insert k (record { raw = trim v; quoted = false }) o

pub entry_text : Entry → Bytes
entry_text e = if e.quoted then b'"' ∷ (escape e.raw ++ b'"' ∷ []) else e.raw

-- the loop of `serialize`, with its flag `first`
pub serialize_from : Bool → Object → Bytes
serialize_from first [] = []
serialize_from first ((k, e) ∷ m) =
    (if first then [] else b',' ∷ [])
    ++ (b'"' ∷ (escape k ++ (b'"' ∷ b':' ∷ (entry_text e ++ serialize_from false m))))

unfoldable pub serialize : Object → Bytes
serialize o = b'{' ∷ (serialize_from true o ++ b'}' ∷ [])
