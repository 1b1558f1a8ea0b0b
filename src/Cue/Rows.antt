-- ===== src/Cue/Rows.antt =====
-- The configured cue commands and tag lists (src/worker/worker.cpp, `parseCueCommandRows`,
-- `jsonArrayStrings`, and the default rows of `processCueMessage` and `executeControlCommand`).
use multi_coder.Prelude.{
  ℕ, zero, suc, ◌+◌, ◌-◌, Bool, false, not, ◌&&◌, ◌||◌, List, [], ◌∷◌, ◌++◌, Option, none, some,
  Bytes, codes, beq, is_empty, ◌==◌, if◌then◌else◌,
}
use multi_coder.Strings.{trim_copy}
use multi_coder.Json.{Object, parse, get_string}

-- `CueCommandRow`
pub record CueCommandRow : Type 0 where
  pub match : Bytes
  pub action : Bytes

-- How many bytes the object takes that begins here: the loop over `j`. The flag `esc` is that the
-- byte before is a backslash; the depth is positive once the first brace is read.
object_length : Bool → ℕ → Bool → Bytes → ℕ
object_length esc depth in_str [] = 0
object_length esc depth in_str (c ∷ s) =
    let in_str' = if c == b'"' && not esc then not in_str else in_str in
    let depth' =
      if in_str'
      then depth
      else if c == b'{'
      then depth + 1
      else if c == b'}'
      then depth - 1
      else depth in
    let rest = object_length (c == b'\\') depth' in_str' s in
    if not in_str' && (c == b'}' && depth' == 0) then 1 else suc rest

-- The first `k` bytes.
abbrev prefix : ℕ → Bytes → Bytes
prefix zero s = []
prefix (suc k) [] = []
prefix (suc k) (c ∷ s) = c ∷ prefix k s

row_of : Object → List CueCommandRow
row_of o =
    let name = get_string o (codes "name") [] in
    let m = trim_copy (get_string o (codes "match") (get_string o (codes "command") name)) in
    let a = trim_copy (get_string o (codes "action") (get_string o (codes "target") [])) in
    if is_empty m then [] else record { match = m; action = a } ∷ []

-- The rows of an object, where it can be parsed; the two programs read an object each in its way.
parsed_row : (Object → List CueCommandRow) → Option (Bool × Object) → List CueCommandRow
parsed_row row_of none = []
parsed_row row_of (some (ok, o)) = if ok then row_of o else []

-- The loop over `i`; the number counts bytes that `i = j` has passed over.
rows_from : (Object → List CueCommandRow) → ℕ → Bytes → List CueCommandRow
rows_from row_of k [] = []
rows_from row_of (suc k) (c ∷ s) = rows_from row_of k s
rows_from row_of zero (c ∷ s) =
    let n = object_length false 0 false (c ∷ s) in
    let row = parsed_row row_of (parse (prefix n (c ∷ s))) in
    let more = rows_from row_of (if c == b'{' then n - 1 else 0) s in
    if c == b'{' then row ++ more else more

-- `s.front() == '['` and `s.back() == ']'`, of a text of two bytes at least
unfoldable pub ends_with : ℕ → Bytes → Bool
ends_with b [] = false
ends_with b (c ∷ s) = let rest = ends_with b s in if is_empty s then c == b else rest

unfoldable pub rows_in : (Object → List CueCommandRow) → Bytes → List CueCommandRow
unfolding rows_from parsed_row object_length ends_with
rows_in row_of [] = []
rows_in row_of (c ∷ s) = if c == b'[' && ends_with b']' s then rows_from row_of 0 (c ∷ s) else []

unfoldable pub parse_cue_command_rows : Bytes → List CueCommandRow
unfolding rows_in row_of
parse_cue_command_rows raw = rows_in row_of (trim_copy raw)

abbrev row : Bytes → Bytes → CueCommandRow
row m a = record { match = m; action = a }

abbrev pub default_rows : List CueCommandRow
default_rows =
    row (codes "BREAK") (codes "START_BREAK")
    ∷ row (codes "END_BREAK") (codes "END_BREAK")
    ∷ row (codes "LEGAL_ID") (codes "LEGAL_ID")
    ∷ row (codes "START_BREAK") (codes "START_BREAK")
    ∷ row (codes "END_BREAK_NOW") (codes "END_BREAK_NOW")
    ∷ []

-- `if (rows.empty()) rows = { … };`
abbrev pub rows_or_default : List CueCommandRow → List CueCommandRow
rows_or_default [] = default_rows
rows_or_default (r ∷ rs) = r ∷ rs

-- `findMatchedAction`
unfoldable pub find_matched_action : Bytes → List CueCommandRow → Bytes
find_matched_action cue [] = []
find_matched_action cue (r ∷ rs) = if beq r.match cue then r.action else find_matched_action cue rs

-- The loop of `executeControlCommand` over the rows.
unfoldable pub is_scte_action : Bytes → List CueCommandRow → Bool
is_scte_action cmd [] = false
is_scte_action cmd (r ∷ rs) = beq (trim_copy r.action) cmd || is_scte_action cmd rs

-- Inside a quoted text of the array, behind its quote: the bytes so far, and whether the byte
-- before escapes this one.
pub data Place : Type 0 where
  outside : Place
  inside : Bool → Bytes → Place

strings_from : Place → Bytes → List Bytes
strings_from outside [] = []
strings_from (inside esc cur) [] = cur ∷ []
strings_from outside (c ∷ s) =
    let rest = strings_from (if c == b'"' then inside false [] else outside) s in
    if c == b']' then [] else rest
strings_from (inside esc cur) (c ∷ s) =
    let closes = not esc && c == b'"' in
    let rest =
      strings_from (if closes then outside else inside (not esc && c == b'\\') (cur ++ c ∷ [])) s in
    if closes then cur ∷ rest else rest

unfoldable pub json_array_strings : Bytes → List Bytes
unfolding strings_from
json_array_strings [] = []
json_array_strings (c ∷ s) = if c == b'[' then strings_from outside s else json_array_strings s
