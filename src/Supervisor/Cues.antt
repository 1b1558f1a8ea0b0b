-- ===== src/Supervisor/Cues.antt =====
-- What a cue request holds (src/supervisor/supervisor_api.cpp, `parseJsonStringArray`,
-- `parseCueCommandRows`, `extractCueValueFromXml`, `extractCueValueFromJson`,
-- `extractLooseFieldFromBody`, `extractCueValueFromLooseBody`).
use multi_coder.Prelude.{
  ℕ, ◌+◌, Bool, true, false, not, ◌&&◌, ◌||◌, List, [], ◌∷◌, ◌++◌, Option, none, some, Bytes, codes,
  is_empty, drop, take, length, find, find_byte, ◌==◌, if◌then◌else◌,
}
use multi_coder.Strings.{is_space, trim, lower_copy, drop_while}
use multi_coder.Strings.Lines.{break_at}
use multi_coder.Json.{Object, get_string}
use multi_coder.Cue.Rows.{CueCommandRow, Place, outside, inside, rows_in, ends_with}

-- `if (!val.empty()) out.push_back(val);`
unless_empty : Bytes → List Bytes → List Bytes
unless_empty v vs = if is_empty v then vs else v ∷ vs

-- Behind the bracket. A text opens only before the last byte; one that is not closed runs to the
-- end. `inside true` is behind a backslash.
array_from : Place → Bytes → List Bytes
array_from outside [] = []
array_from (inside esc cur) [] = unless_empty cur []
array_from outside (c ∷ s) =
    let rest = array_from (if c == b'"' then inside false [] else outside) s in
    if is_empty s then [] else rest
array_from (inside true cur) (c ∷ s) = array_from (inside false (cur ++ c ∷ [])) s
array_from (inside false cur) (c ∷ s) =
    let closed = array_from outside s in
    let next =
      array_from
        (if c == b'\\' && not (is_empty s) then inside true cur else inside false (cur ++ c ∷ []))
        s in
    if c == b'"' then unless_empty cur closed else next

array_in : Bytes → List Bytes
array_in [] = []
array_in (c ∷ s) = if c == b'[' && ends_with b']' s then array_from outside s else []

unfoldable pub parse_json_string_array : Bytes → List Bytes
unfolding array_in array_from unless_empty ends_with
parse_json_string_array raw = array_in (trim raw)

-- The supervisor does not trim the two texts of a row.
row_of : Object → List CueCommandRow
row_of o =
    let name = get_string o (codes "name") [] in
    let m = get_string o (codes "match") (get_string o (codes "command") name) in
    let a = get_string o (codes "action") (get_string o (codes "target") []) in
    if is_empty m then [] else record { match = m; action = a } ∷ []

unfoldable pub parse_cue_command_rows : Bytes → List CueCommandRow
unfolding rows_in row_of
parse_cue_command_rows raw = rows_in row_of (trim raw)

-- The text from the opening tag's end to the closing tag.
closed_at : Bytes → Bytes → Option Bytes
closed_at close rest = elim (find close rest) [ none ↦ none | some n ↦ some (take n rest) ]

tag_value : Bytes → Bytes → Option Bytes
unfolding closed_at
tag_value xml tag =
    let open_tag = b'<' ∷ (tag ++ b'>' ∷ []) in
    let close_tag = b'<' ∷ b'/' ∷ (tag ++ b'>' ∷ []) in
    if is_empty tag then none else (elim (find open_tag xml) [
      | none ↦ none
      | some p ↦ closed_at close_tag (drop (p + length open_tag) xml)
    ])

unfoldable pub extract_cue_value_from_xml : Bytes → List Bytes → Bytes
unfolding tag_value find
extract_cue_value_from_xml xml [] = []
extract_cue_value_from_xml xml (t ∷ ts) = elim (tag_value xml t) [
  | none ↦ extract_cue_value_from_xml xml ts
  | some v ↦ v
]

abbrev pub cue_keys : List Bytes
cue_keys =
    codes "command"
    ∷ codes "cue"
    ∷ codes "action"
    ∷ codes "event"
    ∷ codes "eventName"
    ∷ codes "scte"
    ∷ codes "message"
    ∷ codes "name"
    ∷ []

-- The first value that is not empty.
first_value : (Bytes → Bytes) → List Bytes → Bytes
first_value value [] = []
first_value value (k ∷ ks) =
    let rest = first_value value ks in if is_empty (value k) then rest else value k

unfoldable pub extract_cue_value_from_json : Object → Bytes
unfolding first_value
extract_cue_value_from_json req = first_value (λ k. get_string req k []) cue_keys

-- Up to the quote; a byte behind a backslash is taken as it is.
quoted_from : ℕ → Bool → Bytes → Bytes
quoted_from quote esc [] = []
quoted_from quote true (c ∷ s) = c ∷ quoted_from quote false s
quoted_from quote false (c ∷ s) =
    let escaped = quoted_from quote true s in
    let plain = c ∷ quoted_from quote false s in
    if c == b'\\' then escaped else if c == quote then [] else plain

loose_value : Bytes → Bytes
unfolding quoted_from break_at
loose_value [] = []
loose_value (c ∷ s) =
    if c == b'"' || c == 39
    then trim (quoted_from c false s)
    else trim (break_at (λ b. b == b',' || b == b'}' || b == 13 || b == 10) (c ∷ s)).0

-- Where the key stands: in double quotes, in single ones, or plain.
key_position : Bytes → Bytes → Option ℕ
key_position body key = elim (find (b'"' ∷ (key ++ b'"' ∷ [])) body) [
  | some p ↦ some p
  | none ↦ elim (find (39 ∷ (key ++ 39 ∷ [])) body) [ some p ↦ some p | none ↦ find key body ]
]

behind_colon : Bytes → ℕ → Bytes
unfolding loose_value drop_while
behind_colon body p = elim (find_byte b':' (drop p body)) [
  | none ↦ []
  | some n ↦ loose_value (drop_while is_space (drop (p + n + 1) body))
]

unfoldable pub extract_loose_field_from_body : Bytes → Bytes → Bytes
unfolding behind_colon key_position find find_byte
extract_loose_field_from_body body key =
    if is_empty body || is_empty key
    then []
    else (elim (key_position (lower_copy body) (lower_copy key)) [
      | none ↦ []
      | some p ↦ behind_colon body p
    ])

-- A body that is neither JSON nor XML is the cue itself.
plain_cue : Bytes → Bytes
plain_cue [] = []
plain_cue (c ∷ s) = if c == b'{' || c == b'<' then [] else c ∷ s

unfoldable pub extract_cue_value_from_loose_body : Bytes → Bytes
unfolding first_value plain_cue
extract_cue_value_from_loose_body body =
    let v = first_value (extract_loose_field_from_body body) cue_keys in
    if is_empty v then plain_cue (trim body) else v
