-- ===== src/Supervisor/Text.antt =====
-- The texts that the supervisor's routes share (src/supervisor/supervisor_api.cpp, `jsonEscape` and
-- `handleReq`).
use multi_coder.Prelude.{
  ℕ, Bool, true, false, not, ◌&&◌, [], ◌∷◌, ◌++◌, Option, none, some, Bytes, codes, is_empty, ◌==◌,
  if◌then◌else◌,
}
use multi_coder.Prelude.Int.{ℤ, pos, negsuc, ◌-ℤ◌, ltb_ℤ}
use multi_coder.Strings.Lines.{concat}
use multi_coder.Json.{Object, parse}
use multi_coder.Supervisor.Http.{Response}

escaped : ℕ → Bytes
escaped c =
    if c == b'"'
    then codes "\\\""
    else if c == b'\\'
    then codes "\\\\"
    else if c == 8
    then codes "\\b"
    else if c == 12
    then codes "\\f"
    else if c == 10
    then codes "\\n"
    else if c == 13
    then codes "\\r"
    else if c == 9
    then codes "\\t"
    else c ∷ []

unfoldable pub json_escape : Bytes → Bytes
unfolding escaped
json_escape [] = []
json_escape (c ∷ s) = escaped c ++ json_escape s

abbrev pub json : ℕ → Bytes → Response
json code body = record { code = code; content_type = codes "application/json"; body = body }

abbrev pub bool_text : Bool → Bytes
bool_text true = codes "true"
bool_text false = codes "false"

-- `{"ok":false,"error":"…"}`
abbrev pub error_body : Bytes → Bytes
error_body message =
    concat (codes "{\"ok\":false,\"error\":\"" ∷ json_escape message ∷ codes "\"}" ∷ [])

-- What `parse` returns.
parse_succeeds : Option (Bool × Object) → Bool
parse_succeeds none = false
parse_succeeds (some (ok, _)) = ok

unfoldable pub parse_ok : Bytes → Bool
unfolding parse_succeeds
parse_ok body = parse_succeeds (parse body)

abbrev pub or_text : Bytes → Bytes → Bytes
or_text s d = if is_empty s then d else s

-- `epoch > 0 && (now - epoch) <= limit`
abbrev pub is_fresh : ℤ → ℤ → ℤ → Bool
is_fresh now epoch limit = ltb_ℤ (pos 0) epoch && not (ltb_ℤ limit (now -ℤ epoch))

abbrev pub silence : ℤ
silence = negsuc 59
