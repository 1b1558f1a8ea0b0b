-- ===== src/Supervisor/Http.antt =====
-- Requests and responses of the supervisor (src/supervisor/supervisor_api.cpp, `httpResp`,
-- `corsPreHdr`, `parseMethod`, `parsePath`, `parseBody`, `parseHeader`).
use multi_coder.Prelude.{
  ℕ, ◌+◌, List, [], ◌∷◌, ◌++◌, Option, none, some, Bytes, codes, beq, is_empty, drop, take, length,
  starts_with, find, find_byte, to_string, ◌==◌, if◌then◌else◌,
}
use multi_coder.Strings.{trim, lower_copy}
use multi_coder.Strings.Lines.{concat, get_lines, without_cr, read_word}

abbrev pub crlf : Bytes
crlf = 13 ∷ 10 ∷ []

-- The arguments of `httpResp`.
pub record Response : Type 0 where
  pub code : ℕ
  pub content_type : Bytes
  pub body : Bytes

abbrev pub status_text : ℕ → Bytes
status_text code =
    if code == 200
    then codes "OK"
    else if code == 204
    then codes "No Content"
    else if code == 400
    then codes "Bad Request"
    else if code == 401
    then codes "Unauthorized"
    else if code == 404
    then codes "Not Found"
    else codes "Internal Server Error"

unfoldable pub http_resp : Response → Bytes
http_resp r = concat (
    codes "HTTP/1.1 "
    ∷ to_string r.code
    ∷ codes " "
    ∷ status_text r.code
    ∷ crlf
    ∷ codes "Content-Type: "
    ∷ r.content_type
    ∷ crlf
    ∷ codes "Content-Length: "
    ∷ to_string (length r.body)
    ∷ crlf
    ∷ codes "Access-Control-Allow-Origin: *"
    ∷ crlf
    ∷ codes "Cache-Control: no-store, no-cache, must-revalidate"
    ∷ crlf
    ∷ codes "Pragma: no-cache"
    ∷ crlf
    ∷ codes "Connection: close"
    ∷ crlf
    ∷ crlf
    ∷ r.body
    ∷ [])

abbrev pub cors_pre_hdr : Bytes
cors_pre_hdr = concat (
    codes "HTTP/1.1 204 No Content"
    ∷ crlf
    ∷ codes "Access-Control-Allow-Origin: *"
    ∷ crlf
    ∷ codes "Access-Control-Allow-Methods: GET, POST, OPTIONS"
    ∷ crlf
    ∷ codes "Access-Control-Allow-Headers: Content-Type"
    ∷ crlf
    ∷ codes "Content-Length: 0"
    ∷ crlf
    ∷ codes "Connection: close"
    ∷ crlf
    ∷ crlf
    ∷ [])

unfoldable pub parse_method : Bytes → Bytes
unfolding read_word
parse_method req = (read_word req).0

-- `fullPath.substr(0, q)`
without_query : Option ℕ → Bytes → Bytes
without_query none p = p
without_query (some q) p = take q p

unfoldable pub parse_path : Bytes → Bytes
unfolding read_word without_query find_byte
parse_path req =
    let full_path = (read_word (read_word req).1).0 in
    without_query (find_byte b'?' full_path) full_path

body_at : Option ℕ → Bytes → Bytes
body_at none raw = []
body_at (some sep) raw = drop (sep + 4) raw

unfoldable pub parse_body : Bytes → Bytes
unfolding body_at find starts_with
parse_body raw = body_at (find (crlf ++ crlf) raw) raw

-- A line with a colon, and the value if its name is the one that is looked for.
header_value : Bytes → Bytes → Option ℕ → Option Bytes
header_value needle line none = none
header_value needle line (some colon) =
    if beq (lower_copy (trim (take colon line))) needle
    then some (trim (drop (colon + 1) line))
    else none

header_in : Bytes → List Bytes → Bytes
header_in needle [] = []
header_in needle (l ∷ ls) =
    let line = without_cr l in
    let rest = header_in needle ls in
    if is_empty line
    then []
    else (elim (header_value needle line (find_byte b':' line)) [ none ↦ rest | some v ↦ v ])

-- the lines behind the request line
behind_first : List Bytes → List Bytes
behind_first [] = []
behind_first (l ∷ ls) = ls

unfoldable pub parse_header : Bytes → Bytes → Bytes
unfolding header_in header_value behind_first get_lines without_cr find_byte lower_copy trim beq
parse_header req key_name = header_in (lower_copy key_name) (behind_first (get_lines req))
