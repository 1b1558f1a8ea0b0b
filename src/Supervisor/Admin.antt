-- ===== src/Supervisor/Admin.antt =====
-- The administration of the supervisor (src/supervisor/supervisor_api.cpp: the routes
-- `/api/admin/login` and `/api/admin/config` of `handleReq`, the diagnostics' history, and what an
-- encoder's `config` route reads).
pub mod Files
use multi_coder.Prelude.{
  ℕ, ◌+◌, ◌-◌, ◌*◌, Bool, true, false, ◌&&◌, ◌||◌, List, [], ◌∷◌, ◌++◌, Option, none, some, Bytes,
  codes, beq, is_empty, drop, length, to_string, leb, if◌then◌else◌,
}
use multi_coder.Prelude.Int.{ℤ, pos, negsuc}
use multi_coder.Strings.{trim, clamp_int, int_to_string}
use multi_coder.Strings.Lines.{concat, get_lines, unlines}
use multi_coder.Json.{Object, parse_object, get_string, get_int, get_bool, set_int, serialize}
use multi_coder.Supervisor.Http.{Response}
use multi_coder.Supervisor.Host.{
  Host, World, system_path, encoder_file, runtime_state_path, read_file, read_json_file,
  append_encoder_log, atomic_write_text_file, write_runtime_state,
}
use multi_coder.Supervisor.Text.{json, bool_text, json_escape, or_text}
use multi_coder.Supervisor.Encoders.{max_encoders}

abbrev pub saved : Response
saved = json 200 (codes "{\"saved\":true}")

abbrev pub plain : ℕ → Bytes → Response
plain code text = record { code = code; content_type = codes "text/plain"; body = text }

-- A configuration file, `{}` where it is empty.
unfoldable pub config_text : Host → Bytes → Bytes
config_text h path = or_text (read_file h path) (codes "{}")

unfoldable pub login : Bytes → Host → Response
login body h =
    let sys = read_file h system_path in
    let req = parse_object body in
    let cfg = parse_object sys in
    let user_matches =
      beq (get_string req (codes "user") []) (get_string cfg (codes "adminUser") (codes "Admin")) in
    let pass_matches =
      beq (get_string req (codes "pass") [])
        (get_string cfg (codes "adminPass") (codes "change-me")) in
    if is_empty sys
    then json 200 (codes "{\"ok\":true,\"firstLoginRequired\":true}")
    else if user_matches && pass_matches
    then json 200 (
        concat (
          codes "{\"ok\":true,\"firstLoginRequired\":"
          ∷ bool_text (get_bool cfg (codes "firstLoginRequired") true)
          ∷ codes "}"
          ∷ []))
    else json 401 (codes "{\"ok\":false}")

-- The limits of the logs, put in their ranges.
unfoldable pub admin_config : Bytes → Object
admin_config body =
    let cfg = if is_empty body then [] else parse_object body in
    let max_mb =
      clamp_int (get_int cfg (codes "logMaxSizeMb") (get_int cfg (codes "logRotSize") (pos 10)))
        (pos 1) (pos 10240) in
    let cfg' = set_int (set_int cfg (codes "logMaxSizeMb") max_mb) (codes "logRotSize") max_mb in
    set_int cfg' (codes "logRetention")
      (clamp_int (get_int cfg' (codes "logRetention") (pos 14)) (pos 1) (pos 3650))

-- The last `n` lines of a log, each with its end.
unfoldable pub tail_lines : ℕ → Bytes → Bytes
unfolding unlines get_lines
tail_lines n content = let all = get_lines content in unlines (drop (length all - n) all)

-- `rows` with no more than `max_items`: the deque drops at its front.
push_row : ℕ → List Bytes → Bytes → List Bytes
push_row max_items rows r = (if leb max_items (length rows) then drop 1 rows else rows) ++ r ∷ []

history_rows : ℕ → List Bytes → List Bytes → List Bytes
unfolding push_row
history_rows max_items rows [] = rows
history_rows max_items rows (l ∷ ls) =
    let t = trim l in
    history_rows max_items (if is_empty t then rows else push_row max_items rows t) ls

comma_separated : List Bytes → Bytes
comma_separated [] = []
comma_separated (r ∷ []) = r
comma_separated (r ∷ s ∷ rs) = r ++ b',' ∷ comma_separated (s ∷ rs)

abbrev clamped_items : ℕ → ℕ
clamped_items n = if leb n 1 then 1 else if leb 200 n then 200 else n

unfoldable pub history_json : ℕ → Bytes → Bytes
unfolding history_rows comma_separated get_lines
history_json max_items content = concat (
    codes "["
    ∷ comma_separated (history_rows (clamped_items max_items) [] (get_lines content))
    ∷ codes "]"
    ∷ [])

abbrev pub history_path : ℕ → Bytes
history_path enc = encoder_file enc (codes "diagnostics_history.jsonl")

-- Out of range is encoder 1.
abbrev pub encoder_or_first : ℤ → ℕ
encoder_or_first (pos n) = if leb 1 n && leb n max_encoders then n else 1
encoder_or_first (negsuc n) = 1

-- `controlPortForEncoder`
unfoldable pub control_port_for_encoder : Host → ℕ → ℤ
control_port_for_encoder h enc =
    get_int (read_json_file h (encoder_file enc (codes "control.json"))) (codes "controlPort")
      (pos (9100 + (enc - 1) * 10))

unfoldable pub encoder_config : ℕ → Host → Response
encoder_config enc h =
    let section = λ (k : Bytes). config_text h (encoder_file enc (k ++ codes ".json")) in
    json 200 (
      concat (
        codes "{\"input\":"
        ∷ section (codes "input")
        ∷ codes ",\"control\":"
        ∷ section (codes "control")
        ∷ codes ",\"metadata\":"
        ∷ section (codes "metadata")
        ∷ codes ",\"aac\":"
        ∷ section (codes "aac")
        ∷ codes ",\"mp3\":"
        ∷ section (codes "mp3")
        ∷ codes ",\"hls\":"
        ∷ section (codes "hls")
        ∷ codes ",\"srt\":"
        ∷ section (codes "srt")
        ∷ codes "}"
        ∷ []))

abbrev pub config_sections : List Bytes
config_sections =
    codes "input"
    ∷ codes "control"
    ∷ codes "metadata"
    ∷ codes "aac"
    ∷ codes "mp3"
    ∷ codes "hls"
    ∷ codes "srt"
    ∷ []

unfoldable pub is_section : Bytes → List Bytes → Bool
is_section s [] = false
is_section s (a ∷ more) = beq a s || is_section s more
