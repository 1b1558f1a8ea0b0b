-- ===== src/Supervisor/Encoders.antt =====
-- The streams of the encoders (src/supervisor/supervisor_api.cpp: `streamCommandFor`,
-- `activeEncoderCount`, and what the stream routes of `handleReq` set).
pub mod Bounds
pub mod Commands
use multi_coder.Prelude.{
  ℕ, zero, suc, ◌+◌, ◌-◌, Bool, true, false, not, ◌&&◌, ◌||◌, [], ◌∷◌, ◌++◌, Option, none, some,
  Bytes, codes, beq, is_empty, to_string, leb, take, length, starts_with, ◌==◌, if◌then◌else◌,
}
use multi_coder.Prelude.Int.{ℤ, pos, negsuc}
use multi_coder.Strings.{upper_ascii}
use multi_coder.Strings.Lines.{concat, contains}
use multi_coder.Json.{Object, parse_object, get_string, get_int, get_bool}
use multi_coder.Cue.Rows.{ends_with}
use multi_coder.Supervisor.Http.{Response}
use multi_coder.Supervisor.Host.{
  Host, World, EncoderState, system_path, runtime_state_path, read_file, read_json_file,
  append_logs, send_worker_control_command, launch_worker_process,
}
use multi_coder.Supervisor.Text.{json, bool_text, error_body, parse_ok, is_fresh}

-- `MAX_ENCODERS`
abbrev pub max_encoders : ℕ
max_encoders = 5

pub data Stream : Type 0 where
  aac mp3 hls srt : Stream

-- The four types that `streamCommandFor` knows.
unfoldable pub stream_of : Bytes → Option Stream
stream_of s =
    if beq s (codes "aac")
    then some aac
    else if beq s (codes "mp3")
    then some mp3
    else if beq s (codes "hls")
    then some hls
    else if beq s (codes "srt")
    then some srt
    else none

abbrev pub stream_command : Stream → Bool → Bytes
stream_command aac start = if start then codes "StartAAC" else codes "StopAAC"
stream_command mp3 start = if start then codes "StartMP3" else codes "StopMP3"
stream_command hls start = if start then codes "StartHLS" else codes "StopHLS"
stream_command srt start = if start then codes "StartSRT" else codes "StopSRT"

abbrev pub set_running : Stream → Bool → EncoderState → EncoderState
set_running aac b e = record e { aac_running = b }
set_running mp3 b e = record e { mp3_running = b }
set_running hls b e = record e { hls_running = b }
set_running srt b e = record e { srt_running = b }

abbrev pub none_running : EncoderState
none_running = record {
  aac_running = false;
  mp3_running = false;
  hls_running = false;
  srt_running = false;
}

unfoldable pub set_encoder : ℕ → EncoderState → Host → Host
set_encoder enc e h = record h { encoders = λ k. if k == enc then e else h.encoders k }

abbrev pub connect_failed : Bytes
connect_failed = codes "control listener connect failed"

-- What a request for a worker ends with: the error, and whether a worker was launched.
pub record Sent : Type 0 where
  pub err : Option Bytes
  pub auto_started : Bool

active_count : ℤ → ℕ
active_count (pos n) = if leb 1 n && leb n max_encoders then n else max_encoders
active_count (negsuc n) = max_encoders

unfoldable pub active_encoder_count : Host → ℕ
unfolding active_count
active_encoder_count h =
    let sys = read_file h system_path in
    if not (is_empty sys) && parse_ok sys
    then active_count (get_int (parse_object sys) (codes "encoderCount") (pos 0))
    else max_encoders

-- What the flags become where a command fails.
abbrev pub failed_flags : Stream → Bytes → EncoderState → EncoderState
failed_flags s err e = if contains connect_failed err then none_running else set_running s false e

-- The object with a member more.
unfoldable pub with_ok : Bytes → Bytes
unfolding ends_with starts_with
with_ok resp =
    if starts_with (codes "{") resp && ends_with b'}' resp
    then take (length resp - 1) resp ++ codes ",\"ok\":true}"
    else resp
