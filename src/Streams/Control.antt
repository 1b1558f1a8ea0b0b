-- ===== src/Streams/Control.antt =====
-- The commands of an encoder (src/worker/worker.cpp, `executeControlCommand`, and the handling of
-- a request in `listenControlPort`).
use multi_coder.Prelude.{
  ℕ, Bool, true, false, ◌&&◌, ◌||◌, List, [], ◌≡◌, refl, Option, none, some, Bytes, codes, beq,
  is_some, ◌==◌, if◌then◌else◌,
}
use multi_coder.Prelude.Int.{ℤ}
use multi_coder.Prelude.Map.{Map}
use multi_coder.Strings.{trim_copy, drop_last_while}
use multi_coder.Json.{Object, get_string, get_bool, get_raw_value, get_sub_object}
use multi_coder.Cue.Rows.{CueCommandRow, parse_cue_command_rows, rows_or_default, is_scte_action}
use multi_coder.Scte.{Range, Now, persist_hls_scte_range_state}
use multi_coder.Dispatch.{Dispatch}
use multi_coder.Streams.{Worker, stop_aac, stop_mp3, stop_hls, stop_srt}
use multi_coder.Streams.Commands.{Env}
use multi_coder.Streams.Start.{
  start_aac, start_mp3, start_hls, start_srt, start_srt_input_relay, stop_srt_input_relay,
  failover_configured,
}
use multi_coder.Streams.Sidecar.{Event, resolved_event_id, emit_scte_sidecar_event}

-- The members of `Worker` that a command reaches, with `metadata_runtime.json` and
-- `g_sidecarRecentIds`.
pub record Encoder : Type 0 where
  pub worker : Worker
  pub hls_scte_range : Range
  pub metadata_runtime : Object
  pub sidecar_ids : Map ℕ
  pub dispatch : Dispatch

pub data StreamCommand : Type 0 where
  start_aac_cmd stop_aac_cmd start_mp3_cmd stop_mp3_cmd start_hls_cmd stop_hls_cmd : StreamCommand
  start_srt_cmd stop_srt_cmd start_srt_input_cmd stop_srt_input_cmd : StreamCommand

-- `knownStream`, and the chain that follows it
unfoldable pub stream_command : Bytes → Option StreamCommand
stream_command cmd =
    if beq cmd (codes "StartAAC")
    then some start_aac_cmd
    else if beq cmd (codes "StopAAC")
    then some stop_aac_cmd
    else if beq cmd (codes "StartMP3")
    then some start_mp3_cmd
    else if beq cmd (codes "StopMP3")
    then some stop_mp3_cmd
    else if beq cmd (codes "StartHLS")
    then some start_hls_cmd
    else if beq cmd (codes "StopHLS")
    then some stop_hls_cmd
    else if beq cmd (codes "StartSRT")
    then some start_srt_cmd
    else if beq cmd (codes "StopSRT")
    then some stop_srt_cmd
    else if beq cmd (codes "StartSRTInput")
    then some start_srt_input_cmd
    else if beq cmd (codes "StopSRTInput")
    then some stop_srt_input_cmd
    else none

unfoldable pub run_stream_command : Env → StreamCommand → Worker → Worker
unfolding start_aac start_mp3 start_hls start_srt start_srt_input_relay
run_stream_command env start_aac_cmd w = start_aac env w
run_stream_command env stop_aac_cmd w = stop_aac env.now_s w
run_stream_command env start_mp3_cmd w = start_mp3 env w
run_stream_command env stop_mp3_cmd w = stop_mp3 env.now_s w
run_stream_command env start_hls_cmd w = start_hls env w
run_stream_command env stop_hls_cmd w = stop_hls env.now_s (failover_configured env) w
run_stream_command env start_srt_cmd w = start_srt env w
run_stream_command env stop_srt_cmd w = stop_srt env.now_s w
run_stream_command env start_srt_input_cmd w = start_srt_input_relay env w
run_stream_command env stop_srt_input_cmd w = stop_srt_input_relay w

abbrev apply_command : Env → Option StreamCommand → Worker → Worker
apply_command env none w = w
apply_command env (some c) w = run_stream_command env c w

-- The readings of the clock as a number and as texts, and the calendar, which are the C library's.
pub record Clock : Type 0 where
  pub now : Now
  pub timestamp : Bytes
  pub parse_utc : Bytes → ℤ

abbrev scte_settings : Env → Object
scte_settings env = get_sub_object env.files.metadata_json (codes "scte")

abbrev scte_rows : Env → List CueCommandRow
scte_rows env =
    rows_or_default (
      parse_cue_command_rows (get_raw_value (scte_settings env) (codes "commandRows") (codes "[]")))

-- What an SCTE action does: the range, then the sidecar's event.
unfoldable pub run_scte_action : Env → Clock → Bytes → Bytes → Bytes → Bytes → Encoder → Encoder
unfolding emit_scte_sidecar_event
run_scte_action env clock cmd source event_id cue_value e =
    let id = resolved_event_id env.encoder clock.now.now_ms event_id in
    let (file, range) =
      persist_hls_scte_range_state clock.parse_utc env.encoder cmd id (trim_copy cue_value)
        clock.now e.metadata_runtime e.hls_scte_range in
    let event : Event = record {
      action = cmd;
      event_id = id;
      cue_value = cue_value;
      source = source;
      encoder = env.encoder;
      now_ms = clock.now.now_ms;
      timestamp = clock.timestamp;
    } in
    let available =
      e.worker.srt_stream.is_running && get_bool env.files.srt_json (codes "scteEnabled") false in
    let (ids, d) =
      emit_scte_sidecar_event env.files.srt_json env.files.metadata_json event available
        e.sidecar_ids e.dispatch in
    record {
      worker = e.worker;
      hls_scte_range = range;
      metadata_runtime = file;
      sidecar_ids = ids;
      dispatch = d;
    }

unfoldable pub command_outcome :
    Env
    → Clock
    → Bytes
    → Bytes
    → Bytes
    → Bytes
    → Option StreamCommand
    → Bool
    → Encoder
    → Bool × Encoder
unfolding run_stream_command run_scte_action
command_outcome env clock cmd source event_id cue_value c is_scte e =
    let done = record e { worker = apply_command env c e.worker } in
    let acted = run_scte_action env clock cmd source event_id cue_value done in
    (is_some c || is_scte, if is_scte then acted else done)

-- Whether the command was known, and the encoder behind it.
unfoldable pub execute_control_command :
    Env → Clock → Bytes → Bytes → Bytes → Bytes → Encoder → Bool × Encoder
unfolding stream_command command_outcome
execute_control_command env clock cmd source event_id cue_value e =
    command_outcome env clock cmd source event_id cue_value (stream_command cmd)
      (is_scte_action cmd (scte_rows env)) e

abbrev is_line_end : ℕ → Bool
is_line_end c = c == 10 || (c == 13 || c == 32)

-- One request on the control port: the answer, and the encoder behind it.
unfoldable pub control_request : Env → Clock → Bytes → Encoder → Bytes × Encoder
unfolding execute_control_command drop_last_while
control_request env clock received e =
    let cmd = drop_last_while is_line_end received in
    let rt = e.worker.runtime in
    let event_id = get_string rt (codes "sessionScteEventId") [] in
    let cue = get_string rt (codes "sessionScteCue") [] in
    let (handled, e') = execute_control_command env clock cmd (codes "control") event_id cue e in
    (if handled then codes "OK\n" else codes "ERR\n", e')

outcome-refused :
    (env : Env) (clock : Clock) (cmd source event_id cue_value : Bytes) (c : Option StreamCommand)
    (is_scte : Bool) (e : Encoder)
    → (command_outcome env clock cmd source event_id cue_value c is_scte e).0 ≡ false
    → (command_outcome env clock cmd source event_id cue_value c is_scte e).1 ≡ e
unfolding command_outcome
outcome-refused env clock cmd source event_id cue_value none false e h = refl
outcome-refused env clock cmd source event_id cue_value none true e h = cc
outcome-refused env clock cmd source event_id cue_value (some c) is_scte e h = cc

-- A command that is answered as unknown has changed nothing: no stream, range, file, sidecar key
-- or queue, whatever is configured.
pub refused-unchanged :
    (env : Env) (clock : Clock) (cmd source event_id cue_value : Bytes) (e : Encoder)
    → (execute_control_command env clock cmd source event_id cue_value e).0 ≡ false
    → (execute_control_command env clock cmd source event_id cue_value e).1 ≡ e
unfolding execute_control_command
refused-unchanged env clock cmd source event_id cue_value e h =
    outcome-refused env clock cmd source event_id cue_value (stream_command cmd)
      (is_scte_action cmd (scte_rows env)) e h
