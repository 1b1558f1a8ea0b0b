-- ===== src/Supervisor/Input/Routes.antt =====
-- Connecting and disconnecting an input, and its gain (src/supervisor/supervisor_api.cpp, the routes
-- `input/connect`, `input/disconnect`, `input/preview-gain` and `input/apply-gain` of `handleReq`).
use multi_coder.Prelude.{
  ℕ, Bool, true, false, ◌||◌, [], ◌∷◌, ◌++◌, Option, none, some, Bytes, codes, beq, is_empty,
  length, to_string, if◌then◌else◌,
}
use multi_coder.Prelude.Int.{ℤ, pos}
use multi_coder.Strings.{int_to_string}
use multi_coder.Strings.Lines.{concat}
use multi_coder.Json.{
  Object, parse_object, get_string, get_int, get_bool, set_string, set_int, set_bool, set_raw,
}
use multi_coder.Supervisor.Text.{json, bool_text, error_body, parse_ok, or_text, is_fresh, silence}
use multi_coder.Supervisor.Http.{Response}
use multi_coder.Supervisor.Host.{
  Host, World, encoder_file, runtime_state_path, input_session_path, read_json_file,
  append_encoder_log, append_logs, write_json, set_runtime_input_connected,
  send_worker_control_command, launch_worker_process, fixed_double_of,
}
use multi_coder.Supervisor.Input.{
  InputSession, summarize_input_config, srt_mode_or_caller, pbkeylen_or_zero, validation_error,
  set_session, set_levels,
}

module _ (w : World) where
  read_input : Object → Object → InputSession
  read_input req cfg =
      let text = λ (k : Bytes) (d : Bytes). get_string req k (get_string cfg k d) in
      let int = λ (k : Bytes) (d : ℤ). get_int req k (get_int cfg k d) in
      record {
        input_type = text (codes "inputType") (codes "rtp");
        rtp_address = text (codes "rtpAddress") [];
        rtp_port = int (codes "rtpPort") (pos 5004);
        iface = text (codes "rtpInterface") [];
        audio_device = text (codes "audioDevice") [];
        sample_rate = int (codes "sampleRate") (pos 48000);
        gain_db =
            fixed_double_of w req (codes "rtpGain")
              (fixed_double_of w cfg (codes "rtpGain") (codes "0.000000"));
        srt_mode = srt_mode_or_caller (text (codes "srtMode") (codes "caller"));
        srt_host = text (codes "srtHost") (codes "127.0.0.1");
        srt_port = int (codes "srtPort") (pos 9250);
        srt_latency = int (codes "srtLatency") (pos 120);
        srt_stream_id = text (codes "srtStreamId") [];
        srt_pbkeylen = pbkeylen_or_zero (int (codes "srtPbkeylen") (pos 0));
        srt_pass = text (codes "srtPass") [];
      }

  confirm_text : InputSession → Bytes
  confirm_text s = concat (
      codes "Input connect confirmed: type="
      ∷ s.input_type
      ∷ (if beq s.input_type (codes "audio")
          then codes " device=" ++ or_text s.audio_device (codes "default")
          else concat (
              codes " addr="
              ∷ s.rtp_address
              ∷ codes ":"
              ∷ int_to_string s.rtp_port
              ∷ (if is_empty s.iface then [] else codes " iface=" ++ s.iface)
              ∷ []))
      ∷ codes " gain="
      ∷ s.gain_db
      ∷ codes "dB"
      ∷ [])

  -- The outcome of the launch goes to the two logs.
  log_launch : ℕ → Option Bytes × Host → Host
  log_launch enc (none, h) = append_logs enc (codes "Worker auto-started on input/connect") h
  log_launch enc (some err, h) =
      append_logs enc (codes "Worker auto-start failed on input/connect: " ++ err) h

  -- `rt` is the runtime state as this request wrote it, not as the worker left it since.
  auto_start : ℕ → Object → Host → Host
  unfolding log_launch
  auto_start enc rt h =
      let beats =
        is_fresh w.now_epoch (get_int rt (codes "workerHeartbeatEpoch") (pos 0)) (pos 8) in
      let launches =
        is_fresh w.now_epoch (get_int rt (codes "workerLaunchEpoch") (pos 0)) (pos 25) in
      if beats || launches
      then h
      else log_launch enc (
          launch_worker_process w enc (
            write_json w (runtime_state_path enc)
              (set_int rt (codes "workerLaunchEpoch") w.now_epoch) h))

  start_srt_input : ℕ → InputSession → Host → Host
  start_srt_input enc s h =
      if beq s.input_type (codes "srt")
      then (send_worker_control_command w enc (codes "StartSRTInput") h).1
      else h

  connected_body : Bool → Bytes
  connected_body connected =
      concat (codes "{\"ok\":true,\"inputConnected\":" ∷ bool_text connected ∷ codes "}" ∷ [])

  accept_input : ℕ → InputSession → Object → Host → Host
  unfolding set_session set_levels confirm_text auto_start start_srt_input
  accept_input enc s rt h =
      let rt' =
        set_levels w.now_epoch (codes "Input session changed; waiting for fresh telemetry")
          (set_session s rt) in
      let h1 = append_encoder_log enc (confirm_text s) h in
      let h2 = write_json w (runtime_state_path enc) rt' h1 in
      let h3 = write_json w (input_session_path enc) (set_session s []) h2 in
      auto_start enc rt' (start_srt_input enc s h3)

  unfoldable pub input_connect : ℕ → Bytes → Host → Response × Host
  unfolding read_input accept_input connected_body validation_error
  input_connect enc body h =
      let h1 =
        append_encoder_log enc
          (concat (
            codes "Input connect request: body size="
            ∷ to_string (length body)
            ∷ codes " parseOk="
            ∷ bool_text (parse_ok body)
            ∷ []))
          h in
      let s =
        read_input (parse_object body)
          (read_json_file h1 (encoder_file enc (codes "input.json"))) in
      let rt = read_json_file h1 (runtime_state_path enc) in
      let err = validation_error s in
      if is_empty err then (json 200 (connected_body true), accept_input enc s rt h1) else (
        json 400 (error_body err),
        append_encoder_log enc (codes "Input connect FAILED: " ++ err) h1,
      )

  -- The relay is stopped and forgotten where the session was an SRT one.
  stop_srt_input : ℕ → Object → Host → Host
  stop_srt_input enc rt h =
      if beq (get_string rt (codes "sessionInputType") []) (codes "srt")
      then write_json w (runtime_state_path enc)
          (set_string
            (set_int (set_bool rt (codes "srtRelayActive") false) (codes "srtRelayPort") (pos 0))
            (codes "srtRelayAddr") [])
          (send_worker_control_command w enc (codes "StopSRTInput") h).1
      else h

  disconnect_text : Object → Bytes
  disconnect_text rt = concat (
      codes "Input disconnect requested by UI; source="
      ∷ summarize_input_config w rt (codes "session")
      ∷ codes " lastMeterL="
      ∷ int_to_string (get_int rt (codes "inputLevelL") silence)
      ∷ codes "dB lastMeterR="
      ∷ int_to_string (get_int rt (codes "inputLevelR") silence)
      ∷ codes "dB"
      ∷ [])

  unfoldable pub input_disconnect : ℕ → Host → Response × Host
  unfolding stop_srt_input disconnect_text set_levels connected_body
  input_disconnect enc h =
      let rt_dis = read_json_file h (runtime_state_path enc) in
      let h1 = stop_srt_input enc rt_dis h in
      let h2 = set_runtime_input_connected w enc false h1 in
      let rt_now = read_json_file h2 (runtime_state_path enc) in
      let h3 =
        write_json w (runtime_state_path enc)
          (set_levels w.now_epoch (codes "Input disconnected") rt_now) h2 in
      let session = read_json_file h3 (input_session_path enc) in
      let h4 =
        write_json w (input_session_path enc) (set_bool session (codes "inputConnected") false)
          h3 in
      (json 200 (connected_body false), append_encoder_log enc (disconnect_text rt_dis) h4)

  -- The first half of `input/apply-gain`, and all of `input/preview-gain`.
  unfoldable pub set_gain : ℕ → Bytes → Host → Bytes × Object × Host
  set_gain enc body h =
      let gain = fixed_double_of w (parse_object body) (codes "gainDb") (codes "0.000000") in
      let rt = set_raw (read_json_file h (runtime_state_path enc)) (codes "sessionGainDb") gain in
      let h1 = write_json w (runtime_state_path enc) rt h in
      let session =
        set_raw (read_json_file h1 (input_session_path enc)) (codes "sessionGainDb") gain in
      (gain, rt, write_json w (input_session_path enc) session h1)

  abbrev ok_response : Response
  ok_response = json 200 (codes "{\"ok\":true}")

  unfoldable pub preview_gain : ℕ → Bytes → Host → Response × Host
  unfolding set_gain
  preview_gain enc body h = (ok_response, (set_gain enc body h).2)

  restart_stream : Bool → ℕ → Bytes → Bytes → Host → Host
  restart_stream running enc stop_cmd start_cmd h =
      if running
      then (send_worker_control_command w enc start_cmd
          (send_worker_control_command w enc stop_cmd h).1).1
      else h

  unfoldable pub apply_gain : ℕ → Bytes → Host → Response × Host
  unfolding set_gain restart_stream
  apply_gain enc body h =
      let (gain, rt, h1) = set_gain enc body h in
      let runs = λ (k : Bytes). get_bool rt k false in
      let h2 =
        restart_stream (runs (codes "workerAacRunning")) enc (codes "StopAAC") (codes "StartAAC")
          h1 in
      let h3 =
        restart_stream (runs (codes "workerMp3Running")) enc (codes "StopMP3") (codes "StartMP3")
          h2 in
      let h4 =
        restart_stream (runs (codes "workerHlsRunning")) enc (codes "StopHLS") (codes "StartHLS")
          h3 in
      let h5 =
        restart_stream (runs (codes "workerSrtRunning")) enc (codes "StopSRT") (codes "StartSRT")
          h4 in
      (
        ok_response,
        append_encoder_log enc (concat (codes "Input gain applied: " ∷ gain ∷ codes " dB" ∷ [])) h5,
      )
