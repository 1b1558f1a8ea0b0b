-- ===== src/Supervisor/Input.antt =====
-- The input of an encoder (src/supervisor/supervisor_api.cpp, `summarizeInputConfig` and the
-- parameters that `handleReq` reads, checks and stores in `input/connect`).
pub mod Routes
pub mod Status
use multi_coder.Prelude.{
  ℕ, ◌==◌, ltb, leb, Bool, true, false, not, ◌&&◌, ◌||◌, List, [], ◌∷◌, ◌++◌, Option, none, some,
  Bytes, codes, beq, is_empty, length, to_string, if◌then◌else◌,
}
use multi_coder.Prelude.Int.{ℤ, pos, negsuc, ◌-ℤ◌, ltb_ℤ}
use multi_coder.Strings.{int_to_string}
use multi_coder.Strings.Lines.{concat}
use multi_coder.Json.{
  Object, parse_object, get_string, get_int, get_bool, set_string, set_int, set_bool, set_raw,
  serialize, has,
}
use multi_coder.Supervisor.Text.{
  json, bool_text, error_body, parse_ok, json_escape, or_text, is_fresh, silence,
}
use multi_coder.Supervisor.Http.{Response}
use multi_coder.Supervisor.Host.{
  Host, World, encoder_file, runtime_state_path, input_session_path, read_json_file,
  append_encoder_log, append_logs, write_json, set_runtime_input_connected,
  send_worker_control_command, launch_worker_process, fixed_double_of, short_double_of,
}

-- The values that `input/connect` works with; the gain is the text of a `double`.
pub record InputSession : Type 0 where
  pub input_type : Bytes
  pub rtp_address : Bytes
  pub rtp_port : ℤ
  pub iface : Bytes
  pub audio_device : Bytes
  pub sample_rate : ℤ
  pub gain_db : Bytes
  pub srt_mode : Bytes
  pub srt_host : Bytes
  pub srt_port : ℤ
  pub srt_latency : ℤ
  pub srt_stream_id : Bytes
  pub srt_pbkeylen : ℤ
  pub srt_pass : Bytes

module _ (w : World) where
  summary_gain : Object → Bytes → Bytes
  summary_gain o prefix =
      short_double_of w o (prefix ++ codes "GainDb")
        (short_double_of w o (codes "rtpGain") (codes "0"))

  unfoldable pub summarize_input_config : Object → Bytes → Bytes
  unfolding summary_gain
  summarize_input_config o prefix =
      let text = λ (long : Bytes) (short : Bytes) (d : Bytes).
        get_string o (prefix ++ long) (get_string o short d) in
      let int =
        λ (long : Bytes) (short : Bytes) (d : ℤ). get_int o (prefix ++ long) (get_int o short d) in
      let input_type = text (codes "InputType") (codes "inputType") (codes "rtp") in
      let rtp_address = text (codes "RtpAddress") (codes "rtpAddress") [] in
      let rtp_port = int (codes "RtpPort") (codes "rtpPort") (pos 5004) in
      let iface = text (codes "RtpInterface") (codes "rtpInterface") [] in
      let audio_device = text (codes "AudioDevice") (codes "audioDevice") [] in
      let sample_rate = int (codes "SampleRate") (codes "sampleRate") (pos 48000) in
      let gain = summary_gain o prefix in
      let host = text (codes "SrtHost") (codes "srtHost") [] in
      let port = int (codes "SrtPort") (codes "srtPort") (pos 0) in
      let latency = int (codes "SrtLatency") (codes "srtLatency") (pos 120) in
      let mode = text (codes "SrtMode") (codes "srtMode") (codes "caller") in
      if beq input_type (codes "audio")
      then concat (
          codes "Audio Device: "
          ∷ or_text audio_device (codes "Default")
          ∷ codes " @ "
          ∷ int_to_string sample_rate
          ∷ codes " Hz, Gain "
          ∷ gain
          ∷ codes " dB"
          ∷ [])
      else if beq input_type (codes "srt")
      then concat (
          codes "SRT Input: "
          ∷ or_text host (codes "(host unset)")
          ∷ codes ":"
          ∷ int_to_string port
          ∷ codes ", mode="
          ∷ mode
          ∷ codes ", latency="
          ∷ int_to_string latency
          ∷ codes " ms"
          ∷ codes ", Gain "
          ∷ gain
          ∷ codes " dB"
          ∷ [])
      else concat (
          (if beq input_type (codes "axia") then codes "Axia/RTP" else codes "RTP")
          ∷ codes ": "
          ∷ or_text rtp_address (codes "(address unset)")
          ∷ codes ":"
          ∷ int_to_string rtp_port
          ∷ codes ", IF="
          ∷ or_text iface (codes "Auto")
          ∷ codes ", Gain "
          ∷ gain
          ∷ codes " dB"
          ∷ [])

abbrev srt_mode_or_caller : Bytes → Bytes
srt_mode_or_caller mode = if beq mode (codes "listener") then codes "listener" else codes "caller"

abbrev pbkeylen_or_zero : ℤ → ℤ
pbkeylen_or_zero (pos n) = if n == 16 || n == 24 || n == 32 then pos n else pos 0
pbkeylen_or_zero (negsuc n) = pos 0

abbrev pub in_port_range : ℤ → Bool
in_port_range (pos n) = ltb 0 n && leb n 65535
in_port_range (negsuc n) = false

-- `srtLatency < 0 || srtLatency > 90000`
abbrev pub in_latency_range : ℤ → Bool
in_latency_range (pos n) = leb n 90000
in_latency_range (negsuc n) = false

-- The error of the parameters, empty where there is none.
unfoldable pub validation_error : InputSession → Bytes
validation_error s =
    if beq s.input_type (codes "rtp") || beq s.input_type (codes "axia")
    then (if is_empty s.rtp_address
        then codes "RTP/Axia input: multicast address is required"
        else if not (in_port_range s.rtp_port)
        then codes "RTP/Axia input: port must be 1-65535, got " ++ int_to_string s.rtp_port
        else [])
    else if not (beq s.input_type (codes "audio")) && not (beq s.input_type (codes "srt"))
    then codes "Unknown input type: " ++ s.input_type
    else if beq s.input_type (codes "srt")
    then (if not (in_port_range s.srt_port)
        then codes "SRT input: port must be 1-65535, got " ++ int_to_string s.srt_port
        else if not (in_latency_range s.srt_latency)
        then codes "SRT input: latency must be 0-90000 ms, got " ++ int_to_string s.srt_latency
        else if beq s.srt_mode (codes "caller") && is_empty s.srt_host
        then codes "SRT input: host is required in caller mode"
        else [])
    else []

-- The fifteen members that the runtime state and the session file are both given.
unfoldable pub set_session : InputSession → Object → Object
set_session s o0 =
    let o1 = set_bool o0 (codes "inputConnected") true in
    let o2 = set_string o1 (codes "sessionInputType") s.input_type in
    let o3 = set_string o2 (codes "sessionRtpAddress") s.rtp_address in
    let o4 = set_int o3 (codes "sessionRtpPort") s.rtp_port in
    let o5 = set_string o4 (codes "sessionRtpInterface") s.iface in
    let o6 = set_string o5 (codes "sessionAudioDevice") s.audio_device in
    let o7 = set_int o6 (codes "sessionSampleRate") s.sample_rate in
    let o8 = set_raw o7 (codes "sessionGainDb") s.gain_db in
    let o9 = set_string o8 (codes "sessionSrtMode") s.srt_mode in
    let o10 = set_string o9 (codes "sessionSrtHost") s.srt_host in
    let o11 = set_int o10 (codes "sessionSrtPort") s.srt_port in
    let o12 = set_int o11 (codes "sessionSrtLatency") s.srt_latency in
    let o13 = set_string o12 (codes "sessionSrtStreamId") s.srt_stream_id in
    let o14 = set_int o13 (codes "sessionSrtPbkeylen") s.srt_pbkeylen in
    set_string o14 (codes "sessionSrtPass") s.srt_pass

-- The levels and the warning that stand until the worker reports.
set_levels : ℤ → Bytes → Object → Object
set_levels now warning o =
    set_string
      (set_int (set_int (set_int o (codes "inputLevelL") silence) (codes "inputLevelR") silence)
        (codes "inputLevelEpoch") now)
      (codes "inputWarning") warning
