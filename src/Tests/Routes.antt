-- ===== src/Tests/Routes.antt =====
-- The supervisor's routes (src/supervisor/supervisor_api.cpp).
use multi_coder.Prelude.{
  ℕ, true, false, List, [], ◌∷◌, ◌≡◌, ◌≢◌, ◌⊎◌, refl, arith, Bytes, codes, Option, some, none, beq,
  if◌then◌else◌,
}
use multi_coder.Prelude.Int.{pos}
use multi_coder.Prelude.Map.{get}
use multi_coder.Json.{get_sub_object}
use multi_coder.Cue.Gate.{Limits, accepted, is_replay, drop_old}
use multi_coder.Cue.Gate.Spec.{verdict_of, verdicts, verdicts_of, gate-refines-history}
use multi_coder.Supervisor.Host.{
  Host, World, Effect, Files, EncoderState, encoder_file, system_path, read_json_file,
}
use multi_coder.Supervisor.Hls.{bad_name}
use multi_coder.Supervisor.Hls.Serve.{hls_path}
use multi_coder.Supervisor.Hls.Names.{LiesIn, resolve, hls_path-LiesIn}
use multi_coder.Supervisor.Encoders.Commands.{send_worker_control_with_auto_start}
use multi_coder.Supervisor.Encoders.Bounds.{Within, auto_start-Within}
use multi_coder.Supervisor.CueRoute.Handle.{gate, remember, cue_route}
use multi_coder.Supervisor.CueRoute.Sends.{IsSilent}
use multi_coder.Supervisor.CueRoute.Safe.{SendsAdmitted, cue_route_safe}
use multi_coder.Supervisor.CueRoute.Race.{check_before_record_passes}
use multi_coder.Supervisor.CueRoute.History.{
  run_cues, history_of, has_action, fresh_state, cue_gate-refines-history,
}

abbrev nothing_runs : EncoderState
nothing_runs = record {
  aac_running = false;
  mp3_running = false;
  hls_running = false;
  srt_running = false;
}

-- The first encoder listens for cues.
abbrev listening_files : Files
listening_files =
    (
      codes "/etc/encoder1/metadata.json",
      codes "{\"scte\":{\"enabled\":true,\"listenEnabled\":true}}",
    )
    ∷ []

abbrev start_host : Host
start_host = record {
  files = listening_files;
  encoders = λ enc. nothing_runs;
  cue_states = λ enc. fresh_state;
  anchors = λ enc. none;
  effects = [];
}

-- A worker that answers from its third command on.
abbrev slow_worker : List Effect → Option Bytes
slow_worker (_ ∷ _ ∷ _ ∷ es) = none
slow_worker (_ ∷ _ ∷ []) = some (codes "connect failed")
slow_worker (_ ∷ []) = some (codes "connect failed")
slow_worker [] = some (codes "connect failed")

abbrev world : World
world = record {
  now_epoch = pos 1000;
  now_ms = 1000000;
  now_iso = codes "1970-01-01T00:16:40Z";
  worker = λ effects enc cmd files. (none, files);
  launch = λ effects enc. none;
  write_error = λ path. none;
  log_file = λ effects path. none;
  fixed_double = λ s. some s;
  short_double = λ s. some s;
}

abbrev slow_world : World
slow_world = record world { worker = λ effects enc cmd files. (slow_worker effects, files) }

segment_passes : bad_name (codes "seg_1.ts") ≡ false
unfolding bad_name
segment_passes = refl

hls_path-LiesIn_example :
    LiesIn (resolve (encoder_file 1 (codes "hls"))) (resolve (hls_path 1 (codes "seg_1.ts")))
hls_path-LiesIn_example = hls_path-LiesIn 1 (codes "seg_1.ts") segment_passes

auto_start-Within_example :
    Within 41 1 start_host
      (send_worker_control_with_auto_start slow_world 1 (codes "StartAAC") true start_host).1
auto_start-Within_example = auto_start-Within slow_world 1 (codes "StartAAC") true start_host

abbrev loopback : Bytes → Option ℕ
loopback s = if beq s (codes "127.0.0.1") then some 2130706433 else none

abbrev break_request : Bytes
break_request =
    codes
      "POST /encoder/1/cue HTTP/1.1\r\nContent-Type: application/json\r\n\r\n{\"cue\":\"BREAK\"}"

cue_route_safe_example :
    IsSilent start_host (cue_route world loopback 1 break_request (codes "127.0.0.1") start_host).1
    ⊎ SendsAdmitted world loopback 1
        (read_json_file start_host system_path)
        (get_sub_object
          (read_json_file start_host (encoder_file 1 (codes "metadata.json")))
          (codes "scte"))
        break_request
        (codes "127.0.0.1")
        start_host
        (cue_route world loopback 1 break_request (codes "127.0.0.1") start_host).1
cue_route_safe_example =
    cue_route_safe world loopback 1 break_request (codes "127.0.0.1") start_host

abbrev limits : Limits
limits = record { rate_count = 2; rate_window_sec = 10; dedupe_sec = 30 }

first_accepted : (gate limits 1000 (codes "BREAK") fresh_state).0 ≡ accepted
unfolding gate is_replay drop_old get
first_accepted = refl

check_before_record_passes_example :
    ((gate limits 1200 (codes "BREAK") (gate limits 1000 (codes "BREAK") fresh_state).1).0
      ≡ accepted)
    × ((gate limits 1200
          (codes "BREAK")
          (remember 1000 (codes "BREAK") (gate limits 1000 (codes "BREAK") fresh_state).1)).0
        ≢ accepted)
check_before_record_passes_example =
    check_before_record_passes limits 1000 1200 (codes "BREAK") fresh_state (omega arith)
      (omega arith) first_accepted

abbrev cues : List (ℕ × Bytes)
cues =
    (1000, codes "BREAK")
    ∷ (2000, codes "no cue")
    ∷ (3000, codes "LEGAL_ID")
    ∷ (40000, codes "BREAK")
    ∷ []

cue_gate-refines-history_example :
    (gate limits 41000
      (codes "BREAK")
      ((run_cues world 1 limits [] (codes "127.0.0.1") cues start_host).cue_states 1)).0
    ≡ verdict_of limits
        (history_of limits (has_action world 1 limits [] (codes "127.0.0.1")) [] cues)
        41000
        (codes "BREAK")
cue_gate-refines-history_example =
    cue_gate-refines-history world 1 limits [] (codes "127.0.0.1") cues start_host 41000
      (codes "BREAK") ((omega arith), ((omega arith), ((omega arith), ((omega arith), tt)))) refl
      (omega arith)

gate-refines-history_example :
    verdicts limits cues (record { recent_times = []; by_cue = [] }) ≡ verdicts_of limits [] cues
gate-refines-history_example =
    gate-refines-history limits cues
      ((omega arith), ((omega arith), ((omega arith), ((omega arith), tt))))
