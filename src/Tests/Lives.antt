-- ===== src/Tests/Lives.antt =====
-- Streams over their lives (src/worker/worker.cpp, `executeControlCommand`, `pollSinkProcesses`,
-- `Worker::~Worker`, `sidecarIdRecentlySent`).
use multi_coder.Prelude.{
  ℕ, ◌+◌, ◌==◌, Bool, not, true, false, List, [], ◌∷◌, ◌≡◌, refl, arith, Bytes, codes, beq, some,
  none, inl,
}
use multi_coder.Prelude.Int.{pos}
use multi_coder.Prelude.Map.{get, put}
use multi_coder.Strings.{trim_copy}
use multi_coder.Cue.Rows.{is_scte_action, parse_cue_command_rows}
use multi_coder.Streams.Sidecar.{sidecar_id_recently_sent, prune, seen_since}
use multi_coder.Json.{get_raw_value, get_sub_object, lookup}
use multi_coder.Scte.{no_range}
use multi_coder.Dispatch.{start}
use multi_coder.Streams.{Worker, Stream, stopped, running, launched, publish_stream_health}
use multi_coder.Streams.Commands.{Env, Files}
use multi_coder.Streams.Control.{
  Encoder, Clock, start_aac_cmd, start_srt_cmd, stop_srt_cmd, execute_control_command,
  command_outcome, stream_command, refused-unchanged,
}
use multi_coder.Streams.Settled.{IsSettled, AllSettled}
use multi_coder.Streams.Steps.{Step, commanded, polled, run, run-AllSettled}
use multi_coder.Streams.Tally.{launches, ends, live}
use multi_coder.Streams.Processes.{run-Balanced, destroy_misses_srt}
use multi_coder.Streams.Start.{destroy}
use multi_coder.Streams.Health.{IsPublished, publish-IsPublished, run-IsPublished}
use multi_coder.Streams.Sidecar.Dedupe.{AreApart, run_sends, sidecar_sends_apart}

abbrev idle : Stream
idle = record { state = stopped; is_running = false; proc = none }

abbrev fresh : Worker
fresh = record {
  aac_stream = idle;
  mp3_stream = idle;
  hls_stream = idle;
  srt_stream = idle;
  relay_running = false;
  relay_proc = none;
  seg_mon_running = false;
  seg_mon_joinable = false;
  http_running = false;
  http_joinable = false;
  control_listener_running = true;
  cue_listener_running = true;
  runtime = [];
  effects = [];
}

abbrev files : Files
files = record {
  aac_json = (codes "url", record { raw = codes "http://host:8000/live"; quoted = true }) ∷ [];
  mp3_json = [];
  hls_json = [];
  srt_json = (codes "host", record { raw = codes "10.0.0.9"; quoted = true }) ∷ [];
  encoder_admin_json = [];
  input_json = [];
  metadata_json = [];
}

abbrev env : ℕ → Env
env h = record {
  now_s = 1000;
  encoder = 1;
  cfg_dir = codes "/etc/encoder1";
  files = files;
  resolve_local_ip = λ s. [];
  audio_filter = [];
  launch = some h;
}

-- AAC starts, dies and is found dead, and SRT starts and is stopped.
abbrev life : List Step
life =
    commanded (env 7) start_aac_cmd
    ∷ polled 1001 (λ p. not (p == 7))
    ∷ commanded (env 8) start_srt_cmd
    ∷ commanded (env 9) stop_srt_cmd
    ∷ []

abbrev seven : ℕ → Bool
seven p = p == 7

abbrev eight : ℕ → Bool
eight p = p == 8

idle-IsSettled : IsSettled idle
idle-IsSettled = record { has_proc = refl; up = λ e. cc; down = λ e. inl refl }

fresh-AllSettled : AllSettled fresh
fresh-AllSettled = record {
  aac_settled = idle-IsSettled;
  mp3_settled = idle-IsSettled;
  hls_settled = idle-IsSettled;
  srt_settled = idle-IsSettled;
  relay_settled = refl;
}

run-AllSettled_example : AllSettled (run life fresh)
run-AllSettled_example = run-AllSettled life fresh fresh-AllSettled

run-Balanced_example :
    launches eight (run life fresh)
    ≡ ends eight seven (run life fresh) + live eight (run life fresh)
run-Balanced_example =
    run-Balanced eight seven life fresh (tt, ((λ p e. ground arith), (tt, (tt, tt))))
      fresh-AllSettled refl

run-IsPublished_example : IsPublished (run life (publish_stream_health 999 fresh))
run-IsPublished_example =
    run-IsPublished life (publish_stream_health 999 fresh) (publish-IsPublished 999 fresh)

-- A worker whose SRT stream runs.
abbrev sending : Worker
sending = record fresh {
  srt_stream = record { state = running; is_running = true; proc = some 8 };
  effects = launched 8 [] ∷ [];
}

destroy_misses_srt_example :
    launches eight (destroy sending) ≡ ends eight seven (destroy sending) + 1
destroy_misses_srt_example = destroy_misses_srt eight seven sending refl

abbrev clock : Clock
clock = record {
  now = record { now_ms = 1000; now_iso = codes "2026-01-01T12:00:00.000Z" };
  timestamp = codes "2026-01-01T12:00:00.000Z";
  parse_utc = λ s. pos 0;
}

abbrev encoder : Encoder
encoder = record {
  worker = fresh;
  hls_scte_range = no_range;
  metadata_runtime = [];
  sidecar_ids = [];
  dispatch = start;
}

reboot_unknown :
    (execute_control_command (env 7) clock (codes "Reboot") (codes "control") [] [] encoder).0
    ≡ false
unfolding execute_control_command command_outcome stream_command is_scte_action
    parse_cue_command_rows get_raw_value get_sub_object lookup trim_copy beq
reboot_unknown = refl

refused-unchanged_example :
    (execute_control_command (env 7) clock (codes "Reboot") (codes "control") [] [] encoder).1
    ≡ encoder
refused-unchanged_example =
    refused-unchanged (env 7) clock (codes "Reboot") (codes "control") [] [] encoder reboot_unknown

abbrev sends : List (ℕ × Bytes)
sends = (1000, codes "a") ∷ (20000, codes "a") ∷ (31001, codes "a") ∷ []

sends_read : run_sends 30 sends [] [] ≡ (31001, codes "a") ∷ (1000, codes "a") ∷ []
unfolding run_sends sidecar_id_recently_sent prune seen_since get put beq
sends_read = refl

sidecar_sends_apart_example : AreApart 30000 (run_sends 30 sends [] [])
sidecar_sends_apart_example =
    sidecar_sends_apart 30 sends (omega arith)
      (omega arith, refl, (omega arith, refl, (omega arith, refl, tt)))
