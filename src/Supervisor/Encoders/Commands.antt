-- ===== src/Supervisor/Encoders/Commands.antt =====
-- Stream commands with the launch of a worker, and what the encoders report
-- (src/supervisor/supervisor_api.cpp: `sendWorkerControlWithAutoStart`, `encoderJsonNoLock`,
-- `allEncodersJson` and the stream routes of `handleReq`).
use multi_coder.Prelude.{
  ℕ, zero, suc, ◌+◌, Bool, true, false, not, ◌&&◌, ◌||◌, [], ◌∷◌, ◌++◌, Option, none, some, Bytes,
  codes, to_string, take, ◌==◌, if◌then◌else◌,
}
use multi_coder.Prelude.Int.{pos}
use multi_coder.Strings.{upper_ascii}
use multi_coder.Strings.Lines.{concat, contains}
use multi_coder.Json.{Object, get_string, get_int, get_bool}
use multi_coder.Supervisor.Http.{Response}
use multi_coder.Supervisor.Host.{
  Host, World, EncoderState, runtime_state_path, read_json_file, append_logs,
  send_worker_control_command, launch_worker_process,
}
use multi_coder.Supervisor.Text.{json, bool_text, error_body, is_fresh}
use multi_coder.Supervisor.Encoders.{
  connect_failed, Sent, with_ok, active_encoder_count, set_running, stream_of, Stream,
  stream_command, set_encoder, failed_flags,
}

module _ (w : World) where
  -- The loop behind a launch, `tries` times at most.
  unfoldable pub retry_command : ℕ → ℕ → Bytes → Host → Sent × Host
  retry_command zero enc cmd h = (
    record {
      err =
          some (codes "worker auto-started but control listener did not become reachable in time");
      auto_started = true;
    },
    h,
  )
  retry_command (suc tries) enc cmd h =
      let (err, h') = send_worker_control_command w enc cmd h in
      let rest = retry_command tries enc cmd h' in
      elim err [ none ↦ (record { err = none; auto_started = true }, h') | some e ↦ rest ]

  unfoldable pub after_launch : ℕ → Bytes → Bytes → Option Bytes × Host → Sent × Host
  unfolding retry_command
  after_launch enc cmd err (none, h) = retry_command 40 enc cmd h
  after_launch enc cmd err (some launch_err, h) = (
    record {
      err = some (concat (err ∷ codes "; worker auto-start failed: " ∷ launch_err ∷ []));
      auto_started = false;
    },
    h,
  )

  unfoldable pub after_command : ℕ → Bytes → Bool → Option Bytes × Host → Sent × Host
  unfolding after_launch
  after_command enc cmd allow (none, h) = (record { err = none; auto_started = false }, h)
  after_command enc cmd allow (some err, h) =
      if not allow || not (contains connect_failed err)
      then (record { err = some err; auto_started = false }, h)
      else after_launch enc cmd err (launch_worker_process w enc h)

  unfoldable pub send_worker_control_with_auto_start : ℕ → Bytes → Bool → Host → Sent × Host
  unfolding after_command
  send_worker_control_with_auto_start enc cmd allow h =
      after_command enc cmd allow (send_worker_control_command w enc cmd h)

  -- The flags and the members that a fresh heartbeat gives, or those of a stopped worker.
  unfoldable pub worker_flags : Object → EncoderState
  worker_flags runtime =
      let fresh =
        is_fresh w.now_epoch (get_int runtime (codes "workerHeartbeatEpoch") (pos 0)) (pos 10) in
      let flag = λ (k : Bytes). if fresh then get_bool runtime k false else false in
      record {
        aac_running = flag (codes "workerAacRunning");
        mp3_running = flag (codes "workerMp3Running");
        hls_running = flag (codes "workerHlsRunning");
        srt_running = flag (codes "workerSrtRunning");
      }

  -- `snprintf` cuts the text at 767 bytes.
  unfoldable pub encoder_json : ℕ → Host → Bytes × Host
  unfolding worker_flags set_encoder
  encoder_json enc h =
      let runtime = read_json_file h (runtime_state_path enc) in
      let fresh =
        is_fresh w.now_epoch (get_int runtime (codes "workerHeartbeatEpoch") (pos 0)) (pos 10) in
      let e = worker_flags runtime in
      let listener = λ (k : Bytes). bool_text (fresh && get_bool runtime k false) in
      let state = λ (k : Bytes) (b : Bool).
        if fresh
        then get_string runtime k (if b then codes "running" else codes "stopped")
        else codes "stopped" in
      (
        take 767 (
            concat (
              codes "{\"id\":"
              ∷ to_string enc
              ∷ codes ",\"name\":\"Encoder-"
              ∷ to_string enc
              ∷ codes "\",\"aac\":"
              ∷ bool_text e.aac_running
              ∷ codes ",\"mp3\":"
              ∷ bool_text e.mp3_running
              ∷ codes ",\"hls\":"
              ∷ bool_text e.hls_running
              ∷ codes ",\"srt\":"
              ∷ bool_text e.srt_running
              ∷ codes ",\"aacState\":\""
              ∷ state (codes "workerAacState") e.aac_running
              ∷ codes "\",\"mp3State\":\""
              ∷ state (codes "workerMp3State") e.mp3_running
              ∷ codes "\",\"hlsState\":\""
              ∷ state (codes "workerHlsState") e.hls_running
              ∷ codes "\",\"srtState\":\""
              ∷ state (codes "workerSrtState") e.srt_running
              ∷ codes "\",\"controlListenerRunning\":"
              ∷ listener (codes "controlListenerRunning")
              ∷ codes ",\"metadataListenerRunning\":"
              ∷ listener (codes "metadataListenerRunning")
              ∷ codes "}"
              ∷ [])),
        set_encoder enc e h,
      )

  -- The encoders that are left, from `enc` on.
  encoders_from : ℕ → ℕ → Host → Bytes × Host
  unfolding encoder_json
  encoders_from zero enc h = ([], h)
  encoders_from (suc left) enc h =
      let (text, h1) = encoder_json enc h in
      let (more, h2) = encoders_from left (enc + 1) h1 in
      ((if enc == 1 then [] else codes ",") ++ (text ++ more), h2)

  unfoldable pub all_encoders_json : Host → Bytes × Host
  unfolding encoders_from active_encoder_count
  all_encoders_json h =
      let (text, h') = encoders_from (active_encoder_count h) 1 h in
      (concat (codes "[" ∷ text ∷ codes "]" ∷ []), h')

  failed : ℕ → Stream → Bytes → Bytes → Host → Response × Host
  failed enc s what err h = (
    json 200 (error_body err),
    append_logs enc (concat (what ∷ codes " FAILED: " ∷ err ∷ []))
        (set_encoder enc (failed_flags s err (h.encoders enc)) h),
  )

  -- The answer is that of the encoder's state, which is read from the runtime file once more.
  acknowledged : ℕ → Stream → Bool → Bytes → Host → Response × Host
  unfolding encoder_json with_ok set_encoder
  acknowledged enc s on what h =
      let h1 =
        append_logs enc (what ++ codes " acknowledged by worker")
          (set_encoder enc (set_running s on (h.encoders enc)) h) in
      let (text, h2) = encoder_json enc h1 in (json 200 (with_ok text), h2)

  answered : ℕ → Stream → Bool → Bytes → Sent × Host → Response × Host
  unfolding failed acknowledged
  answered enc s on what (sent, h) = elim sent.err [
    | some err ↦ failed enc s what err h
    | none ↦ acknowledged enc s on what (
        if sent.auto_started
        then append_logs enc
            (concat (codes "Worker auto-started to satisfy " ∷ what ∷ codes " request" ∷ [])) h
        else h)
  ]

  -- `<stream>/start` and `<stream>/stop`
  unfoldable pub stream_request : ℕ → Bytes → Bool → Host → Response × Host
  unfolding answered send_worker_control_with_auto_start stream_of
  stream_request enc stream_type on h =
      let what =
        concat (upper_ascii stream_type ∷ (if on then codes " start" else codes " stop") ∷ []) in
      elim (stream_of stream_type) [
        | none ↦ (json 400 (codes "{\"error\":\"unknown stream type\"}"), h)
        | some s ↦ answered enc s on what (
            send_worker_control_with_auto_start enc (stream_command s on) on
              (append_logs enc (what ++ codes " requested") h))
      ]
