-- ===== src/Streams/Steps.antt =====
-- Any sequence of commands and polls (src/worker/worker.cpp, `executeControlCommand` with a stream's
-- command, `pollSinkProcesses`).
use multi_coder.Prelude.{
  ℕ, Bool, true, false, ◌&&◌, List, [], ◌∷◌, Option, none, some, Bytes, ◌≡◌, inl, inr, refl, arith,
  is_some, Bool-cases,
}
use multi_coder.Json.{Object}
use multi_coder.Streams.{
  StreamKind, aac, mp3, hls, srt, Worker, get_stream, exit_of, Effect, poll_sink, poll_relay,
  found_dead, relay_gone, poll_sink_processes, dead, stop_aac, stop_mp3, stop_srt,
}
use multi_coder.Streams.Commands.{Env}
use multi_coder.Streams.Start.{
  is_busy, begin_start, cleaned, start_aac, start_mp3, start_srt, start_hls, start_srt_input_relay,
  stop_srt_input_relay, launch_relay,
}
use multi_coder.Streams.Outputs.{aac_command, mp3_command, srt_command}
use multi_coder.Streams.Control.{
  StreamCommand, start_aac_cmd, stop_aac_cmd, start_mp3_cmd, stop_mp3_cmd, start_hls_cmd,
  stop_hls_cmd, start_srt_cmd, stop_srt_cmd, start_srt_input_cmd, stop_srt_input_cmd,
  run_stream_command,
}
use multi_coder.Streams.Settled.{
  AllSettled, rest_of, put-AllSettled, emit-RestSettled, publish-AllSettled, stop-AllSettled,
  stop_hls-AllSettled, dead-IsSettled,
}
use multi_coder.Streams.Starts.{
  start_sink-AllSettled, launch_hls-AllSettled, begin_start-Begun, already_running-AllSettled,
}

pub data Step : Type 0 where
  commanded : Env → StreamCommand → Step
  polled : ℕ → (ℕ → Bool) → Step

unfoldable pub apply : Step → Worker → Worker
unfolding run_stream_command poll_sink_processes
apply (commanded env c) w = run_stream_command env c w
apply (polled now alive) w = poll_sink_processes now alive w

unfoldable pub run : List Step → Worker → Worker
unfolding apply
run [] w = w
run (s ∷ ss) w = run ss (apply s w)

start_hls-AllSettled : (env : Env) (w : Worker) → AllSettled w → AllSettled (start_hls env w)
unfolding start_hls
start_hls-AllSettled env w h = elim (Bool-cases (is_busy w.hls_stream)) [
  | inl e ↦ rw e (already_running-AllSettled env.now_s hls w e h)
  | inr e ↦
      let b = begin_start-Begun env.now_s hls w e h in
      let others = b.rest in
      let idle = b.idle in
      let free = b.free in
      rw e (
        launch_hls-AllSettled env _ env.launch (cleaned env (begin_start env.now_s hls w))
          (record { rest = ground arith; idle = ground arith; free = ground arith }))
]

-- The relay has a process exactly when it is marked as running.
relayed :
    (b : Bool) (p : Option ℕ) (rt : Object) (es : List Effect) (w : Worker)
    → b ≡ is_some p
    → AllSettled w
    → AllSettled (record w { relay_running = b; relay_proc = p; runtime = rt; effects = es })
relayed b p rt es w e h = record {
  aac_settled = h.aac_settled;
  mp3_settled = h.mp3_settled;
  hls_settled = h.hls_settled;
  srt_settled = h.srt_settled;
  relay_settled = e;
}

launch_relay-AllSettled :
    (env : Env) (args : List Bytes) (o : Option ℕ) (w : Worker)
    → w.relay_running ≡ false
    → AllSettled w
    → AllSettled (launch_relay env args o w)
unfolding launch_relay
launch_relay-AllSettled env args none w e h = relayed w.relay_running none _ _ w e h
launch_relay-AllSettled env args (some p) w e h = relayed true (some p) _ _ w refl h

start_relay-AllSettled :
    (env : Env) (w : Worker) → AllSettled w → AllSettled (start_srt_input_relay env w)
unfolding start_srt_input_relay
start_relay-AllSettled env w h = elim (Bool-cases w.relay_running) [
  | inl e ↦ simp e h
  | inr e ↦ let l = launch_relay-AllSettled env _ env.launch w e h in simp e l
]

poll_sink-AllSettled :
    (alive : ℕ → Bool) (k : StreamKind) (c : Bool) (w : Worker)
    → AllSettled w
    → AllSettled (poll_sink alive k (c, w)).1
unfolding poll_sink
poll_sink-AllSettled alive k c w h =
    elim (Bool-cases ((get_stream k w).is_running && found_dead alive (get_stream k w).proc)) [
      | inl e ↦ rw e (
          put-AllSettled k dead _
            (emit-RestSettled k (exit_of (get_stream k w).proc) w (rest_of k w h)) dead-IsSettled)
      | inr e ↦ rw e h
    ]

poll_relay-AllSettled :
    (alive : ℕ → Bool) (c : Bool) (w : Worker)
    → AllSettled w
    → AllSettled (poll_relay alive (c, w)).1
unfolding poll_relay relay_gone
poll_relay-AllSettled alive c w h =
    elim (Bool-cases (w.relay_running && found_dead alive w.relay_proc)) [
      | inl e ↦ rw e (relayed false none _ _ w refl h)
      | inr e ↦ rw e h
    ]

poll-AllSettled :
    (now : ℕ) (alive : ℕ → Bool) (w : Worker)
    → AllSettled w
    → AllSettled (poll_sink_processes now alive w)
unfolding poll_sink_processes
poll-AllSettled now alive w h =
    let a = poll_sink alive aac (false, w) in
    let m = poll_sink alive mp3 a in
    let l = poll_sink alive hls m in
    let r = poll_sink alive srt l in
    let last = poll_relay alive r in
    let done = poll_relay-AllSettled alive r.0 r.1 (
      poll_sink-AllSettled alive srt l.0 l.1 (
        poll_sink-AllSettled alive hls m.0 m.1
          (poll_sink-AllSettled alive mp3 a.0 a.1 (poll_sink-AllSettled alive aac false w h)))) in
    elim (Bool-cases last.0) [
      | inl e ↦ rw e (publish-AllSettled now last.1 done)
      | inr e ↦ rw e done
    ]

pub apply-AllSettled : (s : Step) (w : Worker) → AllSettled w → AllSettled (apply s w)
unfolding apply run_stream_command start_aac start_mp3 start_srt stop_aac stop_mp3 stop_srt
    stop_srt_input_relay
apply-AllSettled (commanded env start_aac_cmd) w h = start_sink-AllSettled env aac aac_command w h
apply-AllSettled (commanded env stop_aac_cmd) w h = stop-AllSettled env.now_s aac w h
apply-AllSettled (commanded env start_mp3_cmd) w h = start_sink-AllSettled env mp3 mp3_command w h
apply-AllSettled (commanded env stop_mp3_cmd) w h = stop-AllSettled env.now_s mp3 w h
apply-AllSettled (commanded env start_hls_cmd) w h = start_hls-AllSettled env w h
apply-AllSettled (commanded env stop_hls_cmd) w h = stop_hls-AllSettled env.now_s _ w h
apply-AllSettled (commanded env start_srt_cmd) w h = start_sink-AllSettled env srt srt_command w h
apply-AllSettled (commanded env stop_srt_cmd) w h = stop-AllSettled env.now_s srt w h
apply-AllSettled (commanded env start_srt_input_cmd) w h = start_relay-AllSettled env w h
apply-AllSettled (commanded env stop_srt_input_cmd) w h = relayed false none _ _ w refl h
apply-AllSettled (polled now alive) w h = poll-AllSettled now alive w h

-- After any sequence of commands and polls, whatever is configured and whatever processes start and
-- die, each stream and the relay is marked as running exactly when it has a process, and its state
-- says so; no step ends in `starting` or `stopping`. It holds at the end if it does at the start.
pub run-AllSettled : (ss : List Step) (w : Worker) → AllSettled w → AllSettled (run ss w)
unfolding run
run-AllSettled [] w h = h
run-AllSettled (s ∷ ss) w h = run-AllSettled ss (apply s w) (apply-AllSettled s w h)
