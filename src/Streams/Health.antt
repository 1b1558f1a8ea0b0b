-- ===== src/Streams/Health.antt =====
-- What `runtime_state.json` says of the streams (src/worker/worker.cpp, `publishStreamHealth`).
use multi_coder.Prelude.{
  ℕ, Bool, true, false, ◌&&◌, List, [], ◌∷◌, Option, none, some, Bytes, codes, beq, ◌≡◌, ◌∙◌, inl,
  inr, arith, Bool-cases,
}
use multi_coder.Json.{Object, get_string, get_bool, set_string, set_bool, set_int}
use multi_coder.Prelude.Int.{ℤ}
use multi_coder.Json.Access.{json_access}
use multi_coder.Streams.{
  StreamKind, aac, mp3, hls, srt, Stream, Worker, get_stream, put_stream, stream_state_to_string,
  health, publish_stream_health, set_stream_state, Effect, launched, kill_proc, stopped, failed,
  running, emit, end_stop, begin_stop, end_hls_outputs, found_dead, poll_sink, poll_relay,
  poll_sink_processes, stop_aac, stop_mp3, stop_srt, stop_hls,
}
use multi_coder.Streams.Commands.{Env}
use multi_coder.Streams.Outputs.{hls_command, aac_command, mp3_command, srt_command}
use multi_coder.Streams.Start.{
  is_busy, already_running, begin_start, fail_start, launch_sink, start_with, start_sink, start_aac,
  start_mp3, start_srt, start_hls, launch_hls, launch_relay, start_srt_input_relay,
  stop_srt_input_relay, refused_by_ffmpeg, failover_configured, start_threads, cleaned,
}
use multi_coder.Streams.Control.{
  start_aac_cmd, stop_aac_cmd, start_mp3_cmd, stop_mp3_cmd, start_hls_cmd, stop_hls_cmd,
  start_srt_cmd, stop_srt_cmd, start_srt_input_cmd, stop_srt_input_cmd, run_stream_command,
}
use multi_coder.Streams.Steps.{Step, commanded, polled, apply, run}

-- The file says whether a stream runs, and its state.
pub record Shows (rt : Object) (running_key state_key : Bytes) (s : Stream) : Type 0 where
  pub says_running : get_bool rt running_key false ≡ s.is_running
  pub says_state : get_string rt state_key [] ≡ stream_state_to_string s.state

pub record IsPublished (w : Worker) : Type 0 where
  pub aac_shown : Shows w.runtime (codes "workerAacRunning") (codes "workerAacState") w.aac_stream
  pub mp3_shown : Shows w.runtime (codes "workerMp3Running") (codes "workerMp3State") w.mp3_stream
  pub hls_shown : Shows w.runtime (codes "workerHlsRunning") (codes "workerHlsState") w.hls_stream
  pub srt_shown : Shows w.runtime (codes "workerSrtRunning") (codes "workerSrtState") w.srt_stream

pub publish-IsPublished : (now : ℕ) (w : Worker) → IsPublished (publish_stream_health now w)
unfolding publish_stream_health health beq
publish-IsPublished now w = record {
  aac_shown = record { says_running = simp json_access; says_state = simp json_access };
  mp3_shown = record { says_running = simp json_access; says_state = simp json_access };
  hls_shown = record { says_running = simp json_access; says_state = simp json_access };
  srt_shown = record { says_running = simp json_access; says_state = simp json_access };
}

fail_start-IsPublished : (now : ℕ) (k : StreamKind) (w : Worker) → IsPublished (fail_start now k w)
unfolding fail_start
fail_start-IsPublished now k w = publish-IsPublished now (set_stream_state k failed w)

already_running-IsPublished :
    (now : ℕ) (k : StreamKind) (w : Worker) → IsPublished (already_running now k w)
unfolding already_running
already_running-IsPublished now k w = publish-IsPublished now (set_stream_state k running w)

launch_sink-IsPublished :
    (now : ℕ) (k : StreamKind) (args : List Bytes) (o : Option ℕ) (w : Worker)
    → IsPublished (launch_sink now k args o w)
unfolding launch_sink
launch_sink-IsPublished now k args none w =
    fail_start-IsPublished now k (refused_by_ffmpeg k args w)
launch_sink-IsPublished now k args (some h) w = publish-IsPublished now (
    put_stream k (record { state = running; is_running = true; proc = some h })
      (emit (launched h args ∷ []) w))

start_with-IsPublished :
    (env : Env) (k : StreamKind) (o : Option (List Bytes)) (w : Worker)
    → IsPublished (start_with env k o w)
unfolding start_with
start_with-IsPublished env k none w = fail_start-IsPublished env.now_s k w
start_with-IsPublished env k (some args) w = launch_sink-IsPublished env.now_s k args env.launch w

start_sink-IsPublished :
    (env : Env) (k : StreamKind) (command : Env → Object → Option (List Bytes)) (w : Worker)
    → IsPublished (start_sink env k command w)
unfolding start_sink
start_sink-IsPublished env k command w =
    let begun = begin_start env.now_s k w in
    elim (Bool-cases (is_busy (get_stream k w))) [
      | inl e ↦ rw e (already_running-IsPublished env.now_s k w)
      | inr e ↦ rw e (start_with-IsPublished env k (command env begun.runtime) begun)
    ]

launch_hls-IsPublished :
    (env : Env) (args : List Bytes) (o : Option ℕ) (w : Worker)
    → IsPublished (launch_hls env args o w)
unfolding launch_hls
launch_hls-IsPublished env args none w =
    fail_start-IsPublished env.now_s hls (refused_by_ffmpeg hls args w)
launch_hls-IsPublished env args (some h) w = publish-IsPublished env.now_s (
    put_stream hls (record { state = running; is_running = true; proc = some h })
      (start_threads env args h w))

start_hls-IsPublished : (env : Env) (w : Worker) → IsPublished (start_hls env w)
unfolding start_hls
start_hls-IsPublished env w =
    let begun = begin_start env.now_s hls w in
    elim (Bool-cases (is_busy w.hls_stream)) [
      | inl e ↦ rw e (already_running-IsPublished env.now_s hls w)
      | inr e ↦ rw e (
          launch_hls-IsPublished env (hls_command env begun.runtime) env.launch (cleaned env begun))
    ]

end_stop-IsPublished : (now : ℕ) (k : StreamKind) (w : Worker) → IsPublished (end_stop now k w)
unfolding end_stop
end_stop-IsPublished now k w = publish-IsPublished now (
    put_stream k (record { state = stopped; is_running = false; proc = none })
      (emit (kill_proc (get_stream k w).proc) w))

-- A write of a key of another object leaves what is shown.
shown_beside :
    (rt rt' : Object) (running_key state_key : Bytes) (s : Stream)
    → get_bool rt' running_key false ≡ get_bool rt running_key false
    → get_string rt' state_key [] ≡ get_string rt state_key []
    → Shows rt running_key state_key s
    → Shows rt' running_key state_key s
shown_beside rt rt' running_key state_key s b t h = record {
  says_running = b ∙ h.says_running;
  says_state = t ∙ h.says_state;
}

-- The three writes of the relay.
relay_rt : Object → Bool → ℤ → Bytes → Object
relay_rt rt active port address =
    set_string (set_int (set_bool rt (codes "srtRelayActive") active) (codes "srtRelayPort") port)
      (codes "srtRelayAddr") address

relay_rt-shown :
    (w : Worker) (active : Bool) (port : ℤ) (address : Bytes) (p : Option ℕ) (b : Bool)
    (es : List Effect)
    → IsPublished w
    → IsPublished (record w {
      relay_running = b;
      relay_proc = p;
      runtime = relay_rt w.runtime active port address;
      effects = es;
    })
unfolding relay_rt beq
relay_rt-shown w active port address p b es h =
    let rt = w.runtime in
    let new = relay_rt rt active port address in
    record {
      aac_shown =
          shown_beside rt new _ _ w.aac_stream (simp json_access) (simp json_access) h.aac_shown;
      mp3_shown =
          shown_beside rt new _ _ w.mp3_stream (simp json_access) (simp json_access) h.mp3_shown;
      hls_shown =
          shown_beside rt new _ _ w.hls_stream (simp json_access) (simp json_access) h.hls_shown;
      srt_shown =
          shown_beside rt new _ _ w.srt_stream (simp json_access) (simp json_access) h.srt_shown;
    }

effects_shown :
    (es : List Effect) (p : Option ℕ) (w : Worker)
    → IsPublished w
    → IsPublished (record w { relay_proc = p; effects = es })
effects_shown es p w h = record {
  aac_shown = h.aac_shown;
  mp3_shown = h.mp3_shown;
  hls_shown = h.hls_shown;
  srt_shown = h.srt_shown;
}

launch_relay-IsPublished :
    (env : Env) (args : List Bytes) (o : Option ℕ) (w : Worker)
    → IsPublished w
    → IsPublished (launch_relay env args o w)
unfolding launch_relay relay_rt
launch_relay-IsPublished env args none w h = effects_shown _ none w h
launch_relay-IsPublished env args (some p) w h = relay_rt-shown w true _ _ (some p) true _ h

start_relay-IsPublished :
    (env : Env) (w : Worker) → IsPublished w → IsPublished (start_srt_input_relay env w)
unfolding start_srt_input_relay
start_relay-IsPublished env w h = elim (Bool-cases w.relay_running) [
  | inl e ↦ simp e h
  | inr e ↦ let l = launch_relay-IsPublished env _ env.launch w h in simp e l
]

stop_relay-IsPublished : (w : Worker) → IsPublished w → IsPublished (stop_srt_input_relay w)
unfolding stop_srt_input_relay relay_rt
stop_relay-IsPublished w h = relay_rt-shown w false _ _ none false _ h

-- A poll that reports no change has made none.
poll_sink-quiet :
    (alive : ℕ → Bool) (k : StreamKind) (c : Bool) (w : Worker)
    → (c ≡ false → IsPublished w)
    → (poll_sink alive k (c, w)).0 ≡ false
    → IsPublished (poll_sink alive k (c, w)).1
unfolding poll_sink
poll_sink-quiet alive k c w h q =
    elim (Bool-cases ((get_stream k w).is_running && found_dead alive (get_stream k w).proc)) [
      | inl e ↦ absurd (ground arith)
      | inr e ↦ rw e (h (ground arith))
    ]

poll_relay-quiet :
    (alive : ℕ → Bool) (c : Bool) (w : Worker)
    → (c ≡ false → IsPublished w)
    → (poll_relay alive (c, w)).0 ≡ false
    → IsPublished (poll_relay alive (c, w)).1
unfolding poll_relay
poll_relay-quiet alive c w h q =
    elim (Bool-cases (w.relay_running && found_dead alive w.relay_proc)) [
      | inl e ↦ absurd (ground arith)
      | inr e ↦ rw e (h (ground arith))
    ]

poll-IsPublished :
    (now : ℕ) (alive : ℕ → Bool) (w : Worker)
    → IsPublished w
    → IsPublished (poll_sink_processes now alive w)
unfolding poll_sink_processes
poll-IsPublished now alive w h =
    let a = poll_sink alive aac (false, w) in
    let m = poll_sink alive mp3 a in
    let l = poll_sink alive hls m in
    let r = poll_sink alive srt l in
    let last = poll_relay alive r in
    let quiet = poll_relay-quiet alive r.0 r.1 (
      poll_sink-quiet alive srt l.0 l.1 (
        poll_sink-quiet alive hls m.0 m.1
          (poll_sink-quiet alive mp3 a.0 a.1 (poll_sink-quiet alive aac false w (λ e. h))))) in
    elim (Bool-cases last.0) [
      | inl e ↦ rw e (publish-IsPublished now last.1)
      | inr e ↦ rw e (quiet e)
    ]

apply-IsPublished : (s : Step) (w : Worker) → IsPublished w → IsPublished (apply s w)
unfolding apply run_stream_command start_aac start_mp3 start_srt stop_aac stop_mp3 stop_srt stop_hls
apply-IsPublished (commanded env start_aac_cmd) w h = start_sink-IsPublished env aac aac_command w
apply-IsPublished (commanded env stop_aac_cmd) w h =
    end_stop-IsPublished env.now_s aac (begin_stop env.now_s aac w)
apply-IsPublished (commanded env start_mp3_cmd) w h = start_sink-IsPublished env mp3 mp3_command w
apply-IsPublished (commanded env stop_mp3_cmd) w h =
    end_stop-IsPublished env.now_s mp3 (begin_stop env.now_s mp3 w)
apply-IsPublished (commanded env start_hls_cmd) w h = start_hls-IsPublished env w
apply-IsPublished (commanded env stop_hls_cmd) w h =
    end_stop-IsPublished env.now_s hls
      (end_hls_outputs (failover_configured env) (begin_stop env.now_s hls w))
apply-IsPublished (commanded env start_srt_cmd) w h = start_sink-IsPublished env srt srt_command w
apply-IsPublished (commanded env stop_srt_cmd) w h =
    end_stop-IsPublished env.now_s srt (begin_stop env.now_s srt w)
apply-IsPublished (commanded env start_srt_input_cmd) w h = start_relay-IsPublished env w h
apply-IsPublished (commanded env stop_srt_input_cmd) w h = stop_relay-IsPublished w h
apply-IsPublished (polled now alive) w h = poll-IsPublished now alive w h

-- After any sequence of commands and polls, `runtime_state.json` says of each stream whether it runs
-- and what its state is, as the worker has it in memory. It holds at the end if it does at the start.
pub run-IsPublished : (ss : List Step) (w : Worker) → IsPublished w → IsPublished (run ss w)
unfolding run
run-IsPublished [] w h = h
run-IsPublished (s ∷ ss) w h = run-IsPublished ss (apply s w) (apply-IsPublished s w h)
