-- ===== src/Streams/Processes.antt =====
-- The processes that the worker starts and ends (src/worker/worker.cpp, the starts, stops,
-- `pollSinkProcesses`, `Worker::~Worker`).
use multi_coder.Prelude.{
  ℕ, ◌+◌, refl, count_by, All, Bool, true, false, List, [], ◌∷◌, Option, none, some, Bytes, ◌≡◌,
  inl, inr, arith, Bool-cases, if◌then◌else◌,
}
use multi_coder.Streams.{
  StreamKind, aac, mp3, hls, srt, Worker, publish_stream_health, emit, exit_of, kill_proc, launched,
  end_stop, begin_stop, poll_sink, poll_relay, relay_gone, found_dead, poll_sink_processes,
  stop_aac, stop_mp3, stop_srt, stop_hls, end_hls_outputs, monitor_joined, server_joined,
  launch_failed, stopping,
}
use multi_coder.Streams.Commands.{Env}
use multi_coder.Streams.Outputs.{aac_command, mp3_command, srt_command}
use multi_coder.Streams.Control.{
  start_aac_cmd, stop_aac_cmd, start_mp3_cmd, stop_mp3_cmd, start_hls_cmd, stop_hls_cmd,
  start_srt_cmd, stop_srt_cmd, start_srt_input_cmd, stop_srt_input_cmd, run_stream_command,
}
use multi_coder.Streams.Start.{
  start_aac, start_mp3, start_srt, start_srt_input_relay, stop_srt_input_relay, launch_relay,
  kill_stream, kill_relay, join_threads, destroy,
}
use multi_coder.Streams.Steps.{Step, commanded, polled, apply, run, apply-AllSettled}
use multi_coder.Streams.Settled.{AllSettled}
use multi_coder.Streams.Tally.{
  is_launch, is_end, handles, live, launches, ends, Balanced, emitted, marked-Balanced,
  end_stop-Balanced, end_hls_outputs-Balanced, start_sink-Balanced, start_hls-Balanced,
}

-- `d` knows every process that a poll finds not alive.
abbrev pub KnowsDead : (ℕ → Bool) → Step → Type 0
KnowsDead d (commanded env c) = Unit
KnowsDead d (polled now alive) = (p : ℕ) → alive p ≡ false → d p ≡ true

module _ (c d : ℕ → Bool) where
  launch_relay-Balanced :
      (env : Env) (args : List Bytes) (o : Option ℕ) (w : Worker)
      → w.relay_proc ≡ none
      → Balanced c d w
      → Balanced c d (launch_relay env args o w)
  unfolding launch_relay
  launch_relay-Balanced env args none w e h =
      ground (arith, emitted c d (launch_failed args ∷ []) w)
  launch_relay-Balanced env args (some p) w e h =
      ground (arith, emitted c d (launched p args ∷ []) w)

  start_relay-Balanced :
      (env : Env) (w : Worker)
      → AllSettled w
      → Balanced c d w
      → Balanced c d (start_srt_input_relay env w)
  unfolding start_srt_input_relay
  start_relay-Balanced env w a h = elim (Bool-cases w.relay_running) [
    | inl e ↦ simp e h
    | inr e ↦
        let s = a.relay_settled in
        let l = launch_relay-Balanced env _ env.launch w (ground arith) h in simp e l
  ]

  stop_relay-Balanced : (w : Worker) → Balanced c d w → Balanced c d (stop_srt_input_relay w)
  unfolding stop_srt_input_relay
  stop_relay-Balanced w h = ground (arith, emitted c d (kill_proc w.relay_proc) w)

  -- A process that a poll finds dead counts as ended.
  exit_counts :
      (alive : ℕ → Bool) (known : (p : ℕ) → alive p ≡ false → d p ≡ true) (o : Option ℕ)
      → found_dead alive o ≡ true
      → (count_by (is_launch c) (exit_of o) ≡ 0) × (count_by (is_end c d) (exit_of o) ≡ handles c o)
  unfolding found_dead
  exit_counts alive known none e = (refl, refl)
  exit_counts alive known (some p) e = ground (arith, known p)

  poll_sink-Balanced :
      (alive : ℕ → Bool) (known : (p : ℕ) → alive p ≡ false → d p ≡ true) (k : StreamKind)
      (b : Bool) (w : Worker)
      → Balanced c d w
      → Balanced c d (poll_sink alive k (b, w)).1
  unfolding poll_sink
  poll_sink-Balanced alive known aac b w h =
      ground (
        arith,
        emitted c d (exit_of w.aac_stream.proc) w,
        exit_counts alive known w.aac_stream.proc,
      )
  poll_sink-Balanced alive known mp3 b w h =
      ground (
        arith,
        emitted c d (exit_of w.mp3_stream.proc) w,
        exit_counts alive known w.mp3_stream.proc,
      )
  poll_sink-Balanced alive known hls b w h =
      ground (
        arith,
        emitted c d (exit_of w.hls_stream.proc) w,
        exit_counts alive known w.hls_stream.proc,
      )
  poll_sink-Balanced alive known srt b w h =
      ground (
        arith,
        emitted c d (exit_of w.srt_stream.proc) w,
        exit_counts alive known w.srt_stream.proc,
      )

  poll_relay-Balanced :
      (alive : ℕ → Bool) (known : (p : ℕ) → alive p ≡ false → d p ≡ true) (b : Bool) (w : Worker)
      → Balanced c d w
      → Balanced c d (poll_relay alive (b, w)).1
  unfolding poll_relay relay_gone
  poll_relay-Balanced alive known b w h =
      ground (arith, emitted c d (exit_of w.relay_proc) w, exit_counts alive known w.relay_proc)

  published-Balanced :
      (now : ℕ) (w : Worker) → Balanced c d w → Balanced c d (publish_stream_health now w)
  unfolding publish_stream_health
  published-Balanced now w h = h

  poll-Balanced :
      (now : ℕ) (alive : ℕ → Bool) (known : (p : ℕ) → alive p ≡ false → d p ≡ true) (w : Worker)
      → Balanced c d w
      → Balanced c d (poll_sink_processes now alive w)
  unfolding poll_sink_processes
  poll-Balanced now alive known w h =
      let a = poll_sink alive aac (false, w) in
      let m = poll_sink alive mp3 a in
      let l = poll_sink alive hls m in
      let r = poll_sink alive srt l in
      let last = poll_relay alive r in
      let done = poll_relay-Balanced alive known r.0 r.1 (
        poll_sink-Balanced alive known srt l.0 l.1 (
          poll_sink-Balanced alive known hls m.0 m.1 (
            poll_sink-Balanced alive known mp3 a.0 a.1
              (poll_sink-Balanced alive known aac false w h)))) in
      elim (Bool-cases last.0) [
        | inl e ↦ rw e (published-Balanced now last.1 done)
        | inr e ↦ rw e done
      ]

  stop-Balanced :
      (now : ℕ) (k : StreamKind) (w : Worker)
      → Balanced c d w
      → Balanced c d (end_stop now k (begin_stop now k w))
  unfolding begin_stop
  stop-Balanced now k w h = end_stop-Balanced c d now k _ (marked-Balanced c d now k stopping w h)

  stop_hls-Balanced :
      (now : ℕ) (failover : Bool) (w : Worker)
      → Balanced c d w
      → Balanced c d (stop_hls now failover w)
  unfolding stop_hls begin_stop
  stop_hls-Balanced now failover w h =
      let begun = begin_stop now hls w in
      end_stop-Balanced c d now hls (end_hls_outputs failover begun)
        (end_hls_outputs-Balanced c d failover begun (marked-Balanced c d now hls stopping w h))

  apply-Balanced :
      (s : Step) (w : Worker)
      → KnowsDead d s
      → AllSettled w
      → Balanced c d w
      → Balanced c d (apply s w)
  unfolding apply run_stream_command start_aac start_mp3 start_srt stop_aac stop_mp3 stop_srt
  apply-Balanced (commanded env start_aac_cmd) w known a h =
      start_sink-Balanced c d env aac aac_command w h
  apply-Balanced (commanded env stop_aac_cmd) w known a h = stop-Balanced env.now_s aac w h
  apply-Balanced (commanded env start_mp3_cmd) w known a h =
      start_sink-Balanced c d env mp3 mp3_command w h
  apply-Balanced (commanded env stop_mp3_cmd) w known a h = stop-Balanced env.now_s mp3 w h
  apply-Balanced (commanded env start_hls_cmd) w known a h = start_hls-Balanced c d env w h
  apply-Balanced (commanded env stop_hls_cmd) w known a h = stop_hls-Balanced env.now_s _ w h
  apply-Balanced (commanded env start_srt_cmd) w known a h =
      start_sink-Balanced c d env srt srt_command w h
  apply-Balanced (commanded env stop_srt_cmd) w known a h = stop-Balanced env.now_s srt w h
  apply-Balanced (commanded env start_srt_input_cmd) w known a h = start_relay-Balanced env w a h
  apply-Balanced (commanded env stop_srt_input_cmd) w known a h = stop_relay-Balanced w h
  apply-Balanced (polled now alive) w known a h = poll-Balanced now alive known w h

  -- After any sequence of commands and polls, of any choice of processes - one of them, say, or all -
  -- as many have started as were killed, as were found dead and are in `d`, and as the worker has
  -- handles of, if `d` has every process that a poll finds not alive. So a process outside `d` counts
  -- as ended only where it is the one that was killed. It holds at the end if it does at the start,
  -- where the streams are settled.
  pub run-Balanced :
      (ss : List Step) (w : Worker)
      → All (KnowsDead d) ss
      → AllSettled w
      → launches c w ≡ ends c d w + live c w
      → launches c (run ss w) ≡ ends c d (run ss w) + live c (run ss w)
  unfolding run
  run-Balanced [] w k a h = h
  run-Balanced (s ∷ ss) w k a h =
      run-Balanced ss (apply s w) k.1 (apply-AllSettled s w a) (apply-Balanced s w k.0 a h)

  kill_stream-Balanced :
      (k : StreamKind) (w : Worker) → Balanced c d w → Balanced c d (kill_stream k w)
  kill_stream-Balanced aac w h = ground (arith, emitted c d (kill_proc w.aac_stream.proc) w)
  kill_stream-Balanced mp3 w h = ground (arith, emitted c d (kill_proc w.mp3_stream.proc) w)
  kill_stream-Balanced hls w h = ground (arith, emitted c d (kill_proc w.hls_stream.proc) w)
  kill_stream-Balanced srt w h = ground (arith, emitted c d (kill_proc w.srt_stream.proc) w)

  kill_relay-Balanced : (w : Worker) → Balanced c d w → Balanced c d (kill_relay w)
  kill_relay-Balanced w h = ground (arith, emitted c d (kill_proc w.relay_proc) w)

  join_threads-Balanced : (w : Worker) → Balanced c d w → Balanced c d (join_threads w)
  join_threads-Balanced w h =
      let server = if w.http_joinable then server_joined ∷ [] else [] in
      ground (
        arith,
        emitted c d server w,
        emitted c d (if w.seg_mon_joinable then monitor_joined ∷ [] else []) (emit server w),
      )

  -- The destructor misses a process: where, of any choice of processes, as many have started as were
  -- killed, or found dead and are in `d`, and as the worker has handles of, it leaves of them as many
  -- that did not end as the SRT stream has, and no others.
  pub destroy_misses_srt :
      (w : Worker)
      → launches c w ≡ ends c d w + live c w
      → launches c (destroy w) ≡ ends c d (destroy w) + handles c w.srt_stream.proc
  unfolding destroy
  destroy_misses_srt w h =
      let a = kill_stream aac w in
      let m = kill_stream mp3 a in
      let l = kill_stream hls m in
      let done = join_threads-Balanced (kill_relay l) (
        kill_relay-Balanced l (
          kill_stream-Balanced hls m
            (kill_stream-Balanced mp3 a (kill_stream-Balanced aac w h)))) in
      omega (arith, done)
