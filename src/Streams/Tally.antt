-- ===== src/Streams/Tally.antt =====
-- Counts of the processes that start and end, over the starts and the stops of the streams
-- (src/worker/worker.cpp, `startAAC` … `stopSRT`).
use multi_coder.Prelude.{
  ℕ, ◌+◌, Bool, false, ◌&&◌, List, [], ◌∷◌, ◌++◌, Option, none, some, Bytes, ◌≡◌, inl, inr, arith,
  Bool-cases, if◌then◌else◌, count_by, count_by-append,
}
use multi_coder.Json.{Object}
use multi_coder.Streams.{
  StreamKind, aac, mp3, hls, srt, Worker, get_stream, publish_stream_health, emit, kill_proc,
  Effect, launched, killed, exited, end_stop, end_hls_outputs, end_monitor, end_server,
  monitor_joined, server_joined, clean_up, launch_failed, LifecycleState, set_stream_state,
  starting, running, failed, monitor_started, server_started,
}
use multi_coder.Prelude.{codes}
use multi_coder.Prelude.Int.{pos}
use multi_coder.Json.{get_int}
use multi_coder.Streams.Commands.{Env}
use multi_coder.Streams.Outputs.{retain_segments}
use multi_coder.Streams.Start.{
  is_busy, begin_start, cleaned, launch_hls, start_sink, start_with, launch_sink, already_running,
  fail_start, start_hls, start_monitor, start_server,
}

-- The effects counted are those of the processes that `c` chooses; that a process was found dead
-- counts as its end where `d` knows it to be dead.
abbrev pub is_launch : (ℕ → Bool) → Effect → Bool
is_launch c (launched p _) = c p
is_launch c _ = false

abbrev pub is_end : (ℕ → Bool) → (ℕ → Bool) → Effect → Bool
is_end c d (killed p) = c p
is_end c d (exited p) = c p && d p
is_end c d _ = false

abbrev pub handles : (ℕ → Bool) → Option ℕ → ℕ
handles c none = 0
handles c (some p) = if c p then 1 else 0

-- The handles that the worker has of the processes chosen.
abbrev pub live : (ℕ → Bool) → Worker → ℕ
live c w =
    handles c w.aac_stream.proc
    + handles c w.mp3_stream.proc
    + handles c w.hls_stream.proc
    + handles c w.srt_stream.proc
    + handles c w.relay_proc

abbrev pub launches : (ℕ → Bool) → Worker → ℕ
launches c w = count_by (is_launch c) w.effects

abbrev pub ends : (ℕ → Bool) → (ℕ → Bool) → Worker → ℕ
ends c d w = count_by (is_end c d) w.effects

abbrev pub Balanced : (ℕ → Bool) → (ℕ → Bool) → Worker → Type 0
Balanced c d w = launches c w ≡ ends c d w + live c w

module _ (c d : ℕ → Bool) where
  pub emitted :
      (es : List Effect) (w : Worker)
      → (launches c (emit es w) ≡ launches c w + count_by (is_launch c) es)
        × (ends c d (emit es w) ≡ ends c d w + count_by (is_end c d) es)
  emitted es w =
      (count_by-append (is_launch c) w.effects es, count_by-append (is_end c d) w.effects es)

  -- A stream's state is no process.
  pub marked-Balanced :
      (now : ℕ) (k : StreamKind) (st : LifecycleState) (w : Worker)
      → Balanced c d w
      → Balanced c d (publish_stream_health now (set_stream_state k st w))
  unfolding publish_stream_health
  marked-Balanced now aac st w h = h
  marked-Balanced now mp3 st w h = h
  marked-Balanced now hls st w h = h
  marked-Balanced now srt st w h = h

  pub end_stop-Balanced :
      (now : ℕ) (k : StreamKind) (w : Worker) → Balanced c d w → Balanced c d (end_stop now k w)
  unfolding end_stop publish_stream_health
  end_stop-Balanced now aac w h = ground (arith, emitted (kill_proc w.aac_stream.proc) w)
  end_stop-Balanced now mp3 w h = ground (arith, emitted (kill_proc w.mp3_stream.proc) w)
  end_stop-Balanced now hls w h = ground (arith, emitted (kill_proc w.hls_stream.proc) w)
  end_stop-Balanced now srt w h = ground (arith, emitted (kill_proc w.srt_stream.proc) w)

  pub end_monitor-Balanced : (w : Worker) → Balanced c d w → Balanced c d (end_monitor w)
  end_monitor-Balanced w h =
      ground (arith, emitted (if w.seg_mon_joinable then monitor_joined ∷ [] else []) w)

  pub end_server-Balanced : (w : Worker) → Balanced c d w → Balanced c d (end_server w)
  end_server-Balanced w h =
      ground (arith, emitted (if w.http_joinable then server_joined ∷ [] else []) w)

  pub kill_hls-Balanced :
      (failover : Bool) (w : Worker)
      → Balanced c d w
      → let gone = record (emit (kill_proc w.hls_stream.proc) w) {
        hls_stream = record w.hls_stream { proc = none };
      } in
        Balanced c d (if failover then gone else emit (clean_up ∷ []) gone)
  kill_hls-Balanced failover w h =
      let gone = record (emit (kill_proc w.hls_stream.proc) w) {
        hls_stream = record w.hls_stream { proc = none };
      } in
      ground (arith, emitted (kill_proc w.hls_stream.proc) w, emitted (clean_up ∷ []) gone)

  pub end_hls_outputs-Balanced :
      (failover : Bool) (w : Worker) → Balanced c d w → Balanced c d (end_hls_outputs failover w)
  unfolding end_hls_outputs
  end_hls_outputs-Balanced failover w h =
      kill_hls-Balanced failover (end_server (end_monitor w))
        (end_server-Balanced (end_monitor w) (end_monitor-Balanced w h))

  pub launch_sink-Balanced :
      (now : ℕ) (k : StreamKind) (args : List Bytes) (o : Option ℕ) (w : Worker)
      → (get_stream k w).proc ≡ none
      → Balanced c d w
      → Balanced c d (launch_sink now k args o w)
  unfolding launch_sink fail_start publish_stream_health
  launch_sink-Balanced now aac args none w e h = ground (arith, emitted (launch_failed args ∷ []) w)
  launch_sink-Balanced now mp3 args none w e h = ground (arith, emitted (launch_failed args ∷ []) w)
  launch_sink-Balanced now hls args none w e h = ground (arith, emitted (launch_failed args ∷ []) w)
  launch_sink-Balanced now srt args none w e h = ground (arith, emitted (launch_failed args ∷ []) w)
  launch_sink-Balanced now aac args (some p) w e h =
      ground (arith, emitted (launched p args ∷ []) w)
  launch_sink-Balanced now mp3 args (some p) w e h =
      ground (arith, emitted (launched p args ∷ []) w)
  launch_sink-Balanced now hls args (some p) w e h =
      ground (arith, emitted (launched p args ∷ []) w)
  launch_sink-Balanced now srt args (some p) w e h =
      ground (arith, emitted (launched p args ∷ []) w)

  pub begin_start-free :
      (now : ℕ) (k : StreamKind) (w : Worker)
      → is_busy (get_stream k w) ≡ false
      → (get_stream k (begin_start now k w)).proc ≡ none
  unfolding begin_start publish_stream_health
  begin_start-free now aac w e = ground arith
  begin_start-free now mp3 w e = ground arith
  begin_start-free now hls w e = ground arith
  begin_start-free now srt w e = ground arith

  pub start_with-Balanced :
      (env : Env) (k : StreamKind) (o : Option (List Bytes)) (w : Worker)
      → (get_stream k w).proc ≡ none
      → Balanced c d w
      → Balanced c d (start_with env k o w)
  unfolding start_with fail_start
  start_with-Balanced env k none w e h = marked-Balanced env.now_s k failed w h
  start_with-Balanced env k (some args) w e h =
      launch_sink-Balanced env.now_s k args env.launch w e h

  pub start_sink-Balanced :
      (env : Env) (k : StreamKind) (command : Env → Object → Option (List Bytes)) (w : Worker)
      → Balanced c d w
      → Balanced c d (start_sink env k command w)
  unfolding start_sink already_running begin_start
  start_sink-Balanced env k command w h =
      let begun = begin_start env.now_s k w in
      elim (Bool-cases (is_busy (get_stream k w))) [
        | inl e ↦ rw e (marked-Balanced env.now_s k running w h)
        | inr e ↦ rw e (
            start_with-Balanced env k (command env begun.runtime) begun
              (begin_start-free env.now_s k w e) (marked-Balanced env.now_s k starting w h))
      ]

  pub cleaned-Balanced : (env : Env) (w : Worker) → Balanced c d w → Balanced c d (cleaned env w)
  cleaned-Balanced env w h = ground (arith, emitted (clean_up ∷ []) w)

  -- The threads start and end no process.
  pub start_monitor-tally :
      (env : Env) (w : Worker)
      → (launches c (start_monitor env w) ≡ launches c w)
        × (ends c d (start_monitor env w) ≡ ends c d w)
  start_monitor-tally env w = ground (
    arith,
    emitted
        ((if w.seg_mon_joinable then monitor_joined ∷ [] else [])
          ++ monitor_started (retain_segments env.files.hls_json) ∷ [])
        w,
  )

  pub start_server-tally :
      (env : Env) (w : Worker)
      → (launches c (start_server env w) ≡ launches c w)
        × (ends c d (start_server env w) ≡ ends c d w)
  start_server-tally env w =
      let port = get_int env.files.encoder_admin_json (codes "hlsPlaybackPort") (pos 0) in
      ground (
        arith,
        emitted ((if w.http_joinable then server_joined ∷ [] else []) ++ server_started port ∷ [])
            w,
      )

  pub launch_hls-Balanced :
      (env : Env) (args : List Bytes) (o : Option ℕ) (w : Worker)
      → w.hls_stream.proc ≡ none
      → Balanced c d w
      → Balanced c d (launch_hls env args o w)
  unfolding launch_hls fail_start publish_stream_health
  launch_hls-Balanced env args none w e h = ground (arith, emitted (launch_failed args ∷ []) w)
  launch_hls-Balanced env args (some p) w e h =
      let begun = emit (launched p args ∷ []) w in
      ground (
        arith,
        emitted (launched p args ∷ []) w,
        start_monitor-tally env begun,
        start_server-tally env (start_monitor env begun),
      )

  pub start_hls-Balanced :
      (env : Env) (w : Worker) → Balanced c d w → Balanced c d (start_hls env w)
  unfolding start_hls already_running begin_start
  start_hls-Balanced env w h =
      let begun = begin_start env.now_s hls w in
      elim (Bool-cases (is_busy w.hls_stream)) [
        | inl e ↦ rw e (marked-Balanced env.now_s hls running w h)
        | inr e ↦
            let free = begin_start-free env.now_s hls w e in
            rw e (
              launch_hls-Balanced env _ env.launch (cleaned env begun) (ground arith)
                (cleaned-Balanced env begun (marked-Balanced env.now_s hls starting w h)))
      ]
