-- ===== src/Streams/Starts.antt =====
-- A start settles its stream, whatever comes of it (src/worker/worker.cpp, `startAAC`, `startMP3`,
-- `startHLS`, `startSRT`).
use multi_coder.Prelude.{
  ℕ, true, false, List, Option, none, some, Bytes, ◌≡◌, inl, inr, refl, arith, Bool-cases,
}
use multi_coder.Json.{Object}
use multi_coder.Streams.{StreamKind, aac, mp3, hls, srt, Worker, get_stream, publish_stream_health}
use multi_coder.Streams.Commands.{Env}
use multi_coder.Streams.Start.{
  is_busy, refused_by_ffmpeg, start_threads, already_running, begin_start, fail_start, launch_sink,
  start_with, start_sink, launch_hls,
}
use multi_coder.Streams.Settled.{
  publish-AllSettled, AllSettled, RestSettled, stream-IsSettled, rest_of, put-AllSettled,
  emit-RestSettled, live-IsSettled,
}

pub already_running-AllSettled :
    (now : ℕ) (k : StreamKind) (w : Worker)
    → is_busy (get_stream k w) ≡ true
    → AllSettled w
    → AllSettled (already_running now k w)
unfolding already_running
already_running-AllSettled now k w b h =
    let s = stream-IsSettled k w h in
    publish-AllSettled now _ (
      put-AllSettled k _ w (rest_of k w h) (record {
        has_proc = s.has_proc;
        up = λ e. refl;
        down = λ e. absurd (let p = s.has_proc in ground arith);
      }))

-- A stream without a process, whose start fails.
pub fail_start-AllSettled :
    (now : ℕ) (k : StreamKind) (w : Worker)
    → RestSettled k w
    → (get_stream k w).is_running ≡ false
    → (get_stream k w).proc ≡ none
    → AllSettled (fail_start now k w)
unfolding fail_start
fail_start-AllSettled now k w h r p =
    publish-AllSettled now _
      (put-AllSettled k _ w h (record { has_proc = rw (r, p); up = λ e. cc; down = λ e. inr refl }))

pub launch_sink-AllSettled :
    (now : ℕ) (k : StreamKind) (args : List Bytes) (o : Option ℕ) (w : Worker)
    → RestSettled k w
    → (get_stream k w).is_running ≡ false
    → AllSettled (launch_sink now k args o w)
unfolding launch_sink
launch_sink-AllSettled now aac args none w h r =
    fail_start-AllSettled now aac (refused_by_ffmpeg aac args w) h r refl
launch_sink-AllSettled now mp3 args none w h r =
    fail_start-AllSettled now mp3 (refused_by_ffmpeg mp3 args w) h r refl
launch_sink-AllSettled now hls args none w h r =
    fail_start-AllSettled now hls (refused_by_ffmpeg hls args w) h r refl
launch_sink-AllSettled now srt args none w h r =
    fail_start-AllSettled now srt (refused_by_ffmpeg srt args w) h r refl
launch_sink-AllSettled now k args (some p) w h r =
    publish-AllSettled now _ (put-AllSettled k _ _ (emit-RestSettled k _ w h) (live-IsSettled p))

-- A start that is under way on a free stream.
pub record Begun (k : StreamKind) (w : Worker) : Type 0 where
  pub rest : RestSettled k w
  pub idle : (get_stream k w).is_running ≡ false
  pub free : (get_stream k w).proc ≡ none

pub begin_start-Begun :
    (now : ℕ) (k : StreamKind) (w : Worker)
    → is_busy (get_stream k w) ≡ false
    → AllSettled w
    → Begun k (begin_start now k w)
unfolding begin_start publish_stream_health
begin_start-Begun now aac w b h = record {
  rest = rest_of aac w h;
  idle = ground arith;
  free = ground arith;
}
begin_start-Begun now mp3 w b h = record {
  rest = rest_of mp3 w h;
  idle = ground arith;
  free = ground arith;
}
begin_start-Begun now hls w b h = record {
  rest = rest_of hls w h;
  idle = ground arith;
  free = ground arith;
}
begin_start-Begun now srt w b h = record {
  rest = rest_of srt w h;
  idle = ground arith;
  free = ground arith;
}

pub start_with-AllSettled :
    (env : Env) (k : StreamKind) (o : Option (List Bytes)) (w : Worker)
    → Begun k w
    → AllSettled (start_with env k o w)
unfolding start_with
start_with-AllSettled env k none w b = fail_start-AllSettled env.now_s k w b.rest b.idle b.free
start_with-AllSettled env k (some args) w b =
    launch_sink-AllSettled env.now_s k args env.launch w b.rest b.idle

pub start_sink-AllSettled :
    (env : Env) (k : StreamKind) (command : Env → Object → Option (List Bytes)) (w : Worker)
    → AllSettled w
    → AllSettled (start_sink env k command w)
unfolding start_sink
start_sink-AllSettled env k command w h = elim (Bool-cases (is_busy (get_stream k w))) [
  | inl e ↦ rw e (already_running-AllSettled env.now_s k w e h)
  | inr e ↦ rw e (
      start_with-AllSettled env k _ (begin_start env.now_s k w)
        (begin_start-Begun env.now_s k w e h))
]

pub launch_hls-AllSettled :
    (env : Env) (args : List Bytes) (o : Option ℕ) (w : Worker)
    → Begun hls w
    → AllSettled (launch_hls env args o w)
unfolding launch_hls
launch_hls-AllSettled env args none w b =
    fail_start-AllSettled env.now_s hls (refused_by_ffmpeg hls args w) b.rest b.idle refl
launch_hls-AllSettled env args (some p) w b =
    let others : RestSettled hls (start_threads env args p w) = let r = b.rest in ground arith in
    publish-AllSettled env.now_s _
      (put-AllSettled hls _ (start_threads env args p w) others (live-IsSettled p))
