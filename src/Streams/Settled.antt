-- ===== src/Streams/Settled.antt =====
-- The streams between two steps (src/worker/worker.cpp, the starts, stops, `pollSinkProcesses`).
use multi_coder.Prelude.{
  ℕ, Bool, true, false, List, none, some, ◌≡◌, ◌⊎◌, inl, inr, refl, arith, is_some,
}
use multi_coder.Streams.{
  StreamKind, aac, mp3, hls, srt, stopped, running, failed, Stream, Worker, get_stream, put_stream,
  Effect, emit, publish_stream_health, begin_stop, end_stop, stop_hls, end_hls_outputs, dead,
}

-- A stream is marked as running exactly when it has a process; then its state is `running`, and
-- otherwise `stopped` or `failed`.
pub record IsSettled (s : Stream) : Type 0 where
  pub has_proc : s.is_running ≡ is_some s.proc
  pub up : s.is_running ≡ true → s.state ≡ running
  pub down : s.is_running ≡ false → (s.state ≡ stopped) ⊎ (s.state ≡ failed)

pub record AllSettled (w : Worker) : Type 0 where
  pub aac_settled : IsSettled w.aac_stream
  pub mp3_settled : IsSettled w.mp3_stream
  pub hls_settled : IsSettled w.hls_stream
  pub srt_settled : IsSettled w.srt_stream
  pub relay_settled : w.relay_running ≡ is_some w.relay_proc

-- All streams but one are settled, and the relay is.
abbrev pub RestSettled : StreamKind → Worker → Type 0
RestSettled aac w =
    IsSettled w.mp3_stream
    × IsSettled w.hls_stream
    × IsSettled w.srt_stream
    × (w.relay_running ≡ is_some w.relay_proc)
RestSettled mp3 w =
    IsSettled w.aac_stream
    × IsSettled w.hls_stream
    × IsSettled w.srt_stream
    × (w.relay_running ≡ is_some w.relay_proc)
RestSettled hls w =
    IsSettled w.aac_stream
    × IsSettled w.mp3_stream
    × IsSettled w.srt_stream
    × (w.relay_running ≡ is_some w.relay_proc)
RestSettled srt w =
    IsSettled w.aac_stream
    × IsSettled w.mp3_stream
    × IsSettled w.hls_stream
    × (w.relay_running ≡ is_some w.relay_proc)

pub stream-IsSettled : (k : StreamKind) (w : Worker) → AllSettled w → IsSettled (get_stream k w)
stream-IsSettled aac w h = h.aac_settled
stream-IsSettled mp3 w h = h.mp3_settled
stream-IsSettled hls w h = h.hls_settled
stream-IsSettled srt w h = h.srt_settled

pub rest_of : (k : StreamKind) (w : Worker) → AllSettled w → RestSettled k w
rest_of aac w h = (h.mp3_settled, h.hls_settled, h.srt_settled, h.relay_settled)
rest_of mp3 w h = (h.aac_settled, h.hls_settled, h.srt_settled, h.relay_settled)
rest_of hls w h = (h.aac_settled, h.mp3_settled, h.srt_settled, h.relay_settled)
rest_of srt w h = (h.aac_settled, h.mp3_settled, h.hls_settled, h.relay_settled)

pub put-AllSettled :
    (k : StreamKind) (s : Stream) (w : Worker)
    → RestSettled k w
    → IsSettled s
    → AllSettled (put_stream k s w)
put-AllSettled aac s w (m, h, r, p) e = record {
  aac_settled = e;
  mp3_settled = m;
  hls_settled = h;
  srt_settled = r;
  relay_settled = p;
}
put-AllSettled mp3 s w (a, h, r, p) e = record {
  aac_settled = a;
  mp3_settled = e;
  hls_settled = h;
  srt_settled = r;
  relay_settled = p;
}
put-AllSettled hls s w (a, m, r, p) e = record {
  aac_settled = a;
  mp3_settled = m;
  hls_settled = e;
  srt_settled = r;
  relay_settled = p;
}
put-AllSettled srt s w (a, m, h, p) e = record {
  aac_settled = a;
  mp3_settled = m;
  hls_settled = h;
  srt_settled = e;
  relay_settled = p;
}

pub put-RestSettled :
    (k : StreamKind) (s : Stream) (w : Worker) → RestSettled k w → RestSettled k (put_stream k s w)
put-RestSettled aac s w h = h
put-RestSettled mp3 s w h = h
put-RestSettled hls s w h = h
put-RestSettled srt s w h = h

pub emit-RestSettled :
    (k : StreamKind) (es : List Effect) (w : Worker) → RestSettled k w → RestSettled k (emit es w)
emit-RestSettled aac es w h = h
emit-RestSettled mp3 es w h = h
emit-RestSettled hls es w h = h
emit-RestSettled srt es w h = h

pub publish-RestSettled :
    (k : StreamKind) (now : ℕ) (w : Worker)
    → RestSettled k w
    → RestSettled k (publish_stream_health now w)
unfolding publish_stream_health
publish-RestSettled aac now w h = h
publish-RestSettled mp3 now w h = h
publish-RestSettled hls now w h = h
publish-RestSettled srt now w h = h

pub publish-AllSettled :
    (now : ℕ) (w : Worker) → AllSettled w → AllSettled (publish_stream_health now w)
unfolding publish_stream_health
publish-AllSettled now w h = record {
  aac_settled = h.aac_settled;
  mp3_settled = h.mp3_settled;
  hls_settled = h.hls_settled;
  srt_settled = h.srt_settled;
  relay_settled = h.relay_settled;
}

pub stopped-IsSettled : IsSettled (record { state = stopped; is_running = false; proc = none })
stopped-IsSettled = record { has_proc = refl; up = λ e. cc; down = λ e. inl refl }

pub dead-IsSettled : IsSettled dead
dead-IsSettled = record { has_proc = refl; up = λ e. cc; down = λ e. inr refl }

pub live-IsSettled :
    (h : ℕ) → IsSettled (record { state = running; is_running = true; proc = some h })
live-IsSettled h = record { has_proc = refl; up = λ e. refl; down = λ e. cc }

-- A stop settles its stream, whatever it was.
pub end_stop-AllSettled :
    (now : ℕ) (k : StreamKind) (w : Worker) → RestSettled k w → AllSettled (end_stop now k w)
unfolding end_stop
end_stop-AllSettled now k w h =
    publish-AllSettled now _ (put-AllSettled k _ _ (emit-RestSettled k _ w h) stopped-IsSettled)

pub begin_stop-RestSettled :
    (now : ℕ) (k : StreamKind) (w : Worker) → RestSettled k w → RestSettled k (begin_stop now k w)
unfolding begin_stop
begin_stop-RestSettled now k w h = publish-RestSettled k now _ (put-RestSettled k _ w h)

pub stop-AllSettled :
    (now : ℕ) (k : StreamKind) (w : Worker)
    → AllSettled w
    → AllSettled (end_stop now k (begin_stop now k w))
stop-AllSettled now k w h =
    end_stop-AllSettled now k _ (begin_stop-RestSettled now k w (rest_of k w h))

pub end_hls_outputs-RestSettled :
    (failover : Bool) (w : Worker)
    → RestSettled hls w
    → RestSettled hls (end_hls_outputs failover w)
unfolding end_hls_outputs
end_hls_outputs-RestSettled failover w h = ground arith

pub stop_hls-AllSettled :
    (now : ℕ) (failover : Bool) (w : Worker) → AllSettled w → AllSettled (stop_hls now failover w)
unfolding stop_hls
stop_hls-AllSettled now failover w h =
    let begun = begin_stop now hls w in
    let b = begin_stop-RestSettled now hls w (rest_of hls w h) in
    end_stop-AllSettled now hls (end_hls_outputs failover begun)
      (end_hls_outputs-RestSettled failover begun b)
