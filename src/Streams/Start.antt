-- ===== src/Streams/Start.antt =====
-- The starts of the streams and of the SRT input relay, and the destructor (src/worker/worker.cpp,
-- `startAAC`, `startMP3`, `startHLS`, `startSRT`, `startSRTInputRelay`, `stopSRTInputRelay`,
-- `monitorGainChanges`, `Worker::~Worker`).
use multi_coder.Prelude.{
  ℕ, Bool, true, false, ◌||◌, List, [], ◌∷◌, ◌++◌, Option, none, some, Bytes, codes, is_some,
  if◌then◌else◌,
}
use multi_coder.Prelude.Int.{ℤ, pos, ltb_ℤ, ◌+ℤ◌, ◌-ℤ◌, ◌*ℤ◌}
use multi_coder.Strings.{int_to_string}
use multi_coder.Json.{Object, get_int, get_bool, set_string, set_int, set_bool}
use multi_coder.Streams.{
  StreamKind, aac, mp3, hls, srt, starting, running, failed, Stream, Worker, get_stream, put_stream,
  set_stream_state, emit, publish_stream_health, kill_proc, launched, launch_failed, clean_up,
  monitor_started, monitor_joined, server_started, server_joined,
}
use multi_coder.Streams.Commands.{Env, srt_source_uri}
use multi_coder.Streams.Outputs.{
  aac_command, mp3_command, hls_command, srt_command, retain_segments,
}

-- `running.load() || proc != nullptr`
abbrev pub is_busy : Stream → Bool
is_busy s = s.is_running || is_some s.proc

unfoldable pub already_running : ℕ → StreamKind → Worker → Worker
unfolding publish_stream_health
already_running now k w = publish_stream_health now (set_stream_state k running w)

unfoldable pub begin_start : ℕ → StreamKind → Worker → Worker
unfolding publish_stream_health
begin_start now k w = publish_stream_health now (set_stream_state k starting w)

unfoldable pub fail_start : ℕ → StreamKind → Worker → Worker
unfolding publish_stream_health
fail_start now k w = publish_stream_health now (set_stream_state k failed w)

-- `proc = h`, with a null `h`
abbrev pub refused_by_ffmpeg : StreamKind → List Bytes → Worker → Worker
refused_by_ffmpeg k args w =
    put_stream k (record (get_stream k w) { proc = none }) (emit (launch_failed args ∷ []) w)

-- Behind `launchFfmpeg`: `proc = h`, and a failure or `running = true`.
unfoldable pub launch_sink : ℕ → StreamKind → List Bytes → Option ℕ → Worker → Worker
unfolding publish_stream_health fail_start
launch_sink now k args none w = fail_start now k (refused_by_ffmpeg k args w)
launch_sink now k args (some h) w = publish_stream_health now (
    put_stream k (record { state = running; is_running = true; proc = some h })
      (emit (launched h args ∷ []) w))

-- Behind the configuration: it is refused, or FFmpeg is launched.
unfoldable pub start_with : Env → StreamKind → Option (List Bytes) → Worker → Worker
unfolding launch_sink fail_start
start_with env k none w = fail_start env.now_s k w
start_with env k (some args) w = launch_sink env.now_s k args env.launch w

unfoldable pub start_sink :
    Env → StreamKind → (Env → Object → Option (List Bytes)) → Worker → Worker
unfolding already_running begin_start start_with
start_sink env k command w =
    let begun = begin_start env.now_s k w in
    if is_busy (get_stream k w)
    then already_running env.now_s k w
    else start_with env k (command env begun.runtime) begun

unfoldable pub start_aac : Env → Worker → Worker
unfolding start_sink aac_command
start_aac env w = start_sink env aac aac_command w

unfoldable pub start_mp3 : Env → Worker → Worker
unfolding start_sink mp3_command
start_mp3 env w = start_sink env mp3 mp3_command w

unfoldable pub start_srt : Env → Worker → Worker
unfolding start_sink srt_command
start_srt env w = start_sink env srt srt_command w

abbrev pub failover_configured : Env → Bool
failover_configured env = get_bool env.files.hls_json (codes "failoverConfigured") false

-- A monitor of a life before is joined, then the new one starts.
abbrev pub start_monitor : Env → Worker → Worker
start_monitor env w =
    emit
      ((if w.seg_mon_joinable then monitor_joined ∷ [] else [])
        ++ monitor_started (retain_segments env.files.hls_json) ∷ [])
      (record w { seg_mon_running = true; seg_mon_joinable = true })

abbrev pub start_server : Env → Worker → Worker
start_server env w =
    let port = get_int env.files.encoder_admin_json (codes "hlsPlaybackPort") (pos 0) in
    if ltb_ℤ (pos 0) port
    then emit ((if w.http_joinable then server_joined ∷ [] else []) ++ server_started port ∷ [])
        (record w { http_running = true; http_joinable = true })
    else w

abbrev pub start_threads : Env → List Bytes → ℕ → Worker → Worker
start_threads env args h w = start_server env (start_monitor env (emit (launched h args ∷ []) w))

unfoldable pub launch_hls : Env → List Bytes → Option ℕ → Worker → Worker
unfolding fail_start publish_stream_health
launch_hls env args none w = fail_start env.now_s hls (refused_by_ffmpeg hls args w)
launch_hls env args (some h) w = publish_stream_health env.now_s (
    put_stream hls (record { state = running; is_running = true; proc = some h })
      (start_threads env args h w))

abbrev pub cleaned : Env → Worker → Worker
cleaned env w = if failover_configured env then w else emit (clean_up ∷ []) w

-- With the clean-up in front of the launch, and the two threads behind it.
unfoldable pub start_hls : Env → Worker → Worker
unfolding already_running begin_start launch_hls hls_command
start_hls env w =
    let begun = begin_start env.now_s hls w in
    if is_busy w.hls_stream
    then already_running env.now_s hls w
    else launch_hls env (hls_command env begun.runtime) env.launch (cleaned env begun)

-- `7100 + (m_idx - 1) * 10`
abbrev relay_port : Env → ℤ
relay_port env = pos 7100 +ℤ (pos env.encoder -ℤ pos 1) *ℤ pos 10

abbrev relay_args : Env → Object → List Bytes
relay_args env rt =
    codes "ffmpeg"
    ∷ codes "-y"
    ∷ codes "-re"
    ∷ codes "-i"
    ∷ srt_source_uri rt env.files.input_json
    ∷ codes "-vn"
    ∷ codes "-c:a"
    ∷ codes "pcm_s16le"
    ∷ codes "-ar"
    ∷ codes "48000"
    ∷ codes "-ac"
    ∷ codes "2"
    ∷ codes "-f"
    ∷ codes "s16le"
    ∷ (codes "udp://239.255.127.1:"
        ++ (int_to_string (relay_port env) ++ codes "?localaddr=127.0.0.1&broadcast=1"))
    ∷ []

unfoldable pub launch_relay : Env → List Bytes → Option ℕ → Worker → Worker
launch_relay env args none w = emit (launch_failed args ∷ []) (record w { relay_proc = none })
launch_relay env args (some h) w =
    let o1 = set_bool w.runtime (codes "srtRelayActive") true in
    let o2 = set_int o1 (codes "srtRelayPort") (relay_port env) in
    emit (launched h args ∷ []) (record w {
      relay_proc = some h;
      relay_running = true;
      runtime = set_string o2 (codes "srtRelayAddr") (codes "239.255.127.1");
    })

unfoldable pub start_srt_input_relay : Env → Worker → Worker
unfolding srt_source_uri launch_relay
start_srt_input_relay env w =
    if w.relay_running then w else launch_relay env (relay_args env w.runtime) env.launch w

unfoldable pub stop_srt_input_relay : Worker → Worker
stop_srt_input_relay w =
    let o1 = set_bool w.runtime (codes "srtRelayActive") false in
    let o2 = set_int o1 (codes "srtRelayPort") (pos 0) in
    emit (kill_proc w.relay_proc) (record w {
      relay_proc = none;
      relay_running = false;
      runtime = set_string o2 (codes "srtRelayAddr") [];
    })

abbrev pub kill_stream : StreamKind → Worker → Worker
kill_stream k w =
    let s = get_stream k w in put_stream k (record s { proc = none }) (emit (kill_proc s.proc) w)

abbrev pub kill_relay : Worker → Worker
kill_relay w = emit (kill_proc w.relay_proc) (record w { relay_proc = none })

abbrev pub join_threads : Worker → Worker
join_threads w = emit (if w.seg_mon_joinable then monitor_joined ∷ [] else []) (
    emit (if w.http_joinable then server_joined ∷ [] else []) (record w {
      http_running = false;
      http_joinable = false;
      seg_mon_running = false;
      seg_mon_joinable = false;
    }))

-- What the destructor does about the processes and the two HLS threads; it does not name the
-- process of SRT.
unfoldable pub destroy : Worker → Worker
destroy w = join_threads (kill_relay (kill_stream hls (kill_stream mp3 (kill_stream aac w))))
