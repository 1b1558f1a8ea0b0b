-- ===== src/Streams.antt =====
-- The worker's output streams (src/worker/worker.cpp and worker.h: `StreamKind`,
-- `StreamLifecycleState`, `setStreamState`, `publishStreamHealth`, `pollSinkProcesses`,
-- `startAAC` … `stopSRT`, the SRT input relay). The code's branch for Linux is the one modelled.
-- A start or a stop holds `m_streamMutex`, so it is one step; `runtime_state.json` is the object
-- that it holds; log lines are left out.
pub mod Commands
pub mod Outputs
pub mod Start
pub mod Sidecar
pub mod Control
pub mod Settled
pub mod Starts
pub mod Steps
pub mod Tally
pub mod Processes
pub mod Health
use multi_coder.Prelude.{
  ℕ, ◌+◌, ◌-◌, ◌*◌, ◌%◌, ◌^◌, Bool, true, false, not, ◌&&◌, ◌||◌, List, [], ◌∷◌, ◌++◌, Option, none,
  some, Bytes, codes, find, is_some, ltb, if◌then◌else◌,
}
use multi_coder.Prelude.Int.{ℤ, pos, negsuc}
use multi_coder.Strings.{lower_copy}
use multi_coder.Json.{Object, get_string, get_bool, set_string, set_int, set_bool}

pub data StreamKind : Type 0 where
  aac mp3 hls srt : StreamKind

-- `StreamLifecycleState`
pub data LifecycleState : Type 0 where
  stopped starting running stopping failed : LifecycleState

-- `streamStateToString`
abbrev pub stream_state_to_string : LifecycleState → Bytes
stream_state_to_string stopped = codes "stopped"
stream_state_to_string starting = codes "starting"
stream_state_to_string running = codes "running"
stream_state_to_string stopping = codes "stopping"
stream_state_to_string failed = codes "failed"

-- `m_aacState`, `m_aacRunning`, `m_aacProc`; `none` is the null handle.
pub record Stream : Type 0 where
  pub state : LifecycleState
  pub is_running : Bool
  pub proc : Option ℕ

-- What is done to the outside: a process that started with its arguments, one that
-- `killFfmpegProc` ended, one that was found dead, the clean-up of the HLS directory, and the
-- starts and ends of the two HLS threads.
pub data Effect : Type 0 where
  launched : ℕ → List Bytes → Effect
  launch_failed : List Bytes → Effect
  killed : ℕ → Effect
  exited : ℕ → Effect
  clean_up : Effect
  monitor_started : ℤ → Effect
  monitor_joined : Effect
  server_started : ℤ → Effect
  server_joined : Effect

pub record Worker : Type 0 where
  pub aac_stream : Stream
  pub mp3_stream : Stream
  pub hls_stream : Stream
  pub srt_stream : Stream
  pub relay_running : Bool
  pub relay_proc : Option ℕ
  pub seg_mon_running : Bool
  pub seg_mon_joinable : Bool
  pub http_running : Bool
  pub http_joinable : Bool
  pub control_listener_running : Bool
  pub cue_listener_running : Bool
  pub runtime : Object
  pub effects : List Effect

abbrev pub get_stream : StreamKind → Worker → Stream
get_stream aac w = w.aac_stream
get_stream mp3 w = w.mp3_stream
get_stream hls w = w.hls_stream
get_stream srt w = w.srt_stream

abbrev pub put_stream : StreamKind → Stream → Worker → Worker
put_stream aac s w = record w { aac_stream = s }
put_stream mp3 s w = record w { mp3_stream = s }
put_stream hls s w = record w { hls_stream = s }
put_stream srt s w = record w { srt_stream = s }

abbrev pub emit : List Effect → Worker → Worker
emit es w = record w { effects = w.effects ++ es }

abbrev pub set_stream_state : StreamKind → LifecycleState → Worker → Worker
set_stream_state k st w = put_stream k (record (get_stream k w) { state = st }) w

abbrev contains : Bytes → Bytes → Bool
contains pattern s = is_some (find pattern s)

-- `static_cast<int>(std::time(nullptr))`
abbrev to_int : ℕ → ℤ
to_int n = let m = n % 2 ^ 32 in if ltb m (2 ^ 31) then pos m else negsuc (2 ^ 32 - 1 - m)

-- The fields that `publishStreamHealth` writes.
unfoldable pub health : ℕ → Worker → Object → Object
health now w rt =
    let warning = lower_copy (get_string rt (codes "inputWarning") []) in
    let connected = get_bool rt (codes "inputConnected") false in
    let unavailable =
      connected
      && (contains (codes "unavailable") warning || contains (codes "disconnected") warning) in
    let missing = connected && contains (codes "no packets") warning in
    let o1 = set_int rt (codes "workerHeartbeatEpoch") (to_int now) in
    let o2 = set_bool o1 (codes "workerAacRunning") w.aac_stream.is_running in
    let o3 = set_bool o2 (codes "workerMp3Running") w.mp3_stream.is_running in
    let o4 = set_bool o3 (codes "workerHlsRunning") w.hls_stream.is_running in
    let o5 = set_bool o4 (codes "workerSrtRunning") w.srt_stream.is_running in
    let o6 = set_string o5 (codes "workerAacState") (stream_state_to_string w.aac_stream.state) in
    let o7 = set_string o6 (codes "workerMp3State") (stream_state_to_string w.mp3_stream.state) in
    let o8 = set_string o7 (codes "workerHlsState") (stream_state_to_string w.hls_stream.state) in
    let o9 = set_string o8 (codes "workerSrtState") (stream_state_to_string w.srt_stream.state) in
    let o10 = set_bool o9 (codes "inputSourceUnavailable") unavailable in
    let o11 = set_bool o10 (codes "inputPacketsMissing") missing in
    let o12 = set_bool o11 (codes "controlListenerRunning") w.control_listener_running in
    set_bool o12 (codes "cueListenerRunning") w.cue_listener_running

unfoldable pub publish_stream_health : ℕ → Worker → Worker
unfolding health
publish_stream_health now w = record w { runtime = health now w w.runtime }

-- `killFfmpegProc`: the handle is null behind it.
abbrev pub kill_proc : Option ℕ → List Effect
kill_proc none = []
kill_proc (some h) = killed h ∷ []

-- Up to the kill, and from there.
unfoldable pub begin_stop : ℕ → StreamKind → Worker → Worker
unfolding publish_stream_health
begin_stop now k w = publish_stream_health now (set_stream_state k stopping w)

unfoldable pub end_stop : ℕ → StreamKind → Worker → Worker
unfolding publish_stream_health
end_stop now k w =
    let s = get_stream k w in
    publish_stream_health now (
      put_stream k (record { state = stopped; is_running = false; proc = none })
        (emit (kill_proc s.proc) w))

unfoldable pub stop_aac : ℕ → Worker → Worker
unfolding begin_stop end_stop
stop_aac now w = end_stop now aac (begin_stop now aac w)

unfoldable pub stop_mp3 : ℕ → Worker → Worker
unfolding begin_stop end_stop
stop_mp3 now w = end_stop now mp3 (begin_stop now mp3 w)

unfoldable pub stop_srt : ℕ → Worker → Worker
unfolding begin_stop end_stop
stop_srt now w = end_stop now srt (begin_stop now srt w)

-- `if (m_hlsSegMonRunning) …`, with the join of the thread
abbrev pub end_monitor : Worker → Worker
end_monitor w =
    if w.seg_mon_running
    then emit (if w.seg_mon_joinable then monitor_joined ∷ [] else [])
        (record w { seg_mon_running = false; seg_mon_joinable = false })
    else w

abbrev pub end_server : Worker → Worker
end_server w =
    if w.http_running
    then emit (if w.http_joinable then server_joined ∷ [] else [])
        (record w { http_running = false; http_joinable = false })
    else w

-- The two threads end, the process is killed, the files go unless failover is configured.
unfoldable pub end_hls_outputs : Bool → Worker → Worker
end_hls_outputs failover w =
    let ended = end_server (end_monitor w) in
    let s = ended.hls_stream in
    let gone = record (emit (kill_proc s.proc) ended) { hls_stream = record s { proc = none } } in
    if failover then gone else emit (clean_up ∷ []) gone

unfoldable pub stop_hls : ℕ → Bool → Worker → Worker
unfolding begin_stop end_stop end_hls_outputs
stop_hls now failover w = end_stop now hls (end_hls_outputs failover (begin_stop now hls w))

abbrev dead : Stream
dead = record { state = failed; is_running = false; proc = none }

found_dead : (ℕ → Bool) → Option ℕ → Bool
found_dead alive none = true
found_dead alive (some h) = not (alive h)

abbrev exit_of : Option ℕ → List Effect
exit_of none = []
exit_of (some h) = exited h ∷ []

-- One `if` of `pollSinkProcesses`, with `changed`; `alive` is `ffmpegProcAlive`, for handles.
unfoldable pub poll_sink : (ℕ → Bool) → StreamKind → Bool × Worker → Bool × Worker
unfolding found_dead
poll_sink alive k (changed, w) =
    let s = get_stream k w in
    if s.is_running && found_dead alive s.proc
    then (true, put_stream k dead (emit (exit_of s.proc) w))
    else (changed, w)

relay_gone : Worker → Worker
relay_gone w =
    let rt = set_bool w.runtime (codes "srtRelayActive") false in
    record w {
      relay_running = false;
      relay_proc = none;
      runtime = set_int rt (codes "srtRelayPort") (pos 0);
    }

unfoldable pub poll_relay : (ℕ → Bool) → Bool × Worker → Bool × Worker
unfolding relay_gone found_dead
poll_relay alive (changed, w) =
    if w.relay_running && found_dead alive w.relay_proc
    then (true, relay_gone (emit (exit_of w.relay_proc) w))
    else (changed, w)

-- The step is taken as a whole, although the code does not hold `m_streamMutex` in it.
unfoldable pub poll_sink_processes : ℕ → (ℕ → Bool) → Worker → Worker
unfolding poll_sink poll_relay publish_stream_health
poll_sink_processes now alive w =
    let (changed, w') = poll_relay alive (
      poll_sink alive srt
        (poll_sink alive hls (poll_sink alive mp3 (poll_sink alive aac (false, w))))) in
    if changed then publish_stream_health now w' else w'
