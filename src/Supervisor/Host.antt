-- ===== src/Supervisor/Host.antt =====
-- The supervisor's state and what its requests do outside of it
-- (src/supervisor/supervisor_api.cpp: the globals, the files under /etc, the logs,
-- `sendWorkerControlCommand`, `launchWorkerProcess`).
use multi_coder.Prelude.{
  ℕ, Bool, List, [], ◌∷◌, ◌++◌, Option, none, some, or_else, Bytes, codes, is_empty, starts_with,
  drop, to_string, if◌then◌else◌,
}
use multi_coder.Prelude.Int.{ℤ}
use multi_coder.Prelude.Map.{Map, get, put}
use multi_coder.Strings.{trim}
use multi_coder.Json.{Entry, Object, lookup, parse_object, set_bool, set_string, serialize}

pub record EncoderState : Type 0 where
  pub aac_running : Bool
  pub mp3_running : Bool
  pub hls_running : Bool
  pub srt_running : Bool

pub record CueRuntimeState : Type 0 where
  pub recent_cue_times_ms : List ℕ
  pub last_by_match : Map ℕ

-- A segment's number and its date in milliseconds, where the code keeps a `double` of seconds.
pub record Anchor : Type 0 where
  pub seq : ℤ
  pub epoch_ms : ℤ

pub data Effect : Type 0 where
  encoder_log : ℕ → Bytes → Effect
  sys_log : ℕ → Bytes → Effect
  command : ℕ → Bytes → Effect
  launched : ℕ → Effect

abbrev pub Files : Type 0
Files = Map Bytes

-- The files by their paths, the globals, and what was done so far, the newest first. An encoder
-- goes by its number, from 1.
pub record Host : Type 0 where
  pub files : Files
  pub encoders : ℕ → EncoderState
  pub cue_states : ℕ → CueRuntimeState
  pub anchors : ℕ → Option Anchor
  pub effects : List Effect

-- What one request meets: the clock, the worker, the launch of a worker, whether a file can be
-- written, the log files as they are rotated, and the C library's reading of a `double` with its printing. The worker's answer and the
-- files behind it, and the outcome of a launch, may depend on all that was done before; `none` is
-- success, else the error. A number that `std::stod` reads is given as it is printed, by
-- `std::to_string` and by `<<`.
pub record World : Type 0 where
  pub now_epoch : ℤ
  pub now_ms : ℕ
  pub now_iso : Bytes
  pub worker : List Effect → ℕ → Bytes → Files → Option Bytes × Files
  pub launch : List Effect → ℕ → Option Bytes
  pub write_error : Bytes → Option Bytes
  pub log_file : List Effect → Bytes → Option Bytes
  pub fixed_double : Bytes → Option Bytes
  pub short_double : Bytes → Option Bytes

abbrev pub encoder_dir : ℕ → Bytes
encoder_dir enc = codes "/etc/encoder" ++ to_string enc

abbrev pub encoder_file : ℕ → Bytes → Bytes
encoder_file enc name = encoder_dir enc ++ (b'/' ∷ name)

abbrev pub runtime_state_path : ℕ → Bytes
runtime_state_path enc = encoder_file enc (codes "runtime_state.json")

abbrev pub input_session_path : ℕ → Bytes
input_session_path enc = encoder_file enc (codes "input_session.json")

abbrev pub metadata_runtime_path : ℕ → Bytes
metadata_runtime_path enc = encoder_file enc (codes "metadata_runtime.json")

abbrev pub system_path : Bytes
system_path = codes "/etc/MC/system.json"

abbrev bom : Bytes
bom = 0xEF ∷ 0xBB ∷ 0xBF ∷ []

unfoldable pub strip_bom : Bytes → Bytes
unfolding starts_with
strip_bom s = if starts_with bom s then drop 3 s else s

unfoldable pub read_file : Host → Bytes → Bytes
unfolding strip_bom get
read_file h path = strip_bom (or_else (get path h.files) [])

unfoldable pub read_json_file : Host → Bytes → Object
unfolding read_file
read_json_file h path = let txt = read_file h path in if is_empty txt then [] else parse_object txt

unfoldable pub write_file : Host → Bytes → Bytes → Host
write_file h path content = record h { files = put path content h.files }

-- `appendEncoderLog`, `appendSysLog`
abbrev pub append_encoder_log : ℕ → Bytes → Host → Host
append_encoder_log enc message h = record h { effects = encoder_log enc message ∷ h.effects }

abbrev pub append_sys_log : ℕ → Bytes → Host → Host
append_sys_log enc message h = record h { effects = sys_log enc message ∷ h.effects }

-- the two calls that mostly stand together
abbrev pub append_logs : ℕ → Bytes → Host → Host
append_logs enc message h = append_sys_log enc message (append_encoder_log enc message h)

module _ (w : World) where
  -- `atomicWriteTextFile`: the error, and the files.
  unfoldable pub atomic_write_text_file : Bytes → Bytes → Host → Option Bytes × Host
  unfolding write_file
  atomic_write_text_file path content h = elim (w.write_error path) [
    | none ↦ (none, write_file h path content)
    | some err ↦ (some err, h)
  ]

  -- `atomicWriteRuntimeState`, `atomicWriteInputSessionState`, `atomicWriteMetadataRuntimeState`: an
  -- error is dropped.
  unfoldable pub write_json : Bytes → Object → Host → Host
  unfolding atomic_write_text_file
  write_json path o h = (atomic_write_text_file path (serialize o) h).1

  -- `atomicWriteMetadataRuntimeField`
  unfoldable pub write_metadata_runtime_field : ℕ → Bytes → Bytes → Host → Host
  write_metadata_runtime_field enc key value h =
      write_json (metadata_runtime_path enc)
        (set_string (read_json_file h (metadata_runtime_path enc)) key value) h

  -- `writeRuntimeState`
  unfoldable pub write_runtime_state : ℕ → Bool → Bool → Host → Host
  write_runtime_state enc control_running metadata_running h =
      let o = read_json_file h (runtime_state_path enc) in
      write_json (runtime_state_path enc)
        (set_bool (set_bool o (codes "controlListenerRunning") control_running)
          (codes "metadataListenerRunning") metadata_running)
        h

  -- `setRuntimeInputConnected`
  unfoldable pub set_runtime_input_connected : ℕ → Bool → Host → Host
  set_runtime_input_connected enc connected h =
      write_json (runtime_state_path enc)
        (set_bool (read_json_file h (runtime_state_path enc)) (codes "inputConnected") connected) h

  -- `sendWorkerControlCommand`
  unfoldable pub send_worker_control_command : ℕ → Bytes → Host → Option Bytes × Host
  send_worker_control_command enc cmd h =
      let (err, files) = w.worker h.effects enc cmd h.files in
      (err, record h { files = files; effects = command enc cmd ∷ h.effects })

  -- `launchWorkerProcess`
  unfoldable pub launch_worker_process : ℕ → Host → Option Bytes × Host
  launch_worker_process enc h =
      (w.launch h.effects enc, record h { effects = launched enc ∷ h.effects })

  -- `Object::getDouble`, printed by the function given; the default is given as printed.
  double_of : (Bytes → Option Bytes) → Option Entry → Bytes → Bytes
  double_of print none fallback = fallback
  double_of print (some e) fallback =
      or_else (print (if e.quoted then e.raw else trim e.raw)) fallback

  unfoldable pub fixed_double_of : Object → Bytes → Bytes → Bytes
  unfolding double_of lookup
  fixed_double_of o k fallback = double_of w.fixed_double (lookup k o) fallback

  unfoldable pub short_double_of : Object → Bytes → Bytes → Bytes
  unfolding double_of lookup
  short_double_of o k fallback = double_of w.short_double (lookup k o) fallback
