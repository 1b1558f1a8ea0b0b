-- ===== src/Listener/Socket.antt =====
-- A connection of the metadata listener (src/worker/worker.cpp, `processSocketUntilClose` and
-- `sourceConfigChangeReason` of `listenMetaPort`). Payloads are told apart by silence.
pub mod Payloads
use multi_coder.Prelude.{
  ℕ, Bool, false, not, ◌&&◌, ◌||◌, List, [], ◌∷◌, ◌++◌, Bytes, codes, beq, is_empty, if◌then◌else◌,
}
use multi_coder.Prelude.Int.{ℤ, pos, ltb_ℤ}
use multi_coder.Strings.{trim_copy, lower_copy, int_to_string}
use multi_coder.Strings.Lines.{concat}
use multi_coder.Json.{Object, get_string, get_int, get_bool}
use multi_coder.Listener.{
  Settings, Running, MetaState, Moment, log, default_listen_port, emit_metadata,
}
use multi_coder.Formatting.Ext.{Doubles}

-- What the connection was opened for: the port listened on, or the host and port pulled from.
pub data Source : Type 0 where
  listen : ℤ → Source
  pull : Bytes → ℤ → Source

abbrev mode_of : Source → Bytes
mode_of (listen port) = codes "listen"
mode_of (pull host port) = codes "pull"

abbrev same_int : ℤ → ℤ → Bool
same_int a b = not (ltb_ℤ a b) && not (ltb_ℤ b a)

arrow : Bytes → Bytes → Bytes → Bytes
arrow name old new = concat (name ∷ codes " " ∷ old ∷ codes " -> " ∷ new ∷ [])

-- The reason within one mode, empty where the source is the same.
source_change : ℕ → Source → Object → Bytes
unfolding arrow
source_change idx (listen port) cfg =
    let now = get_int cfg (codes "listenPort") (default_listen_port idx) in
    if same_int now port
    then []
    else arrow (codes "listenPort") (int_to_string port) (int_to_string now)
source_change idx (pull host port) cfg =
    let expected = lower_copy (trim_copy host) in
    let host_now = lower_copy (trim_copy (get_string cfg (codes "dataConnectHost") [])) in
    let port_now = get_int cfg (codes "dataConnectPort") (pos 0) in
    if not (beq host_now expected)
    then arrow (codes "dataConnectHost") expected host_now
    else if same_int port_now port
    then []
    else arrow (codes "dataConnectPort") (int_to_string port) (int_to_string port_now)

abbrev pub mode_now : Object → Bytes
mode_now cfg =
    let mode = lower_copy (trim_copy (get_string cfg (codes "mode") (codes "listen"))) in
    if beq mode (codes "pull") then codes "pull" else codes "listen"

unfoldable pub source_config_change_reason : ℕ → Source → Object → Object → Bytes
unfolding source_change arrow
source_config_change_reason idx source rt cfg =
    if not (get_bool rt (codes "metadataListenerRunning") false)
    then codes "metadataListenerRunning true -> false"
    else if not (beq (mode_now cfg) (mode_of source))
    then arrow (codes "mode") (mode_of source) (mode_now cfg)
    else source_change idx source cfg

-- What `select` and `recv` give; a silence of one second may be the one that is logged.
pub data Outcome : Type 0 where
  chunk : Bytes → Outcome
  silence : Bool → Outcome
  ended : Outcome

-- One round of the loop: the runtime file and the configuration it reads, what the socket gives,
-- and when a payload would be handled.
pub record Round (T : Type 0) : Type 0 where
  pub runtime : Object
  pub metadata : Object
  pub outcome : Outcome
  pub at : T

-- What is done with a payload, and with a line for the log.
pub record Sink (T S : Type 0) : Type 0 where
  pub payload : T → Bytes → S → S
  pub line : Bytes → S → S

module _ {T S : Type 0} (sink : Sink T S) (idx : ℕ) (source : Source) (peer : Bytes) where
  -- Behind the loop.
  finish : T → Bytes → Bool → S → S
  finish at xml saw st =
      if not (is_empty xml)
      then sink.payload at xml st
      else if not saw
      then sink.line (codes "Metadata client disconnected without payload: " ++ peer) st
      else st

  change_line : Bytes → Bytes
  change_line reason = concat (
      codes "Metadata source configuration changed ("
      ∷ reason
      ∷ codes "); reconnecting metadata socket for new source settings"
      ∷ [])

  idle_line : Bool → S → S
  idle_line due st =
      if due
      then sink.line (codes "Metadata client connected but no payload yet: " ++ peer) st
      else st

  -- The loop ends at the end of the rounds where the worker stops. `last` is when what is left is
  -- handled.
  unfoldable pub run_rounds : T → List (Round T) → Bytes → Bool → S → S
  unfolding finish change_line idle_line source_config_change_reason
  run_rounds last [] xml saw st = finish last xml saw st
  run_rounds last (r ∷ rs) xml saw st =
      let reason = source_config_change_reason idx source r.runtime r.metadata in
      if not (is_empty reason)
      then finish last xml saw (sink.line (change_line reason) st)
      else elim r.outcome [
        | chunk bytes ↦ run_rounds last rs (xml ++ bytes) saw st
        | ended ↦ finish last xml saw st
        | silence due ↦
            let handled = not (is_empty xml) in
            run_rounds last rs [] (saw || handled)
              (if handled then sink.payload r.at xml st else idle_line due st)
      ]

  unfoldable pub process_socket_until_close : T → List (Round T) → S → S
  unfolding run_rounds
  process_socket_until_close last rounds st = run_rounds last rounds [] false st

-- The worker's own: what it reads and meets at a payload, and its state.
pub record When (D : Type 0) : Type 0 where
  pub moment : Moment D
  pub settings : Settings
  pub running : Running

unfoldable pub worker_sink : {D : Type 0} → Doubles D → Sink (When D) MetaState
unfolding emit_metadata log
worker_sink d = record {
  payload = λ t xml st. emit_metadata d t.moment t.settings t.running xml st;
  line = log;
}
