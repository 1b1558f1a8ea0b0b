-- ===== src/Supervisor/Encoders/Bounds.antt =====
-- What a stream command costs (src/supervisor/supervisor_api.cpp,
-- `sendWorkerControlWithAutoStart`).
use multi_coder.Prelude.{
  ℕ, zero, suc, ◌+◌, ◌≤◌, Bool, true, false, ◌≡◌, inl, inr, arith, Option, none, some, Bytes,
  count_by, Bool-cases, Option-cases, if◌then◌else◌,
}
use multi_coder.Strings.Lines.{contains}
use multi_coder.Supervisor.Host.{
  Host, World, Effect, encoder_log, sys_log, command, launched, send_worker_control_command,
  launch_worker_process,
}
use multi_coder.Supervisor.Encoders.{connect_failed}
use multi_coder.Supervisor.Encoders.Commands.{
  retry_command, after_launch, after_command, send_worker_control_with_auto_start,
}

abbrev pub is_command : Effect → Bool
is_command (command enc cmd) = true
is_command (encoder_log enc m) = false
is_command (sys_log enc m) = false
is_command (launched enc) = false

abbrev pub is_launch : Effect → Bool
is_launch (launched enc) = true
is_launch (command enc cmd) = false
is_launch (encoder_log enc m) = false
is_launch (sys_log enc m) = false

abbrev pub commands : Host → ℕ
commands h = count_by is_command h.effects

abbrev pub launches : Host → ℕ
launches h = count_by is_launch h.effects

pub commands-send :
    (w : World) (enc : ℕ) (cmd : Bytes) (h : Host)
    → commands (send_worker_control_command w enc cmd h).1 ≡ commands h + 1
unfolding send_worker_control_command
commands-send w enc cmd h = omega arith

pub launches-send :
    (w : World) (enc : ℕ) (cmd : Bytes) (h : Host)
    → launches (send_worker_control_command w enc cmd h).1 ≡ launches h
unfolding send_worker_control_command
launches-send w enc cmd h = omega arith

commands-launch :
    (w : World) (enc : ℕ) (h : Host) → commands (launch_worker_process w enc h).1 ≡ commands h
unfolding launch_worker_process
commands-launch w enc h = omega arith

launches-launch :
    (w : World) (enc : ℕ) (h : Host) → launches (launch_worker_process w enc h).1 ≡ launches h + 1
unfolding launch_worker_process
launches-launch w enc h = omega arith

-- What is sent and launched at most between two states.
abbrev pub Within : ℕ → ℕ → Host → Host → Type 0
Within sent started h h' = (commands h' ≤ commands h + sent) × (launches h' ≤ launches h + started)

module _ (w : World) (enc : ℕ) (cmd : Bytes) where
  retry-Within : (tries : ℕ) (h : Host) → Within tries 0 h (retry_command w tries enc cmd h).1
  unfolding retry_command
  retry-Within zero h = (omega arith, omega arith)
  retry-Within (suc tries) h =
      let h' = (send_worker_control_command w enc cmd h).1 in
      let rest = retry-Within tries h' in
      let sent = commands-send w enc cmd h in
      let same = launches-send w enc cmd h in
      elim (Option-cases (send_worker_control_command w enc cmd h).0) [
        | inl e ↦ rw (e, retry_command) (omega arith, omega arith)
        | inr (err, e) ↦ rw (e, retry_command) (omega arith, omega arith)
      ]

  after_launch-Within :
      (err : Bytes) (r : Option Bytes) (h : Host)
      → Within 40 0 h (after_launch w enc cmd err (r, h)).1
  unfolding after_launch
  after_launch-Within err none h = retry-Within 40 h
  after_launch-Within err (some e) h = (omega arith, omega arith)

  after_command-Within :
      (allow : Bool) (r : Option Bytes) (h : Host)
      → Within
          (if allow then 40 else 0)
          (if allow then 1 else 0)
          h
          (after_command w enc cmd allow (r, h)).1
  unfolding after_command
  after_command-Within true none h = (omega arith, omega arith)
  after_command-Within false none h = (omega arith, omega arith)
  after_command-Within false (some err) h = (omega arith, omega arith)
  after_command-Within true (some err) h =
      let l = launch_worker_process w enc h in
      let later = after_launch-Within err l.0 l.1 in
      let sent = commands-launch w enc h in
      let started = launches-launch w enc h in
      elim (Bool-cases (contains connect_failed err)) [
        | inl e ↦ rw e (omega arith, omega arith)
        | inr e ↦ rw e (omega arith, omega arith)
      ]

-- Whatever the worker and its launch answer, a stream command that may start a worker is sent 41
-- times at most and launches at most one, and a command that may not is sent at most once and
-- launches none.
pub auto_start-Within :
    (w : World) (enc : ℕ) (cmd : Bytes) (allow : Bool) (h : Host)
    → Within
        (if allow then 41 else 1)
        (if allow then 1 else 0)
        h
        (send_worker_control_with_auto_start w enc cmd allow h).1
unfolding send_worker_control_with_auto_start
auto_start-Within w enc cmd true h =
    let s = send_worker_control_command w enc cmd h in
    let later = after_command-Within w enc cmd true s.0 s.1 in
    let sent = commands-send w enc cmd h in
    let same = launches-send w enc cmd h in (omega arith, omega arith)
auto_start-Within w enc cmd false h =
    let s = send_worker_control_command w enc cmd h in
    let later = after_command-Within w enc cmd false s.0 s.1 in
    let sent = commands-send w enc cmd h in
    let same = launches-send w enc cmd h in (omega arith, omega arith)
