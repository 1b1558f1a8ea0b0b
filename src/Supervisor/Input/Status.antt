-- ===== src/Supervisor/Input/Status.antt =====
-- What the supervisor says of an input (src/supervisor/supervisor_api.cpp, the routes
-- `input/levels`, `input/status` and `input/diagnostics` of `handleReq`).
use multi_coder.Prelude.{
  ℕ, Bool, false, not, ◌&&◌, ◌||◌, [], ◌∷◌, Bytes, codes, beq, is_empty, if◌then◌else◌,
}
use multi_coder.Prelude.Int.{ℤ, pos}
use multi_coder.Strings.{int_to_string}
use multi_coder.Strings.Lines.{concat}
use multi_coder.Json.{Object, get_string, get_int, get_bool, serialize}
use multi_coder.Supervisor.Text.{json, bool_text, json_escape, is_fresh, silence}
use multi_coder.Supervisor.Http.{Response}
use multi_coder.Supervisor.Host.{
  Host, World, encoder_file, runtime_state_path, input_session_path, read_json_file,
}
use multi_coder.Supervisor.Input.{summarize_input_config}

-- `activeSource`: the session, or the runtime state where the session names no type.
abbrev active_source : Object → Object → Object
active_source session runtime =
    if is_empty (get_string session (codes "sessionInputType") []) then runtime else session

-- The levels and the warning of `input/levels`.
pub record Levels : Type 0 where
  pub left : ℤ
  pub right : ℤ
  pub warning : Bytes

unfoldable pub shown_levels : ℤ → Bool → Object → Levels
shown_levels now connected runtime =
    let warning =
      get_string runtime (codes "inputWarning")
        (if connected then [] else codes "Input disconnected") in
    let worker_fresh =
      is_fresh now (get_int runtime (codes "workerHeartbeatEpoch") (pos 0)) (pos 8) in
    let level_fresh = is_fresh now (get_int runtime (codes "inputLevelEpoch") (pos 0)) (pos 3) in
    if not connected
    then record { left = silence; right = silence; warning = warning }
    else if not worker_fresh || not level_fresh
    then record {
      left = silence;
      right = silence;
      warning =
          if is_empty warning
          then (if not worker_fresh
              then codes "Worker telemetry stale (worker offline or restarting)"
              else codes "Input levels stale; waiting for fresh telemetry")
          else warning;
    }
    else record {
      left = get_int runtime (codes "inputLevelL") silence;
      right = get_int runtime (codes "inputLevelR") silence;
      warning = warning;
    }

module _ (w : World) where
  unfoldable pub input_levels : ℕ → Host → Response
  unfolding shown_levels
  input_levels enc h =
      let runtime = read_json_file h (runtime_state_path enc) in
      let session = read_json_file h (input_session_path enc) in
      let connected =
        get_bool session (codes "inputConnected")
          (get_bool runtime (codes "inputConnected") false) in
      let input_type =
        get_string session (codes "sessionInputType")
          (get_string runtime (codes "sessionInputType") []) in
      let source_label =
        if connected
        then summarize_input_config w (active_source session runtime) (codes "session")
        else codes "Disconnected" in
      let shown = shown_levels w.now_epoch connected runtime in
      json 200 (
        concat (
          codes "{\"connected\":"
          ∷ bool_text connected
          ∷ codes ",\"leftDb\":"
          ∷ int_to_string shown.left
          ∷ codes ",\"rightDb\":"
          ∷ int_to_string shown.right
          ∷ codes ",\"inputType\":\""
          ∷ json_escape input_type
          ∷ codes "\""
          ∷ codes ",\"sourceLabel\":\""
          ∷ json_escape source_label
          ∷ codes "\""
          ∷ codes ",\"warning\":\""
          ∷ json_escape shown.warning
          ∷ codes "\"}"
          ∷ []))

  unfoldable pub input_status : ℕ → Host → Response
  input_status enc h =
      let runtime = read_json_file h (runtime_state_path enc) in
      let session = read_json_file h (input_session_path enc) in
      let saved = read_json_file h (encoder_file enc (codes "input.json")) in
      let connected =
        get_bool session (codes "inputConnected")
          (get_bool runtime (codes "inputConnected") false) in
      let active =
        if connected
        then summarize_input_config w (active_source session runtime) (codes "session")
        else codes "Disconnected (no active session input)" in
      json 200 (
        concat (
          codes "{\"connected\":"
          ∷ bool_text connected
          ∷ codes ",\"activeSessionInput\":\""
          ∷ json_escape active
          ∷ codes "\""
          ∷ codes ",\"savedProfileInput\":\""
          ∷ json_escape (summarize_input_config w saved [])
          ∷ codes "\"}"
          ∷ []))

  unfoldable pub input_diagnostics : ℕ → Host → Response
  input_diagnostics enc h =
      let runtime = read_json_file h (runtime_state_path enc) in
      let session = read_json_file h (input_session_path enc) in
      let runtime_connected = get_bool runtime (codes "inputConnected") false in
      let session_connected = get_bool session (codes "inputConnected") runtime_connected in
      let runtime_type = get_string runtime (codes "sessionInputType") [] in
      let session_type = get_string session (codes "sessionInputType") runtime_type in
      let runtime_source = summarize_input_config w runtime (codes "session") in
      let session_source = summarize_input_config w session (codes "session") in
      let connected_in_sync =
        if runtime_connected then session_connected else not session_connected in
      let source_in_sync = beq runtime_type session_type && beq runtime_source session_source in
      json 200 (
        concat (
          codes "{"
          ∷ codes "\"runtimeState\":"
          ∷ serialize runtime
          ∷ codes ",\"inputSession\":"
          ∷ serialize session
          ∷ codes ",\"comparison\":{"
          ∷ codes "\"runtimeConnected\":"
          ∷ bool_text runtime_connected
          ∷ codes ",\"sessionConnected\":"
          ∷ bool_text session_connected
          ∷ codes ",\"runtimeInputType\":\""
          ∷ json_escape runtime_type
          ∷ codes "\""
          ∷ codes ",\"sessionInputType\":\""
          ∷ json_escape session_type
          ∷ codes "\""
          ∷ codes ",\"runtimeSourceSummary\":\""
          ∷ json_escape runtime_source
          ∷ codes "\""
          ∷ codes ",\"sessionSourceSummary\":\""
          ∷ json_escape session_source
          ∷ codes "\""
          ∷ codes ",\"connectedInSync\":"
          ∷ bool_text connected_in_sync
          ∷ codes ",\"sourceInSync\":"
          ∷ bool_text source_in_sync
          ∷ codes "}"
          ∷ codes "}"
          ∷ []))
