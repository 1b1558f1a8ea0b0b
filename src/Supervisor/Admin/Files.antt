-- ===== src/Supervisor/Admin/Files.antt =====
-- The log files, the export and what the administration writes
-- (src/supervisor/supervisor_api.cpp: `tailSysLog`, `tailLog`, `buildSupportBundleText` and routes of
-- `handleReq`).
use multi_coder.Prelude.{
  ℕ, Bool, false, [], ◌∷◌, ◌++◌, Option, none, some, Bytes, codes, to_string, if◌then◌else◌,
}
use multi_coder.Strings.{int_to_string}
use multi_coder.Strings.Lines.{concat}
use multi_coder.Json.{get_bool, serialize}
use multi_coder.Supervisor.Http.{Response}
use multi_coder.Supervisor.Host.{
  Host, World, system_path, encoder_file, runtime_state_path, read_file, read_json_file,
  append_encoder_log, atomic_write_text_file, write_runtime_state,
}
use multi_coder.Supervisor.Text.{json, json_escape}
use multi_coder.Supervisor.Admin.{
  saved, config_text, history_json, tail_lines, control_port_for_encoder, admin_config, is_section,
  config_sections, history_path,
}

module _ (w : World) where
  tail_of : Bytes → ℕ → Option Bytes → Bytes
  unfolding tail_lines
  tail_of missing n none = missing
  tail_of missing n (some content) = tail_lines n content

  unfoldable pub tail_sys_log : ℕ → Host → Bytes
  unfolding tail_of
  tail_sys_log n h =
      tail_of (codes "[No system log yet]" ++ 10 ∷ []) n
        (w.log_file h.effects (codes "/etc/MC/EncoderSys.log"))

  unfoldable pub tail_log : ℕ → ℕ → Host → Bytes
  unfolding tail_of
  tail_log enc n h =
      tail_of
        (concat (
          codes "[No log file - encoder "
          ∷ to_string enc
          ∷ codes " not yet started]"
          ∷ (10 ∷ [])
          ∷ []))
        n
        (w.log_file h.effects
          (encoder_file enc (concat (codes "logs/Encoder" ∷ to_string enc ∷ codes ".log" ∷ []))))

  unfoldable pub support_bundle : ℕ → Host → Bytes
  unfolding history_json tail_sys_log tail_log
  support_bundle enc h =
      let nl = 10 ∷ [] in
      let gap = 10 ∷ 10 ∷ [] in
      concat (
        codes "MultiCoder Support Bundle"
        ∷ nl
        ∷ codes "Generated: "
        ∷ w.now_iso
        ∷ nl
        ∷ codes "Encoder: "
        ∷ to_string enc
        ∷ gap
        ∷ codes "=== Admin Config (/etc/MC/system.json) ==="
        ∷ nl
        ∷ config_text h system_path
        ∷ gap
        ∷ codes "=== Encoder Input Config ==="
        ∷ nl
        ∷ config_text h (encoder_file enc (codes "input.json"))
        ∷ gap
        ∷ codes "=== Runtime State ==="
        ∷ nl
        ∷ config_text h (runtime_state_path enc)
        ∷ gap
        ∷ codes "=== Diagnostics History (latest 50) ==="
        ∷ nl
        ∷ history_json 50 (read_file h (history_path enc))
        ∷ gap
        ∷ codes "=== Tail System Log ==="
        ∷ nl
        ∷ tail_sys_log 200 h
        ∷ gap
        ∷ codes "=== Tail Encoder Log ==="
        ∷ nl
        ∷ tail_log enc 200 h
        ∷ nl
        ∷ [])

  save_result : Response → Option Bytes × Host → Response × Host
  save_result failure (none, h) = (saved, h)
  save_result failure (some err, h) = (failure, h)

  unfoldable pub save_admin_config : Bytes → Host → Response × Host
  unfolding save_result
  save_admin_config body h =
      save_result (json 500 (codes "{\"saved\":false,\"error\":\"failed to write system config\"}"))
        (atomic_write_text_file w system_path (serialize (admin_config body)) h)

  section_saved : Option Bytes × Host → Response × Host
  section_saved (none, h) = (saved, h)
  section_saved (some err, h) =
      (json 500 (concat (codes "{\"error\":\"" ∷ json_escape err ∷ codes "\"}" ∷ [])), h)

  -- `config/<section>`: the body is stored as it is.
  unfoldable pub save_section : ℕ → Bytes → Bytes → Host → Response × Host
  unfolding section_saved is_section
  save_section enc section body h =
      if is_section section config_sections
      then section_saved
          (atomic_write_text_file w (encoder_file enc (section ++ codes ".json")) body h)
      else (json 400 (codes "{\"error\":\"unknown section\"}"), h)

  -- `control/start` and `control/stop`
  unfoldable pub control_listener : Bool → ℕ → Host → Response × Host
  control_listener start enc h =
      let meta =
        get_bool (read_json_file h (runtime_state_path enc)) (codes "metadataListenerRunning")
          false in
      let h' = write_runtime_state w enc start meta h in
      (
        json 200 (
            concat (
              codes "{\"ok\":true,\"listener\":\"control\",\"state\":\""
              ∷ (if start then codes "running" else codes "stopped")
              ∷ codes "\"}"
              ∷ [])),
        append_encoder_log enc
            (if start
              then codes "Control listener start requested on port "
                ++ int_to_string (control_port_for_encoder h' enc)
              else codes "Control listener stop requested")
            h',
      )
