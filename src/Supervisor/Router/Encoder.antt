-- ===== src/Supervisor/Router/Encoder.antt =====
-- The routes of one encoder (src/supervisor/supervisor_api.cpp, `handleReq`).
use multi_coder.Prelude.{
  ℕ, ◌+◌, true, false, ◌&&◌, ◌||◌, [], Option, none, some, or_else, Bytes, codes, beq, is_empty,
  drop, take, starts_with, find_byte, leb, if◌then◌else◌,
}
use multi_coder.Prelude.Int.{ℤ, pos, negsuc}
use multi_coder.Strings.{stoi}
use multi_coder.Supervisor.Host.{Host, encoder_file}
use multi_coder.Supervisor.Text.{json}
use multi_coder.Supervisor.Admin.{plain, config_text, encoder_config}
use multi_coder.Supervisor.Admin.Files.{tail_log, save_section, control_listener}
use multi_coder.Supervisor.Encoders.{max_encoders}
use multi_coder.Supervisor.Encoders.Commands.{encoder_json, stream_request}
use multi_coder.Supervisor.Input.Routes.{input_connect, input_disconnect, preview_gain, apply_gain}
use multi_coder.Supervisor.Input.Status.{input_levels, input_status, input_diagnostics}
use multi_coder.Supervisor.Metadata.{metadata_start, metadata_connect, metadata_status}
use multi_coder.Supervisor.TestCommand.{test_command}
use multi_coder.Supervisor.CueRoute.Handle.{cue_route}
use multi_coder.Supervisor.Router.System.{Env, not_found, reply, answer}
use multi_coder.Supervisor.Router.Pages.{stored}

module _ (e : Env) where
  encoder_answer : ℕ → Host → Bytes × Host
  encoder_answer enc h = let (text, h') = encoder_json e.world enc h in answer (json 200 text) h'

  encoder_get : ℕ → Bytes → Host → Bytes × Host
  unfolding encoder_answer
  encoder_get enc sub h =
      if beq sub (codes "admin-config")
      then answer (json 200 (config_text h (encoder_file enc (codes "encoder_admin.json")))) h
      else if beq sub (codes "input/levels")
      then answer (input_levels e.world enc h) h
      else if beq sub (codes "input/status")
      then answer (input_status e.world enc h) h
      else if beq sub (codes "input/diagnostics")
      then answer (input_diagnostics e.world enc h) h
      else if beq sub (codes "metadata/status")
      then answer (metadata_status enc h) h
      else if is_empty sub
      then encoder_answer enc h
      else if beq sub (codes "log")
      then answer (plain 200 (tail_log e.world enc 100 h)) h
      else if beq sub (codes "config")
      then answer (encoder_config enc h) h
      else (not_found, h)

  -- `<stream>/<action>`
  stream_answer : ℕ → Bytes → Option ℕ → Host → Bytes × Host
  unfolding reply
  stream_answer enc sub none h = (not_found, h)
  stream_answer enc sub (some slash) h =
      let stream_type = take slash sub in
      let action = drop (slash + 1) sub in
      if beq action (codes "start") || beq action (codes "stop")
      then reply (stream_request e.world enc stream_type (beq action (codes "start")) h)
      else (not_found, h)

  encoder_post : ℕ → Bytes → Bytes → Bytes → Bytes → Host → Bytes × Host
  unfolding stored stream_answer reply find_byte starts_with
  encoder_post enc sub raw client_ip body h =
      if beq sub (codes "admin-config")
      then stored e (encoder_file enc (codes "encoder_admin.json")) body h
      else if beq sub (codes "control/start")
      then reply (control_listener e.world true enc h)
      else if beq sub (codes "control/stop")
      then reply (control_listener e.world false enc h)
      else if beq sub (codes "input/connect")
      then reply (input_connect e.world enc body h)
      else if beq sub (codes "input/disconnect")
      then reply (input_disconnect e.world enc h)
      else if beq sub (codes "input/preview-gain")
      then reply (preview_gain e.world enc body h)
      else if beq sub (codes "input/apply-gain")
      then reply (apply_gain e.world enc body h)
      else if beq sub (codes "metadata/start")
      then reply (metadata_start e.world true enc body h)
      else if beq sub (codes "metadata/stop")
      then reply (metadata_start e.world false enc body h)
      else if beq sub (codes "metadata/connect")
      then reply (metadata_connect e.network.connect enc body h)
      else if beq sub (codes "test-command")
      then reply (test_command e.send enc body h)
      else if beq sub (codes "cue")
      then reply (cue_route e.world e.network.inet_pton enc raw client_ip h)
      else if starts_with (codes "config/") sub
      then reply (save_section e.world enc (drop 7 sub) body h)
      else stream_answer enc sub (find_byte b'/' sub) h

  -- The number of the encoder, and the path behind it.
  split_encoder : Option ℕ → Bytes → Bytes × Bytes
  split_encoder none rest = (rest, [])
  split_encoder (some slash) rest = (take slash rest, drop (slash + 1) rest)

  numbered : ℤ → (ℕ → Bytes × Host) → Host → Bytes × Host
  numbered (negsuc n) route h = answer (json 404 (codes "{\"error\":\"encoder not found\"}")) h
  numbered (pos n) route h =
      if leb 1 n && leb n max_encoders
      then route n
      else answer (json 404 (codes "{\"error\":\"encoder not found\"}")) h

  unfoldable pub encoder_route : Bytes → Bytes → Bytes → Bytes → Bytes → Host → Bytes × Host
  unfolding split_encoder numbered encoder_get encoder_post find_byte
  encoder_route method rest raw client_ip body h =
      let (id, sub) = split_encoder (find_byte b'/' rest) rest in
      numbered (or_else (stoi id) (pos 0))
        (λ enc.
          if beq method (codes "GET")
          then encoder_get enc sub h
          else if beq method (codes "POST")
          then encoder_post enc sub raw client_ip body h
          else (not_found, h))
        h
