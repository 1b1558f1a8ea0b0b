-- ===== src/Supervisor/Router.antt =====
-- The routes of the supervisor (src/supervisor/supervisor_api.cpp, `handleReq`).
mod System
mod Pages
mod Encoder
use multi_coder.Prelude.{
  ℕ, ◌+◌, true, false, ◌&&◌, ◌||◌, [], ◌∷◌, Option, none, some, or_else, Bytes, codes, beq,
  is_empty, drop, take, starts_with, find_byte, to_string, leb, if◌then◌else◌,
}
use multi_coder.Prelude.Int.{ℤ, pos, negsuc}
use multi_coder.Strings.{stoi}
use multi_coder.Strings.Lines.{concat, contains}
use multi_coder.Json.{parse_object, get_int}
use multi_coder.Supervisor.Http.{
  Response, http_resp, cors_pre_hdr, parse_method, parse_path, parse_body,
}
use multi_coder.Supervisor.Host.{
  Host, World, encoder_file, system_path, read_file, atomic_write_text_file,
}
use multi_coder.Supervisor.Text.{json}
use multi_coder.Supervisor.Admin.{
  saved, plain, config_text, login, history_json, history_path, encoder_or_first, encoder_config,
}
use multi_coder.Supervisor.Admin.Files.{
  save_admin_config, support_bundle, tail_sys_log, tail_log, save_section, control_listener,
}
use multi_coder.Supervisor.Encoders.{max_encoders}
use multi_coder.Supervisor.Encoders.Commands.{encoder_json, all_encoders_json, stream_request}
use multi_coder.Supervisor.Input.Routes.{input_connect, input_disconnect, preview_gain, apply_gain}
use multi_coder.Supervisor.Input.Status.{input_levels, input_status, input_diagnostics}
use multi_coder.Supervisor.Metadata.{metadata_start, metadata_connect, metadata_status}
use multi_coder.Supervisor.TestCommand.{Protocol, test_command}
use multi_coder.Supervisor.CueRoute.Handle.{cue_route}
use multi_coder.Supervisor.Diagnostics.{Network}
use multi_coder.Supervisor.Diagnostics.Run.{diagnostics_run}
use multi_coder.Supervisor.Hls.{Reply}
use multi_coder.Supervisor.Hls.Serve.{hls_route}
use multi_coder.Supervisor.Router.System.{Env, not_found, reply, answer}
use multi_coder.Supervisor.Router.Pages.{static_get, admin_get, admin_post}
use multi_coder.Supervisor.Router.Encoder.{encoder_route}

module _ (e : Env) where
  first_of : Option (Bytes × Host) → Bytes × Host → Bytes × Host
  first_of (some r) rest = r
  first_of none rest = rest

  by_method : Bytes → Bytes → Bytes → Host → Option (Bytes × Host)
  unfolding static_get admin_get admin_post hls_route
  by_method method path body h =
      if beq method (codes "GET")
      then (elim (static_get e path h) [
        | some r ↦ some r
        | none ↦ elim (admin_get e path h) [
          | some r ↦ some r
          | none ↦ hls_route e.world e.iso_of e.parse_utc e.fetch path h
        ]
      ])
      else if beq method (codes "POST")
      then admin_post e path body h
      else none

  unfoldable pub handle_req : Bytes → Bytes → Host → Bytes × Host
  unfolding by_method first_of encoder_route contains starts_with
  handle_req raw client_ip h =
      let method = parse_method raw in
      let path = parse_path raw in
      let body = parse_body raw in
      if contains (codes "..") path
      then answer (plain 400 (codes "Bad Request")) h
      else if beq method (codes "OPTIONS")
      then (cors_pre_hdr, h)
      else first_of (by_method method path body h) (
          if starts_with (codes "/api/encoder/") path
          then encoder_route e method (drop 13 path) raw client_ip body h
          else (not_found, h))
