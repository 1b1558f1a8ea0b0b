-- ===== src/Supervisor/Router/Pages.antt =====
-- The pages, and the routes that concern no encoder (src/supervisor/supervisor_api.cpp, `handleReq`).
use multi_coder.Prelude.{
  ◌||◌, [], ◌∷◌, Option, none, some, or_else, Bytes, codes, beq, is_empty, drop, starts_with,
  to_string, if◌then◌else◌,
}
use multi_coder.Prelude.Int.{pos}
use multi_coder.Strings.{stoi}
use multi_coder.Strings.Lines.{concat}
use multi_coder.Json.{parse_object, get_int}
use multi_coder.Supervisor.Http.{Response}
use multi_coder.Supervisor.Host.{Host, system_path, read_file, atomic_write_text_file}
use multi_coder.Supervisor.Text.{json}
use multi_coder.Supervisor.Admin.{
  saved, plain, config_text, login, history_json, history_path, encoder_or_first,
}
use multi_coder.Supervisor.Admin.Files.{save_admin_config, support_bundle, tail_sys_log}
use multi_coder.Supervisor.Encoders.Commands.{all_encoders_json}
use multi_coder.Supervisor.Diagnostics.Run.{diagnostics_run}
use multi_coder.Supervisor.Router.System.{Env, reply, answer}

page : Bytes → Bytes → Bytes → Response
page content_type missing text =
    if is_empty text
    then plain 404 missing
    else record { code = 200; content_type = content_type; body = text }

module _ (e : Env) where
  -- A file that is written in place, as it comes.
  unfoldable pub stored : Bytes → Bytes → Host → Bytes × Host
  stored path body h = answer saved (atomic_write_text_file e.world path body h).1

  index_page : Response
  index_page =
      let html = e.asset (codes "index.html") in
      record {
        code = 200;
        content_type = codes "text/html; charset=utf-8";
        body = if is_empty html then codes "<h1>MultiCoder - UI not installed</h1>" else html;
      }

  favicon : Bytes
  favicon =
      let ico = e.asset (codes "favicon.ico") in
      if is_empty ico then e.asset (codes "MultiCoder.ico") else ico

  -- The pages and the requests that concern no encoder; `none` where the path is none of these.
  unfoldable pub static_get : Bytes → Host → Option (Bytes × Host)
  unfolding page index_page favicon reply
  static_get path h =
      if beq path (codes "/") || beq path (codes "/index.html")
      then some (answer index_page h)
      else if beq path (codes "/styles.css")
      then some (
          answer
            (page (codes "text/css") (codes "styles.css not found") (e.asset (codes "styles.css")))
            h)
      else if beq path (codes "/app.js")
      then some (
          answer
            (page (codes "application/javascript") (codes "app.js not found")
              (e.asset (codes "app.js")))
            h)
      else if beq path (codes "/favicon.ico") || beq path (codes "/MultiCoder.ico")
      then some (answer (page (codes "image/x-icon") (codes "favicon not found") favicon) h)
      else if beq path (codes "/health")
      then some
          (answer (json 200 (codes "{\"status\":\"ok\",\"service\":\"multicoder-supervisor\"}")) h)
      else if beq path (codes "/api/version")
      then some
          (answer (json 200 (concat (codes "{\"version\":\"" ∷ e.version ∷ codes "\"}" ∷ []))) h)
      else if beq path (codes "/api/encoders")
      then (let (text, h') = all_encoders_json e.world h in some (answer (json 200 text) h'))
      else if beq path (codes "/api/syslog")
      then some (answer (plain 200 (tail_sys_log e.world 100 h)) h)
      else none

  history_answer : Bytes → Host → Bytes × Host
  history_answer id h =
      let enc = encoder_or_first (or_else (stoi id) (pos 0)) in
      answer
        (json 200 (
          concat (
            codes "{\"encoder\":"
            ∷ to_string enc
            ∷ codes ",\"items\":"
            ∷ history_json 50 (read_file h (history_path enc))
            ∷ codes "}"
            ∷ [])))
        h

  unfoldable pub admin_get : Bytes → Host → Option (Bytes × Host)
  unfolding history_answer starts_with
  admin_get path h =
      if beq path (codes "/api/admin/interfaces")
      then some (answer (json 200 e.interfaces_json) h)
      else if beq path (codes "/api/admin/audio-inputs")
      then some (answer (json 200 e.audio_inputs_json) h)
      else if beq path (codes "/api/admin/config")
      then some (answer (json 200 (config_text h system_path)) h)
      else if starts_with (codes "/api/admin/diagnostics/history/") path
      then some (history_answer (drop 31 path) h)
      else none

  export_answer : Bytes → Host → Bytes × Host
  export_answer body h =
      let req = if is_empty body then [] else parse_object body in
      let enc = encoder_or_first (get_int req (codes "encoder") (pos 1)) in
      answer
        (record {
          code = 200;
          content_type = codes "text/plain; charset=utf-8";
          body = support_bundle e.world enc h;
        })
        h

  unfoldable pub admin_post : Bytes → Bytes → Host → Option (Bytes × Host)
  unfolding stored export_answer reply
  admin_post path body h =
      if beq path (codes "/api/admin/login")
      then some (answer (login body h) h)
      else if beq path (codes "/api/admin/interfaces")
      then some (stored (codes "/etc/MC/interfaces.json") body h)
      else if beq path (codes "/api/admin/config")
      then some (reply (save_admin_config e.world body h))
      else if beq path (codes "/api/admin/diagnostics/run")
      then some (reply (diagnostics_run e.network e.world body h))
      else if beq path (codes "/api/admin/diagnostics/export")
      then some (export_answer body h)
      else none
