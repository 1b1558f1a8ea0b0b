-- ===== src/Supervisor/Router/System.antt =====
-- What a request of the supervisor meets, and its answers (src/supervisor/supervisor_api.cpp,
-- `handleReq`).
use multi_coder.Prelude.{ℕ, Option, Bytes, codes}
use multi_coder.Prelude.Int.{ℤ}
use multi_coder.Supervisor.Http.{Response, http_resp}
use multi_coder.Supervisor.Host.{Host, World}
use multi_coder.Supervisor.Admin.{plain}
use multi_coder.Supervisor.TestCommand.{Protocol}
use multi_coder.Supervisor.Diagnostics.{Network}
use multi_coder.Supervisor.Hls.{Reply}

-- All that a request may ask of the system, and what the build gives.
pub record Env : Type 0 where
  pub world : World
  pub network : Network
  pub iso_of : ℤ → Bytes
  pub parse_utc : Bytes → ℤ
  pub fetch : ℤ → Bytes → Reply
  pub send : Protocol → Bytes → ℕ → Bytes → Option Bytes
  pub asset : Bytes → Bytes
  pub version : Bytes
  pub interfaces_json : Bytes
  pub audio_inputs_json : Bytes

abbrev pub not_found : Bytes
not_found = http_resp (plain 404 (codes "Not Found"))

unfoldable pub reply : Response × Host → Bytes × Host
reply (r, h) = (http_resp r, h)

-- A route that only answers.
abbrev pub answer : Response → Host → Bytes × Host
answer r h = (http_resp r, h)
