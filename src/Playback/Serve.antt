-- ===== src/Playback/Serve.antt =====
-- The response to a request for a playlist or a segment (src/worker/worker.cpp, `serveHlsHttp`).
use multi_coder.Prelude.{not, ◌&&◌, Option, none, some, Bytes, codes, is_empty, if◌then◌else◌}
use multi_coder.Prelude.Int.{ℤ}
use multi_coder.Json.{Object}
use multi_coder.Strings.Lines.{has_suffix}
use multi_coder.Playback.{send_resp, redirect, Target, not_found, redirected, file, target_of}
use multi_coder.Playback.Dates.{DateTime, PdtAnchor}
use multi_coder.Playback.Enrich.{enrich}

-- What the server has at hand: the clock, `m_hlsLastMetaPayload`, the two files that it reads, and
-- the files of the folder by their names.
pub record Shelf : Type 0 where
  pub now_ms : ℤ
  pub hls_last_meta_payload : Bytes
  pub runtime : Object
  pub hls_cfg : Object
  pub files : Bytes → Option Bytes

module _ (shift : DateTime → ℤ → Option Bytes) (iso_of : ℤ → Bytes) (parse_utc : Bytes → ℤ) where
  content_type : Bytes → Bytes
  content_type filename =
      if has_suffix (codes ".m3u8") filename
      then codes "audio/mpegurl"
      else if has_suffix (codes ".aac") filename
      then codes "audio/aac"
      else codes "video/mp2t"

  serve_file : Shelf → Bytes → Option Bytes → Option PdtAnchor → Bytes × Option PdtAnchor
  unfolding content_type
  serve_file s filename none anchor =
      (send_resp 404 (codes "text/plain") (codes "Segment not found"), anchor)
  serve_file s filename (some text) anchor =
      let served =
        if has_suffix (codes ".m3u8") filename && not (is_empty text)
        then enrich shift iso_of parse_utc s.now_ms s.hls_last_meta_payload s.runtime s.hls_cfg text
            anchor
        else (text, anchor) in
      (send_resp 200 (content_type filename) served.0, served.1)

  answer : Shelf → Target → Option PdtAnchor → Bytes × Option PdtAnchor
  unfolding serve_file redirect
  answer s not_found anchor = (send_resp 404 (codes "text/plain") (codes "Not Found"), anchor)
  answer s redirected anchor = (redirect, anchor)
  answer s (file name) anchor = serve_file s name (s.files name) anchor

  unfoldable pub serve_request : Shelf → Bytes → Option PdtAnchor → Bytes × Option PdtAnchor
  unfolding answer target_of
  serve_request s req anchor = answer s (target_of req) anchor
