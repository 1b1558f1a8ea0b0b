-- ===== src/Supervisor/Hls/Serve.antt =====
-- The answer to a request of an HLS file (src/supervisor/supervisor_api.cpp, `proxyHlsFromWorker`
-- and the route `/encoder/<n>/hls/<file>` of `handleReq`).
use multi_coder.Prelude.{
  ℕ, ◌+◌, not, ◌&&◌, [], ◌∷◌, ◌++◌, Option, none, some, or_else, Bytes, codes, beq, is_empty, drop,
  take, length, starts_with, find_byte, to_string, leb, if◌then◌else◌,
}
use multi_coder.Prelude.Int.{ℤ, pos, negsuc, ltb_ℤ}
use multi_coder.Strings.{stoi}
use multi_coder.Strings.Lines.{has_suffix, concat}
use multi_coder.Json.{get_int}
use multi_coder.Supervisor.Http.{crlf, http_resp}
use multi_coder.Supervisor.Host.{
  Host, World, encoder_file, read_file, read_json_file, append_encoder_log,
}
use multi_coder.Supervisor.Encoders.{max_encoders}
use multi_coder.Supervisor.Hls.{
  bad_name, Reply, no_reply, timed_out, reply, Proxied, proxied, not_proxied, proxy_body,
  timeout_text, timed_from_disk,
}

-- A playlist is fetched again each time, a segment is kept.
unfoldable pub hls_response : Bytes → Bytes → Bytes
hls_response filename text =
    let is_m3u8 = has_suffix (codes ".m3u8") filename in
    let content_type =
      if is_m3u8
      then codes "audio/mpegurl"
      else if has_suffix (codes ".aac") filename
      then codes "audio/aac"
      else codes "video/mp2t" in
    concat (
      codes "HTTP/1.1 200 OK"
      ∷ crlf
      ∷ codes "Content-Type: "
      ∷ content_type
      ∷ crlf
      ∷ codes "Content-Length: "
      ∷ to_string (length text)
      ∷ crlf
      ∷ codes "Access-Control-Allow-Origin: *"
      ∷ crlf
      ∷ (if is_m3u8
          then concat (
              codes "Cache-Control: no-cache, no-store"
              ∷ crlf
              ∷ codes "Pragma: no-cache"
              ∷ crlf
              ∷ [])
          else codes "Cache-Control: max-age=600" ++ crlf)
      ∷ codes "Connection: close"
      ∷ crlf
      ∷ crlf
      ∷ text
      ∷ [])

abbrev plain_text : ℕ → Bytes → Bytes
plain_text code text =
    http_resp (record { code = code; content_type = codes "text/plain"; body = text })

-- The path of a file of the output; `filename` has passed `bad_name`.
abbrev pub hls_path : ℕ → Bytes → Bytes
hls_path enc filename = encoder_file enc (codes "hls/" ++ filename)

-- `fetch` is the exchange with a port of this host.
module _ (w : World) (iso_of : ℤ → Bytes) (parse_utc : Bytes → ℤ) (fetch : ℤ → Bytes → Reply) where
  -- A timeout is logged.
  log_timeout : ℕ → Reply → Host → Host
  log_timeout enc timed_out h =
      append_encoder_log enc (codes "HLS proxy recv timeout for encoder " ++ to_string enc) h
  log_timeout enc (no_reply err) h = h
  log_timeout enc (reply raw) h = h

  proxy_hls_from_worker : ℕ → Bytes → Host → Proxied × Host
  unfolding log_timeout proxy_body
  proxy_hls_from_worker enc filename h =
      let port =
        get_int (read_json_file h (encoder_file enc (codes "encoder_admin.json")))
          (codes "hlsPlaybackPort") (pos 0) in
      let r = fetch port (
        concat (
          codes "GET /hls/"
          ∷ filename
          ∷ codes " HTTP/1.0"
          ∷ crlf
          ∷ codes "Host: 127.0.0.1"
          ∷ crlf
          ∷ codes "Connection: close"
          ∷ crlf
          ∷ crlf
          ∷ [])) in
      if ltb_ℤ (pos 0) port
      then (proxy_body r, log_timeout enc r h)
      else (not_proxied (codes "hlsPlaybackPort not configured"), h)

  respond : Bytes → Bytes × Host → Bytes × Host
  respond filename (text, h) = (hls_response filename text, h)

  from_disk : ℕ → Bytes → Host → Bytes × Host
  unfolding respond timed_from_disk
  from_disk enc filename h =
      let text = read_file h (hls_path enc filename) in
      if is_empty text
      then (plain_text 404 (codes "HLS file not found"), h)
      else respond filename (
          if has_suffix (codes ".m3u8") filename
          then timed_from_disk w iso_of parse_utc enc text h
          else (text, h))

  answer : ℕ → Bytes → Proxied × Host → Bytes × Host
  unfolding respond from_disk
  answer enc filename (proxied text, h) = respond filename (text, h)
  answer enc filename (not_proxied err, h) =
      if beq err timeout_text
      then (plain_text 504 (codes "Gateway Timeout"), h)
      else from_disk enc filename h

  named_file : Bytes → Bytes → Host → Option (Bytes × Host)
  unfolding answer proxy_hls_from_worker bad_name
  named_file id filename h = elim (or_else (stoi id) (pos 0)) [
    | negsuc n ↦ none
    | pos n ↦
        if not (bad_name filename) && (leb 1 n && leb n max_encoders)
        then some (answer n filename (proxy_hls_from_worker n filename h))
        else none
  ]

  split_file : Option ℕ → Bytes → Host → Option (Bytes × Host)
  unfolding named_file
  split_file none rest h = none
  split_file (some slash) rest h =
      if beq (take 4 (drop (slash + 1) rest)) (codes "hls/")
      then named_file (take slash rest) (drop (slash + 5) rest) h
      else none

  -- `none` where the path is none of the HLS output.
  unfoldable pub hls_route : Bytes → Host → Option (Bytes × Host)
  unfolding split_file find_byte starts_with
  hls_route path h =
      if starts_with (codes "/encoder/") path
      then (let rest = drop 9 path in split_file (find_byte b'/' rest) rest h)
      else none
