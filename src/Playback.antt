-- ===== src/Playback.antt =====
-- The worker's playback server (src/worker/worker.cpp, `serveHlsHttp`): a request's file, and the
-- response.
pub mod Dates
pub mod Enrich
pub mod Serve
use multi_coder.Prelude.{
  ℕ, Bool, true, false, not, ◌&&◌, ◌||◌, [], ◌∷◌, ◌++◌, Option, none, some, Bytes, codes, beq, drop,
  is_empty, length, starts_with, to_string, ◌==◌, if◌then◌else◌,
}
use multi_coder.Strings.Lines.{concat, contains, has_byte, read_word}

abbrev crlf : Bytes
crlf = 13 ∷ 10 ∷ []

unfoldable pub send_resp : ℕ → Bytes → Bytes → Bytes
unfolding contains
send_resp code ct body =
    let status = if code == 200 then codes "OK" else codes "Not Found" in
    let cache =
      if contains (codes "mpegurl") ct
      then concat
          (codes "Cache-Control: no-cache, no-store" ∷ crlf ∷ codes "Pragma: no-cache" ∷ crlf ∷ [])
      else codes "Cache-Control: max-age=600" ++ crlf in
    concat (
      codes "HTTP/1.0 "
      ∷ to_string code
      ∷ codes " "
      ∷ status
      ∷ crlf
      ∷ codes "Content-Type: "
      ∷ ct
      ∷ crlf
      ∷ codes "Content-Length: "
      ∷ to_string (length body)
      ∷ crlf
      ∷ codes "Access-Control-Allow-Origin: *"
      ∷ crlf
      ∷ cache
      ∷ codes "Connection: close"
      ∷ crlf
      ∷ crlf
      ∷ body
      ∷ [])

redirect : Bytes
redirect = concat (
    codes "HTTP/1.0 302 Found"
    ∷ crlf
    ∷ codes "Location: /hls/index.m3u8"
    ∷ crlf
    ∷ codes "Content-Length: 0"
    ∷ crlf
    ∷ codes "Connection: close"
    ∷ crlf
    ∷ crlf
    ∷ [])

-- The path of a `GET`, else empty.
req_path : Bytes → Bytes
unfolding read_word
req_path req =
    let (method, rest) = read_word req in
    if beq method (codes "GET") then (read_word rest).0 else []

-- What a request is answered with.
pub data Target : Type 0 where
  not_found redirected : Target
  file : Bytes → Target

bad_name : Bytes → Bool
unfolding contains has_byte starts_with
bad_name filename =
    if is_empty filename || contains (codes "..") filename || has_byte b'\\' filename
    then true
    else has_byte b'/' filename
      && (not (starts_with (codes "segments/") filename) || has_byte b'/' (drop 9 filename))

unfoldable pub target_of : Bytes → Target
unfolding req_path bad_name contains starts_with
target_of req =
    let path = req_path req in
    let bad =
      is_empty path || contains (codes "..") path || not (starts_with (codes "/hls/") path) in
    let filename = drop 5 path in
    if beq path (codes "/hls/") || beq path (codes "/hls")
    then redirected
    else if bad || bad_name filename
    then not_found
    else file filename
