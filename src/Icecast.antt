-- ===== src/Icecast.antt =====
-- What an update of Icecast's metadata sends (src/worker/worker.cpp, `sendIcecastMetaUpdate`): the
-- title in percent encoding, and the credentials in base64.
pub mod Base64
pub mod Percent
use multi_coder.Prelude.{
  ℕ, zero, suc, ◌+◌, ◌-◌, ◌*◌, ◌/◌, ◌%◌, ◌^◌, Bool, true, false, ◌||◌, List, [], ◌∷◌, ◌++◌, Bytes,
  length, replicate, Option, none, some, codes, drop, take, is_empty, starts_with, find_byte, leb,
  ltb, ◌==◌, if◌then◌else◌,
}
use multi_coder.Prelude.Int.{ℤ, pos}
use multi_coder.Strings.{is_alnum, stoi}

-- `b64[i]`
unfoldable pub base64_char : ℕ → ℕ
base64_char i =
    if ltb i 26
    then b'A' + i
    else if ltb i 52
    then b'a' + (i - 26)
    else if ltb i 62
    then b'0' + (i - 52)
    else if i == 62
    then b'+'
    else b'/'

-- The loop `while (valb >= 0)`, with `p` for `valb + 6`, on `p` rounds at most: what it pushes, and
-- `p` behind it.
unfoldable pub push_sextets : ℕ → ℕ → ℕ → Bytes × ℕ
push_sextets zero val p = ([], p)
push_sextets (suc fuel) val p =
    let (out, last) = push_sextets fuel val (p - 6) in
    if leb 6 p then (base64_char (val / 2 ^ (p - 6) % 2 ^ 6) ∷ out, last) else ([], p)

-- The loop over the bytes, and the sextet that is not full behind it. `val` is an `int`, of which
-- 32 bits stay.
unfoldable pub base64_from : ℕ → ℕ → Bytes → Bytes
unfolding push_sextets base64_char
base64_from val p [] = if ltb 0 p then base64_char (val * 2 ^ 8 / 2 ^ (p + 2) % 2 ^ 6) ∷ [] else []
base64_from val p (c ∷ s) =
    let v = (val * 2 ^ 8 + c) % 2 ^ 32 in
    let (out, p') = push_sextets (p + 8) v (p + 8) in out ++ base64_from v p' s

-- `while (size % 4) push_back('=')`
unfoldable pub padded : Bytes → Bytes
padded s = s ++ replicate ((4 - length s % 4) % 4) b'='

unfoldable pub base64 : Bytes → Bytes
unfolding base64_from padded
base64 s = padded (base64_from 0 0 s)

-- a digit of `%02X`
abbrev hex_digit : ℕ → ℕ
hex_digit n = if ltb n 10 then b'0' + n else b'A' + (n - 10)

abbrev is_unreserved : ℕ → Bool
is_unreserved c = is_alnum c || c == b'-' || c == b'_' || c == b'.' || c == b'~'

unfoldable pub percent_byte : ℕ → Bytes
percent_byte c =
    if is_unreserved c then c ∷ [] else b'%' ∷ hex_digit (c / 16) ∷ hex_digit (c % 16) ∷ []

unfoldable pub percent_encode : Bytes → Bytes
unfolding percent_byte
percent_encode [] = []
percent_encode (c ∷ s) = percent_byte c ++ percent_encode s

-- What is sent, and where to.
pub record Update : Type 0 where
  pub host : Bytes
  pub port : ℤ
  pub request : Bytes

strip_scheme : List Bytes → Bytes → Bytes
strip_scheme [] rest = rest
strip_scheme (scheme ∷ schemes) rest =
    if starts_with scheme rest then drop (length scheme) rest else strip_scheme schemes rest

after_at : Option ℕ → Bytes → Bytes
after_at none rest = rest
after_at (some i) rest = drop (i + 1) rest

-- `port` stays 80 where `std::stoi` throws.
abbrev port_or_80 : Option ℤ → ℤ
port_or_80 none = pos 80
port_or_80 (some n) = n

host_and_port : Option ℕ → Bytes → Bytes × ℤ
host_and_port none host_port = (host_port, pos 80)
host_and_port (some i) host_port = (take i host_port, port_or_80 (stoi (drop (i + 1) host_port)))

abbrev crlf : Bytes
crlf = 13 ∷ 10 ∷ []

abbrev request_text : Bytes → Bytes → Bytes → Bytes → Bytes
request_text mount encoded host b64str =
    codes "GET /admin/metadata?mount="
    ++ mount
    ++ codes "&mode=updinfo&song="
    ++ encoded
    ++ codes "&charset=UTF-8 HTTP/1.0"
    ++ crlf
    ++ codes "Host: "
    ++ host
    ++ crlf
    ++ codes "Authorization: Basic "
    ++ b64str
    ++ crlf
    ++ codes "Connection: close"
    ++ crlf
    ++ crlf

update_at : Option ℕ → Bytes → Bytes → Bytes → Bytes → Option Update
unfolding host_and_port find_byte base64 percent_encode
update_at none rest user pass title = none
update_at (some slash) rest user pass title =
    let host_port = take slash rest in
    let mount = drop slash rest in
    let (host, port) = host_and_port (find_byte b':' host_port) host_port in
    if is_empty host || is_empty mount
    then none
    else some (record {
      host = host;
      port = port;
      request = request_text mount (percent_encode title) host (base64 (user ++ b':' ∷ pass));
    })

-- `none` where the function returns before it connects.
unfoldable pub meta_update : Bytes → Bytes → Bytes → Bytes → Option Update
unfolding update_at strip_scheme after_at
meta_update stream_url user pass title =
    let schemes = codes "icecast://" ∷ codes "http://" ∷ codes "https://" ∷ [] in
    let no_scheme = strip_scheme schemes stream_url in
    let rest = after_at (find_byte b'@' no_scheme) no_scheme in
    update_at (find_byte b'/' rest) rest user pass title
