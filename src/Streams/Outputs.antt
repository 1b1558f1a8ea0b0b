-- ===== src/Streams/Outputs.antt =====
-- The command lines of the outputs (src/worker/worker.cpp, `parseIcecastUrl`, and the parts of
-- `startAAC`, `startMP3`, `startHLS`, `startSRT` that read the configuration). `none` is that the
-- configuration is refused.
use multi_coder.Prelude.{
  ℕ, suc, ◌+◌, ◌/◌, Bool, false, not, ◌&&◌, ◌||◌, List, [], ◌∷◌, ◌++◌, Option, none, some, Bytes,
  codes, beq, drop, take, find, find_byte, is_empty, ◌==◌, if◌then◌else◌,
}
use multi_coder.Prelude.Int.{ℤ, pos, negsuc, ltb_ℤ, ◌*ℤ◌, ◌-ℤ◌}
use multi_coder.Strings.{split_last, trim_copy, lower_copy, clamp_int, stoi, int_to_string}
use multi_coder.Json.{Object, get_string, get_int}
use multi_coder.Streams.Commands.{Env, option, build_ffmpeg_input_args}

pub record Mount : Type 0 where
  pub host : Bytes
  pub port : ℤ
  pub mount : Bytes

-- an `int` that stays where `std::stoi` throws
abbrev port_or : ℤ → Option ℤ → ℤ
port_or d none = d
port_or d (some n) = n

mount_at : Option (Bytes × Bytes) → Bytes → Bytes → Mount
mount_at none host_port mount = record { host = host_port; port = pos 8000; mount = mount }
mount_at (some (host, port)) host_port mount = record {
  host = host;
  port = port_or (pos 8000) (stoi port);
  mount = mount;
}

after_scheme : Option ℕ → Bytes → Bytes
after_scheme none url = url
after_scheme (some i) url = drop (i + 3) url

split_mount : Option ℕ → Bytes → Mount
split_mount none rest = mount_at (split_last b':' rest) rest (codes "stream")
split_mount (some i) rest =
    mount_at (split_last b':' (take i rest)) (take i rest) (drop (i + 1) rest)

unfoldable pub parse_icecast_url : Bytes → Mount
unfolding split_mount mount_at split_last after_scheme
parse_icecast_url url =
    let rest = after_scheme (find (codes "://") url) url in split_mount (find_byte b'/' rest) rest

-- `n / 1000`, towards zero
abbrev thousandth : ℤ → ℤ
thousandth (pos n) = pos (n / 1000)
thousandth (negsuc n) = pos 0 -ℤ pos (suc n / 1000)

abbrev sample_rate : Object → ℤ
sample_rate cfg =
    let rate = get_int cfg (codes "sampleRate") (pos 0) in
    if ltb_ℤ (pos 0) rate then rate else pos 0

abbrev kbps : Object → ℕ → ℕ → Bytes
kbps cfg lo hi =
    int_to_string
      (clamp_int (thousandth (get_int cfg (codes "bitrate") (pos 128000))) (pos lo) (pos hi))
    ++ codes "k"

abbrev icecast_uri : Object → Bytes → Bytes
icecast_uri cfg url =
    let m = parse_icecast_url url in
    codes "icecast://"
    ++ (get_string cfg (codes "user") (codes "source")
        ++ (codes ":"
            ++ (get_string cfg (codes "pass") (codes "hackme")
                ++ (codes "@"
                    ++ (m.host
                        ++ (codes ":" ++ (int_to_string m.port ++ (codes "/" ++ m.mount))))))))

abbrev filter_args : Env → List Bytes
filter_args env = option (not (is_empty env.audio_filter)) (codes "-af" ∷ env.audio_filter ∷ [])

abbrev input_args : Env → Object → List Bytes
input_args env rt = (build_ffmpeg_input_args env rt).0

-- `kIcecastFailureTimeoutUs`
abbrev timeout_args : List Bytes
timeout_args = codes "-rw_timeout" ∷ codes "60000000" ∷ codes "-timeout" ∷ codes "60000000" ∷ []

unfoldable pub is_aac_profile_allowed : Bytes → Bool
is_aac_profile_allowed p =
    beq p (codes "aac_low")
    || (beq p (codes "aac_he") || (beq p (codes "aac_he_v2") || beq p (codes "mpeg2_aac_low")))

unfoldable pub aac_command : Env → Object → Option (List Bytes)
unfolding is_aac_profile_allowed
aac_command env rt =
    let cfg = env.files.aac_json in
    let url = get_string cfg (codes "url") [] in
    let rate = sample_rate cfg in
    let advanced =
      beq (lower_copy (trim_copy (get_string cfg (codes "mode") (codes "legacy"))))
        (codes "advanced") in
    let wanted = lower_copy (trim_copy (get_string cfg (codes "profile") (codes "aac_low"))) in
    let profile = if is_aac_profile_allowed wanted then wanted else codes "aac_low" in
    if is_empty url
    then none
    else some (
        codes "ffmpeg"
        ∷ codes "-y"
        ∷ (input_args env rt
            ++ (filter_args env
                ++ (codes "-vn"
                    ∷ codes "-c:a"
                    ∷ codes "aac"
                    ∷ codes "-b:a"
                    ∷ kbps cfg 16 512
                    ∷ (option (advanced && ltb_ℤ (pos 0) rate)
                          (codes "-ar" ∷ int_to_string rate ∷ [])
                        ++ (option advanced (codes "-profile:a" ∷ profile ∷ [])
                            ++ (timeout_args
                                ++ codes "-f"
                                  ∷ codes "adts"
                                  ∷ codes "-content_type"
                                  ∷ codes "audio/aac"
                                  ∷ icecast_uri cfg url
                                  ∷ [])))))))

unfoldable pub mp3_command : Env → Object → Option (List Bytes)
mp3_command env rt =
    let cfg = env.files.mp3_json in
    let url = get_string cfg (codes "url") [] in
    let rate = sample_rate cfg in
    let mode = lower_copy (trim_copy (get_string cfg (codes "mode") (codes "legacy"))) in
    let vbr = beq mode (codes "vbr") in
    let cbr = beq mode (codes "cbr") in
    let quality = clamp_int (get_int cfg (codes "vbrQuality") (pos 4)) (pos 0) (pos 9) in
    if is_empty url
    then none
    else some (
        codes "ffmpeg"
        ∷ codes "-y"
        ∷ (input_args env rt
            ++ (filter_args env
                ++ (codes "-vn"
                    ∷ codes "-c:a"
                    ∷ codes "libmp3lame"
                    ∷ codes "-b:a"
                    ∷ kbps cfg 32 320
                    ∷ (option ((vbr || cbr) && ltb_ℤ (pos 0) rate)
                          (codes "-ar" ∷ int_to_string rate ∷ [])
                        ++ (option vbr (codes "-q:a" ∷ int_to_string quality ∷ [])
                            ++ (timeout_args
                                ++ codes "-f" ∷ codes "mp3" ∷ icecast_uri cfg url ∷ [])))))))

-- A length of key that FFmpeg takes.
abbrev is_pbkeylen : ℤ → Bool
is_pbkeylen (negsuc n) = false
is_pbkeylen (pos n) = n == 16 || (n == 24 || n == 32)

srt_uri : Object → Bytes → ℤ → Bytes → Bytes
srt_uri cfg host port mode =
    let stream_id = trim_copy (get_string cfg (codes "streamId") []) in
    let latency = get_int cfg (codes "latency") (pos 120) in
    let buffer = get_int cfg (codes "buffer") (pos 1024) in
    let passphrase = get_string cfg (codes "passphrase") [] in
    let pbkeylen = get_int cfg (codes "pbkeylen") (pos 16) in
    let key =
      if is_empty passphrase
      then []
      else codes "&passphrase="
        ++ (passphrase
            ++ (if is_pbkeylen pbkeylen
                then codes "&pbkeylen=" ++ int_to_string pbkeylen
                else [])) in
    codes "srt://"
    ++ (host
        ++ (codes ":"
            ++ (int_to_string port
                ++ (codes "?mode="
                    ++ (mode
                        ++ ((if ltb_ℤ (pos 0) latency
                              then codes "&latency=" ++ int_to_string latency
                              else [])
                            ++ ((if ltb_ℤ (pos 0) buffer
                                  then codes "&sndbuf=" ++ int_to_string (buffer *ℤ pos 1024)
                                  else [])
                                ++ ((if is_empty stream_id
                                      then []
                                      else codes "&streamid=" ++ stream_id)
                                    ++ key))))))))

-- The host, the port and the transport are checked in this order. The product of `buffer` is taken
-- not to leave `int`.
unfoldable pub srt_command : Env → Object → Option (List Bytes)
unfolding srt_uri
srt_command env rt =
    let cfg = env.files.srt_json in
    let transport = lower_copy (trim_copy (get_string cfg (codes "transport") (codes "mpeg-ts"))) in
    let given = lower_copy (trim_copy (get_string cfg (codes "mode") (codes "caller"))) in
    let mode = if is_empty given then codes "caller" else given in
    let host = trim_copy (get_string cfg (codes "host") []) in
    let port = get_int cfg (codes "port") (pos 9150) in
    let refused =
      is_empty host
      || (not (ltb_ℤ (pos 0) port)
          || (ltb_ℤ (pos 65535) port
              || not (
                  is_empty transport
                  || (beq transport (codes "mpeg-ts") || beq transport (codes "mpegts"))))) in
    if refused
    then none
    else some (
        codes "ffmpeg"
        ∷ codes "-y"
        ∷ codes "-loglevel"
        ∷ codes "warning"
        ∷ (input_args env rt
            ++ (filter_args env
                ++ codes "-vn"
                  ∷ codes "-c:a"
                  ∷ codes "aac"
                  ∷ codes "-b:a"
                  ∷ codes "128k"
                  ∷ codes "-ac"
                  ∷ codes "2"
                  ∷ codes "-f"
                  ∷ codes "mpegts"
                  ∷ srt_uri cfg host port mode
                  ∷ [])))

abbrev pub positive_or : ℤ → ℤ → ℤ
positive_or d n = if ltb_ℤ (pos 0) n then n else d

-- `std::max(window * 3, window)`, of a positive window
abbrev pub retain_segments : Object → ℤ
retain_segments cfg = positive_or (pos 5) (get_int cfg (codes "window") (pos 5)) *ℤ pos 3

unfoldable pub hls_command : Env → Object → List Bytes
hls_command env rt =
    let cfg = env.files.hls_json in
    let seg_secs = positive_or (pos 5) (get_int cfg (codes "segmentSeconds") (pos 5)) in
    let list_size = positive_or (pos 5) (get_int cfg (codes "window") (pos 5)) in
    let hls_dir = env.cfg_dir ++ codes "/hls" in
    codes "ffmpeg"
    ∷ codes "-y"
    ∷ (input_args env rt
        ++ (filter_args env
            ++ codes "-vn"
              ∷ codes "-c:a"
              ∷ codes "aac"
              ∷ codes "-b:a"
              ∷ codes "128k"
              ∷ codes "-ac"
              ∷ codes "2"
              ∷ codes "-f"
              ∷ codes "segment"
              ∷ codes "-segment_time"
              ∷ int_to_string seg_secs
              ∷ codes "-segment_list_size"
              ∷ int_to_string list_size
              ∷ codes "-segment_list_flags"
              ∷ codes "+live"
              ∷ codes "-segment_list_type"
              ∷ codes "m3u8"
              ∷ codes "-segment_list_entry_prefix"
              ∷ codes "segments/"
              ∷ codes "-segment_format"
              ∷ codes "adts"
              ∷ codes "-segment_list"
              ∷ (hls_dir ++ codes "/index.m3u8")
              ∷ (hls_dir ++ codes "/segments/segment-%d.aac")
              ∷ []))
