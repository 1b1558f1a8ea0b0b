-- ===== src/Streams/Commands.antt =====
-- The command lines that the streams are started with (src/worker/worker.cpp,
-- `buildFfmpegInputArgs`, `parseIcecastUrl`, and the parts of `startAAC`, `startMP3`, `startHLS`,
-- `startSRT`, `startSRTInputRelay` that read the configuration). `none` is that the configuration
-- is refused. The gain's filter is an argument: its number is a `double`.
use multi_coder.Prelude.{
  ℕ, Bool, false, not, ◌&&◌, List, [], ◌∷◌, ◌++◌, Option, none, some, Bytes, codes, beq, is_empty,
  if◌then◌else◌,
}
use multi_coder.Prelude.Int.{ℤ, pos, ltb_ℤ}
use multi_coder.Strings.{trim_copy, lower_copy, clamp_int, int_to_string}
use multi_coder.Json.{Object, get_string, get_int, get_bool}

-- The configuration files that the operations read.
pub record Files : Type 0 where
  pub aac_json : Object
  pub mp3_json : Object
  pub hls_json : Object
  pub srt_json : Object
  pub encoder_admin_json : Object
  pub input_json : Object
  pub metadata_json : Object

-- What an operation finds outside: the clock, the files, the address of an interface, the gain's
-- filter, and the process that `launchFfmpeg` starts, or null.
pub record Env : Type 0 where
  pub now_s : ℕ
  pub encoder : ℕ
  pub cfg_dir : Bytes
  pub files : Files
  pub resolve_local_ip : Bytes → Bytes
  pub audio_filter : Bytes
  pub launch : Option ℕ

abbrev pub option : Bool → List Bytes → List Bytes
option b args = if b then args else []

-- A session's value, or the configuration's, or the default.
abbrev session_string : Object → Object → Bytes → Bytes → Bytes → Bytes
session_string rt inp session key d = get_string rt session (get_string inp key d)

abbrev session_int : Object → Object → Bytes → Bytes → ℤ → ℤ
session_int rt inp session key d = get_int rt session (get_int inp key d)

abbrev or_caller : Bytes → Bytes
or_caller mode = if beq mode (codes "listener") then mode else codes "caller"

-- The source address that `startSRTInputRelay` and `buildFfmpegInputArgs` build alike.
unfoldable pub srt_source_uri : Object → Object → Bytes
srt_source_uri rt inp =
    let mode = or_caller (
      lower_copy (
        trim_copy
          (session_string rt inp (codes "sessionSrtMode") (codes "srtMode") (codes "caller")))) in
    let port = session_int rt inp (codes "sessionSrtPort") (codes "srtPort") (pos 9250) in
    let host =
      session_string rt inp (codes "sessionSrtHost") (codes "srtHost") (codes "127.0.0.1") in
    let latency = session_int rt inp (codes "sessionSrtLatency") (codes "srtLatency") (pos 120) in
    let stream_id = session_string rt inp (codes "sessionSrtStreamId") (codes "srtStreamId") [] in
    let pbkeylen =
      clamp_int (session_int rt inp (codes "sessionSrtPbkeylen") (codes "srtPbkeylen") (pos 0))
        (pos 0) (pos 32) in
    let pass = session_string rt inp (codes "sessionSrtPass") (codes "srtPass") [] in
    let address = if beq mode (codes "listener") then codes "0.0.0.0" else host in
    codes "srt://"
    ++ (address
        ++ (codes ":"
            ++ (int_to_string port
                ++ (codes "?mode="
                    ++ (mode
                        ++ ((if ltb_ℤ (pos 0) latency
                              then codes "&latency=" ++ int_to_string latency
                              else [])
                            ++ ((if is_empty stream_id then [] else codes "&streamid=" ++ stream_id)
                                ++ ((if ltb_ℤ (pos 0) pbkeylen
                                      then codes "&pbkeylen=" ++ int_to_string pbkeylen
                                      else [])
                                    ++ (if is_empty pass
                                        then []
                                        else codes "&passphrase=" ++ pass)))))))))

-- `buildRtpSdpArgs`, without the file that it writes
abbrev rtp_sdp_args : Env → Bytes → List Bytes
rtp_sdp_args env iface =
    let local_ip = if is_empty iface then [] else env.resolve_local_ip iface in
    codes "-thread_queue_size"
    ∷ codes "8192"
    ∷ codes "-buffer_size"
    ∷ codes "4194304"
    ∷ codes "-reorder_queue_size"
    ∷ codes "1024"
    ∷ codes "-max_delay"
    ∷ codes "1000000"
    ∷ codes "-protocol_whitelist"
    ∷ codes "file,rtp,udp"
    ∷ (option (not (is_empty local_ip)) (codes "-localaddr" ∷ local_ip ∷ [])
        ++ codes "-i" ∷ (env.cfg_dir ++ codes "/input_rtp.sdp") ∷ [])

-- The text of the file: the address, the port, the bits, the rate and the channels.
unfoldable pub sdp_text : Bytes → ℤ → ℤ → ℤ → ℤ → Bytes
sdp_text addr port bit_depth sample_rate channels =
    codes "v=0\r\no=- 0 0 IN IP4 0.0.0.0\r\ns=RTP Input\r\nc=IN IP4 "
    ++ (addr
        ++ (codes "\r\nt=0 0\r\nm=audio "
            ++ (int_to_string port
                ++ (codes " RTP/AVP 96\r\na=rtpmap:96 L"
                    ++ (int_to_string bit_depth
                        ++ (codes "/"
                            ++ (int_to_string sample_rate
                                ++ (codes "/" ++ (int_to_string channels ++ codes "\r\n")))))))))

-- The file that `buildFfmpegInputArgs` writes, for the types of input that have one; the channels,
-- the rate and the bits are those of the type.
sdp_file : Object → Object → Bytes → Bytes
sdp_file rt inp type =
    let addr =
      session_string rt inp (codes "sessionRtpAddress") (codes "rtpAddress")
        (codes "239.192.0.0") in
    let port = session_int rt inp (codes "sessionRtpPort") (codes "rtpPort") (pos 5004) in
    let bits = get_int inp (codes "bitDepth") (pos 24) in
    let rate = session_int rt inp (codes "sessionSampleRate") (codes "sampleRate") (pos 48000) in
    if beq type (codes "rtp")
    then sdp_text addr port bits rate (get_int inp (codes "channels") (pos 2))
    else if beq type (codes "axia")
    then sdp_text addr port bits rate (pos 2)
    else sdp_text addr port bits (pos 48000) (pos 2)

-- The arguments, and the file that is written for them.
unfoldable pub build_ffmpeg_input_args : Env → Object → List Bytes × Option Bytes
unfolding srt_source_uri sdp_file sdp_text
build_ffmpeg_input_args env rt =
    let inp = env.files.input_json in
    let type = session_string rt inp (codes "sessionInputType") (codes "inputType") (codes "rtp") in
    let iface = session_string rt inp (codes "sessionRtpInterface") (codes "rtpInterface") [] in
    let device = session_string rt inp (codes "sessionAudioDevice") (codes "audioDevice") [] in
    let relay_port = get_int rt (codes "srtRelayPort") (pos 0) in
    let relay_addr = get_string rt (codes "srtRelayAddr") (codes "239.255.127.1") in
    if beq type (codes "audio")
    then (
      codes "-f"
          ∷ codes "alsa"
          ∷ codes "-ac"
          ∷ codes "2"
          ∷ codes "-ar"
          ∷ codes "48000"
          ∷ codes "-i"
          ∷ (if is_empty device then codes "default" else device)
          ∷ [],
      none,
    )
    else if beq type (codes "srt")
    then (
      (if get_bool rt (codes "srtRelayActive") false && ltb_ℤ (pos 0) relay_port
          then codes "-f"
            ∷ codes "s16le"
            ∷ codes "-ar"
            ∷ codes "48000"
            ∷ codes "-ac"
            ∷ codes "2"
            ∷ codes "-i"
            ∷ (codes "udp://"
                ++ (relay_addr
                    ++ (codes ":" ++ (int_to_string relay_port ++ codes "?localaddr=127.0.0.1"))))
            ∷ []
          else codes "-re" ∷ codes "-i" ∷ srt_source_uri rt inp ∷ []),
      none,
    )
    else (rtp_sdp_args env iface, some (sdp_file rt inp type))
