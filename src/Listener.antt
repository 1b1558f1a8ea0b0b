-- ===== src/Listener.antt =====
-- The metadata listener (src/worker/worker.cpp, `listenMetaPort`): what is done with a payload
-- (`emitMetadata`), and which settings end a connection (`sourceConfigChangeReason`).
pub mod Socket
use multi_coder.Prelude.{
  ℕ, ◌-◌, ◌*◌, ◌+◌, Bool, true, false, not, ◌&&◌, List, [], ◌∷◌, ◌++◌, Option, none, some, Bytes,
  codes, beq, is_empty, length, to_string, if◌then◌else◌,
}
use multi_coder.Prelude.Int.{ℤ, pos, ◌+ℤ◌}
use multi_coder.Strings.{trim_copy, lower_copy, single_line, clamp_int, int_to_string}
use multi_coder.Strings.Lines.{concat}
use multi_coder.Json.{Object, get_string, get_int, get_bool, get_sub_object, set_string, set_int}
use multi_coder.Playlist.{FileCalls, Injection, inject_hls_metadata_into_playlist}
use multi_coder.Dispatch.{Dispatch, log_line, sys_line, emit, enqueue_icecast_metadata_update}
use multi_coder.Formatting.Ext.{Doubles}
use multi_coder.Formatting.Hls.{compact}
use multi_coder.Formatting.Stream.{formatted_metadata_for_stream}

-- The configuration files, as they are read for a payload.
pub record Settings : Type 0 where
  pub aac : Object
  pub mp3 : Object
  pub hls : Object
  pub srt : Object
  pub metadata : Object

pub record Running : Type 0 where
  pub aac_running : Bool
  pub mp3_running : Bool
  pub hls_running : Bool
  pub srt_running : Bool

-- What the worker has of a payload: `meta_current.xml`, `m_hlsLastMetaPayload`, the playlist, the
-- runtime file of the metadata, and the queue with the log.
pub record MetaState : Type 0 where
  pub cache : Bytes
  pub hls_last_meta_payload : Bytes
  pub playlist : Option Bytes
  pub runtime : Object
  pub dispatch : Dispatch

-- The clock, and what the calls on the file system give, at one payload.
pub record Moment (D : Type 0) : Type 0 where
  pub now_secs : D
  pub timestamp : Bytes
  pub cache_written : Bool
  pub files : FileCalls

pub record Formatted : Type 0 where
  pub aac : Bytes
  pub mp3 : Bytes
  pub hls : Bytes
  pub srt : Bytes

log : Bytes → MetaState → MetaState
log line st = record st { dispatch = emit st.dispatch (log_line line ∷ []) }

log_both : Bytes → MetaState → MetaState
log_both line st = record st { dispatch = emit st.dispatch (log_line line ∷ sys_line line ∷ []) }

-- The playlist behind the injection, and the line in the log.
injected : Object → Injection → MetaState → MetaState
unfolding log
injected hls_cfg i st =
    let scope =
      get_string (get_sub_object hls_cfg (codes "metaParser")) (codes "scope") (codes "current") in
    log
      (elim i.err [
        | none ↦ concat (codes "HLS playlist metadata injected (scope=" ∷ scope ∷ codes ")" ∷ [])
        | some err ↦ codes "HLS playlist metadata injection skipped: " ++ err
      ])
      (record st { playlist = i.playlist })

inject : FileCalls → Object → Bytes → MetaState → MetaState
unfolding injected
inject files hls_cfg payload st =
    injected hls_cfg (inject_hls_metadata_into_playlist files hls_cfg payload st.playlist) st

-- The mutation of the runtime file.
unfoldable pub record_payload : Bytes → Bytes → Formatted → Object → Object
record_payload timestamp snippet f o0 =
    let o1 = set_int o0 (codes "eventCount") (get_int o0 (codes "eventCount") (pos 0) +ℤ pos 1) in
    let o2 = set_string o1 (codes "lastPayloadUtc") timestamp in
    let o3 = set_string o2 (codes "lastRawXml") snippet in
    let o4 = set_string o3 (codes "lastFormattedAAC") f.aac in
    let o5 = set_string o4 (codes "lastFormattedMP3") f.mp3 in
    let o6 = set_string o5 (codes "lastFormattedHLS") f.hls in
    set_string o6 (codes "lastFormattedSRT") f.srt

-- The update of one Icecast stream, where it runs, has its metadata on and has an address.
unfoldable pub offer_update : Bool → Bytes → Object → Bytes → ℤ → Dispatch → Dispatch
offer_update running tag cfg payload capacity d =
    let url = get_string cfg (codes "url") [] in
    if running && get_bool cfg (codes "metaEnabled") true && not (is_empty url)
    then enqueue_icecast_metadata_update d tag url (get_string cfg (codes "user") (codes "source"))
        (get_string cfg (codes "pass") []) payload capacity
    else d

sent_line : Bytes → Bool → Bytes → Bytes
sent_line tag running text = concat (
    codes "META_SENT["
    ∷ tag
    ∷ codes "]["
    ∷ (if running then codes "RUNNING" else codes "STOPPED")
    ∷ codes "]: "
    ∷ (if running then text else codes "not emitted (stream stopped)")
    ∷ [])

log_sent : Running → Formatted → MetaState → MetaState
unfolding log_both sent_line
log_sent r f st = log_both (sent_line (codes "SRT") r.srt_running f.srt) (
    log_both (sent_line (codes "HLS") r.hls_running f.hls) (
      log_both (sent_line (codes "MP3") r.mp3_running f.mp3)
        (log_both (sent_line (codes "AAC") r.aac_running f.aac) st)))

module _ {D : Type 0} (d : Doubles D) where
  unfoldable pub format_all : D → Settings → Bytes → Formatted
  format_all now cfg xml = record {
    aac = formatted_metadata_for_stream d now (codes "AAC") xml cfg.aac;
    mp3 = formatted_metadata_for_stream d now (codes "MP3") xml cfg.mp3;
    hls = formatted_metadata_for_stream d now (codes "HLS") xml cfg.hls;
    srt = formatted_metadata_for_stream d now (codes "SRT") xml cfg.srt;
  }

  received : Bytes → MetaState → MetaState
  unfolding log log_both
  received xml st = log_both (codes "META_RAW: " ++ single_line xml) (
      log (concat (codes "Metadata received (" ∷ to_string (length xml) ∷ codes " bytes)" ∷ [])) st)

  -- What is done with a payload that is not empty.
  handle_payload : Moment D → Settings → Running → Bytes → MetaState → MetaState
  unfolding received inject log_sent
  handle_payload m cfg r xml st =
      let f = format_all m.now_secs cfg xml in
      let st1 = received xml st in
      let st2 = record st1 {
        cache = if m.cache_written then xml else st1.cache;
        hls_last_meta_payload = f.hls;
      } in
      let st3 = if r.hls_running then inject m.files cfg.hls f.hls st2 else st2 in
      let capacity =
        clamp_int (get_int cfg.metadata (codes "dispatchQueueCapacity") (pos 64)) (pos 1)
          (pos 1024) in
      let offered =
        offer_update r.mp3_running (codes "MP3") cfg.mp3 f.mp3 capacity
          (offer_update r.aac_running (codes "AAC") cfg.aac f.aac capacity st3.dispatch) in
      log_sent r f (record st3 {
        runtime = record_payload m.timestamp (compact 500 xml) f st3.runtime;
        dispatch = offered;
      })

  unfoldable pub emit_metadata : Moment D → Settings → Running → Bytes → MetaState → MetaState
  unfolding handle_payload
  emit_metadata m cfg r xml st = if is_empty xml then st else handle_payload m cfg r xml st

-- `m_idx` is 1 or more.
abbrev default_listen_port : ℕ → ℤ
default_listen_port idx = pos (9000 + (idx - 1) * 10)
