-- ===== src/Streams/Sidecar.antt =====
-- The sidecar's events (src/worker/worker.cpp, `emitScteSidecarEvent`, `sidecarIdRecentlySent`,
-- `jsonEscapeCompact`).
pub mod Dedupe
use multi_coder.Prelude.{
  ℕ, zero, suc, ◌+◌, ◌*◌, Bool, true, false, not, ◌&&◌, ◌||◌, List, [], ◌∷◌, ◌++◌, Option, none,
  some, Bytes, codes, beq, is_empty, leb, ltb, to_string, ◌==◌, if◌then◌else◌,
}
use multi_coder.Prelude.Int.{ℤ, pos, pos_part, ltb_ℤ}
use multi_coder.Prelude.Map.{Map, get, put}
use multi_coder.Strings.{trim_copy, lower_copy, clamp_int}
use multi_coder.Json.{Object, get_string, get_int, get_bool, get_sub_object}
use multi_coder.Dispatch.{Task, scte_sidecar, Dispatch, enqueue_async_task}

-- The pass that erases the entries before the cutoff.
unfoldable pub prune : ℕ → ℕ → Map ℕ → Map ℕ
prune gap now [] = []
prune gap now ((k, t) ∷ m) =
    let rest = prune gap now m in if ltb (t + gap) now then rest else (k, t) ∷ rest

unfoldable pub seen_since : ℕ → ℕ → Option ℕ → Bool
seen_since gap now none = false
seen_since gap now (some t) = leb now (t + gap)

-- `g_sidecarRecentIds` maps a key to when it was sent; `dedupeSec` is not negative here.
unfoldable pub sidecar_id_recently_sent : ℕ → Bytes → ℕ → Map ℕ → Bool × Map ℕ
unfolding prune seen_since
sidecar_id_recently_sent now key dedupe_sec ids =
    let gap = dedupe_sec * 1000 in
    let kept = prune gap now ids in
    if is_empty key || dedupe_sec == 0
    then (false, ids)
    else if seen_since gap now (get key kept)
    then (true, kept)
    else (false, put key now kept)

escape_compact_byte : ℕ → Bytes
escape_compact_byte c =
    if c == b'"'
    then b'\\' ∷ b'"' ∷ []
    else if c == b'\\'
    then b'\\' ∷ b'\\' ∷ []
    else if c == 10 || (c == 13 || c == 9)
    then 32 ∷ []
    else c ∷ []

unfoldable pub json_escape_compact : Bytes → Bytes
unfolding escape_compact_byte
json_escape_compact [] = []
json_escape_compact (c ∷ s) = escape_compact_byte c ++ json_escape_compact s

abbrev text_member : Bytes → Bytes → Bytes → Bytes
text_member name v rest =
    codes "\"" ++ (name ++ (codes "\":\"" ++ (json_escape_compact v ++ (codes "\"," ++ rest))))

unfoldable pub sidecar_payload : Bytes → Bytes → Bytes → Bytes → Bytes → ℕ → Bytes
unfolding json_escape_compact
sidecar_payload event_id timestamp action cue source encoder =
    codes "{"
    ++ text_member (codes "eventId") event_id (
        text_member (codes "timestamp") timestamp (
          text_member (codes "action") action (
            text_member (codes "cue") cue (
              text_member (codes "source") source
                (codes "\"encoderId\":" ++ (to_string encoder ++ codes "}"))))))

-- An event, with the encoder's number and the clock's readings.
pub record Event : Type 0 where
  pub action : Bytes
  pub event_id : Bytes
  pub cue_value : Bytes
  pub source : Bytes
  pub encoder : ℕ
  pub now_ms : ℕ
  pub timestamp : Bytes

abbrev pub resolved_event_id : ℕ → ℕ → Bytes → Bytes
resolved_event_id encoder now_ms event_id =
    let id = trim_copy event_id in
    if is_empty id
    then codes "enc" ++ (to_string encoder ++ (codes "-" ++ to_string now_ms))
    else id

abbrev pub idempotency_key_of : Event → Bytes
idempotency_key_of e =
    codes "enc="
    ++ (to_string e.encoder
        ++ (codes "|event="
            ++ (resolved_event_id e.encoder e.now_ms e.event_id ++ (codes "|action=" ++ e.action))))

-- The tests in front of the deduplication, on `sidecar` of srt.json.
unfoldable pub sidecar_wanted : Object → Bool → Bool
sidecar_wanted sidecar primary_available =
    let url = trim_copy (get_string sidecar (codes "url") []) in
    let mode = lower_copy (trim_copy (get_string sidecar (codes "mode") (codes "mirror"))) in
    let transport =
      lower_copy (trim_copy (get_string sidecar (codes "transport") (codes "http-json"))) in
    get_bool sidecar (codes "enabled") false
    && (not (is_empty url)
        && (not (beq mode (codes "fallback") && primary_available)
            && beq transport (codes "http-json")))

abbrev event_task : Object → Event → Task
event_task sidecar e = record {
  kind = scte_sidecar;
  stream_tag = [];
  url = trim_copy (get_string sidecar (codes "url") []);
  user = [];
  pass = [];
  payload =
      sidecar_payload (resolved_event_id e.encoder e.now_ms e.event_id) e.timestamp e.action
        e.cue_value e.source e.encoder;
  idempotency_key = idempotency_key_of e;
  action = e.action;
  retries = pos_part (clamp_int (get_int sidecar (codes "retries") (pos 3)) (pos 0) (pos 20));
}

queue_sidecar : Object → Event → Bool × Map ℕ → Dispatch → Map ℕ × Dispatch
queue_sidecar sidecar e (true, ids) d = (ids, d)
queue_sidecar sidecar e (false, ids) d =
    let capacity =
      clamp_int (get_int sidecar (codes "queueCapacity") (pos 16)) (pos 1) (pos 1024) in
    (ids, enqueue_async_task d (event_task sidecar e) capacity)

unfoldable pub emit_scte_sidecar_event :
    Object → Object → Event → Bool → Map ℕ → Dispatch → Map ℕ × Dispatch
unfolding queue_sidecar sidecar_wanted sidecar_id_recently_sent
emit_scte_sidecar_event srt_cfg meta_cfg e primary_available ids d =
    let sidecar = get_sub_object srt_cfg (codes "sidecar") in
    let scte = get_sub_object meta_cfg (codes "scte") in
    let dedupe = pos_part (get_int scte (codes "dedupeSeconds") (pos 30)) in
    let key = idempotency_key_of e in
    if sidecar_wanted sidecar primary_available
    then queue_sidecar sidecar e (sidecar_id_recently_sent e.now_ms key dedupe ids) d
    else (ids, d)
