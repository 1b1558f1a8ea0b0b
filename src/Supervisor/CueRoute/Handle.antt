-- ===== src/Supervisor/CueRoute/Handle.antt =====
-- How a cue is taken, refused or sent on (src/supervisor/supervisor_api.cpp, the route `cue` of
-- `handleReq`).
use multi_coder.Prelude.{
  ℕ, Bool, true, false, not, ◌||◌, [], ◌∷◌, ◌++◌, Option, none, some, Bytes, codes, beq, is_empty,
  length, leb, if◌then◌else◌,
}
use multi_coder.Prelude.Map.{get, put}
use multi_coder.Strings.{lower_copy}
use multi_coder.Strings.Lines.{concat}
use multi_coder.Json.{Object, get_string, get_raw_value, get_sub_object, set_string}
use multi_coder.Cue.Rows.{rows_or_default, find_matched_action}
use multi_coder.Cue.Gate.{Limits, window, drop_old, is_replay}
use multi_coder.Supervisor.Http.{Response, parse_header, parse_body}
use multi_coder.Supervisor.Host.{
  Host, World, CueRuntimeState, encoder_file, system_path, metadata_runtime_path, read_json_file,
  append_encoder_log, append_logs, write_json, write_metadata_runtime_field,
  send_worker_control_command,
}
use multi_coder.Supervisor.Text.{json, bool_text, error_body, json_escape, or_text}
use multi_coder.Supervisor.Cues.{parse_cue_command_rows}
use multi_coder.Cue.Gate.{Verdict, rate_limited, replayed, accepted}
use multi_coder.Supervisor.CueRoute.{
  listen_error, source_allowed, limits_of, read_cue, reject_reason, set_cue_state,
}

-- The block that holds `g_cueStateMutex` before the cue is sent.
unfoldable pub gate : Limits → ℕ → Bytes → CueRuntimeState → Verdict × CueRuntimeState
unfolding drop_old is_replay
gate l now cue cs =
    let kept = record cs { recent_cue_times_ms = drop_old (window l) now cs.recent_cue_times_ms } in
    if leb l.rate_count (length kept.recent_cue_times_ms)
    then (rate_limited, kept)
    else if is_replay l now (get cue cs.last_by_match)
    then (replayed, kept)
    else (accepted, kept)

-- The block behind it.
unfoldable pub remember : ℕ → Bytes → CueRuntimeState → CueRuntimeState
remember now cue cs = record {
  recent_cue_times_ms = cs.recent_cue_times_ms ++ now ∷ [];
  last_by_match = put cue now cs.last_by_match;
}

-- What became of the command.
pub data Sending : Type 0 where
  not_emitted sent : Sending
  send_failed : Bytes → Sending

abbrev pub is_sent : Sending → Bool
is_sent sent = true
is_sent not_emitted = false
is_sent (send_failed err) = false

unfoldable pub emits_command : Object → Bool
emits_command scte =
    let mode = lower_copy (get_string scte (codes "passthroughMode") (codes "pass-through")) in
    beq mode (codes "pass-through")
    || beq mode (codes "generate-from-cues")
    || beq mode (codes "generate from cues")

module _ (w : World) where
  unfoldable pub refuse : ℕ → Bytes → Bytes → Host → Response × Host
  refuse enc reason cue h = (
    json 400 (error_body reason),
    write_metadata_runtime_field w enc (codes "lastScteRejected")
        (concat (reason ∷ codes " | payload=" ∷ cue ∷ []))
        (append_logs enc (codes "SCTE cue rejected: " ++ reason) h),
  )

  unfoldable pub sending : Option Bytes × Host → Sending × Host
  sending (none, h) = (sent, h)
  sending (some err, h) = (send_failed err, h)

  unfoldable pub send_on : ℕ → Bool → Bytes → Host → Sending × Host
  unfolding sending
  send_on enc emit action h =
      if emit then sending (send_worker_control_command w enc action h) else (not_emitted, h)

  -- The logs of the outcome, and the member of the runtime file that tells it.
  unfoldable pub outcome : ℕ → Bytes → Bytes → Sending → Object × Host → Object × Host
  outcome enc cue action sent (rt, h) = (
    set_string rt (codes "lastScteSent") action,
    append_logs enc
        (concat (codes "SCTE cue matched and sent: " ∷ cue ∷ codes " -> " ∷ action ∷ [])) h,
  )
  outcome enc cue action not_emitted (rt, h) = (
    set_string rt (codes "lastScteRejected") (codes "passthrough-off | matched=" ++ action),
    append_logs enc
        (concat
          (codes "SCTE cue matched but passthrough is OFF: " ∷ cue ∷ codes " -> " ∷ action ∷ []))
        h,
  )
  outcome enc cue action (send_failed err) (rt, h) = (
    set_string rt (codes "lastScteRejected") (codes "send-failed | action=" ++ action),
    append_logs enc
        (concat (
          codes "SCTE cue matched but send failed: "
          ∷ cue
          ∷ codes " -> "
          ∷ action
          ∷ codes " ("
          ∷ err
          ∷ codes ")"
          ∷ []))
        h,
  )

  unfoldable pub deliver : ℕ → Object → Bytes → Bytes → Object → Host → Response × Host
  unfolding send_on outcome remember set_cue_state
  deliver enc scte cue action rt h =
      let (s, h1) = send_on enc (emits_command scte) action h in
      let rt' = if is_sent s then read_json_file h1 (metadata_runtime_path enc) else rt in
      let (rt2, h2) = outcome enc cue action s (rt', h1) in
      let h3 = set_cue_state enc (remember w.now_ms cue (h2.cue_states enc)) h2 in
      (
        json 200 (
            concat (
              codes "{\"ok\":true,\"matched\":true,\"command\":\""
              ∷ json_escape action
              ∷ codes "\",\"sent\":"
              ∷ bool_text (is_sent s)
              ∷ codes "}"
              ∷ [])),
        write_json w (metadata_runtime_path enc) rt2 h3,
      )

  unfoldable pub act : ℕ → Object → Bytes → Bytes → Host → Response × Host
  unfolding deliver
  act enc scte client_ip cue h =
      let rows =
        rows_or_default
          (parse_cue_command_rows (get_raw_value scte (codes "commandRows") (codes "[]"))) in
      let action = find_matched_action cue rows in
      let h1 =
        append_logs enc
          (concat (
            codes "SCTE cue received: "
            ∷ cue
            ∷ codes " source="
            ∷ or_text client_ip (codes "unknown")
            ∷ []))
          h in
      let rt =
        set_string (read_json_file h1 (metadata_runtime_path enc)) (codes "lastScteReceived") cue in
      if is_empty action
      then (
        json 200 (codes "{\"ok\":true,\"matched\":false,\"message\":\"No Matching Command\"}"),
        write_json w (metadata_runtime_path enc)
            (set_string rt (codes "lastScteRejected") (codes "no-match | payload=" ++ cue))
            (append_logs enc
              (concat (codes "SCTE cue rejected: No Matching Command for '" ∷ cue ∷ codes "'" ∷ []))
              h1),
      )
      else deliver enc scte cue action rt h1

  unfoldable pub gated : ℕ → Object → Bytes → Bytes → Verdict × Host → Response × Host
  unfolding refuse act
  gated enc scte client_ip cue (rate_limited, h) = (
    json 429 (error_body (codes "Rate limit exceeded")),
    write_metadata_runtime_field w enc (codes "lastScteRejected")
        (codes "rate-limit | payload=" ++ cue)
        (append_logs enc (codes "SCTE cue rejected: rate limit exceeded") h),
  )
  gated enc scte client_ip cue (replayed, h) = (
    json 200 (codes "{\"ok\":true,\"deduped\":true}"),
    write_metadata_runtime_field w enc (codes "lastScteRejected") (codes "dedupe | payload=" ++ cue)
        (append_logs enc (codes "SCTE cue deduped/replay-rejected: " ++ cue) h),
  )
  gated enc scte client_ip cue (accepted, h) = act enc scte client_ip cue h

  unfoldable pub through_gate : ℕ → Limits → Object → Bytes → Bytes → Host → Response × Host
  unfolding gated gate set_cue_state
  through_gate enc l scte client_ip cue h =
      let (v, cs) = gate l w.now_ms cue (h.cue_states enc) in
      gated enc scte client_ip cue (v, set_cue_state enc cs h)

  module _ (inet_pton : Bytes → Option ℕ) where
    -- What follows once the listener is on.
    unfoldable pub listening : ℕ → Object → Object → Bytes → Bytes → Host → Response × Host
    unfolding refuse through_gate source_allowed limits_of read_cue reject_reason
    listening enc sys scte raw client_ip h =
        let ip = or_text client_ip (codes "unknown") in
        let content_type = lower_copy (parse_header raw (codes "Content-Type")) in
        let auth_token = parse_header raw (codes "X-Cue-Token") in
        let f = read_cue scte (parse_body raw) in
        let reason = reject_reason scte content_type auth_token f in
        if not (source_allowed inet_pton scte client_ip)
        then (
          json 403 (error_body (codes "Source not allowlisted")),
          write_metadata_runtime_field w enc (codes "lastScteRejected") (codes "allowlist:" ++ ip) (
              append_encoder_log enc
                (codes "SCTE cue rejected: source not allowlisted: "
                  ++ or_text client_ip (codes "(unknown)"))
                h),
        )
        else if not (is_empty reason)
        then refuse enc reason f.cue h
        else through_gate enc (limits_of sys scte) scte client_ip f.cue h

    unfoldable pub cue_route : ℕ → Bytes → Bytes → Host → Response × Host
    unfolding listening listen_error
    cue_route enc raw client_ip h =
        let sys = read_json_file h system_path in
        let cfg = read_json_file h (encoder_file enc (codes "metadata.json")) in
        let scte = get_sub_object cfg (codes "scte") in
        elim (listen_error sys scte) [
          | some (err, log) ↦ (
            json 403 (error_body err),
            append_encoder_log enc (codes "SCTE cue rejected: " ++ log) h,
          )
          | none ↦ listening enc sys scte raw client_ip h
        ]
