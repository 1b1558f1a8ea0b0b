-- ===== src/Cue/Handler/Checks.antt =====
-- What a cue has to pass before the worker acts on it (src/worker/worker.cpp,
-- `processCueMessage`).
use multi_coder.Prelude.{
  ℕ, ◌≤◌, Bool, [], true, false, ◌&&◌, ◌≡◌, ◌≢◌, ◌⊎◌, inl, inr, refl, arith, Option, Bytes, codes,
  beq_iff, is_empty, Bool-cases,
}
use multi_coder.Prelude.Int.{ℤ, pos, pos_part}
use multi_coder.Strings.{trim_copy, clamp_int}
use multi_coder.Json.{Object, get_string, get_bool, get_raw_value}
use multi_coder.Net.{is_allowlisted}
use multi_coder.Cue.Rows.{json_array_strings}
use multi_coder.Cue.Gate.{Limits, CueRuntime, Verdict, rate_limited, replayed, accepted, gate}
use multi_coder.Cue.Handler.{
  Fields, CueState, delivery_allowed, token_refused, limits_of, gated, check_cue, reject,
  write_scte_runtime, process_cue_message, read_fields,
}

-- The limits that the gate works with are in their ranges, whatever the two files say.
pub record AreLimits (l : Limits) : Type 0 where
  pub rate_low : 1 ≤ l.rate_count
  pub rate_high : l.rate_count ≤ 10000
  pub window_low : 1 ≤ l.rate_window_sec
  pub window_high : l.rate_window_sec ≤ 3600
  pub dedupe_high : l.dedupe_sec ≤ 86400

clamp_bounds :
    (v : ℤ) (lo hi : ℕ)
    → lo ≤ hi
    → (lo ≤ pos_part (clamp_int v (pos lo) (pos hi)))
      × (pos_part (clamp_int v (pos lo) (pos hi)) ≤ hi)
unfolding clamp_int
clamp_bounds v lo hi h = ground arith

-- Whatever numbers the two configurations hold, the rate limit is 1 to 10000 cues in 1 to 3600
-- seconds, and the replay gap is at most 86400 seconds.
pub limits_of-AreLimits : (scte sys : Object) → AreLimits (limits_of scte sys)
unfolding limits_of
limits_of-AreLimits scte sys = record {
  rate_low = (clamp_bounds _ 1 10000 (omega arith)).0;
  rate_high = (clamp_bounds _ 1 10000 (omega arith)).1;
  window_low = (clamp_bounds _ 1 3600 (omega arith)).0;
  window_high = (clamp_bounds _ 1 3600 (omega arith)).1;
  dedupe_high = (clamp_bounds _ 0 86400 (omega arith)).1;
}

module _ {S : Type 0} (inet_pton : Bytes → Option ℕ)
    (execute_control_command : Bytes → Bytes → Bytes → S → Bool × S) where
  -- All that stands between a cue and the worker.
  pub record IsAuthorised (scte sys : Object) (now : ℕ) (peer_ip : Bytes) (f : Fields)
      (rt : CueRuntime) : Type 0 where
    pub delivery : delivery_allowed scte f ≡ true
    pub has_cue : f.cue_value ≢ []
    pub has_event_id : get_bool scte (codes "requireEventId") false ≡ true → f.event_id ≢ []
    pub has_token :
        get_bool scte (codes "requireToken") false ≡ true
        → (f.token ≡ trim_copy (get_string scte (codes "token") [])) × (f.token ≢ [])
    pub listed :
        is_allowlisted inet_pton trim_copy peer_ip
          (get_bool scte (codes "whitelistEnabled") false)
          (json_array_strings (get_raw_value scte (codes "whitelistEntries") (codes "[]")))
        ≡ true
    pub in_rate : (gate (limits_of scte sys) now f.cue_value rt).0 ≡ accepted

  token_checked :
      (scte : Object) (f : Fields)
      → token_refused scte f ≡ false
      → (f.token ≡ trim_copy (get_string scte (codes "token") [])) × (f.token ≢ [])
  unfolding token_refused
  token_checked scte f h =
      ground (arith, beq_iff f.token (trim_copy (get_string scte (codes "token") [])))

  gated_worker :
      (scte : Object) (f : Fields) (st : CueState S) (v : Verdict) (rt : CueRuntime)
      → ((gated inet_pton execute_control_command scte f st (v, rt)).worker ≡ st.worker)
        ⊎ (v ≡ accepted)
  unfolding gated reject write_scte_runtime
  gated_worker scte f st rate_limited rt = inl refl
  gated_worker scte f st replayed rt = inl refl
  gated_worker scte f st accepted rt = inr refl

  check_cue_safe :
      (scte sys : Object) (now : ℕ) (peer_ip : Bytes) (f : Fields) (st : CueState S)
      → ((check_cue inet_pton execute_control_command scte sys now peer_ip f st).worker ≡ st.worker)
        ⊎ IsAuthorised scte sys now peer_ip f st.gate_runtime
  unfolding check_cue
  check_cue_safe scte sys now peer_ip f st =
      let verdict = gate (limits_of scte sys) now f.cue_value st.gate_runtime in
      let allowed =
        is_allowlisted inet_pton trim_copy peer_ip (get_bool scte (codes "whitelistEnabled") false)
          (json_array_strings (get_raw_value scte (codes "whitelistEntries") (codes "[]"))) in
      let need_id = get_bool scte (codes "requireEventId") false in
      let need_token = get_bool scte (codes "requireToken") false in
      elim (Bool-cases (delivery_allowed scte f)) [
        | inr e ↦ inl (rw e refl)
        | inl d ↦ elim (Bool-cases (is_empty f.cue_value)) [
          | inl e ↦ inl (rw (d, e) refl)
          | inr c ↦ elim (Bool-cases (need_id && is_empty f.event_id)) [
            | inl e ↦ inl (rw (d, c, e) refl)
            | inr i ↦ elim (Bool-cases (need_token && token_refused scte f)) [
              | inl e ↦ inl (rw (d, c, i, e) refl)
              | inr t ↦ elim (Bool-cases allowed) [
                | inr e ↦ inl (rw (d, c, i, t, e) refl)
                | inl a ↦ elim (gated_worker scte f st verdict.0 verdict.1) [
                  | inl same ↦ inl (rw (d, c, i, t, a) same)
                  | inr r ↦ inr (record {
                    delivery = d;
                    has_cue = ground arith;
                    has_event_id = λ n. ground arith;
                    has_token = λ n. token_checked scte f (ground arith);
                    listed = a;
                    in_rate = r;
                  })
                ]
              ]
            ]
          ]
        ]
      ]

  -- A message leaves the worker as it is, or it passed every check: its kind of delivery, the
  -- cue, event id and token where they are required, the allowlist, rate limit and replay check.
  pub process_cue_safe :
      (scte sys : Object) (now : ℕ) (peer_ip msg : Bytes) (st : CueState S)
      → ((process_cue_message inet_pton execute_control_command scte sys now peer_ip msg st).worker
          ≡ st.worker)
        ⊎ IsAuthorised scte sys now peer_ip (read_fields scte msg) st.gate_runtime
  unfolding process_cue_message
  process_cue_safe scte sys now peer_ip msg st =
      check_cue_safe scte sys now peer_ip (read_fields scte msg) st
