-- ===== src/Supervisor/CueRoute/Sends.antt =====
-- The commands that a cue behind the checks sends (src/supervisor/supervisor_api.cpp,
-- the route `cue` of `handleReq`).
use multi_coder.Prelude.{
  ℕ, Bool, true, false, List, [], ◌∷◌, ◌≡◌, ◌≢◌, ◌⊎◌, inl, inr, refl, ap, ◌∙◌, arith, Bytes, codes,
  is_empty, Bool-cases, Option-cases, if◌then◌else◌,
}
use multi_coder.Json.{Object, get_raw_value}
use multi_coder.Cue.Rows.{rows_or_default, find_matched_action}
use multi_coder.Cue.Gate.{Limits, Verdict, rate_limited, replayed, accepted}
use multi_coder.Supervisor.Host.{
  Host, World, Effect, encoder_log, sys_log, command, launched, metadata_runtime_path,
  read_json_file, write_json, atomic_write_text_file, write_metadata_runtime_field,
  send_worker_control_command,
}
use multi_coder.Supervisor.Cues.{parse_cue_command_rows}
use multi_coder.Supervisor.CueRoute.{set_cue_state}
use multi_coder.Supervisor.CueRoute.Handle.{
  gate, deliver, act, gated, through_gate, send_on, sending, outcome, Sending, sent, not_emitted,
  send_failed, emits_command, is_sent,
}

-- The commands among the effects, the newest first.
abbrev pub sent_commands : List Effect → List (ℕ × Bytes)
sent_commands [] = []
sent_commands (command enc cmd ∷ es) = (enc, cmd) ∷ sent_commands es
sent_commands (encoder_log enc m ∷ es) = sent_commands es
sent_commands (sys_log enc m ∷ es) = sent_commands es
sent_commands (launched enc ∷ es) = sent_commands es

effects-write_json :
    (w : World) (path : Bytes) (o : Object) (h : Host) → (write_json w path o h).effects ≡ h.effects
unfolding write_json atomic_write_text_file
effects-write_json w path o h = elim (Option-cases (w.write_error path)) [
  | inl e ↦ rw (e, write_json, atomic_write_text_file) refl
  | inr (err, e) ↦ rw (e, write_json, atomic_write_text_file) refl
]

effects-write_field :
    (w : World) (enc : ℕ) (key value : Bytes) (h : Host)
    → (write_metadata_runtime_field w enc key value h).effects ≡ h.effects
unfolding write_metadata_runtime_field
effects-write_field w enc key value h = effects-write_json w (metadata_runtime_path enc) _ h

abbrev pub IsSilent : Host → Host → Type 0
IsSilent h h' = sent_commands h'.effects ≡ sent_commands h.effects

-- One command more has been sent.
abbrev pub Sends : ℕ → Bytes → Host → Host → Type 0
Sends enc action h h' = sent_commands h'.effects ≡ (enc, action) ∷ sent_commands h.effects

pub write_json-IsSilent :
    (w : World) (path : Bytes) (o : Object) (h : Host) → IsSilent h (write_json w path o h)
write_json-IsSilent w path o h = ap sent_commands (effects-write_json w path o h)

pub write_field-IsSilent :
    (w : World) (enc : ℕ) (key value : Bytes) (h : Host)
    → IsSilent h (write_metadata_runtime_field w enc key value h)
write_field-IsSilent w enc key value h = ap sent_commands (effects-write_field w enc key value h)

send_on_sends :
    (w : World) (enc : ℕ) (emit : Bool) (action : Bytes) (h : Host)
    → IsSilent h (send_on w enc emit action h).1
      ⊎ ((emit ≡ true) × Sends enc action h (send_on w enc emit action h).1)
unfolding send_on send_worker_control_command
send_on_sends w enc false action h = inl refl
send_on_sends w enc true action h = elim (Option-cases (w.worker h.effects enc action h.files).0) [
  | inl e ↦ inr (refl, rw (e, sending) refl)
  | inr (err, e) ↦ inr (refl, rw (e, sending) refl)
]

outcome-IsSilent :
    (w : World) (enc : ℕ) (cue action : Bytes) (s : Sending) (rt : Object) (h : Host)
    → IsSilent h (outcome w enc cue action s (rt, h)).1
unfolding outcome
outcome-IsSilent w enc cue action sent rt h = refl
outcome-IsSilent w enc cue action not_emitted rt h = refl
outcome-IsSilent w enc cue action (send_failed err) rt h = refl

module _ (w : World) (enc : ℕ) (scte : Object) where
  -- All that follows the sending is silent.
  deliver-IsSilent :
      (cue action : Bytes) (rt : Object) (h : Host)
      → IsSilent
          (send_on w enc (emits_command scte) action h).1
          (deliver w enc scte cue action rt h).1
  unfolding deliver set_cue_state
  deliver-IsSilent cue action rt h =
      let (s, h1) = send_on w enc (emits_command scte) action h in
      let rt' = if is_sent s then read_json_file h1 (metadata_runtime_path enc) else rt in
      write_json-IsSilent w _ _ _ ∙ outcome-IsSilent w enc cue action s rt' h1

  deliver_sends :
      (cue action : Bytes) (rt : Object) (h : Host)
      → IsSilent h (deliver w enc scte cue action rt h).1
        ⊎ ((emits_command scte ≡ true) × Sends enc action h (deliver w enc scte cue action rt h).1)
  deliver_sends cue action rt h =
      let after = deliver-IsSilent cue action rt h in
      elim (send_on_sends w enc (emits_command scte) action h) [
        | inl silent ↦ inl (after ∙ silent)
        | inr (emit, sends) ↦ inr (emit, after ∙ sends)
      ]

  abbrev pub action_of : Bytes → Bytes
  action_of cue = find_matched_action cue (
      rows_or_default
        (parse_cue_command_rows (get_raw_value scte (codes "commandRows") (codes "[]"))))

  -- Why a command has been sent, and that it has.
  abbrev pub Acts : Bytes → Host → Host → Type 0
  Acts cue h h' =
      (emits_command scte ≡ true) × (action_of cue ≢ []) × Sends enc (action_of cue) h h'

  act_sends :
      (client_ip cue : Bytes) (h : Host)
      → IsSilent h (act w enc scte client_ip cue h).1
        ⊎ Acts cue h (act w enc scte client_ip cue h).1
  unfolding act
  act_sends client_ip cue h = elim (Bool-cases (is_empty (action_of cue))) [
    | inl e ↦ inl (rw e (write_json-IsSilent w _ _ _))
    | inr e ↦ elim (deliver_sends cue (action_of cue) _ _) [
      | inl silent ↦ inl (rw e silent)
      | inr (emit, sends) ↦ inr (emit, (ground arith), rw e sends)
    ]
  ]

  gated_sends :
      (client_ip cue : Bytes) (v : Verdict) (h : Host)
      → IsSilent h (gated w enc scte client_ip cue (v, h)).1
        ⊎ ((v ≡ accepted) × Acts cue h (gated w enc scte client_ip cue (v, h)).1)
  unfolding gated
  gated_sends client_ip cue rate_limited h = inl (write_field-IsSilent w enc _ _ _)
  gated_sends client_ip cue replayed h = inl (write_field-IsSilent w enc _ _ _)
  gated_sends client_ip cue accepted h = elim (act_sends client_ip cue h) [
    | inl silent ↦ inl silent
    | inr acts ↦ inr (refl, acts)
  ]

  pub through_gate_sends :
      (l : Limits) (client_ip cue : Bytes) (h : Host)
      → IsSilent h (through_gate w enc l scte client_ip cue h).1
        ⊎ (((gate l w.now_ms cue (h.cue_states enc)).0 ≡ accepted)
            × Acts cue h (through_gate w enc l scte client_ip cue h).1)
  unfolding through_gate set_cue_state
  through_gate_sends l client_ip cue h =
      gated_sends client_ip cue (gate l w.now_ms cue (h.cue_states enc)).0 _
