-- ===== src/Supervisor/CueRoute/States.antt =====
-- What a cue leaves behind for the gate
-- (src/supervisor/supervisor_api.cpp, the route `cue` of `handleReq`).
use multi_coder.Prelude.{
  ℕ, ◌≡◌, refl, arith, Bytes, is_empty, Bool, true, false, Option, none, some, Bool-cases,
  Option-cases, inl, inr, if◌then◌else◌, ap, ◌∙◌,
}
use multi_coder.Json.{Object}
use multi_coder.Cue.Gate.{Limits, Verdict, rate_limited, replayed, accepted}
use multi_coder.Supervisor.Host.{
  Host, World, CueRuntimeState, metadata_runtime_path, read_json_file, write_json,
  atomic_write_text_file, write_metadata_runtime_field, send_worker_control_command,
}
use multi_coder.Supervisor.CueRoute.{set_cue_state}
use multi_coder.Supervisor.CueRoute.Handle.{
  gate, remember, Sending, sent, not_emitted, send_failed, is_sent, emits_command, sending, send_on,
  outcome, deliver, act, gated, through_gate,
}
use multi_coder.Supervisor.CueRoute.Sends.{action_of}

states-write_json :
    (w : World) (path : Bytes) (o : Object) (h : Host)
    → (write_json w path o h).cue_states ≡ h.cue_states
unfolding write_json atomic_write_text_file
states-write_json w path o h = elim (Option-cases (w.write_error path)) [
  | inl e ↦ rw (e, write_json, atomic_write_text_file) refl
  | inr (err, e) ↦ rw (e, write_json, atomic_write_text_file) refl
]

states-write_field :
    (w : World) (enc : ℕ) (key value : Bytes) (h : Host)
    → (write_metadata_runtime_field w enc key value h).cue_states ≡ h.cue_states
unfolding write_metadata_runtime_field
states-write_field w enc key value h = states-write_json w (metadata_runtime_path enc) _ h

states-sending :
    (w : World) (r : Option Bytes) (h : Host) → (sending w (r, h)).1.cue_states ≡ h.cue_states
unfolding sending
states-sending w none h = refl
states-sending w (some err) h = refl

states-send_on :
    (w : World) (enc : ℕ) (emit : Bool) (action : Bytes) (h : Host)
    → (send_on w enc emit action h).1.cue_states ≡ h.cue_states
unfolding send_on send_worker_control_command
states-send_on w enc false action h = refl
states-send_on w enc true action h = states-sending w _ _

states-outcome :
    (w : World) (enc : ℕ) (cue action : Bytes) (s : Sending) (rt : Object) (h : Host)
    → (outcome w enc cue action s (rt, h)).1.cue_states ≡ h.cue_states
unfolding outcome
states-outcome w enc cue action sent rt h = refl
states-outcome w enc cue action not_emitted rt h = refl
states-outcome w enc cue action (send_failed err) rt h = refl

state-set :
    (enc : ℕ) (cs : CueRuntimeState) (h : Host) → (set_cue_state enc cs h).cue_states enc ≡ cs
unfolding set_cue_state
state-set enc cs h = ground arith

module _ (w : World) (enc : ℕ) (scte : Object) where
  state-deliver :
      (cue action : Bytes) (rt : Object) (h : Host)
      → (deliver w enc scte cue action rt h).1.cue_states enc
        ≡ remember w.now_ms cue (h.cue_states enc)
  unfolding deliver
  state-deliver cue action rt h =
      let (s, h1) = send_on w enc (emits_command scte) action h in
      let rt' = if is_sent s then read_json_file h1 (metadata_runtime_path enc) else rt in
      let h2 = (outcome w enc cue action s (rt', h1)).1 in
      let same =
        states-outcome w enc cue action s rt' h1
        ∙ states-send_on w enc (emits_command scte) action h in
      ap (λ f. f enc) (states-write_json w (metadata_runtime_path enc) _ _)
      ∙ state-set enc (remember w.now_ms cue (h2.cue_states enc)) h2
      ∙ ap (λ f. remember w.now_ms cue (f enc)) same

  -- Only a cue with an action is recorded.
  abbrev after_act : Bytes → CueRuntimeState → CueRuntimeState
  after_act cue cs = if is_empty (action_of w enc scte cue) then cs else remember w.now_ms cue cs

  state-act :
      (client_ip cue : Bytes) (h : Host)
      → (act w enc scte client_ip cue h).1.cue_states enc ≡ after_act cue (h.cue_states enc)
  unfolding act
  state-act client_ip cue h = elim (Bool-cases (is_empty (action_of w enc scte cue))) [
    | inl e ↦ rw e (ap (λ f. f enc) (states-write_json w (metadata_runtime_path enc) _ _))
    | inr e ↦ rw e (state-deliver cue _ _ _)
  ]

  abbrev pub after_gate : Bytes → Verdict → CueRuntimeState → CueRuntimeState
  after_gate cue accepted cs = after_act cue cs
  after_gate cue rate_limited cs = cs
  after_gate cue replayed cs = cs

  state-gated :
      (client_ip cue : Bytes) (v : Verdict) (h : Host)
      → (gated w enc scte client_ip cue (v, h)).1.cue_states enc
        ≡ after_gate cue v (h.cue_states enc)
  unfolding gated
  state-gated client_ip cue accepted h = state-act client_ip cue h
  state-gated client_ip cue rate_limited h = ap (λ f. f enc) (states-write_field w enc _ _ _)
  state-gated client_ip cue replayed h = ap (λ f. f enc) (states-write_field w enc _ _ _)

  pub state-through_gate :
      (l : Limits) (client_ip cue : Bytes) (h : Host)
      → (through_gate w enc l scte client_ip cue h).1.cue_states enc
        ≡ (let (v, cs) = gate l w.now_ms cue (h.cue_states enc) in after_gate cue v cs)
  unfolding through_gate
  state-through_gate l client_ip cue h =
      let (v, cs) = gate l w.now_ms cue (h.cue_states enc) in
      state-gated client_ip cue v (set_cue_state enc cs h)
      ∙ ap (after_gate cue v) (state-set enc cs h)
