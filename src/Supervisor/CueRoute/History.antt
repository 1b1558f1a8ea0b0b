-- ===== src/Supervisor/CueRoute/History.antt =====
-- The supervisor's gate against its specification on the whole history
-- (src/supervisor/supervisor_api.cpp, the route `cue` of `handleReq`).
use multi_coder.Prelude.{
  ℕ, ◌≤◌, List, [], ◌∷◌, ◌≡◌, refl, Bytes, leb, count_by, is_empty, not, Bool, Bool-cases, inl, inr,
  if◌then◌else◌, sym,
}
use multi_coder.Json.{Object}
use multi_coder.Cue.Gate.{Limits, Verdict, rate_limited, replayed, accepted, window, is_replay}
use multi_coder.Cue.Gate.Rate.{event_in, Ascends}
use multi_coder.Cue.Gate.Replay.{latest}
use multi_coder.Cue.Gate.Spec.{
  verdict_of, Reflects, kept-Reflects, pushed-Reflects, empty-Reflects, counted,
}
use multi_coder.Supervisor.Host.{Host, World, CueRuntimeState}
use multi_coder.Supervisor.CueRoute.Handle.{gate, remember, through_gate}
use multi_coder.Supervisor.CueRoute.Sends.{action_of}
use multi_coder.Supervisor.CueRoute.States.{after_gate, state-through_gate}

-- Only an accepted cue is recorded, and only one with an action.
abbrev recorded_if : Bool → Verdict → ℕ × Bytes → List (ℕ × Bytes) → List (ℕ × Bytes)
recorded_if has_action accepted e h = if has_action then e ∷ h else h
recorded_if has_action rate_limited e h = h
recorded_if has_action replayed e h = h

-- Requests of one encoder that come to the gate at the times given, one after the other.
unfoldable pub run_cues : World → ℕ → Limits → Object → Bytes → List (ℕ × Bytes) → Host → Host
run_cues w enc l scte client_ip [] h = h
run_cues w enc l scte client_ip ((now, cue) ∷ es) h =
    run_cues w enc l scte client_ip es
      (through_gate (record w { now_ms = now }) enc l scte client_ip cue h).1

-- The cues with an action that got through, by the specification, the newest first.
unfoldable pub history_of :
    Limits → (Bytes → Bool) → List (ℕ × Bytes) → List (ℕ × Bytes) → List (ℕ × Bytes)
history_of l has_action h [] = h
history_of l has_action h ((now, cue) ∷ es) =
    history_of l has_action (recorded_if (has_action cue) (verdict_of l h now cue) (now, cue) h) es

module _ (l : Limits) where
  abbrev ReflectsIn : ℕ → List (ℕ × Bytes) → CueRuntimeState → Type 0
  ReflectsIn last h cs = Reflects l last h cs.recent_cue_times_ms cs.last_by_match

  gate_refines :
      (last now : ℕ) (cue : Bytes) (h : List (ℕ × Bytes)) (cs : CueRuntimeState)
      → last ≤ now
      → ReflectsIn last h cs
      → ((gate l now cue cs).0 ≡ verdict_of l h now cue)
        × ReflectsIn now h (gate l now cue cs).1
        × ReflectsIn now ((now, cue) ∷ h) (remember now cue (gate l now cue cs).1)
  unfolding gate remember verdict_of
  gate_refines last now cue h cs le r =
      let ts = cs.recent_cue_times_ms in
      let m = cs.last_by_match in
      let kept = kept-Reflects l last now cue h ts m le r in
      let pushed = pushed-Reflects l last now cue h ts m le r in
      rw (counted l last now cue h ts m le r, r.remembers cue)
        (elim (Bool-cases (leb l.rate_count (count_by (event_in (window l) now) h))) [
          | inl full ↦ rw (full, verdict_of) (refl, kept, pushed)
          | inr room ↦ elim (Bool-cases (is_replay l now (latest cue h))) [
            | inl again ↦ rw (room, again, verdict_of) (refl, kept, pushed)
            | inr fresh ↦ rw (room, fresh, verdict_of) (refl, kept, pushed)
          ]
        ])

abbrev pub last_time : ℕ → List (ℕ × Bytes) → ℕ
last_time last [] = last
last_time last ((now, _) ∷ es) = last_time now es

abbrev pub fresh_state : CueRuntimeState
fresh_state = record { recent_cue_times_ms = []; last_by_match = [] }

module _ (w : World) (enc : ℕ) (l : Limits) (scte : Object) (client_ip : Bytes) where
  abbrev pub has_action : Bytes → Bool
  has_action cue = not (is_empty (action_of w enc scte cue))

  after-ReflectsIn :
      (now : ℕ) (cue : Bytes) (v : Verdict) (h : List (ℕ × Bytes)) (cs : CueRuntimeState)
      → ReflectsIn l now h cs
      → ReflectsIn l now ((now, cue) ∷ h) (remember now cue cs)
      → ReflectsIn l now
          (recorded_if (has_action cue) v (now, cue) h)
          (after_gate (record w { now_ms = now }) enc scte cue v cs)
  after-ReflectsIn now cue rate_limited h cs kept pushed = kept
  after-ReflectsIn now cue replayed h cs kept pushed = kept
  after-ReflectsIn now cue accepted h cs kept pushed =
      elim (Bool-cases (is_empty (action_of w enc scte cue))) [
        | inl e ↦ rw e kept
        | inr e ↦ rw e pushed
      ]

  run-ReflectsIn :
      (es h : List (ℕ × Bytes)) (last : ℕ) (host : Host)
      → Ascends last es
      → ReflectsIn l last h (host.cue_states enc)
      → ReflectsIn l
          (last_time last es)
          (history_of l has_action h es)
          ((run_cues w enc l scte client_ip es host).cue_states enc)
  unfolding run_cues history_of
  run-ReflectsIn [] h last host a r = r
  run-ReflectsIn ((now, cue) ∷ es) h last host a r =
      let (same, kept, pushed) = gate_refines l last now cue h (host.cue_states enc) a.0 r in
      let v = (gate l now cue (host.cue_states enc)).0 in
      let at_now = record w { now_ms = now } in
      let state = state-through_gate at_now enc scte l client_ip cue host in
      let after = after-ReflectsIn now cue v h _ kept pushed in
      run-ReflectsIn es _ now _ a.1 (rw (sym same) (rw state after))

  -- For an encoder that had no cue before, after any sequence of requests whose cues reach the gate
  -- at times that do not go back, the gate gives the next cue, not earlier than these, the verdict
  -- that the full list of the cues gives that got through and had an action.
  pub cue_gate-refines-history :
      (es : List (ℕ × Bytes)) (host : Host) (now : ℕ) (cue : Bytes)
      → Ascends 0 es
      → host.cue_states enc ≡ fresh_state
      → last_time 0 es ≤ now
      → (gate l now cue ((run_cues w enc l scte client_ip es host).cue_states enc)).0
        ≡ verdict_of l (history_of l has_action [] es) now cue
  cue_gate-refines-history es host now cue a e le =
      let start : ReflectsIn l 0 [] (host.cue_states enc) = rw e (empty-Reflects l) in
      (gate_refines l (last_time 0 es) now cue _ _ le (run-ReflectsIn es [] 0 host a start)).0
