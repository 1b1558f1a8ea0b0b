-- ===== src/Supervisor/CueRoute/Race.antt =====
-- Two requests with cues at once (src/supervisor/supervisor_api.cpp, the two blocks of the route
-- `cue` that hold `g_cueStateMutex`): each request checks in the first and records in the second.
use multi_coder.Prelude.{
  ℕ, ◌+◌, ◌*◌, ◌≤◌, ◌<◌, List, [], ◌∷◌, ◌≡◌, ◌≢◌, refl, arith, Bytes, length, leb, Option, none,
  some, false, beq_refl, Bool-cases, inl, inr,
}
use multi_coder.Prelude.Map.{get, get-put}
use multi_coder.Cue.Gate.{Limits, window, drop_old, is_replay, accepted}
use multi_coder.Supervisor.Host.{CueRuntimeState}
use multi_coder.Supervisor.CueRoute.Handle.{gate, remember}

length-drop_old : (w now : ℕ) (ts : List ℕ) → length (drop_old w now ts) ≤ length ts
unfolding drop_old
length-drop_old w now [] = omega arith
length-drop_old w now (t ∷ ts) = ground (arith, length-drop_old w now ts)

replay_fades :
    (l : Limits) (now later : ℕ) (o : Option ℕ)
    → now ≤ later
    → is_replay l now o ≡ false
    → is_replay l later o ≡ false
unfolding is_replay
replay_fades l now later none le e = refl
replay_fades l now later (some t) le e = ground arith

again_refused :
    (l : Limits) (now later : ℕ)
    → now ≤ later
    → later < now + l.dedupe_sec * 1000
    → is_replay l later (some now) ≢ false
unfolding is_replay
again_refused l now later le lt e = ground arith

-- What an accepted cue met.
accepted_facts :
    (l : Limits) (now : ℕ) (cue : Bytes) (cs : CueRuntimeState)
    → (gate l now cue cs).0 ≡ accepted
    → (leb l.rate_count (length (drop_old (window l) now cs.recent_cue_times_ms)) ≡ false)
      × (is_replay l now (get cue cs.last_by_match) ≡ false)
unfolding gate
accepted_facts l now cue cs e =
    elim (Bool-cases (leb l.rate_count (length (drop_old (window l) now cs.recent_cue_times_ms)))) [
      | inl full ↦ ground (arith, rw full at e)
      | inr room ↦ elim (Bool-cases (is_replay l now (get cue cs.last_by_match))) [
        | inl again ↦ ground (arith, rw (room, again) at e)
        | inr fresh ↦ (room, fresh)
      ]
    ]

second_accepted :
    (l : Limits) (now later : ℕ) (cue : Bytes) (cs : CueRuntimeState)
    → now ≤ later
    → (gate l now cue cs).0 ≡ accepted
    → (gate l later cue (gate l now cue cs).1).0 ≡ accepted
unfolding gate
second_accepted l now later cue cs le e =
    let (room, fresh) = accepted_facts l now cue cs e in
    let kept = drop_old (window l) now cs.recent_cue_times_ms in
    let room' : leb l.rate_count (length (drop_old (window l) later kept)) ≡ false =
      ground (arith, length-drop_old (window l) later kept) in
    let fresh' = replay_fades l now later (get cue cs.last_by_match) le fresh in
    rw (room, fresh) (rw (room', fresh') refl)

recorded_refused :
    (l : Limits) (now later : ℕ) (cue : Bytes) (cs : CueRuntimeState)
    → now ≤ later
    → later < now + l.dedupe_sec * 1000
    → (gate l later cue (remember now cue cs)).0 ≢ accepted
unfolding remember
recorded_refused l now later cue cs le lt e =
    let fresh = (accepted_facts l later cue (remember now cue cs) e).1 in
    again_refused l now later le lt
      (rw (get-put cue cue now cs.last_by_match, beq_refl cue) at fresh)

-- Where two requests carry the same cue and the second passes the first block before the first
-- has reached the second block, both are accepted, however close they are. Were the cue recorded
-- where it is checked, the second would not be while less than `dedupe_sec` seconds have gone by.
pub check_before_record_passes :
    (l : Limits) (now later : ℕ) (cue : Bytes) (cs : CueRuntimeState)
    → now ≤ later
    → later < now + l.dedupe_sec * 1000
    → (gate l now cue cs).0 ≡ accepted
    → ((gate l later cue (gate l now cue cs).1).0 ≡ accepted)
      × ((gate l later cue (remember now cue (gate l now cue cs).1)).0 ≢ accepted)
check_before_record_passes l now later cue cs le lt e =
    (second_accepted l now later cue cs le e, recorded_refused l now later cue _ le lt)
