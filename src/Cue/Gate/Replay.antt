-- ===== src/Cue/Gate/Replay.antt =====
-- Replay protection over any sequence of cues (src/worker/worker.cpp, `processCueMessage`).
use multi_coder.Prelude.{
  ℕ, ◌+◌, ◌*◌, ◌≤◌, ◌<◌, false, List, [], ◌∷◌, ◌≡◌, refl, arith, Bytes, beq, length, leb,
  Bool-cases, inl, inr, Option, some, none, if◌then◌else◌,
}
use multi_coder.Prelude.Map.{get, get-put}
use multi_coder.Cue.Gate.{
  CueRuntime, Limits, window, drop_old, is_replay, gate, recorded, run, empty,
}

-- When the cue last got through.
abbrev pub latest : Bytes → List (ℕ × Bytes) → Option ℕ
latest c [] = none
latest c ((t, d) ∷ h) = if beq d c then some t else latest c h

abbrev pub LaterBy : ℕ → ℕ → Option ℕ → Type 0
LaterBy gap t none = Unit
LaterBy gap t (some s) = s + gap ≤ t

-- Each cue that got through came at least `dedupe_sec` seconds after the last one with its text.
abbrev pub IsSpaced : Limits → List (ℕ × Bytes) → Type 0
IsSpaced l [] = Unit
IsSpaced l ((t, c) ∷ h) = LaterBy (l.dedupe_sec * 1000) t (latest c h) × IsSpaced l h

record Kept (l : Limits) (h : List (ℕ × Bytes)) (rt : CueRuntime) : Type 0 where
  spaced : IsSpaced l h
  remembers : (c : Bytes) → get c rt.by_cue ≡ latest c h

spaced_by :
    (l : Limits) (now : ℕ) (o : Option ℕ)
    → 0 < l.dedupe_sec
    → is_replay l now o ≡ false
    → LaterBy (l.dedupe_sec * 1000) now o
unfolding is_replay
spaced_by l now none d h = tt
spaced_by l now (some t) d h = ground arith

gate_keeps :
    (l : Limits) (now : ℕ) (cue : Bytes) (h : List (ℕ × Bytes)) (rt : CueRuntime)
    → 0 < l.dedupe_sec
    → Kept l h rt
    → let (v, rt') = gate l now cue rt in Kept l (recorded v (now, cue) h) rt'
unfolding gate
gate_keeps l now cue h rt d k =
    let ts = rt.recent_times in
    elim (Bool-cases (leb l.rate_count (length (drop_old (window l) now ts)))) [
      | inl full ↦ rw full (record { spaced = k.spaced; remembers = k.remembers })
      | inr room ↦ elim (Bool-cases (is_replay l now (get cue rt.by_cue))) [
        | inl again ↦ rw (room, again) (record { spaced = k.spaced; remembers = k.remembers })
        | inr fresh ↦
            rw (room, fresh)
              (record {
                spaced =
                    (spaced_by l now (latest cue h) d (rw (k.remembers cue) at fresh), k.spaced);
                remembers = λ c. rw (get-put c cue now rt.by_cue) (rw (k.remembers c));
              })
      ]
    ]

run_keeps :
    (l : Limits) (es h : List (ℕ × Bytes)) (rt : CueRuntime)
    → 0 < l.dedupe_sec
    → Kept l h rt
    → IsSpaced l (run l es h rt).0
unfolding run
run_keeps l [] h rt d k = k.spaced
run_keeps l ((now, cue) ∷ es) h rt d k = run_keeps l es _ _ d (gate_keeps l now cue h rt d k)

-- With a positive `dedupe_sec`, over any sequence of cues from an empty runtime, a cue gets through
-- only `dedupe_sec` seconds or more after the last time that the same text got through.
pub replay_protection_holds :
    (l : Limits) (es : List (ℕ × Bytes)) → 0 < l.dedupe_sec → IsSpaced l (run l es [] empty).0
replay_protection_holds l es d =
    run_keeps l es [] empty d (record { spaced = tt; remembers = λ c. unfold get in refl })
