-- ===== src/Cue/Gate.antt =====
-- Rate limit and replay protection of cues (src/worker/worker.cpp, `CueRuntime` and the block of
-- `processCueMessage` that holds `s_cueMutex`). Times are milliseconds since the epoch.
pub mod Rate
pub mod Replay
pub mod Spec
use multi_coder.Prelude.{
  ℕ, ◌+◌, ◌*◌, Bool, true, false, ◌&&◌, List, [], ◌∷◌, ◌++◌, Option, none, some, Bytes, length, ltb,
  leb, if◌then◌else◌,
}
use multi_coder.Prelude.Map.{Map, get, put}

-- `CueRuntime`: a deque and an `unordered_map`
pub record CueRuntime : Type 0 where
  pub recent_times : List ℕ
  pub by_cue : Map ℕ

-- The limits, after `clampInt`.
pub record Limits : Type 0 where
  pub rate_count : ℕ
  pub rate_window_sec : ℕ
  pub dedupe_sec : ℕ

abbrev pub window : Limits → ℕ
window l = l.rate_window_sec * 1000

-- The loop that drops from the front while `front < nowMs - window`; the sum on the other side
-- says the same of signed numbers.
unfoldable pub drop_old : ℕ → ℕ → List ℕ → List ℕ
drop_old w now [] = []
drop_old w now (t ∷ ts) = let rest = drop_old w now ts in if ltb (t + w) now then rest else t ∷ ts

pub data Verdict : Type 0 where
  rate_limited replayed accepted : Verdict

-- `it != end() && dedupeSec > 0 && nowMs - it->second < dedupeSec * 1000`
unfoldable pub is_replay : Limits → ℕ → Option ℕ → Bool
is_replay l now none = false
is_replay l now (some t) = ltb 0 l.dedupe_sec && ltb now (t + l.dedupe_sec * 1000)

unfoldable pub gate : Limits → ℕ → Bytes → CueRuntime → Verdict × CueRuntime
unfolding is_replay
gate l now cue rt =
    let recent = drop_old (window l) now rt.recent_times in
    let kept = record rt { recent_times = recent } in
    if leb l.rate_count (length recent)
    then (rate_limited, kept)
    else if is_replay l now (get cue rt.by_cue)
    then (replayed, kept)
    else (accepted, record { recent_times = recent ++ now ∷ []; by_cue = put cue now rt.by_cue })

abbrev pub empty : CueRuntime
empty = record { recent_times = []; by_cue = [] }

abbrev recorded : Verdict → ℕ × Bytes → List (ℕ × Bytes) → List (ℕ × Bytes)
recorded accepted e h = e ∷ h
recorded rate_limited e h = h
recorded replayed e h = h

-- The cues that a sequence of messages gets through, the newest first, from a history of those
-- before.
unfoldable pub run :
    Limits → List (ℕ × Bytes) → List (ℕ × Bytes) → CueRuntime → List (ℕ × Bytes) × CueRuntime
run l [] h rt = (h, rt)
run l ((now, cue) ∷ es) h rt =
    let (v, rt') = gate l now cue rt in run l es (recorded v (now, cue) h) rt'
