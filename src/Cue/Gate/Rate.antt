-- ===== src/Cue/Gate/Rate.antt =====
-- The rate limit over any sequence of cues (src/worker/worker.cpp, `processCueMessage`).
use multi_coder.Prelude.{
  ℕ, ◌+◌, ◌≤◌, Bool, false, List, [], ◌∷◌, ◌++◌, ◌≡◌, refl, sym, ◌∙◌, arith, Bytes, length, leb,
  count_by, count_by-append, Bool-cases, inl, inr,
}
use multi_coder.Prelude.Map.{get}
use multi_coder.Cue.Gate.{
  CueRuntime, Limits, window, drop_old, is_replay, gate, recorded, run, empty,
}

-- At most `w` before `t`.
abbrev pub in_window : ℕ → ℕ → ℕ → Bool
in_window w t s = leb t (s + w)

abbrev pub event_in : ℕ → ℕ → ℕ × Bytes → Bool
event_in w t (s, _) = in_window w t s

-- Whenever a cue got through, at most `rate_count` had in the window that ends there, itself
-- counted.
abbrev pub IsRated : Limits → List (ℕ × Bytes) → Type 0
IsRated l [] = Unit
IsRated l ((t, c) ∷ h) =
    (count_by (event_in (window l) t) ((t, c) ∷ h) ≤ l.rate_count) × IsRated l h

-- The times of the messages do not go back.
abbrev pub Ascends : ℕ → List (ℕ × Bytes) → Type 0
Ascends last [] = Unit
Ascends last ((t, _) ∷ es) = (last ≤ t) × Ascends t es

-- From `last` on, the deque counts what the history counts.
abbrev pub Agrees : Limits → ℕ → List (ℕ × Bytes) → List ℕ → Type 0
Agrees l last h ts =
    (t : ℕ) → last ≤ t → count_by (event_in (window l) t) h ≡ count_by (in_window (window l) t) ts

drop_old_counts :
    (w now t : ℕ) (ts : List ℕ)
    → now ≤ t
    → count_by (in_window w t) (drop_old w now ts) ≡ count_by (in_window w t) ts
unfolding drop_old
drop_old_counts w now t [] h = refl
drop_old_counts w now t (s ∷ ts) h = ground (arith, drop_old_counts w now t ts h)

count_by-le-length : (p : ℕ → Bool) (ts : List ℕ) → count_by p ts ≤ length ts
count_by-le-length p [] = omega arith
count_by-le-length p (s ∷ ts) = ground (arith, count_by-le-length p ts)

record Kept (l : Limits) (now : ℕ) (h : List (ℕ × Bytes)) (rt : CueRuntime) : Type 0 where
  rated : IsRated l h
  agrees : Agrees l now h rt.recent_times

module _ (l : Limits) (last now : ℕ) (cue : Bytes) (h : List (ℕ × Bytes)) (ts : List ℕ)
    (le : last ≤ now) (agrees : Agrees l last h ts) where
  pub kept-Agrees : Agrees l now h (drop_old (window l) now ts)
  kept-Agrees t le' = agrees t (omega arith) ∙ sym (drop_old_counts (window l) now t ts le')

  pub pushed-Agrees : Agrees l now ((now, cue) ∷ h) (drop_old (window l) now ts ++ now ∷ [])
  pushed-Agrees t le' = omega (
    arith,
    kept-Agrees t le',
    count_by-append (in_window (window l) t) (drop_old (window l) now ts) (now ∷ []),
  )

  pushed_rated :
      leb l.rate_count (length (drop_old (window l) now ts)) ≡ false
      → count_by (event_in (window l) now) ((now, cue) ∷ h) ≤ l.rate_count
  pushed_rated e = ground (
    arith,
    kept-Agrees now (omega arith),
    count_by-le-length (in_window (window l) now) (drop_old (window l) now ts),
  )

gate_keeps :
    (l : Limits) (last now : ℕ) (cue : Bytes) (h : List (ℕ × Bytes)) (rt : CueRuntime)
    → last ≤ now
    → Kept l last h rt
    → let (v, rt') = gate l now cue rt in Kept l now (recorded v (now, cue) h) rt'
unfolding gate
gate_keeps l last now cue h rt le k =
    let ts = rt.recent_times in
    elim (Bool-cases (leb l.rate_count (length (drop_old (window l) now ts)))) [
      | inl full ↦
          rw full (record { rated = k.rated; agrees = kept-Agrees l last now cue h ts le k.agrees })
      | inr room ↦ elim (Bool-cases (is_replay l now (get cue rt.by_cue))) [
        | inl again ↦
            rw (room, again)
              (record { rated = k.rated; agrees = kept-Agrees l last now cue h ts le k.agrees })
        | inr fresh ↦
            rw (room, fresh)
              (record {
                rated = (pushed_rated l last now cue h ts le k.agrees room, k.rated);
                agrees = pushed-Agrees l last now cue h ts le k.agrees;
              })
      ]
    ]

run_keeps :
    (l : Limits) (es h : List (ℕ × Bytes)) (last : ℕ) (rt : CueRuntime)
    → Ascends last es
    → Kept l last h rt
    → IsRated l (run l es h rt).0
unfolding run
run_keeps l [] h last rt a k = k.rated
run_keeps l ((now, cue) ∷ es) h last rt a k =
    run_keeps l es _ now _ a.1 (gate_keeps l last now cue h rt a.0 k)

-- Over any sequence of cues whose times do not go back, from an empty runtime, no window of
-- `rate_window_sec` seconds that ends with a cue that got through has more than `rate_count` of
-- those that got through.
pub rate_limit_holds :
    (l : Limits) (es : List (ℕ × Bytes)) → Ascends 0 es → IsRated l (run l es [] empty).0
rate_limit_holds l es a = run_keeps l es [] 0 empty a (record { rated = tt; agrees = λ t le. refl })
