-- ===== src/Cue/Gate/Spec.antt =====
-- The gate of the cues against its specification on the whole history (src/worker/worker.cpp,
-- `processCueMessage`).
use multi_coder.Prelude.{
  ℕ, ◌+◌, ◌≤◌, List, [], ◌∷◌, ◌++◌, ◌≡◌, refl, sym, ◌∙◌, ap, arith, Bytes, length, leb, count_by,
  ltb, Bool-cases, inl, inr, if◌then◌else◌,
}
use multi_coder.Prelude.Map.{Map, get, put, get-put}
use multi_coder.Cue.Gate.{
  CueRuntime, Limits, Verdict, accepted, replayed, rate_limited, window, drop_old, is_replay, gate,
  recorded, empty,
}
use multi_coder.Cue.Gate.Rate.{in_window, event_in, Ascends, Agrees, kept-Agrees, pushed-Agrees}
use multi_coder.Cue.Gate.Replay.{latest}

-- What becomes of a cue, by all the cues that got through before.
unfoldable pub verdict_of : Limits → List (ℕ × Bytes) → ℕ → Bytes → Verdict
verdict_of l h now cue =
    if leb l.rate_count (count_by (event_in (window l) now) h)
    then rate_limited
    else if is_replay l now (latest cue h)
    then replayed
    else accepted

-- From `lo` to `hi`, in order.
abbrev pub Climbs : ℕ → List ℕ → ℕ → Type 0
Climbs lo [] hi = lo ≤ hi
Climbs lo (t ∷ ts) hi = (lo ≤ t) × Climbs t ts hi

Climbs-bounds : (lo : ℕ) (ts : List ℕ) (hi : ℕ) → Climbs lo ts hi → lo ≤ hi
Climbs-bounds lo [] hi c = c
Climbs-bounds lo (t ∷ ts) hi c = omega (arith, Climbs-bounds t ts hi c.1)

Climbs-from : (lo t : ℕ) (ts : List ℕ) (hi : ℕ) → lo ≤ t → Climbs t ts hi → Climbs lo ts hi
Climbs-from lo t [] hi le c = omega arith
Climbs-from lo t (s ∷ ts) hi le c = ((omega arith), c.1)

Climbs-to : (lo : ℕ) (ts : List ℕ) (hi top : ℕ) → hi ≤ top → Climbs lo ts hi → Climbs lo ts top
Climbs-to lo [] hi top le c = omega arith
Climbs-to lo (t ∷ ts) hi top le c = (c.0, Climbs-to t ts hi top le c.1)

Climbs-snoc :
    (lo : ℕ) (ts : List ℕ) (hi now : ℕ)
    → hi ≤ now
    → Climbs lo ts hi
    → Climbs lo (ts ++ now ∷ []) now
Climbs-snoc lo [] hi now le c = ((omega arith), omega arith)
Climbs-snoc lo (t ∷ ts) hi now le c = (c.0, Climbs-snoc t ts hi now le c.1)

drop_old-Climbs :
    (w now lo : ℕ) (ts : List ℕ) (hi : ℕ) → Climbs lo ts hi → Climbs lo (drop_old w now ts) hi
unfolding drop_old
drop_old-Climbs w now lo [] hi c = c
drop_old-Climbs w now lo (t ∷ ts) hi c = elim (Bool-cases (ltb (t + w) now)) [
  | inl e ↦ rw e (drop_old-Climbs w now lo ts hi (Climbs-from lo t ts hi c.0 c.1))
  | inr e ↦ rw e c
]

all_in_window :
    (w now lo : ℕ) (ts : List ℕ) (hi : ℕ)
    → now ≤ lo + w
    → Climbs lo ts hi
    → count_by (in_window w now) ts ≡ length ts
all_in_window w now lo [] hi le c = refl
all_in_window w now lo (t ∷ ts) hi le c =
    ground (arith, all_in_window w now t ts hi (omega arith) c.1)

length-drop_old :
    (w now lo : ℕ) (ts : List ℕ) (hi : ℕ)
    → Climbs lo ts hi
    → length (drop_old w now ts) ≡ count_by (in_window w now) ts
unfolding drop_old
length-drop_old w now lo [] hi c = refl
length-drop_old w now lo (t ∷ ts) hi c = elim (Bool-cases (ltb (t + w) now)) [
  | inl e ↦ ground (arith, length-drop_old w now t ts hi c.1)
  | inr e ↦ ground (arith, all_in_window w now t ts hi (ground arith) c.1)
]

-- What a runtime keeps of the history, from `last` on.
pub record Reflects (l : Limits) (last : ℕ) (h : List (ℕ × Bytes)) (ts : List ℕ) (m : Map ℕ)
    : Type 0 where
  pub agrees : Agrees l last h ts
  pub climbs : Climbs 0 ts last
  pub remembers : (c : Bytes) → get c m ≡ latest c h

pub empty-Reflects : (l : Limits) → Reflects l 0 [] [] []
unfolding get
empty-Reflects l = record { agrees = λ t le. refl; climbs = omega arith; remembers = λ c. refl }

module _ (l : Limits) (last now : ℕ) (cue : Bytes) (h : List (ℕ × Bytes)) (ts : List ℕ) (m : Map ℕ)
    (le : last ≤ now) (r : Reflects l last h ts m) where
  pub kept-Reflects : Reflects l now h (drop_old (window l) now ts) m
  kept-Reflects = record {
    agrees = kept-Agrees l last now cue h ts le r.agrees;
    climbs = drop_old-Climbs (window l) now 0 ts now (Climbs-to 0 ts last now le r.climbs);
    remembers = r.remembers;
  }

  pub pushed-Reflects :
      Reflects l now ((now, cue) ∷ h) (drop_old (window l) now ts ++ now ∷ []) (put cue now m)
  pushed-Reflects = record {
    agrees = pushed-Agrees l last now cue h ts le r.agrees;
    climbs =
        Climbs-snoc 0 (drop_old (window l) now ts) now now (omega arith) (kept-Reflects).climbs;
    remembers = λ c. rw (get-put c cue now m) (rw (r.remembers c));
  }

  pub counted : length (drop_old (window l) now ts) ≡ count_by (event_in (window l) now) h
  counted = length-drop_old (window l) now 0 ts last r.climbs ∙ sym (r.agrees now le)

ReflectsIn : Limits → ℕ → List (ℕ × Bytes) → CueRuntime → Type 0
ReflectsIn l last h rt = Reflects l last h rt.recent_times rt.by_cue

-- One cue: the verdict is the specification's, and the runtime reflects the history after it.
gate_refines :
    (l : Limits) (last now : ℕ) (cue : Bytes) (h : List (ℕ × Bytes)) (rt : CueRuntime)
    → last ≤ now
    → ReflectsIn l last h rt
    → let (v, rt') = gate l now cue rt in
      (v ≡ verdict_of l h now cue) × ReflectsIn l now (recorded v (now, cue) h) rt'
unfolding gate verdict_of ReflectsIn
gate_refines l last now cue h rt le r =
    let ts = rt.recent_times in
    let kept = kept-Reflects l last now cue h ts rt.by_cue le r in
    rw (counted l last now cue h ts rt.by_cue le r, r.remembers cue)
      (elim (Bool-cases (leb l.rate_count (count_by (event_in (window l) now) h))) [
        | inl full ↦ rw (full, verdict_of) (refl, kept)
        | inr room ↦ elim (Bool-cases (is_replay l now (latest cue h))) [
          | inl again ↦ rw (room, again, verdict_of) (refl, kept)
          | inr fresh ↦
              rw (room, fresh, verdict_of)
                (refl, pushed-Reflects l last now cue h ts rt.by_cue le r)
        ]
      ])

-- The verdicts of a sequence of cues.
unfoldable pub verdicts : Limits → List (ℕ × Bytes) → CueRuntime → List Verdict
verdicts l [] rt = []
verdicts l ((now, cue) ∷ es) rt = let (v, rt') = gate l now cue rt in v ∷ verdicts l es rt'

-- The same by the history alone.
unfoldable pub verdicts_of : Limits → List (ℕ × Bytes) → List (ℕ × Bytes) → List Verdict
verdicts_of l h [] = []
verdicts_of l h ((now, cue) ∷ es) =
    let v = verdict_of l h now cue in v ∷ verdicts_of l (recorded v (now, cue) h) es

verdicts_refine :
    (l : Limits) (es h : List (ℕ × Bytes)) (last : ℕ) (rt : CueRuntime)
    → Ascends last es
    → ReflectsIn l last h rt
    → verdicts l es rt ≡ verdicts_of l h es
unfolding verdicts verdicts_of
verdicts_refine l [] h last rt a r = refl
verdicts_refine l ((now, cue) ∷ es) h last rt a r =
    let (same, r') = gate_refines l last now cue h rt a.0 r in
    rw (sym same) (ap (λ vs. (gate l now cue rt).0 ∷ vs) (verdicts_refine l es _ now _ a.1 r'))

-- Over any sequence of cues whose times do not go back, from an empty runtime, the deque and the
-- map give each cue the verdict that the full list of the cues that got through gives: too many
-- in its window, else the same text too short ago, else accepted.
pub gate-refines-history :
    (l : Limits) (es : List (ℕ × Bytes)) → Ascends 0 es → verdicts l es empty ≡ verdicts_of l [] es
unfolding ReflectsIn
gate-refines-history l es a = verdicts_refine l es [] 0 empty a (empty-Reflects l)
