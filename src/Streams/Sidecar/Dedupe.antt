-- ===== src/Streams/Sidecar/Dedupe.antt =====
-- The deduplication of sidecar events over any sequence of them (src/worker/worker.cpp,
-- `sidecarIdRecentlySent`).
use multi_coder.Prelude.{
  ℕ, ◌+◌, ◌*◌, ◌≤◌, ◌<◌, Bool, true, false, List, [], ◌∷◌, ◌≡◌, ◌⊎◌, inl, inr, refl, arith, Bytes,
  beq, is_empty, Option, some, none, Bool-cases, ◌==◌, ◌||◌, if◌then◌else◌,
}
use multi_coder.Prelude.Map.{Map, get, get-put}
use multi_coder.Streams.Sidecar.{prune, seen_since, sidecar_id_recently_sent}

-- When the key was last let through.
abbrev pub last_sent : Bytes → List (ℕ × Bytes) → Option ℕ
last_sent c [] = none
last_sent c ((t, d) ∷ h) = if beq d c then some t else last_sent c h

abbrev sent_if : Bool → ℕ × Bytes → List (ℕ × Bytes) → List (ℕ × Bytes)
sent_if true e h = h
sent_if false e h = e ∷ h

-- The keys that a sequence of calls lets through, the newest first.
unfoldable pub run_sends : ℕ → List (ℕ × Bytes) → List (ℕ × Bytes) → Map ℕ → List (ℕ × Bytes)
unfolding sidecar_id_recently_sent
run_sends sec [] h ids = h
run_sends sec ((now, key) ∷ es) h ids =
    let (seen, ids') = sidecar_id_recently_sent now key sec ids in
    run_sends sec es (sent_if seen (now, key) h) ids'

-- The times do not go back, and no key is empty.
abbrev pub AreKeyed : ℕ → List (ℕ × Bytes) → Type 0
AreKeyed last [] = Unit
AreKeyed last ((t, key) ∷ es) = (last ≤ t) × (is_empty key ≡ false) × AreKeyed t es

abbrev pub MoreThan : ℕ → ℕ → Option ℕ → Type 0
MoreThan gap t none = Unit
MoreThan gap t (some s) = s + gap < t

-- Each key that was let through came more than `gap` behind the last time that it was.
abbrev pub AreApart : ℕ → List (ℕ × Bytes) → Type 0
AreApart gap [] = Unit
AreApart gap ((t, c) ∷ h) = MoreThan gap t (last_sent c h) × AreApart gap h

-- What was let through is in the map, or too long ago.
record Remembers (gap now : ℕ) (h : List (ℕ × Bytes)) (ids : Map ℕ) : Type 0 where
  apart : AreApart gap h
  known : (c : Bytes) (t : ℕ) → last_sent c h ≡ some t → (get c ids ≡ some t) ⊎ (t + gap < now)

get-prune :
    (gap now : ℕ) (c : Bytes) (t : ℕ) (m : Map ℕ)
    → get c m ≡ some t
    → (get c (prune gap now m) ≡ some t) ⊎ (t + gap < now)
unfolding get prune
get-prune gap now c t [] h = cc
get-prune gap now c t ((k, s) ∷ m) h = elim (Bool-cases (beq k c)) [
  | inl e ↦ ground arith
  | inr e ↦
      let later : get c m ≡ some t = ground arith in
      let ih = get-prune gap now c t m later in ground arith
]

pruned_known :
    (gap last now : ℕ) (h : List (ℕ × Bytes)) (ids : Map ℕ)
    → last ≤ now
    → Remembers gap last h ids
    → (c : Bytes) (t : ℕ) → last_sent c h ≡ some t
    → (get c (prune gap now ids) ≡ some t) ⊎ (t + gap < now)
pruned_known gap last now h ids le r c t e = elim (r.known c t e) [
  | inl g ↦ get-prune gap now c t ids g
  | inr far ↦ inr (omega arith)
]

unseen_apart :
    (gap now : ℕ) (found sent : Option ℕ)
    → seen_since gap now found ≡ false
    → ((t : ℕ) → sent ≡ some t → (found ≡ some t) ⊎ (t + gap < now))
    → MoreThan gap now sent
unfolding seen_since
unseen_apart gap now found none h k = tt
unseen_apart gap now none (some t) h k = let q = k t refl in ground arith
unseen_apart gap now (some s) (some t) h k = let q = k t refl in ground arith

put_known :
    (gap now : ℕ) (c key : Bytes) (t : ℕ) (found sent : Option ℕ)
    → ((s : ℕ) → sent ≡ some s → (found ≡ some s) ⊎ (s + gap < now))
    → (if beq key c then some now else sent) ≡ some t
    → ((if beq key c then some now else found) ≡ some t) ⊎ (t + gap < now)
put_known gap now c key t found sent k q = elim (Bool-cases (beq key c)) [
  | inl e ↦ ground arith
  | inr e ↦ let later : sent ≡ some t = ground arith in let d = k t later in ground arith
]

step-Remembers :
    (sec last now : ℕ) (key : Bytes) (h : List (ℕ × Bytes)) (ids : Map ℕ)
    → 0 < sec
    → last ≤ now
    → is_empty key ≡ false
    → Remembers (sec * 1000) last h ids
    → let (seen, ids') = sidecar_id_recently_sent now key sec ids in
      Remembers (sec * 1000) now (sent_if seen (now, key) h) ids'
unfolding sidecar_id_recently_sent
step-Remembers sec last now key h ids pos le ne r =
    let gap = sec * 1000 in
    let kept = prune gap now ids in
    let known = pruned_known gap last now h ids le r in
    let wanted : is_empty key || sec == 0 ≡ false = ground arith in
    elim (Bool-cases (seen_since gap now (get key kept))) [
      | inl e ↦ rw (wanted, e) (record { apart = r.apart; known = known })
      | inr e ↦
          rw (wanted, e)
            (record {
              apart =
                  (unseen_apart gap now (get key kept) (last_sent key h) e (known key), r.apart);
              known = λ c t q.
                  rw (get-put c key now kept)
                    (put_known gap now c key t (get c kept) (last_sent c h) (known c) q);
            })
    ]

run-Remembers :
    (sec last : ℕ) (es h : List (ℕ × Bytes)) (ids : Map ℕ)
    → 0 < sec
    → AreKeyed last es
    → Remembers (sec * 1000) last h ids
    → AreApart (sec * 1000) (run_sends sec es h ids)
unfolding run_sends
run-Remembers sec last [] h ids p a r = r.apart
run-Remembers sec last ((now, key) ∷ es) h ids p a r =
    run-Remembers sec now es _ _ p a.2 (step-Remembers sec last now key h ids p a.0 a.1 r)

-- With a positive `dedupeSec`, over any sequence of calls whose times do not go back and whose keys
-- are not empty, from an empty map, a key is let through only when more than `dedupeSec` seconds
-- have passed since it last was, although the map is pruned on the way.
pub sidecar_sends_apart :
    (sec : ℕ) (es : List (ℕ × Bytes))
    → 0 < sec
    → AreKeyed 0 es
    → AreApart (sec * 1000) (run_sends sec es [] [])
sidecar_sends_apart sec es p a =
    run-Remembers sec 0 es [] [] p a (record { apart = tt; known = λ c t e. cc })
