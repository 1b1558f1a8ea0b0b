-- ===== src/Playlist/Future.antt =====
-- Which lines of the playlist a payload goes to (src/worker/worker.cpp,
-- `injectHlsMetadataIntoPlaylist`).
use multi_coder.Prelude.{
  ℕ, suc, Bool, true, false, ◌||◌, List, [], ◌∷◌, ◌++◌, map, none, some, ◌≡◌, refl, ap, ◌∙◌, inl,
  inr, arith, Bytes, length, length-append, append_assoc, if◌then◌else◌, Bool-cases,
}
use multi_coder.Playlist.{
  is_extinf, replace_extinf_payload, extinf_indices, replace_at, replace_each, last_index,
  patched_at, patch_lines,
}

abbrev pub patch_line : Bytes → Bytes → Bytes
patch_line payload l = if is_extinf l then replace_extinf_payload l payload else l

replace_at-middle :
    (payload : Bytes) (pre : List Bytes) (l : Bytes) (ls : List Bytes)
    → replace_at payload (length pre) (pre ++ l ∷ ls) ≡ pre ++ replace_extinf_payload l payload ∷ ls
unfolding replace_at
replace_at-middle payload [] l ls = refl
replace_at-middle payload (x ∷ pre) l ls = ap (λ t. x ∷ t) (replace_at-middle payload pre l ls)

-- A line moved to those that are done.
moved :
    (payload : Bytes) (pre : List Bytes) (l : Bytes) (ls : List Bytes)
    → replace_each payload (extinf_indices (length (pre ++ l ∷ [])) ls) ((pre ++ l ∷ []) ++ ls)
      ≡ (pre ++ l ∷ []) ++ map (patch_line payload) ls
    → replace_each payload (extinf_indices (suc (length pre)) ls) (pre ++ l ∷ ls)
      ≡ pre ++ l ∷ map (patch_line payload) ls
moved payload pre l ls h =
    let next : length (pre ++ l ∷ []) ≡ suc (length pre) =
      omega (arith, length-append pre (l ∷ [])) in
    rw next at (
      rw (append_assoc pre (l ∷ []) ls, append_assoc pre (l ∷ []) (map (patch_line payload) ls)) at
        h)

replace_each-map :
    (payload : Bytes) (pre ls : List Bytes)
    → replace_each payload (extinf_indices (length pre) ls) (pre ++ ls)
      ≡ pre ++ map (patch_line payload) ls
unfolding replace_each extinf_indices
replace_each-map payload pre [] = refl
replace_each-map payload pre (l ∷ ls) =
    let l' = replace_extinf_payload l payload in
    let plain = moved payload pre l ls (replace_each-map payload (pre ++ l ∷ []) ls) in
    let patched : replace_each payload (extinf_indices (suc (length pre)) ls)
          (replace_at payload (length pre) (pre ++ l ∷ ls))
        ≡ pre ++ l' ∷ map (patch_line payload) ls =
      rw (replace_at-middle payload pre l ls)
        (moved payload pre l' ls (replace_each-map payload (pre ++ l' ∷ []) ls)) in
    elim (Bool-cases (is_extinf l)) [ inl e ↦ rw e patched | inr e ↦ rw e plain ]

abbrev pub has_extinf : List Bytes → Bool
has_extinf [] = false
has_extinf (l ∷ ls) = is_extinf l || has_extinf ls

-- The last of the lines is patched.
abbrev pub patch_newest : Bytes → List Bytes → List Bytes
patch_newest payload [] = []
patch_newest payload (l ∷ ls) =
    if has_extinf ls then l ∷ patch_newest payload ls else patch_line payload l ∷ ls

patch_newest-none :
    (payload : Bytes) (ls : List Bytes) → has_extinf ls ≡ false → patch_newest payload ls ≡ ls
patch_newest-none payload [] h = refl
patch_newest-none payload (l ∷ ls) h = ground arith

extinf_indices-none : (i : ℕ) (ls : List Bytes) → has_extinf ls ≡ false → extinf_indices i ls ≡ []
unfolding extinf_indices
extinf_indices-none i [] h = refl
extinf_indices-none i (l ∷ ls) h = let rest = extinf_indices-none (suc i) ls in ground arith

extinf_indices-some :
    (i : ℕ) (ls : List Bytes)
    → has_extinf ls ≡ true
    → (j : ℕ) × (js : List ℕ) × (extinf_indices i ls ≡ j ∷ js)
unfolding extinf_indices
extinf_indices-some i [] h = cc
extinf_indices-some i (l ∷ ls) h = elim (Bool-cases (is_extinf l)) [
  | inl e ↦ (i, extinf_indices (suc i) ls, rw e refl)
  | inr e ↦ let (j, js, eq) = extinf_indices-some (suc i) ls (rw e at h) in (j, js, rw e eq)
]

abbrev replace_last : Bytes → List ℕ → List Bytes → List Bytes
replace_last payload [] lines = lines
replace_last payload (i ∷ is) lines = replace_at payload (last_index i is) lines

replace_last-skip :
    (payload : Bytes) (i k : ℕ) (ls lines : List Bytes)
    → has_extinf ls ≡ true
    → replace_last payload (i ∷ extinf_indices k ls) lines
      ≡ replace_last payload (extinf_indices k ls) lines
replace_last-skip payload i k ls lines h =
    let (j, js, eq) = extinf_indices-some k ls h in rw eq refl

-- A line moved to those before the newest.
passed :
    (payload : Bytes) (pre : List Bytes) (l : Bytes) (ls : List Bytes)
    → replace_last payload (extinf_indices (length (pre ++ l ∷ [])) ls) ((pre ++ l ∷ []) ++ ls)
      ≡ (pre ++ l ∷ []) ++ patch_newest payload ls
    → replace_last payload (extinf_indices (suc (length pre)) ls) (pre ++ l ∷ ls)
      ≡ pre ++ l ∷ patch_newest payload ls
passed payload pre l ls h =
    let next : length (pre ++ l ∷ []) ≡ suc (length pre) =
      omega (arith, length-append pre (l ∷ [])) in
    rw next at
      (rw (append_assoc pre (l ∷ []) ls, append_assoc pre (l ∷ []) (patch_newest payload ls)) at h)

replace_last-newest :
    (payload : Bytes) (pre ls : List Bytes)
    → has_extinf ls ≡ true
    → replace_last payload (extinf_indices (length pre) ls) (pre ++ ls)
      ≡ pre ++ patch_newest payload ls
unfolding extinf_indices
replace_last-newest payload pre [] h = cc
replace_last-newest payload pre (l ∷ ls) h = elim (Bool-cases (has_extinf ls)) [
  | inl left ↦
      let behind = passed payload pre l ls (replace_last-newest payload (pre ++ l ∷ []) ls left) in
      let skip =
        replace_last-skip payload (length pre) (suc (length pre)) ls (pre ++ l ∷ ls) left in
      elim (Bool-cases (is_extinf l)) [
        | inl e ↦ rw (left, e) (skip ∙ behind)
        | inr e ↦ rw (left, e) behind
      ]
  | inr none_left ↦
      let e : is_extinf l ≡ true = ground arith in
      let here = replace_at-middle payload pre l ls in
      rw (none_left, e, extinf_indices-none (suc (length pre)) ls none_left) here
]

-- Where the playlist has a line `#EXTINF:`, an injection gives each of them the payload with the
-- scope `currentFuture`, and the last of them alone with any other; the other lines stay as they
-- are. Where it has none, nothing is patched.
pub patch_lines_lem :
    (include_future : Bool) (payload : Bytes) (lines : List Bytes)
    → patch_lines include_future payload lines ≡ (
        if has_extinf lines
        then some
            (if include_future then map (patch_line payload) lines else patch_newest payload lines)
        else none)
unfolding patch_lines patched_at
patch_lines_lem true payload lines = elim (Bool-cases (has_extinf lines)) [
  | inl e ↦
      let (j, js, eq) = extinf_indices-some 0 lines e in
      let every = rw eq at (replace_each-map payload [] lines) in rw (e, eq) (ap some every)
  | inr e ↦ rw (e, extinf_indices-none 0 lines e) refl
]
patch_lines_lem false payload lines = elim (Bool-cases (has_extinf lines)) [
  | inl e ↦
      let (j, js, eq) = extinf_indices-some 0 lines e in
      let newest = rw eq at (replace_last-newest payload [] lines e) in rw (e, eq) (ap some newest)
  | inr e ↦ rw (e, extinf_indices-none 0 lines e) refl
]
