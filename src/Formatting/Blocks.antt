-- ===== src/Formatting/Blocks.antt =====
-- The loop over the blocks of a payload ends (src/worker/worker.cpp, `extractNowPlayingBlocks`).
use multi_coder.Prelude.{
  ℕ, zero, suc, ◌+◌, ◌≤◌, [], ◌∷◌, ◌≡◌, refl, sym, ap, arith, Bytes, drop, take, length,
  length-drop, find, Option-cases, inl, inr,
}
use multi_coder.Formatting.{open_now, close_now, blocks_from, extract_now_playing_blocks}

blocks_zero : (fuel : ℕ) (xml : Bytes) → length xml ≤ 0 → [] ≡ blocks_from fuel xml
unfolding blocks_from find
blocks_zero zero xml le = refl
blocks_zero (suc fuel) [] le = refl
blocks_zero (suc fuel) (c ∷ xml) le = absurd (omega arith)

-- Any two amounts of fuel that reach the length of the text give the same blocks.
blocks_same :
    (f g : ℕ) (xml : Bytes)
    → length xml ≤ f
    → length xml ≤ g
    → blocks_from f xml ≡ blocks_from g xml
unfolding blocks_from
blocks_same zero g xml le le' = blocks_zero g xml le
blocks_same (suc f) zero xml le le' = sym (blocks_zero (suc f) xml le')
blocks_same (suc f) (suc g) xml le le' = elim (Option-cases (find open_now xml)) [
  | inl e ↦ rw (e, blocks_from) refl
  | inr (b, e) ↦ elim (Option-cases (find close_now (drop b xml))) [
    | inl k ↦ rw (e, k, blocks_from) refl
    | inr (n, k) ↦
        let s = drop b xml in
        let m = n + length close_now in
        let shorter = length-drop m s in
        let short = length-drop b xml in
        rw (e, k, blocks_from)
          (ap (λ bs. take m s ∷ bs) (blocks_same f g (drop m s) (omega arith) (omega arith)))
  ]
]

-- The length of the text is fuel enough: more fuel finds no other block.
pub extract-enough :
    (fuel : ℕ) (xml : Bytes)
    → length xml ≤ fuel
    → blocks_from fuel xml ≡ extract_now_playing_blocks xml
unfolding extract_now_playing_blocks
extract-enough fuel xml le = blocks_same fuel (length xml) xml le (omega arith)
