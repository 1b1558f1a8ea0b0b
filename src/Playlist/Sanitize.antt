-- ===== src/Playlist/Sanitize.antt =====
-- What `sanitizeForExtinf` leaves passes `isSafeMetaForExtinf` (src/worker/worker.cpp).
use multi_coder.Prelude.{
  ℕ, ◌+◌, ◌≤◌, ◌<◌, Bool, true, not, [], ◌∷◌, ◌++◌, ◌≡◌, refl, inl, inr, arith, Bytes, is_empty,
  length, leb, if◌then◌else◌, Bool-cases,
}
use multi_coder.Strings.{is_space, drop_last_while}
use multi_coder.Playlist.{
  all_stay, is_safe_meta_for_extinf, sanitized_byte, sanitize_from, sanitize_for_extinf,
}

all_stay-sanitized :
    (c : ℕ) (t : Bytes) → all_stay t ≡ true → all_stay (sanitized_byte c ++ t) ≡ true
unfolding all_stay
all_stay-sanitized c t h = ground arith

all_stay-sanitize : (max size : ℕ) (s : Bytes) → all_stay (sanitize_from max size s) ≡ true
unfolding sanitize_from
all_stay-sanitize max size [] = unfold all_stay in refl
all_stay-sanitize max size (c ∷ s) =
    all_stay-sanitized c
      (if leb max (size + length (sanitized_byte c))
        then []
        else sanitize_from max (size + length (sanitized_byte c)) s)
      (let rest = all_stay-sanitize max (size + length (sanitized_byte c)) s in
        elim (Bool-cases (leb max (size + length (sanitized_byte c)))) [
          | inl e ↦ rw e (unfold all_stay in refl)
          | inr e ↦ rw e rest
        ])

length-sanitize_from :
    (max size : ℕ) (s : Bytes) → size < max → size + length (sanitize_from max size s) ≤ max
unfolding sanitize_from
length-sanitize_from max size [] h = omega arith
length-sanitize_from max size (c ∷ s) h =
    let rest = length-sanitize_from max (size + length (sanitized_byte c)) s in ground arith

all_stay-drop_last :
    (p : ℕ → Bool) (s : Bytes) → all_stay s ≡ true → all_stay (drop_last_while p s) ≡ true
unfolding all_stay drop_last_while
all_stay-drop_last p [] h = refl
all_stay-drop_last p (c ∷ s) h = let rest = all_stay-drop_last p s in ground arith

length-drop_last : (p : ℕ → Bool) (s : Bytes) → length (drop_last_while p s) ≤ length s
unfolding drop_last_while
length-drop_last p [] = omega arith
length-drop_last p (c ∷ s) = let rest = length-drop_last p s in ground arith

-- For a limit above 0, what the sanitizer leaves of any payload passes the check of a safe payload,
-- its limit included, unless nothing is left.
pub sanitized_is_safe :
    (max_len : ℕ) (s : Bytes)
    → 0 < max_len
    → is_safe_meta_for_extinf (sanitize_for_extinf s max_len) max_len
      ≡ not (is_empty (sanitize_for_extinf s max_len))
unfolding is_safe_meta_for_extinf sanitize_for_extinf
sanitized_is_safe max_len s h =
    let kept = sanitize_from max_len 0 s in
    let stays = all_stay-drop_last is_space kept (all_stay-sanitize max_len 0 s) in
    let short = length-sanitize_from max_len 0 s h in
    let shorter = length-drop_last is_space kept in ground arith
