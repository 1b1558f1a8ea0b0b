-- ===== src/Strings/Laws.antt =====
-- Laws of the text helpers.
use multi_coder.Prelude.{ℕ, Bool, false, [], ◌∷◌, ◌++◌, ◌≡◌, refl, arith, Bytes, is_empty}
use multi_coder.Strings.{is_space, drop_last_while, trim}

pub is_empty-append_cons : (s : Bytes) (c : ℕ) (t : Bytes) → is_empty (s ++ c ∷ t) ≡ false
is_empty-append_cons [] c t = refl
is_empty-append_cons (x ∷ s) c t = refl

pub drop_last_while-keep :
    (p : ℕ → Bool) (s : Bytes) (c : ℕ) → p c ≡ false → drop_last_while p (s ++ c ∷ []) ≡ s ++ c ∷ []
unfolding drop_last_while
drop_last_while-keep p [] c h = ground arith
drop_last_while-keep p (x ∷ s) c h =
    ground (arith, drop_last_while-keep p s c h, is_empty-append_cons s c [])

-- A text between two bytes that are not spaces is trimmed already.
pub trim_bracketed :
    (a : ℕ) (s : Bytes) (b : ℕ)
    → is_space a ≡ false
    → is_space b ≡ false
    → trim (a ∷ (s ++ b ∷ [])) ≡ a ∷ (s ++ b ∷ [])
unfolding trim
trim_bracketed a s b ha hb =
    ground (arith, drop_last_while-keep is_space s b hb, is_empty-append_cons s b [])
