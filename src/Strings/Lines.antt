-- ===== src/Strings/Lines.antt =====
-- `std::getline` on a text, the words of `std::istringstream`, and searches in texts.
use multi_coder.Prelude.{
  ℕ, ◌-◌, leb, beq, List, [], ◌∷◌, ◌++◌, Bool, false, ◌&&◌, ◌||◌, Option, none, some, Bytes, drop,
  length, starts_with, ◌==◌, if◌then◌else◌,
}
use multi_coder.Strings.{is_space, drop_while}

-- `std::getline` until it fails: a text that ends in a line feed has no line behind it.
add_byte : ℕ → List Bytes → List Bytes
add_byte c [] = (c ∷ []) ∷ []
add_byte c (l ∷ ls) = (c ∷ l) ∷ ls

unfoldable pub get_lines : Bytes → List Bytes
unfolding add_byte
get_lines [] = []
get_lines (c ∷ s) = let rest = get_lines s in if c == 10 then [] ∷ rest else add_byte c rest

unfoldable pub without_cr : Bytes → Bytes
without_cr [] = []
without_cr (c ∷ []) = if c == 13 then [] else c ∷ []
without_cr (c ∷ d ∷ s) = c ∷ without_cr (d ∷ s)

-- the bytes up to the first that passes the test, and the rest from there
unfoldable pub break_at : (ℕ → Bool) → Bytes → Bytes × Bytes
break_at p [] = ([], [])
break_at p (c ∷ s) = let (a, b) = break_at p s in if p c then ([], c ∷ s) else (c ∷ a, b)

-- `is >> word`, and what stays in the stream
unfoldable pub read_word : Bytes → Bytes × Bytes
unfolding break_at drop_while
read_word s = break_at is_space (drop_while is_space s)

-- `s.find(needle) != npos`
unfoldable pub contains : Bytes → Bytes → Bool
unfolding starts_with
contains n [] = starts_with n []
contains n (c ∷ s) = starts_with n (c ∷ s) || contains n s

-- the pieces that `<<` or `+` put together
abbrev pub concat : List Bytes → Bytes
concat [] = []
concat (s ∷ ss) = s ++ concat ss

-- `s.size() >= n && s.compare(s.size() - n, n, suffix) == 0`
abbrev pub has_suffix : Bytes → Bytes → Bool
has_suffix suffix s =
    leb (length suffix) (length s) && beq (drop (length s - length suffix) s) suffix

-- texts with a separator between them
unfoldable pub join : Bytes → List Bytes → Bytes
join sep [] = []
join sep (s ∷ []) = s
join sep (s ∷ t ∷ ss) = s ++ (sep ++ join sep (t ∷ ss))

-- `s.find(c) != npos`
unfoldable pub has_byte : ℕ → Bytes → Bool
has_byte c [] = false
has_byte c (d ∷ s) = d == c || has_byte c s

-- `s.rfind(needle)`: what follows the last occurrence
unfoldable pub behind_last : Bytes → Bytes → Option Bytes
unfolding starts_with
behind_last n [] = none
behind_last n (c ∷ s) =
    let here = if starts_with n (c ∷ s) then some (drop (length n) (c ∷ s)) else none in
    elim (behind_last n s) [ some r ↦ some r | none ↦ here ]

-- `out << l << "\n"` for each line
unfoldable pub unlines : List Bytes → Bytes
unlines [] = []
unlines (l ∷ ls) = l ++ 10 ∷ unlines ls
