-- ===== src/Json/Total.antt =====
-- `Object::parse` (src/common/SimpleJson.cpp) always leaves its loop.
use multi_coder.Prelude.{
  ℕ, zero, suc, ◌≤◌, ◌<◌, Bool, true, false, [], ◌∷◌, ◌≡◌, refl, arith, Bytes, length, Option, some,
  none, is_some, is_empty, if◌then◌else◌, ◌==◌, ◌&&◌, not,
}
use multi_coder.Strings.{is_space, drop_while, trim}
use multi_coder.Json.{
  Entry, Object, Member, end, fault, member, insert, unescape, scan_quoted, scan_raw, raw_step,
  parse_value, parse_colon, parse_member, skip_separators, open_member, parse_members, parse,
  parse_trimmed, consed,
}

-- What is left after a token is shorter than `n`.
abbrev RestBelow : ℕ → Option (Bytes × Bytes) → Type 0
RestBelow n none = Unit
RestBelow n (some (_, rest)) = length rest < n

abbrev EntryBelow : ℕ → Option (Entry × Bytes) → Type 0
EntryBelow n none = Unit
EntryBelow n (some (_, rest)) = length rest < n

abbrev KeyedBelow : ℕ → Option (Bytes × Entry × Bytes) → Type 0
KeyedBelow n none = Unit
KeyedBelow n (some (_, _, rest)) = length rest < n

abbrev MemberBelow : ℕ → Member → Type 0
MemberBelow n (member _ _ rest) = length rest < n
MemberBelow n _ = Unit

scan_quoted_rest : (esc : Bool) (s : Bytes) → RestBelow (length s) (scan_quoted esc s)
unfolding scan_quoted
scan_quoted_rest esc [] = tt
scan_quoted_rest esc (c ∷ s) = ground (arith, scan_quoted_rest (not esc && c == b'\\') s)

drop_while-le : (p : ℕ → Bool) (s : Bytes) → length (drop_while p s) ≤ length s
unfolding drop_while
drop_while-le p [] = omega arith
drop_while-le p (c ∷ s) = ground (arith, drop_while-le p s)

scan_raw_rest :
    (esc : Bool) (depth : ℕ) (in_string : Bool) (s : Bytes)
    → length (scan_raw esc depth in_string s).1 ≤ length s
unfolding scan_raw
scan_raw_rest esc depth in_string [] = omega arith
scan_raw_rest esc depth in_string (c ∷ s) =
    go (raw_step esc depth in_string c) (λ d i. scan_raw_rest (c == b'\\') d i s)
  where
    go :
        (r : Option (ℕ × Bool))
        → ((d : ℕ) (i : Bool) → length (scan_raw (c == b'\\') d i s).1 ≤ length s)
        → length
            (if is_empty s then ([], c ∷ s) else elim r as (λ _. Bytes × Bytes) [
              | none ↦ ([], c ∷ s)
              | some (d, i) ↦ consed c (scan_raw (c == b'\\') d i s)
            ]).1
          ≤ suc (length s)
    go none ih = ground arith
    go (some (d, i)) ih = ground (arith, ih d i)

parse_value_rest : (s : Bytes) → EntryBelow (suc (length s)) (parse_value s)
unfolding parse_value
parse_value_rest [] = tt
parse_value_rest (c ∷ s) =
    ground (arith, scan_quoted_rest false s, scan_raw_rest false 0 false (c ∷ s))

parse_colon_rest : (s : Bytes) → EntryBelow (suc (length s)) (parse_colon s)
unfolding parse_colon
parse_colon_rest [] = tt
parse_colon_rest (c ∷ s) =
    ground (arith, parse_value_rest (drop_while is_space s), drop_while-le is_space s)

parse_member_rest : (s : Bytes) → KeyedBelow (length s) (parse_member s)
unfolding parse_member
parse_member_rest s = go (scan_quoted false s) (scan_quoted_rest false s)
  where
    go :
        (r : Option (Bytes × Bytes))
        → RestBelow (length s) r
        → KeyedBelow (length s) (elim r as (λ _. Option (Bytes × Entry × Bytes)) [
          | none ↦ none
          | some (tok, rest) ↦ elim (parse_colon (drop_while is_space rest)) [
            | none ↦ none
            | some (entry, rest') ↦ some (unescape tok, entry, rest')
          ]
        ])
    go none h = tt
    go (some (tok, rest)) h =
        ground (arith, parse_colon_rest (drop_while is_space rest), drop_while-le is_space rest)

skip_separators-le : (s : Bytes) → length (skip_separators s) ≤ length s
unfolding skip_separators
skip_separators-le [] = omega arith
skip_separators-le (c ∷ s) = ground (arith, skip_separators-le s)

open_member_rest : (s : Bytes) → MemberBelow (length s) (open_member s)
unfolding open_member
open_member_rest [] = tt
open_member_rest (c ∷ s) = ground (arith, parse_member_rest s)

pub parse_members_total :
    (fuel : ℕ) (s : Bytes) (o : Object) → length s < fuel → is_some (parse_members fuel s o) ≡ true
unfolding parse_members
parse_members_total zero s o h = absurd (omega arith)
parse_members_total (suc fuel) s o h =
    go (open_member (skip_separators s)) (open_member_rest (skip_separators s))
      (λ rest o' below. parse_members_total fuel rest o' below)
  where
    go :
        (m : Member)
        → MemberBelow (length (skip_separators s)) m
        → ((rest : Bytes) (o' : Object)
            → length rest < fuel
            → is_some (parse_members fuel rest o') ≡ true)
        → is_some (elim m as (λ _. Option (Bool × Object)) [
          | end ↦ some (true, o)
          | fault ↦ some (false, o)
          | member k e rest ↦ parse_members fuel rest (insert k e o)
        ])
          ≡ true
    go end b ih = refl
    go fault b ih = refl
    go (member k e rest) b ih = ih rest (insert k e o) (omega (arith, skip_separators-le s))

parse_trimmed_total : (t : Bytes) → is_some (parse_trimmed t) ≡ true
unfolding parse_trimmed
parse_trimmed_total [] = refl
parse_trimmed_total (c ∷ s) =
    ground (arith, parse_members_total (suc (length s)) s [] (omega arith))

-- `parse` ends on every text, with its result and the members read so far.
pub parse_total : (text : Bytes) → is_some (parse text) ≡ true
unfolding parse
parse_total text = parse_trimmed_total (trim text)
