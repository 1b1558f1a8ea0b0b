-- ===== src/Json/RoundTrip/Values.antt =====
-- Values as `serialize` writes them (src/common/SimpleJson.cpp).
use multi_coder.Prelude.{
  ℕ, Bool, true, false, [], ◌∷◌, ◌++◌, ◌≡◌, refl, arith, Bytes, Option, some, none, not, ◌&&◌, ◌||◌,
  ◌==◌, append_assoc, is_empty,
}
use multi_coder.Strings.{is_space, drop_while, trim}
use multi_coder.Strings.Laws.{is_empty-append_cons}
use multi_coder.Json.{
  Entry, escape, raw_step, scan_raw, parse_value, parse_colon, entry_text, consed,
}
use multi_coder.Json.RoundTrip.Tokens.{scan_quoted-escape, unescape-escape}

-- The scanner's state behind a text that it takes whole.
abbrev pub raw_run : Bool → ℕ → Bool → Bytes → Option (ℕ × Bool)
raw_run esc depth in_string [] = some (depth, in_string)
raw_run esc depth in_string (c ∷ s) = elim (raw_step esc depth in_string c) [
  | none ↦ none
  | some (d, i) ↦ raw_run (c == b'\\') d i s
]

abbrev first_fits : Bytes → Bool
first_fits [] = true
first_fits (c ∷ _) = not (is_space c) && not (c == b'"')

-- A quoted text, or a token such as a number, `true` or an object: no spaces round it, brackets
-- and strings closed, no comma outside them.
pub record IsToken (e : Entry) : Type 0 where
  pub no_quote : e.quoted ≡ false → first_fits e.raw ≡ true
  pub trimmed : e.quoted ≡ false → trim e.raw ≡ e.raw
  pub closed : e.quoted ≡ false → raw_run false 0 false e.raw ≡ some (0, false)

-- What may stand behind a value.
pub data Delimits : ℕ → Bytes → Type 0 where
  comma : {c : ℕ} {s : Bytes} → Delimits b',' (c ∷ s)
  close : Delimits b'}' []

abbrev ends_value : ℕ → Bytes → Bool
ends_value x rest = is_empty rest || x == b','

Delimits-ends :
    {x : ℕ} {rest : Bytes}
    → Delimits x rest
    → (ends_value x rest ≡ true) × (is_space x ≡ false) × ((x == b'"') ≡ false)
Delimits-ends comma = (refl, refl, refl)
Delimits-ends close = (refl, refl, refl)

scan_raw-token :
    (r : Bytes) (esc : Bool) (depth : ℕ) (in_string : Bool) (x : ℕ) (rest : Bytes)
    → raw_run esc depth in_string r ≡ some (0, false)
    → ends_value x rest ≡ true
    → scan_raw esc depth in_string (r ++ x ∷ rest) ≡ (r, x ∷ rest)
unfolding scan_raw
scan_raw-token [] esc depth in_string x rest h d = unfold raw_step in ground arith
scan_raw-token (c ∷ r) esc depth in_string x rest h d = rw (is_empty-append_cons r x rest) (
    go (raw_step esc depth in_string c) h (λ d' i k. scan_raw-token r (c == b'\\') d' i x rest k d))
  where
    go :
        (s : Option (ℕ × Bool))
        → (elim s as (λ _. Option (ℕ × Bool)) [
          | none ↦ none
          | some (d', i) ↦ raw_run (c == b'\\') d' i r
        ])
          ≡ some (0, false)
        → ((d' : ℕ) (i : Bool)
            → raw_run (c == b'\\') d' i r ≡ some (0, false)
            → scan_raw (c == b'\\') d' i (r ++ x ∷ rest) ≡ (r, x ∷ rest))
        → (elim s as (λ _. Bytes × Bytes) [
          | none ↦ ([], c ∷ (r ++ x ∷ rest))
          | some (d', i) ↦ consed c (scan_raw (c == b'\\') d' i (r ++ x ∷ rest))
        ])
          ≡ (c ∷ r, x ∷ rest)
    go none k ih = cc
    go (some (d', i)) k ih = cc (ih d' i k)

parse_value-text :
    (raw : Bytes) (x : ℕ) (rest : Bytes)
    → parse_value (b'"' ∷ (escape raw ++ (b'"' ∷ x ∷ rest)))
      ≡ some (record { raw = raw; quoted = true }, x ∷ rest)
unfolding parse_value
parse_value-text raw x rest = rw (scan_quoted-escape raw (x ∷ rest)) (rw (unescape-escape raw))

parse_value-token :
    (raw : Bytes) (x : ℕ) (rest : Bytes)
    → first_fits raw ≡ true
    → trim raw ≡ raw
    → raw_run false 0 false raw ≡ some (0, false)
    → ends_value x rest ≡ true
    → (x == b'"') ≡ false
    → parse_value (raw ++ x ∷ rest) ≡ some (record { raw = raw; quoted = false }, x ∷ rest)
unfolding parse_value
parse_value-token [] x rest f t c d q = ground (arith, scan_raw-token [] false 0 false x rest c d)
parse_value-token (b ∷ raw) x rest f t c d q =
    ground (arith, scan_raw-token (b ∷ raw) false 0 false x rest c d)

drop_while-token :
    (raw : Bytes) (x : ℕ) (rest : Bytes)
    → first_fits raw ≡ true
    → is_space x ≡ false
    → drop_while is_space (raw ++ x ∷ rest) ≡ raw ++ x ∷ rest
unfolding drop_while
drop_while-token [] x rest f h = ground arith
drop_while-token (b ∷ raw) x rest f h = ground arith

entry_by :
    (raw : Bytes) (quoted : Bool) (x : ℕ) (rest : Bytes)
    → IsToken (record { raw = raw; quoted = quoted })
    → Delimits x rest
    → parse_colon (b':' ∷ (entry_text (record { raw = raw; quoted = quoted }) ++ x ∷ rest))
      ≡ some (record { raw = raw; quoted = quoted }, x ∷ rest)
unfolding parse_colon entry_text
entry_by raw true x rest w d =
    rw (append_assoc (escape raw) (b'"' ∷ []) (x ∷ rest))
      (unfold drop_while in parse_value-text raw x rest)
entry_by raw false x rest w d =
    let (e, sp, q) = Delimits-ends d in
    rw (drop_while-token raw x rest (w.no_quote refl) sp)
      (parse_value-token raw x rest (w.no_quote refl) (w.trimmed refl) (w.closed refl) e q)

pub parse_colon-entry :
    (e : Entry) (x : ℕ) (rest : Bytes)
    → IsToken e
    → Delimits x rest
    → parse_colon (b':' ∷ (entry_text e ++ x ∷ rest)) ≡ some (e, x ∷ rest)
parse_colon-entry e = entry_by e.raw e.quoted
