-- ===== src/Scte/Inject.antt =====
-- Where the date range goes (src/worker/worker.cpp, `injectHlsScteDateRange`).
use multi_coder.Prelude.{
  ℕ, suc, true, false, not, ◌&&◌, ◌||◌, List, [], ◌∷◌, ◌++◌, ◌≡◌, inl, inr, refl, ◌∙◌, ap, arith,
  Bytes, is_empty, All, All-append-right, length, length-append, append_assoc, get_elem?, some,
  starts_with, Bool-cases, drop,
}
use multi_coder.Prelude.Int.{ℤ, pos, ltb_ℤ}
use multi_coder.Scte.{Range}
use multi_coder.Scte.DateRange.{
  insert_at, pdt_tag, pdt_lines, last_ms, insert_position, placed, build_hls_scte_date_range_line,
  inject_hls_scte_date_range,
}

-- Line `k` carries a program date and time.
abbrev pub IsPdt : List Bytes → ℕ → Type 0
IsPdt lines k = (l : Bytes) × (get_elem? lines k ≡ some l) × (starts_with pdt_tag l ≡ true)

get_elem?-middle :
    (pre : List Bytes) (l : Bytes) (ls : List Bytes)
    → get_elem? (pre ++ l ∷ ls) (length pre) ≡ some l
get_elem?-middle [] l ls = refl
get_elem?-middle (x ∷ pre) l ls = get_elem?-middle pre l ls

pdt_lines_sound :
    (parse_utc : Bytes → ℤ) (pre ls : List Bytes)
    → All (λ e. IsPdt (pre ++ ls) e.0) (pdt_lines parse_utc (length pre) ls)
unfolding pdt_lines
pdt_lines_sound parse_utc pre [] = tt
pdt_lines_sound parse_utc pre (l ∷ ls) =
    let next : length (pre ++ l ∷ []) ≡ suc (length pre) =
      omega (arith, length-append pre (l ∷ [])) in
    let later : All (λ e. IsPdt (pre ++ l ∷ ls) e.0) (pdt_lines parse_utc (suc (length pre)) ls) =
      rw next at
        (rw (append_assoc pre (l ∷ []) ls) at (pdt_lines_sound parse_utc (pre ++ l ∷ []) ls)) in
    elim (Bool-cases (starts_with pdt_tag l && ltb_ℤ (pos 0) (parse_utc (drop 25 l)))) [
      | inl e ↦ rw e ((l, get_elem?-middle pre l ls, ground arith), later)
      | inr e ↦ rw e later
    ]

-- The position is that of the first time at or behind the start: those before it are before the
-- start.
pub record Chosen (start : ℤ) (es : List (ℕ × ℤ)) (k : ℕ) : Type 0 where
  pub before : List (ℕ × ℤ)
  pub behind : List (ℕ × ℤ)
  pub ms : ℤ
  pub splits : es ≡ before ++ (k, ms) ∷ behind
  pub earlier : All (λ e. ltb_ℤ e.1 start ≡ true) before
  pub reached : not (ltb_ℤ (pos 0) start) || not (ltb_ℤ ms start) ≡ true

Chosen-later :
    (start : ℤ) (es : List (ℕ × ℤ)) (k i : ℕ) (ms : ℤ)
    → ltb_ℤ ms start ≡ true
    → Chosen start es k
    → Chosen start ((i, ms) ∷ es) k
Chosen-later start es k i ms h c = record {
  before = (i, ms) ∷ c.before;
  behind = c.behind;
  ms = c.ms;
  splits = ap (λ xs. (i, ms) ∷ xs) c.splits;
  earlier = (h, c.earlier);
  reached = c.reached;
}

insert_position-Chosen :
    (start : ℤ) (first i : ℕ) (ms : ℤ) (es : List (ℕ × ℤ))
    → ltb_ℤ (last_ms ms es) start ≡ false
    → Chosen start ((i, ms) ∷ es) (insert_position start first ((i, ms) ∷ es))
unfolding insert_position
insert_position-Chosen start first i ms [] h =
    let here : not (ltb_ℤ (pos 0) start) || not (ltb_ℤ ms start) ≡ true = ground arith in
    rw here
      (record { before = []; behind = []; ms = ms; splits = refl; earlier = tt; reached = here })
insert_position-Chosen start first i ms ((j, m) ∷ es) h =
    let later = insert_position-Chosen start first j m es h in
    elim (Bool-cases (not (ltb_ℤ (pos 0) start) || not (ltb_ℤ ms start))) [
      | inl e ↦ rw e (record {
        before = [];
        behind = (j, m) ∷ es;
        ms = ms;
        splits = refl;
        earlier = tt;
        reached = e;
      })
      | inr e ↦ rw e (Chosen-later start ((j, m) ∷ es) _ i ms (ground arith) later)
    ]

All-chosen :
    (Q : ℕ × ℤ → Type 0) (before : List (ℕ × ℤ)) (e : ℕ × ℤ) (behind es : List (ℕ × ℤ))
    → es ≡ before ++ e ∷ behind
    → All Q es
    → Q e
All-chosen Q before e behind es h all = (All-append-right Q before (e ∷ behind) (rw h at all)).0

-- What the injection may do: leave the playlist as it is, or put one line directly in front of a
-- line with a program date and time, the first one that is not before the start of the range.
pub data Injected (parse_utc : Bytes → ℤ) (r : Range) (lines : List Bytes)
    : List Bytes → Type 0 where
  unchanged : Injected parse_utc r lines lines
  inserted :
      (k : ℕ)
      → IsPdt lines k
      → Chosen r.start_epoch_ms (pdt_lines parse_utc 0 lines) k
      → Injected parse_utc r lines (insert_at k (build_hls_scte_date_range_line r) lines)

placed-Injected :
    (parse_utc : Bytes → ℤ) (r : Range) (lines : List Bytes) (es : List (ℕ × ℤ))
    → pdt_lines parse_utc 0 lines ≡ es
    → Injected parse_utc r lines (placed r (build_hls_scte_date_range_line r) lines es)
unfolding placed
placed-Injected parse_utc r lines [] h = unchanged
placed-Injected parse_utc r lines ((i, ms) ∷ es) h =
    elim (Bool-cases (not r.active && (ltb_ℤ (pos 0) r.end_epoch_ms && ltb_ℤ r.end_epoch_ms ms))) [
      | inl e ↦ rw e unchanged
      | inr e ↦ elim (Bool-cases (ltb_ℤ (last_ms ms es) r.start_epoch_ms)) [
        | inl b ↦ rw (e, b) unchanged
        | inr b ↦
            let c = insert_position-Chosen r.start_epoch_ms i i ms es b in
            let k = insert_position r.start_epoch_ms i ((i, ms) ∷ es) in
            rw (e, b)
              (inserted k
                (All-chosen (λ e. IsPdt lines e.0) c.before (k, c.ms) c.behind
                  (pdt_lines parse_utc 0 lines) (h ∙ c.splits) (pdt_lines_sound parse_utc [] lines))
                (rw h c))
      ]
    ]

-- For every playlist and range, the injection leaves the lines as they are, or inserts the range's
-- line directly in front of a line with a program date and time: the first such line whose time
-- is not before the range's start.
pub inject-Injected :
    (parse_utc : Bytes → ℤ) (r : Range) (lines : List Bytes)
    → Injected parse_utc r lines (inject_hls_scte_date_range parse_utc r lines)
unfolding inject_hls_scte_date_range
inject-Injected parse_utc r lines =
    elim (Bool-cases (is_empty (build_hls_scte_date_range_line r))) [
      | inl e ↦ rw e unchanged
      | inr e ↦ rw e (placed-Injected parse_utc r lines (pdt_lines parse_utc 0 lines) refl)
    ]
