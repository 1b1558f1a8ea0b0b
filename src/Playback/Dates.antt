-- ===== src/Playback/Dates.antt =====
-- The dates of the worker's HLS playlist (src/worker/worker.cpp, `isoToUtcZ` and the block of
-- `serveHlsHttp` that gives the segments a date). Dates are whole milliseconds.
use multi_coder.Prelude.{
  ℕ, ◌+◌, Bool, false, not, ◌&&◌, ◌||◌, List, [], ◌∷◌, ◌++◌, Option, none, some, Bytes, codes,
  is_empty, drop, take, length, starts_with, find_byte, ltb, ◌==◌, ◌>>=◌, if◌then◌else◌,
}
use multi_coder.Prelude.Int.{ℤ, pos, negsuc, ◌+ℤ◌, ◌-ℤ◌, ◌*ℤ◌, ltb_ℤ}
use multi_coder.Strings.{stoi}
use multi_coder.Strings.Lines.{break_at}
use multi_coder.Playlist.{is_extinf}
use multi_coder.Supervisor.Hls.{segment_number}

pub record DateTime : Type 0 where
  pub year : ℤ
  pub month : ℤ
  pub day : ℤ
  pub hour : ℤ
  pub minute : ℤ
  pub second : ℤ

-- Two or four digits at a position.
abbrev number_at : ℕ → ℕ → Bytes → Option ℤ
number_at from count s = stoi (take count (drop from s))

-- The six numbers, of which a text without one throws.
read_date : Bytes → Option DateTime
read_date base = do
  y ← number_at 0 4 base
  mo ← number_at 5 2 base
  d ← number_at 8 2 base
  h ← number_at 11 2 base
  mi ← number_at 14 2 base
  s ← number_at 17 2 base
  some (record { year = y; month = mo; day = d; hour = h; minute = mi; second = s })

without_colons : Bytes → Bytes
without_colons [] = []
without_colons (c ∷ s) = let rest = without_colons s in if c == b':' then rest else c ∷ rest

-- `+hhmm` or `+hh:mm` in seconds.
offset_secs : Bytes → Option ℤ
unfolding without_colons
offset_secs [] = none
offset_secs (sign ∷ s) =
    let tzd = without_colons s in
    if ltb (length tzd) 4 then none else do
      h ← number_at 0 2 tzd
      m ← number_at 2 2 tzd
      let secs = h *ℤ pos 3600 +ℤ m *ℤ pos 60
      some (if sign == b'-' then pos 0 -ℤ secs else secs)

ends_in_z : Bytes → Bool
ends_in_z [] = false
ends_in_z (c ∷ []) = c == b'Z'
ends_in_z (c ∷ d ∷ s) = ends_in_z (d ∷ s)

fraction : Bytes → Bytes
unfolding starts_with
fraction base = if starts_with (codes ".") (drop 19 base) then drop 19 base else []

-- `timegm` less the offset, through `gmtime` and `strftime`, is an argument.
module _ (shift : DateTime → ℤ → Option Bytes) where
  in_utc : Bytes → Bytes → Option Bytes
  unfolding read_date offset_secs fraction
  in_utc base tz = do
    date ← read_date base
    offset ← offset_secs tz
    let zero_offset = not (ltb_ℤ offset (pos 0)) && not (ltb_ℤ (pos 0) offset)
    text ← if zero_offset then some base else shift date offset
    some (text ++ (fraction base ++ b'Z' ∷ []))

  -- A text that cannot be read stays as it is. With an offset of 0 the fraction of the second, which
  -- `base` ends in, is written a second time.
  unfoldable pub iso_to_utc_z : Bytes → Bytes
  unfolding in_utc find_byte break_at ends_in_z
  iso_to_utc_z s = if is_empty s || ends_in_z s then s else elim (find_byte b'T' s) [
    | none ↦ s
    | some t ↦
        let (pre, tz) = break_at (λ c. c == b'+' || c == b'-') (drop (t + 7) s) in
        let base = take (t + 7) s ++ pre in
        if ltb (length s) 20 || is_empty tz || ltb (length base) 19
        then s
        else elim (in_utc base tz) [ none ↦ s | some u ↦ u ]
  ]

-- The static anchor: a segment's number, its date, and the seconds of a segment.
pub record PdtAnchor : Type 0 where
  pub seq : ℤ
  pub epoch_ms : ℤ
  pub step : ℤ

abbrev recent : ℤ → ℤ → ℤ
recent now_ms seg_secs = now_ms -ℤ pos 500 *ℤ seg_secs

abbrev at_least_0 : ℤ → ℤ
at_least_0 (pos n) = pos n
at_least_0 (negsuc n) = pos 0

unfoldable pub next_pdt_anchor : ℤ → ℤ → ℤ → Option PdtAnchor → PdtAnchor
next_pdt_anchor now_ms seg_secs first none = record {
  seq = at_least_0 first;
  epoch_ms = recent now_ms seg_secs;
  step = seg_secs;
}
next_pdt_anchor now_ms seg_secs first (some a) =
    if ltb_ℤ first (pos 0) || ltb_ℤ first (a.seq -ℤ pos 50)
    then record { seq = at_least_0 first; epoch_ms = recent now_ms seg_secs; step = seg_secs }
    else if ltb_ℤ a.seq first
    then record {
      seq = first;
      epoch_ms = a.epoch_ms +ℤ (first -ℤ a.seq) *ℤ (pos 1000 *ℤ a.step);
      step = seg_secs;
    }
    else record a { step = seg_secs }

-- The number of the first segment that has a date to get, -1 where its line has none.
number_behind : List Bytes → ℤ
number_behind [] = negsuc 0
number_behind (seg ∷ ls) = segment_number seg

first_number : List Bytes → Option ℤ
unfolding number_behind
first_number [] = none
first_number (l ∷ ls) =
    let rest = first_number ls in if is_extinf l then some (number_behind ls) else rest

module _ (iso_of : ℤ → Bytes) where
  insert_dates : ℤ → ℤ → List Bytes → List Bytes
  insert_dates seg_secs epoch [] = []
  insert_dates seg_secs epoch (l ∷ ls) =
      let dated = is_extinf l in
      let rest =
        insert_dates seg_secs (if dated then epoch +ℤ pos 1000 *ℤ seg_secs else epoch) ls in
      if dated then (codes "#EXT-X-PROGRAM-DATE-TIME:" ++ iso_of epoch) ∷ l ∷ rest else l ∷ rest

  -- A playlist without dates is given them.
  unfoldable pub synthesize_dates :
      ℤ → ℤ → List Bytes → Option PdtAnchor → List Bytes × Option PdtAnchor
  unfolding first_number insert_dates
  synthesize_dates now_ms seg_secs lines anchor = elim (first_number lines) [
    | none ↦ (lines, anchor)
    | some first ↦
        let a = next_pdt_anchor now_ms seg_secs first anchor in
        let epoch = if ltb_ℤ first (pos 0) then recent now_ms seg_secs else a.epoch_ms in
        (insert_dates seg_secs epoch lines, some a)
  ]
