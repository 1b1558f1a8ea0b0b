-- ===== src/Scte/DateRange.antt =====
-- The date range of a break in an HLS playlist (src/worker/worker.cpp: `buildHlsScteDateRangeLine`,
-- `injectHlsScteDateRange` and what they call).
use multi_coder.Prelude.{
  ℕ, zero, suc, ◌+◌, ◌/◌, ◌%◌, Bool, true, false, not, ◌&&◌, ◌||◌, List, [], ◌∷◌, ◌++◌, Bytes,
  codes, drop, length, starts_with, is_empty, to_string, ltb, ◌==◌, if◌then◌else◌,
}
use multi_coder.Prelude.Int.{ℤ, pos, ltb_ℤ, pos_part, ◌-ℤ◌}
use multi_coder.Strings.{trim_copy, is_xdigit, is_alnum}
use multi_coder.Scte.{Range}

unfoldable pub escape_hls_quoted_string : Bytes → Bytes
escape_hls_quoted_string [] = []
escape_hls_quoted_string (c ∷ s) =
    let rest = c ∷ escape_hls_quoted_string s in
    if c == b'\\' || c == b'"' then b'\\' ∷ rest else rest

all_are : (ℕ → Bool) → Bytes → Bool
all_are p [] = true
all_are p (c ∷ s) = p c && all_are p s

any_is : (ℕ → Bool) → Bytes → Bool
any_is p [] = false
any_is p (c ∷ s) = p c || any_is p s

abbrev is_payload_char : ℕ → Bool
is_payload_char c = is_alnum c || c == b'+' || c == b'/' || c == b'=' || c == b'-' || c == b'_'

scte35_text : Bytes → Bool
scte35_text s =
    if ltb (length s) 16
    then false
    else if starts_with (codes "0x") s || starts_with (codes "0X") s
    then all_are is_xdigit (drop 2 s)
    else if all_are is_xdigit s && length s % 2 == 0
    then true
    else all_are is_payload_char s && any_is (λ c. c == b'+' || c == b'/' || c == b'=') s

unfoldable pub looks_like_scte35_payload : Bytes → Bool
unfolding scte35_text all_are any_is
looks_like_scte35_payload raw = scte35_text (trim_copy raw)

abbrev quoted_attribute : Bytes → Bytes → Bytes
quoted_attribute name v =
    codes "," ++ (name ++ (codes "=\"" ++ (escape_hls_quoted_string v ++ codes "\"")))

abbrev attribute : Bytes → Bytes → Bytes
attribute name v = if is_empty v then [] else quoted_attribute name v

-- A cue with its second name where it looks like a payload.
abbrev cue_attributes : Bytes → Bytes → Bytes → Bytes
cue_attributes scte35 name v =
    if is_empty v
    then []
    else (if looks_like_scte35_payload v then quoted_attribute scte35 v else [])
      ++ quoted_attribute name v

-- Three digits behind the point; the value is a whole number of thousandths.
abbrev pub thousandths : ℕ → Bytes
thousandths ms =
    to_string (ms / 1000)
    ++ (b'.' ∷ (b'0' + ms / 100 % 10) ∷ (b'0' + ms / 10 % 10) ∷ (b'0' + ms % 10) ∷ [])

abbrev duration_attribute : Range → Bytes
duration_attribute r =
    if ltb_ℤ (pos 0) r.start_epoch_ms && ltb_ℤ r.start_epoch_ms r.end_epoch_ms
    then codes ",DURATION=" ++ thousandths (pos_part (r.end_epoch_ms -ℤ r.start_epoch_ms))
    else []

unfoldable pub build_hls_scte_date_range_line : Range → Bytes
build_hls_scte_date_range_line r =
    if is_empty r.id || is_empty r.start_date_utc
    then []
    else codes "#EXT-X-DATERANGE:ID=\""
      ++ (escape_hls_quoted_string r.id
          ++ (codes "\",CLASS=\"com.apple.hls.scte35\""
              ++ (quoted_attribute (codes "START-DATE") r.start_date_utc
                  ++ (attribute (codes "END-DATE") r.end_date_utc
                      ++ (duration_attribute r
                          ++ (attribute (codes "X-MULTICODER-EVENT-ID") r.event_id
                              ++ (attribute (codes "X-MULTICODER-OUT") r.action_out
                                  ++ (attribute (codes "X-MULTICODER-IN") r.action_in
                                      ++ (cue_attributes (codes "SCTE35-OUT")
                                            (codes "X-MULTICODER-CUE-OUT") r.cue_out
                                          ++ (cue_attributes (codes "SCTE35-IN")
                                                (codes "X-MULTICODER-CUE-IN") r.cue_in
                                              ++ (if r.active
                                                  then codes ",END-ON-NEXT=YES"
                                                  else [])))))))))))

abbrev pub pdt_tag : Bytes
pdt_tag = codes "#EXT-X-PROGRAM-DATE-TIME:"

-- The lines with a time, each with its index and its time; the number is the first line's index.
unfoldable pub pdt_lines : (Bytes → ℤ) → ℕ → List Bytes → List (ℕ × ℤ)
pdt_lines parse_utc i [] = []
pdt_lines parse_utc i (l ∷ ls) =
    let ms = parse_utc (drop 25 l) in
    let rest = pdt_lines parse_utc (suc i) ls in
    if starts_with pdt_tag l && ltb_ℤ (pos 0) ms then (i, ms) ∷ rest else rest

-- `pdtLines.back().second`, with a first entry to start from
abbrev pub last_ms : ℤ → List (ℕ × ℤ) → ℤ
last_ms ms [] = ms
last_ms ms ((_, m) ∷ es) = last_ms m es

-- The loop that looks for the first time at or behind the start.
unfoldable pub insert_position : ℤ → ℕ → List (ℕ × ℤ) → ℕ
insert_position start first [] = first
insert_position start first ((i, ms) ∷ es) =
    let rest = insert_position start first es in
    if not (ltb_ℤ (pos 0) start) || not (ltb_ℤ ms start) then i else rest

abbrev pub insert_at {ℓ} : {A : Type ℓ} → ℕ → A → List A → List A
insert_at zero x xs = x ∷ xs
insert_at (suc k) x [] = x ∷ []
insert_at (suc k) x (y ∷ ys) = y ∷ insert_at k x ys

unfoldable pub placed : Range → Bytes → List Bytes → List (ℕ × ℤ) → List Bytes
placed r line lines [] = lines
placed r line lines ((i, ms) ∷ es) =
    if not r.active && (ltb_ℤ (pos 0) r.end_epoch_ms && ltb_ℤ r.end_epoch_ms ms)
    then lines
    else if ltb_ℤ (last_ms ms es) r.start_epoch_ms
    then lines
    else insert_at (insert_position r.start_epoch_ms i ((i, ms) ∷ es)) line lines

unfoldable pub inject_hls_scte_date_range : (Bytes → ℤ) → Range → List Bytes → List Bytes
unfolding placed
inject_hls_scte_date_range parse_utc r lines =
    let line = build_hls_scte_date_range_line r in
    if is_empty line then lines else placed r line lines (pdt_lines parse_utc 0 lines)
