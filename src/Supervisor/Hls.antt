-- ===== src/Supervisor/Hls.antt =====
-- Segments and playlists of the HLS output (src/supervisor/supervisor_api.cpp, `proxyHlsFromWorker`
-- and the route `/encoder/<n>/hls/<file>` of `handleReq`).
pub mod Names
pub mod Serve
use multi_coder.Prelude.{
  ℕ, suc, ◌+◌, ◌-◌, ◌*◌, Bool, true, false, not, ◌&&◌, ◌||◌, List, [], ◌∷◌, ◌++◌, map, Option, none,
  some, Bytes, codes, beq, is_empty, drop, take, length, starts_with, find, find_byte, to_string,
  leb, ◌==◌, if◌then◌else◌,
}
use multi_coder.Prelude.Int.{ℤ, pos, negsuc, ◌+ℤ◌, ◌-ℤ◌, ◌*ℤ◌, ltb_ℤ}
use multi_coder.Strings.{is_digit, stoi, int_to_string}
use multi_coder.Strings.Lines.{
  concat, contains, break_at, has_byte, behind_last, get_lines, without_cr, unlines,
}
use multi_coder.Json.{Object, get_string, get_int}
use multi_coder.Scte.{read_hls_scte_range_state}
use multi_coder.Scte.DateRange.{inject_hls_scte_date_range}
use multi_coder.Supervisor.Http.{crlf}
use multi_coder.Supervisor.Host.{
  Host, World, Anchor, encoder_file, metadata_runtime_path, read_file, read_json_file,
}

-- `badName`: the file stands in the folder itself or in `segments/`.
unfoldable pub bad_name : Bytes → Bool
unfolding has_byte contains starts_with
bad_name filename =
    if is_empty filename || has_byte b'\\' filename || contains (codes "..") filename
    then true
    else if has_byte b'/' filename
    then not (starts_with (codes "segments/") filename) || has_byte b'/' (drop 9 filename)
    else false

-- What the worker's playback port answers.
pub data Reply : Type 0 where
  no_reply : Bytes → Reply
  timed_out : Reply
  reply : Bytes → Reply

pub data Proxied : Type 0 where
  proxied : Bytes → Proxied
  not_proxied : Bytes → Proxied

abbrev timeout_text : Bytes
timeout_text = codes "hls proxy recv timeout"

headers_end : Option ℕ → Bytes → Proxied
headers_end none raw = not_proxied (codes "bad headers")
headers_end (some n) raw = proxied (drop (n + 4) raw)

status_line : Option ℕ → Bytes → Proxied
unfolding headers_end
status_line none raw = not_proxied (codes "bad response")
status_line (some n) raw =
    if contains (codes " 200 ") (take n raw)
    then headers_end (find (crlf ++ crlf) raw) raw
    else not_proxied (codes "upstream status not 200")

unfoldable pub proxy_body : Reply → Proxied
unfolding status_line find contains
proxy_body (no_reply err) = not_proxied err
proxy_body timed_out = not_proxied timeout_text
proxy_body (reply raw) =
    if is_empty raw then not_proxied (codes "empty response") else status_line (find crlf raw) raw

-- `%d` of a number in a text, -1 where there is none
abbrev number_or_minus : Option ℤ → ℤ
number_or_minus none = negsuc 0
number_or_minus (some n) = n

digits_number : Bytes → ℤ
digits_number ds = if is_empty ds then negsuc 0 else number_or_minus (stoi ds)

unfoldable pub segment_number : Bytes → ℤ
unfolding digits_number break_at behind_last
segment_number ln = elim (behind_last (codes "segment-") ln) [
  | none ↦ negsuc 0
  | some rest ↦ digits_number (break_at (λ c. not (is_digit c)) rest).0
]

-- The media sequence, and the segments with their numbers.
pub record Scan : Type 0 where
  pub media_seq : ℤ
  pub segments : List (Bytes × ℤ)

is_segment : Bytes → Bool
is_segment [] = false
is_segment (c ∷ s) = not (c == b'#') && contains (codes ".aac") (c ∷ s)

-- The loop over the lines; the sequence of a later line goes before that of an earlier one.
unfoldable pub scan_lines : ℤ → List Bytes → Scan
unfolding segment_number is_segment starts_with contains
scan_lines seq [] = record { media_seq = seq; segments = [] }
scan_lines seq (ln ∷ ls) =
    let is_seq = starts_with (codes "#EXT-X-MEDIA-SEQUENCE:") ln in
    let rest = scan_lines (if is_seq then number_or_minus (stoi (drop 22 ln)) else seq) ls in
    if not is_seq && is_segment ln
    then record rest { segments = (ln, segment_number ln) ∷ rest.segments }
    else rest

abbrev is_negative : ℤ → Bool
is_negative n = ltb_ℤ n (pos 0)

-- The date of the first segment is kept with its number, and moves on with it.
unfoldable pub next_anchor : ℤ → ℤ → ℤ → Option Anchor → Anchor
next_anchor now_ms seg_secs first none = record {
  seq = first;
  epoch_ms = now_ms -ℤ pos 500 *ℤ seg_secs;
}
next_anchor now_ms seg_secs first (some a) =
    if ltb_ℤ first (a.seq -ℤ pos 50)
    then record { seq = first; epoch_ms = now_ms -ℤ pos 500 *ℤ seg_secs }
    else if ltb_ℤ a.seq first
    then record { seq = first; epoch_ms = a.epoch_ms +ℤ (first -ℤ a.seq) *ℤ (pos 1000 *ℤ seg_secs) }
    else a

-- `iso_of` is `gmtime` with `strftime`.
module _ (iso_of : ℤ → Bytes) where
  segment_lines : ℤ → Bytes → ℤ → List (Bytes × ℤ) → Bytes
  segment_lines seg_secs payload epoch [] = []
  segment_lines seg_secs payload epoch ((uri, n) ∷ segs) = concat (
      codes "#EXT-X-PROGRAM-DATE-TIME:"
      ∷ iso_of epoch
      ∷ (10 ∷ [])
      ∷ codes "#EXTINF:"
      ∷ int_to_string seg_secs
      ∷ codes ".000,"
      ∷ payload
      ∷ (10 ∷ [])
      ∷ uri
      ∷ (10 ∷ [])
      ∷ segment_lines seg_secs payload (epoch +ℤ pos 1000 *ℤ seg_secs) segs
      ∷ [])

  unfoldable pub timed_playlist : ℤ → ℤ → Bytes → ℤ → ℤ → List (Bytes × ℤ) → Bytes
  unfolding segment_lines
  timed_playlist seg_secs start_offset payload media_seq epoch segs = concat (
      unlines (
        codes "#EXTM3U"
        ∷ codes "#EXT-X-VERSION:6"
        ∷ (codes "#EXT-X-TARGETDURATION:" ++ int_to_string seg_secs)
        ∷ (codes "#EXT-X-MEDIA-SEQUENCE:" ++ int_to_string media_seq)
        ∷ codes "#EXT-X-INDEPENDENT-SEGMENTS"
        ∷ concat (
            codes "#EXT-X-START:TIME-OFFSET="
            ∷ int_to_string start_offset
            ∷ codes ",PRECISE=YES"
            ∷ [])
        ∷ [])
      ∷ segment_lines seg_secs payload epoch segs
      ∷ [])

one_line : Bytes → Bytes
one_line s = map (λ c. if c == 13 || c == 10 then 32 else c) s

lines_of : Bytes → List Bytes
lines_of text = map without_cr (get_lines text)

without_empty : List Bytes → List Bytes
without_empty [] = []
without_empty (l ∷ ls) = if is_empty l then without_empty ls else l ∷ without_empty ls

set_anchor : ℕ → Anchor → Host → Host
set_anchor enc a h = record h { anchors = λ k. if k == enc then some a else h.anchors k }

-- The playlist from the disk, with a date for each segment and the range of a break.
module _ (w : World) (iso_of : ℤ → Bytes) (parse_utc : Bytes → ℤ) where
  rebuilt : ℕ → Bytes → Scan → Host → Bytes × Host
  unfolding next_anchor timed_playlist one_line lines_of without_empty set_anchor unlines
  rebuilt enc data_text scan h = elim scan.segments [
    | [] ↦ (data_text, h)
    | (uri, n) ∷ segs ↦
        let cfg = read_json_file h (encoder_file enc (codes "hls.json")) in
        let configured = get_int cfg (codes "segmentSeconds") (pos 6) in
        let seg_secs = if ltb_ℤ (pos 0) configured then configured else pos 6 in
        let rt = read_json_file h (metadata_runtime_path enc) in
        let media_seq =
          if is_negative scan.media_seq
          then (if is_negative n then pos 0 else n)
          else scan.media_seq in
        let a =
          next_anchor (pos w.now_ms) seg_secs (if is_negative n then media_seq else n)
            (h.anchors enc) in
        let text =
          timed_playlist iso_of seg_secs (get_int cfg (codes "startTimeOffset") (pos 0))
            (one_line (get_string rt (codes "lastFormattedHLS") [])) media_seq a.epoch_ms
            ((uri, n) ∷ segs) in
        (
          unlines (
              without_empty (
                inject_hls_scte_date_range parse_utc (read_hls_scte_range_state parse_utc rt)
                  (lines_of text))),
          set_anchor enc a h,
        )
  ]

  unfoldable pub timed_from_disk : ℕ → Bytes → Host → Bytes × Host
  unfolding rebuilt scan_lines lines_of
  timed_from_disk enc text h = rebuilt enc text (scan_lines (negsuc 0) (lines_of text)) h
