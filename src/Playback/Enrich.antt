-- ===== src/Playback/Enrich.antt =====
-- What the worker's playback server makes of FFmpeg's playlist (src/worker/worker.cpp,
-- `serveHlsHttp`). The durations are whole seconds.
use multi_coder.Prelude.{
  ℕ, suc, Bool, false, not, ◌&&◌, ◌||◌, List, [], ◌∷◌, ◌++◌, map, Option, none, some, Bytes, codes,
  beq, is_empty, drop, take, starts_with, get_elem?, if◌then◌else◌,
}
use multi_coder.Prelude.Int.{ℤ, pos, negsuc, ltb_ℤ}
use multi_coder.Strings.{int_to_string}
use multi_coder.Strings.Lines.{concat, get_lines, without_cr, unlines}
use multi_coder.Json.{Object, get_string, get_int}
use multi_coder.Playlist.{is_extinf, is_safe_meta_for_extinf, sanitize_for_extinf}
use multi_coder.Scte.{read_hls_scte_range_state}
use multi_coder.Scte.DateRange.{inject_hls_scte_date_range}
use multi_coder.Playback.Dates.{DateTime, PdtAnchor, iso_to_utc_z, synthesize_dates}

abbrev version_tag : Bytes
version_tag = codes "#EXT-X-VERSION:"

abbrev target_tag : Bytes
target_tag = codes "#EXT-X-TARGETDURATION:"

abbrev sequence_tag : Bytes
sequence_tag = codes "#EXT-X-MEDIA-SEQUENCE:"

abbrev date_tag : Bytes
date_tag = codes "#EXT-X-PROGRAM-DATE-TIME:"

abbrev independent : Bytes
independent = codes "#EXT-X-INDEPENDENT-SEGMENTS"

upgraded : ℤ → Bytes → Bytes
unfolding starts_with beq
upgraded seg_secs l =
    if starts_with version_tag l
    then codes "#EXT-X-VERSION:6"
    else if starts_with target_tag l
    then target_tag ++ int_to_string seg_secs
    else if beq l (codes "#EXT-X-ALLOW-CACHE:YES")
    then []
    else l

any_line : (Bytes → Bool) → List Bytes → Bool
any_line p [] = false
any_line p (l ∷ ls) = p l || any_line p ls

-- The index of the last line with a tag.
last_with : Bytes → List Bytes → Option ℕ
unfolding starts_with
last_with tag [] = none
last_with tag (l ∷ ls) =
    let here = if starts_with tag l then some 0 else none in
    elim (last_with tag ls) [ some i ↦ some (suc i) | none ↦ here ]

-- The header tags that are missing, behind the media sequence.
with_header : ℤ → List Bytes → List Bytes
unfolding any_line last_with
with_header offset lines =
    let has_indep = any_line (λ l. beq l independent) lines in
    let has_start = any_line (λ l. starts_with (codes "#EXT-X-START:") l) lines in
    let indep = if has_indep then [] else independent ∷ [] in
    let start =
      if has_start
      then []
      else concat
          (codes "#EXT-X-START:TIME-OFFSET=" ∷ int_to_string offset ∷ codes ",PRECISE=YES" ∷ [])
        ∷ [] in
    elim (last_with sequence_tag lines) [
      | none ↦ lines
      | some i ↦ take (suc i) lines ++ (indep ++ (start ++ drop (suc i) lines))
    ]

abbrev is_date : Bytes → Bool
is_date l = starts_with date_tag l

-- A date that follows its `#EXTINF` goes before it, and each `#EXTINF` gets the duration and the
-- payload. The flag says that an `#EXTINF` is held back.
unfoldable pub reorder_from : Bytes → Bool → List Bytes → List Bytes
unfolding starts_with
reorder_from extinf held [] = if held then extinf ∷ [] else []
reorder_from extinf held (l ∷ ls) =
    let swapped = held && is_date l in
    let holds = not swapped && is_extinf l in
    let rest = reorder_from extinf holds ls in
    let behind = if holds then rest else if swapped then extinf ∷ rest else l ∷ rest in
    if swapped then l ∷ behind else if held then extinf ∷ behind else behind

-- The target duration goes behind the version; an index past the end, where the code's iterator
-- is not valid, is the end.
moved_target : Option ℕ → Option ℕ → Option ℕ → List Bytes → List Bytes
moved_target (some ver) (some td) (some ms) lines = elim (get_elem? lines td) [
  | none ↦ lines
  | some line ↦
      let others = take td lines ++ drop (suc td) lines in
      take (suc ver) others ++ line ∷ drop (suc ver) others
]
moved_target none td ms lines = lines
moved_target (some ver) none ms lines = lines
moved_target (some ver) (some td) none lines = lines

without_empty : List Bytes → List Bytes
without_empty [] = []
without_empty (l ∷ ls) = let rest = without_empty ls in if is_empty l then rest else l ∷ rest

-- The payload in memory goes before that of the file, and is made safe.
unfoldable pub meta_payload : Bytes → Object → Bytes
unfolding is_safe_meta_for_extinf sanitize_for_extinf
meta_payload in_memory rt =
    let p = if is_empty in_memory then get_string rt (codes "lastFormattedHLS") [] else in_memory in
    if is_safe_meta_for_extinf p 8192 then p else sanitize_for_extinf p 8192

module _ (shift : DateTime → ℤ → Option Bytes) (iso_of : ℤ → Bytes) (parse_utc : Bytes → ℤ) where
  utc_line : Bytes → Bytes
  utc_line l = if is_date l then date_tag ++ iso_to_utc_z shift (drop 25 l) else l

  dated_lines : ℤ → ℤ → List Bytes → Option PdtAnchor → List Bytes × Option PdtAnchor
  unfolding any_line
  dated_lines now_ms seg_secs lines anchor =
      if any_line is_date lines
      then (lines, anchor)
      else synthesize_dates iso_of now_ms seg_secs lines anchor

  unfoldable pub enrich :
      ℤ → Bytes → Object → Object → Bytes → Option PdtAnchor → Bytes × Option PdtAnchor
  unfolding upgraded with_header utc_line dated_lines reorder_from moved_target last_with
      without_empty
  enrich now_ms in_memory rt hls_cfg text anchor =
      let configured = get_int hls_cfg (codes "segmentSeconds") (pos 6) in
      let seg_secs = if ltb_ℤ (pos 0) configured then configured else pos 6 in
      let payload = meta_payload in_memory rt in
      let extinf =
        concat (codes "#EXTINF:" ∷ int_to_string seg_secs ∷ codes ".000," ∷ payload ∷ []) in
      let l1 = map (λ l. upgraded seg_secs (without_cr l)) (get_lines text) in
      let l2 = with_header (get_int hls_cfg (codes "startTimeOffset") (negsuc 24)) l1 in
      let (l3, anchor') = dated_lines now_ms seg_secs (map utc_line l2) anchor in
      let l4 = reorder_from extinf false l3 in
      let l5 =
        moved_target (last_with version_tag l4) (last_with target_tag l4)
          (last_with sequence_tag l4) l4 in
      let range = read_hls_scte_range_state parse_utc rt in
      (unlines (without_empty (inject_hls_scte_date_range parse_utc range l5)), anchor')
