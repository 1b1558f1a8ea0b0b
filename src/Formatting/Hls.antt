-- ===== src/Formatting/Hls.antt =====
-- The metadata of HLS by the parser that is configured (src/worker/worker.cpp,
-- `hlsMetadataByParser`).
use multi_coder.Prelude.{
  ℕ, Bool, false, not, ◌&&◌, ◌||◌, List, [], ◌∷◌, ◌++◌, Option, none, some, Bytes, codes, beq,
  is_empty, length, take, ltb, leb, if◌then◌else◌,
}
use multi_coder.Prelude.Int.{ℤ, pos, negsuc}
use multi_coder.Strings.{lower_copy, single_line, stoi}
use multi_coder.Strings.Lines.{concat, join}
use multi_coder.Json.{Object, get_string, get_raw_value, get_sub_object}
use multi_coder.Xml.{xml_field}
use multi_coder.Cue.Rows.{json_array_strings}
use multi_coder.Formatting.{
  Common, extract_now_playing_blocks, current_block, field_value_with_aliases, id3_frame_for_tag,
}
use multi_coder.Formatting.Ext.{
  Doubles, is_one_of, universal_ext, triton_ext, orban_ext, custom_pairs,
}

profile_of : Object → Bytes
profile_of parser =
    let p = lower_copy (get_string parser (codes "profile") (codes "orban")) in
    if beq p (codes "universal-standard")
      || beq p (codes "universal standard")
      || beq p (codes "universal")
    then codes "universal"
    else if beq p (codes "triton")
    then p
    else codes "orban"

abbrev pub includes_future : Object → Bool
includes_future parser =
    beq (get_string parser (codes "scope") (codes "current")) (codes "currentFuture")

abbrev default_tags : List Bytes
default_tags = codes "title" ∷ codes "artist" ∷ codes "category" ∷ codes "duration" ∷ []

-- Each tag once, in order.
unfoldable pub unique_tags : List Bytes → List Bytes → List Bytes
unfolding is_one_of
unique_tags seen [] = []
unique_tags seen (t ∷ ts) =
    let skips = is_empty t || is_one_of t seen in
    let rest = unique_tags (if skips then seen else t ∷ seen) ts in if skips then rest else t ∷ rest

tags_of : Object → List Bytes
unfolding unique_tags
tags_of parser =
    let listed = json_array_strings (get_raw_value parser (codes "tags") []) in
    unique_tags [] (elim listed [ [] ↦ default_tags | t ∷ ts ↦ t ∷ ts ])

-- A position that is read as a number from 1 on.
abbrev is_upcoming_pos : Option ℤ → Bool
is_upcoming_pos (some (pos n)) = leb 1 n
is_upcoming_pos (some (negsuc n)) = false
is_upcoming_pos none = false

unfoldable pub upcoming_blocks : List Bytes → List Bytes
unfolding stoi
upcoming_blocks [] = []
upcoming_blocks (b ∷ bs) =
    let rest = upcoming_blocks bs in
    if is_upcoming_pos (stoi (xml_field b (codes "stack_pos" ∷ []))) then b ∷ rest else rest

-- A text on one line, with what is over the limit cut off.
unfoldable pub compact : ℕ → Bytes → Bytes
compact limit s =
    let line = single_line s in
    if ltb limit (length line) then take limit line ++ codes "..." else line

id3_value : Common → Bytes → Bytes → Bytes
id3_value c block tag =
    let v = field_value_with_aliases block tag c.station_id in
    if not (is_empty v)
    then v
    else if beq tag (codes "title")
    then c.title
    else if beq tag (codes "artist")
    then c.artist
    else if beq tag (codes "duration")
    then c.duration
    else []

without_empty : List Bytes → List Bytes
without_empty [] = []
without_empty (s ∷ ss) = let rest = without_empty ss in if is_empty s then rest else s ∷ rest

frames_of : Common → Bytes → List Bytes → List Bytes
unfolding id3_value
frames_of c block [] = []
frames_of c block (t ∷ ts) = id3_frame_for_tag t (id3_value c block t) ∷ frames_of c block ts

upcoming_title : Bytes → Bytes
upcoming_title block =
    let ut = field_value_with_aliases block (codes "title") [] in
    let ua = field_value_with_aliases block (codes "artist") [] in
    if is_empty ua then ut else concat (ua ∷ codes " - " ∷ ut ∷ [])

upcoming_titles : List Bytes → List Bytes
upcoming_titles [] = []
upcoming_titles (b ∷ bs) = upcoming_title b ∷ upcoming_titles bs

unfoldable pub id3_text : Common → Bytes → Bytes → List Bytes → List Bytes → Bytes
unfolding frames_of without_empty upcoming_titles upcoming_title
id3_text c profile block tags upcoming =
    let prefix = if beq profile (codes "orban") then codes "ID3:" else [] in
    let out = prefix ++ join (codes ";") (without_empty (frames_of c block tags)) in
    let next = join (codes " | ") (without_empty (upcoming_titles upcoming)) in
    let sep = if not (is_empty out) && not (beq out (codes "ID3:")) then codes ";" else [] in
    if is_empty next
    then out
    else concat (out ∷ sep ∷ codes "TXXX-UPCOMING=\"" ∷ next ∷ codes "\"" ∷ [])

module _ {D : Type 0} (d : Doubles D) where
  ext_text : D → Common → Bytes → Bytes → List Bytes → List Bytes → Bytes
  ext_text now c profile block tags upcoming =
      if beq profile (codes "universal")
      then universal_ext c block
      else if beq profile (codes "triton")
      then triton_ext d block upcoming
      else orban_ext d now (custom_pairs block c.station_id tags []) block upcoming

  -- `c` holds the title, artist and duration given. The method is in lower case where it is
  -- compared with `xmlPassthrough`.
  unfoldable pub hls_metadata_by_parser : D → Bytes → Object → Bytes → Bytes → Bytes → Bytes
  unfolding profile_of tags_of ext_text
  hls_metadata_by_parser now xml stream_cfg title artist duration =
      let parser = get_sub_object stream_cfg (codes "metaParser") in
      let method = lower_copy (get_string parser (codes "method") (codes "id3")) in
      let station_id =
        get_string stream_cfg (codes "stationId") (get_string stream_cfg (codes "streamId") []) in
      let c : Common = record {
        title = title;
        artist = artist;
        duration = duration;
        station_id = station_id;
      } in
      let blocks = extract_now_playing_blocks xml in
      let block = current_block xml blocks in
      let upcoming = if includes_future parser then upcoming_blocks blocks else [] in
      let tags = tags_of parser in
      let profile = profile_of parser in
      if beq method (codes "xmlPassthrough")
      then compact 600 (if includes_future parser then xml else block)
      else if beq method (codes "ext")
      then ext_text now c profile block tags upcoming
      else id3_text c profile block tags upcoming
