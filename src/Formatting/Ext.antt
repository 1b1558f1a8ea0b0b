-- ===== src/Formatting/Ext.antt =====
-- The `ext` method of the metadata of HLS (src/worker/worker.cpp, the branches of
-- `hlsMetadataByParser`). A `double` is of a type with the C++ operations that the code calls.
use multi_coder.Prelude.{
  Bool, false, not, ◌&&◌, ◌||◌, List, [], ◌∷◌, ◌++◌, map, Option, none, some, Bytes, codes, beq,
  is_empty, if◌then◌else◌,
}
use multi_coder.Strings.{trim_copy, lower_copy, single_line}
use multi_coder.Strings.Lines.{concat, join}
use multi_coder.Xml.{xml_field, xml_field_raw}
use multi_coder.Playlist.{sanitize_for_extinf}
use multi_coder.Streams.Sidecar.{json_escape_compact}
use multi_coder.Formatting.{Common, field_value_with_aliases}

-- `std::stod`, comparisons, the division by 1000, the sum, and `<<` with three digits.
pub record Doubles (D : Type 0) : Type 0 where
  pub stod : Bytes → Option D
  pub zero_d : D
  pub exceeds_1000 : D → Bool
  pub is_positive : D → Bool
  pub in_thousands : D → D
  pub plus : D → D → D
  pub fixed3 : D → Bytes

abbrev pub duration_tags : List Bytes
duration_tags = codes "duration" ∷ codes "length" ∷ []

abbrev pub title_tags : List Bytes
title_tags = codes "title" ∷ codes "song" ∷ codes "name" ∷ []

abbrev pub artist_tags : List Bytes
artist_tags = codes "artist" ∷ codes "performer" ∷ []

text_member : Bytes → Bytes → Bytes
text_member name value =
    concat (codes "\"" ∷ name ∷ codes "\":\"" ∷ json_escape_compact value ∷ codes "\"" ∷ [])

-- A member with its comma, where there is a value.
member_if_any : Bytes → Bytes → Bytes
unfolding text_member
member_if_any name value = if is_empty value then [] else b',' ∷ text_member name value

-- The profile `universal`.
unfoldable pub universal_ext : Common → Bytes → Bytes
universal_ext c block =
    let out =
      if not (is_empty c.artist) && not (is_empty c.title)
      then concat (c.artist ∷ codes " - " ∷ c.title ∷ [])
      else if not (is_empty c.title)
      then c.title
      else if not (is_empty c.artist)
      then c.artist
      else field_value_with_aliases block (codes "category") c.station_id in
    sanitize_for_extinf (if is_empty out then single_line block else out) 8192

module _ {D : Type 0} (d : Doubles D) where
  -- Milliseconds and seconds are told apart by their size.
  abbrev seconds : D → D
  seconds v = if d.exceeds_1000 v then d.in_thousands v else v

  duration_of : Bytes → D
  duration_of s = elim (d.stod s) [ none ↦ d.zero_d | some v ↦ seconds v ]

  -- `toDurationSecs`
  to_duration_secs : Bytes → D
  unfolding duration_of
  to_duration_secs block =
      let s = xml_field block duration_tags in if is_empty s then d.zero_d else duration_of s

  triton_properties_object : Bytes → Bytes
  unfolding to_duration_secs text_member member_if_any
  triton_properties_object block =
      let dur = to_duration_secs block in
      concat (
        codes "{"
        ∷ text_member (codes "cue_title") (xml_field block title_tags)
        ∷ codes ","
        ∷ text_member (codes "track_artist_name") (xml_field block artist_tags)
        ∷ member_if_any (codes "track_id") (xml_field block (codes "cart" ∷ codes "track_id" ∷ []))
        ∷ member_if_any (codes "track_isrc")
            (xml_field block (codes "isrc" ∷ codes "IRSC" ∷ codes "track_isrc" ∷ []))
        ∷ member_if_any (codes "track_album_name")
            (xml_field block (codes "trivia" ∷ codes "album" ∷ []))
        ∷ (if d.is_positive dur then codes ",\"cue_time_duration\":" ++ d.fixed3 dur else [])
        ∷ codes "}"
        ∷ [])

  triton_track : Bytes → Bytes
  unfolding triton_properties_object
  triton_track block = codes "{\"name\":\"track\",\"properties\":" ++ triton_properties_object block

  -- The profile `triton`; the blocks to come are empty where only the current one is wanted.
  unfoldable pub triton_ext : Bytes → List Bytes → Bytes
  unfolding triton_track
  triton_ext block [] = triton_track block ++ codes "}"
  triton_ext block (u ∷ us) = concat (
      triton_track block
      ∷ codes ",\"upcoming\":["
      ∷ join (codes ",") (map (λ b. triton_track b ++ codes "}") (u ∷ us))
      ∷ codes "]}"
      ∷ [])

  dur_secs_from_block : Bytes → D
  unfolding duration_of
  dur_secs_from_block block =
      let s = xml_field_raw block duration_tags in if is_empty s then d.zero_d else duration_of s

  -- The members that are added to the current item.
  custom_members : List (Bytes × Bytes) → Bytes
  unfolding text_member
  custom_members [] = []
  custom_members ((tag, v) ∷ ps) = codes "," ++ (text_member tag v ++ custom_members ps)

  -- `makeExtItem`
  make_ext_item : Bytes → D → List (Bytes × Bytes) → Bytes
  unfolding dur_secs_from_block text_member member_if_any custom_members
  make_ext_item block start custom = concat (
      codes "{"
      ∷ text_member (codes "type") (xml_field block (codes "media_type" ∷ []))
      ∷ codes ","
      ∷ text_member (codes "title") (xml_field block title_tags)
      ∷ codes ","
      ∷ text_member (codes "album") (xml_field block (codes "trivia" ∷ []))
      ∷ codes ","
      ∷ text_member (codes "artist") (xml_field block artist_tags)
      ∷ codes ",\"image\":\"\",\"duration\":"
      ∷ d.fixed3 (dur_secs_from_block block)
      ∷ codes ",\"start\":"
      ∷ d.fixed3 start
      ∷ codes ","
      ∷ text_member (codes "id") (xml_field block (codes "cart" ∷ []))
      ∷ member_if_any (codes "category") (xml_field block (codes "category" ∷ []))
      ∷ custom_members custom
      ∷ codes "}"
      ∷ [])

  -- Each item starts where the one before it ends.
  chained_items : D → List Bytes → List Bytes
  unfolding make_ext_item
  chained_items start [] = []
  chained_items start (b ∷ bs) =
      make_ext_item b start [] ∷ chained_items (d.plus start (dur_secs_from_block b)) bs

  upcoming_member : D → List Bytes → Bytes
  unfolding chained_items
  upcoming_member start [] = []
  upcoming_member start (b ∷ bs) =
      concat
        (codes ",\"upcoming\":[" ∷ join (codes ",") (chained_items start (b ∷ bs)) ∷ codes "]" ∷ [])

  -- The profile `orban`.
  unfoldable pub orban_ext : D → List (Bytes × Bytes) → Bytes → List Bytes → Bytes
  unfolding upcoming_member
  orban_ext now custom block upcoming = concat (
      codes "{\"current\":"
      ∷ make_ext_item block now custom
      ∷ upcoming_member (d.plus now (dur_secs_from_block block)) upcoming
      ∷ codes "}"
      ∷ [])

abbrev built_ins : List Bytes
built_ins =
    codes "title"
    ∷ codes "artist"
    ∷ codes "category"
    ∷ codes "duration"
    ∷ codes "media_type"
    ∷ codes "trivia"
    ∷ codes "cart"
    ∷ codes "station"
    ∷ codes "stationid"
    ∷ codes "sched_time"
    ∷ codes "stack_pos"
    ∷ codes "stack_position"
    ∷ []

unfoldable pub is_one_of : Bytes → List Bytes → Bool
is_one_of s [] = false
is_one_of s (t ∷ ts) = beq s t || is_one_of s ts

-- One round of the loop over the tags, with the pairs so far.
add_custom : Bytes → Bytes → Bytes → List (Bytes × Bytes) → List (Bytes × Bytes)
unfolding is_one_of
add_custom block station_id raw_tag pairs =
    let tag = trim_copy raw_tag in
    let tl = lower_copy tag in
    let v = field_value_with_aliases block tag station_id in
    if is_empty tag
    then pairs
    else if is_one_of tl built_ins
    then pairs
    else if is_empty v
    then pairs
    else if is_one_of tl (map (λ p. lower_copy p.0) pairs)
    then pairs
    else pairs ++ (tag, v) ∷ []

unfoldable pub custom_pairs :
    Bytes → Bytes → List Bytes → List (Bytes × Bytes) → List (Bytes × Bytes)
unfolding add_custom
custom_pairs block station_id [] pairs = pairs
custom_pairs block station_id (t ∷ ts) pairs =
    custom_pairs block station_id ts (add_custom block station_id t pairs)
