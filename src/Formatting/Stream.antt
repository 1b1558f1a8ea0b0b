-- ===== src/Formatting/Stream.antt =====
-- The metadata of one stream (src/worker/worker.cpp, `formattedMetadataForStream`).
use multi_coder.Prelude.{
  false, not, ◌&&◌, List, [], ◌∷◌, ◌++◌, Bytes, codes, beq, is_empty, if◌then◌else◌,
}
use multi_coder.Strings.Lines.{concat, join}
use multi_coder.Json.{Object, get_string, get_bool, get_raw_value, get_sub_object}
use multi_coder.Xml.{xml_field}
use multi_coder.Cue.Rows.{json_array_strings}
use multi_coder.Formatting.{Common, extract_now_playing_blocks, current_block, apply_meta_template}
use multi_coder.Formatting.Ext.{Doubles, title_tags, artist_tags, duration_tags}
use multi_coder.Formatting.Hls.{compact, hls_metadata_by_parser}

legacy_value : Common → Bytes → Bytes → Bytes
legacy_value c xml f =
    if beq f (codes "title")
    then c.title
    else if beq f (codes "artist")
    then c.artist
    else if beq f (codes "duration")
    then c.duration
    else xml_field xml (f ∷ [])

legacy_parts : Common → Bytes → List Bytes → List Bytes
unfolding legacy_value
legacy_parts c xml [] = []
legacy_parts c xml (f ∷ fs) =
    let v = legacy_value c xml f in
    let rest = legacy_parts c xml fs in if is_empty v then rest else v ∷ rest

-- The separator and the list of fields, where there is no template.
unfoldable pub legacy_text : Common → Object → Bytes → Bytes
unfolding legacy_parts
legacy_text c parser xml =
    let sep = get_string parser (codes "separator") (codes " - ") in
    let listed = json_array_strings (get_raw_value parser (codes "fields") []) in
    let fields : List Bytes = elim listed [
      | [] ↦ codes "artist" ∷ codes "title" ∷ []
      | f ∷ fs ↦ f ∷ fs
    ] in
    let with_station =
      get_bool parser (codes "includeStationId") false && not (is_empty c.station_id) in
    let parts = legacy_parts c xml fields ++ (if with_station then c.station_id ∷ [] else []) in
    elim parts [
      | [] ↦ if is_empty c.artist then c.title else concat (c.artist ∷ sep ∷ c.title ∷ [])
      | p ∷ ps ↦ join sep (p ∷ ps)
    ]

module _ {D : Type 0} (d : Doubles D) where
  unfoldable pub formatted_metadata_for_stream : D → Bytes → Bytes → Object → Bytes
  unfolding legacy_text
  formatted_metadata_for_stream now stream_tag xml stream_cfg =
      let title = xml_field xml title_tags in
      let artist = xml_field xml artist_tags in
      let duration = xml_field xml duration_tags in
      let c : Common = record {
        title = title;
        artist = artist;
        duration = duration;
        station_id = get_string stream_cfg (codes "stationId") [];
      } in
      let parser = get_sub_object stream_cfg (codes "metaParser") in
      let tpl = get_string parser (codes "template") [] in
      if is_empty title && is_empty artist
      then compact 280 xml
      else if beq stream_tag (codes "HLS")
      then hls_metadata_by_parser d now xml stream_cfg title artist duration
      else if beq stream_tag (codes "SRT")
      then concat
          (codes "title=" ∷ title ∷ codes ";artist=" ∷ artist ∷ codes ";duration=" ∷ duration ∷ [])
      else if not (is_empty tpl)
      then apply_meta_template tpl c (current_block xml (extract_now_playing_blocks xml))
      else legacy_text c parser xml
