-- ===== src/Formatting.antt =====
-- The fields of a metadata payload (src/worker/worker.cpp: `extractNowPlayingBlocks`,
-- `selectCurrentNowPlayingIndex`, `fieldValueWithAliases`, `applyMetaTemplate`, `id3FrameForTag`).
pub mod Ext
pub mod Hls
pub mod Stream
pub mod Template
pub mod Blocks
use mathlib.Core.Option
use multi_coder.Prelude.{
  ℕ, zero, suc, ◌+◌, Bool, true, false, not, ◌||◌, List, [], ◌∷◌, ◌++◌, Option, none, some, Bytes,
  codes, beq, is_empty, drop, take, length, get_elem?, find, find_byte, if◌then◌else◌,
}
use multi_coder.Strings.{upper_ascii}
use multi_coder.Strings.Lines.{concat}
use multi_coder.Xml.{xml_field}

abbrev pub open_now : Bytes
open_now = codes "<nowplaying>"

abbrev pub close_now : Bytes
close_now = codes "</nowplaying>"

-- The loop; every block is shorter than the rest of the text, whose length is fuel enough.
unfoldable pub blocks_from : ℕ → Bytes → List Bytes
blocks_from zero xml = []
blocks_from (suc fuel) xml = elim (find open_now xml) [
  | none ↦ []
  | some b ↦
      let s = drop b xml in
      elim (find close_now s) [
        | none ↦ []
        | some e ↦ let n = e + length close_now in take n s ∷ blocks_from fuel (drop n s)
      ]
]

unfoldable pub extract_now_playing_blocks : Bytes → List Bytes
unfolding blocks_from find
extract_now_playing_blocks xml = blocks_from (length xml) xml

-- The position of the first block that passes a test.
first_where : (Bytes → Bool) → List Bytes → Option ℕ
first_where p [] = none
first_where p (b ∷ bs) = if p b then some 0 else Option.map (λ k. suc k) (first_where p bs)

unfoldable pub select_current_now_playing_index : List Bytes → ℕ
unfolding first_where
select_current_now_playing_index blocks =
    let on_air = λ (b : Bytes). beq (xml_field b (codes "stack_pos" ∷ [])) (codes "0") in
    let timed = λ (b : Bytes). not (is_empty (xml_field b (codes "air_time" ∷ []))) in
    elim (first_where on_air blocks) [
      | some i ↦ i
      | none ↦ elim (first_where timed blocks) [ some i ↦ i | none ↦ 0 ]
    ]

-- `blocks[curIdx]`, and the whole payload where there are no blocks.
unfoldable pub current_block : Bytes → List Bytes → Bytes
current_block xml blocks = elim (get_elem? blocks (select_current_now_playing_index blocks)) [
  | some b ↦ b
  | none ↦ xml
]

-- The tags under which a field is looked up.
unfoldable pub aliases : Bytes → List Bytes
aliases tag =
    if beq tag (codes "stack_position")
    then codes "stack_pos" ∷ []
    else if beq tag (codes "title")
    then codes "title" ∷ codes "song" ∷ codes "name" ∷ []
    else if beq tag (codes "artist")
    then codes "artist" ∷ codes "performer" ∷ []
    else if beq tag (codes "duration")
    then codes "duration" ∷ codes "length" ∷ []
    else if beq tag (codes "category")
    then codes "category" ∷ codes "type" ∷ []
    else if beq tag (codes "album")
    then codes "album" ∷ codes "trivia" ∷ []
    else tag ∷ []

-- `fieldValueWithAliases`, which is only called with its entities decoded
unfoldable pub field_value_with_aliases : Bytes → Bytes → Bytes → Bytes
unfolding aliases
field_value_with_aliases xml_block tag station_id =
    if beq tag (codes "stationId") then station_id else xml_field xml_block (aliases tag)

-- The parts of a payload that a template may also name.
pub record Common : Type 0 where
  pub title : Bytes
  pub artist : Bytes
  pub duration : Bytes
  pub station_id : Bytes

common_value : Common → Bytes → Bytes
common_value c key =
    if beq key (codes "artist")
    then c.artist
    else if beq key (codes "title")
    then c.title
    else if beq key (codes "duration")
    then c.duration
    else if beq key (codes "stationId")
    then c.station_id
    else []

-- What a token in braces stands for, empty where it is unknown.
unfoldable pub token_value : Common → Bytes → Bytes → Bytes
unfolding common_value
token_value c xml_block key =
    let v =
      if is_empty xml_block then [] else field_value_with_aliases xml_block key c.station_id in
    if is_empty v then common_value c key else v

-- A token that is unknown or empty stays as it is.
unfoldable pub expanded : (Bytes → Bytes) → Bytes → Bytes
expanded value key =
    if is_empty key || is_empty (value key) then b'{' ∷ (key ++ b'}' ∷ []) else value key

-- The loop of `applyMetaTemplate`, on what lies behind `pos`; the length of the template is fuel
-- enough.
unfoldable pub template_from : ℕ → (Bytes → Bytes) → Bytes → Bytes
unfolding expanded
template_from zero value rest = rest
template_from (suc fuel) value rest = elim (find_byte b'{' rest) [
  | none ↦ rest
  | some o ↦
      let inside = drop (suc o) rest in
      elim (find_byte b'}' inside) [
        | none ↦ rest
        | some c ↦
            take o rest
            ++ (expanded value (take c inside) ++ template_from fuel value (drop (suc c) inside))
      ]
]

unfoldable pub apply_meta_template : Bytes → Common → Bytes → Bytes
unfolding template_from token_value
apply_meta_template tmpl c xml_block = template_from (length tmpl) (token_value c xml_block) tmpl

id3_name : Bytes → Bytes
id3_name tag =
    if beq tag (codes "title")
    then codes "TIT2"
    else if beq tag (codes "artist")
    then codes "TPE1"
    else if beq tag (codes "album") || beq tag (codes "trivia")
    then codes "TALB"
    else if beq tag (codes "category")
    then codes "TCON"
    else if beq tag (codes "duration")
    then codes "TLEN"
    else codes "TXXX-" ++ upper_ascii tag

unfoldable pub id3_frame_for_tag : Bytes → Bytes → Bytes
unfolding id3_name
id3_frame_for_tag tag value =
    if is_empty value then [] else concat (id3_name tag ∷ codes "=\"" ∷ value ∷ codes "\"" ∷ [])
