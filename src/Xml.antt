-- ===== src/Xml.antt =====
-- Markup in metadata and cue payloads (src/worker/worker.cpp: `decodeXmlEntities`, `xmlFieldRaw`,
-- `xmlField`, `extractCueFromXml`, `extractNowPlayingBlocks`), and `xmlEscape` of
-- src/supervisor/supervisor_api.cpp.
pub mod Entities
use Prim.Native.Nat.{bit_and, bit_or}
use multi_coder.Prelude.{
  ℕ, zero, suc, ◌+◌, ◌-◌, ◌*◌, ◌/◌, ◌%◌, ◌^◌, Bool, true, false, not, ◌&&◌, ◌||◌, List, [], ◌∷◌,
  ◌++◌, Option, none, some, Bytes, codes, beq, drop, take, find, find_byte, is_empty, length, leb,
  ltb, ◌==◌, if◌then◌else◌,
}
use multi_coder.Strings.{is_space, is_digit, is_xdigit, drop_while, lower_copy, trim_copy}

-- the replacement of `xmlEscape`
pub escape_char : ℕ → Bytes
escape_char c =
    if c == b'&'
    then codes "&amp;"
    else if c == b'<'
    then codes "&lt;"
    else if c == b'>'
    then codes "&gt;"
    else if c == b'"'
    then codes "&quot;"
    else if c == 39
    then codes "&apos;"
    else c ∷ []

unfoldable pub xml_escape : Bytes → Bytes
unfolding escape_char
xml_escape [] = []
xml_escape (c ∷ s) = escape_char c ++ xml_escape s

abbrev xdigit_value : ℕ → ℕ
xdigit_value c =
    if leb b'a' c then c - b'a' + 10 else if leb b'A' c then c - b'A' + 10 else c - b'0'

-- The value of the leading digits in a base, and whether there is one.
pub radix_value : Bool → ℕ → Bool → Bytes → Option ℕ
radix_value hex acc seen [] = if seen then some acc else none
radix_value hex acc seen (c ∷ s) =
    let rest = radix_value hex (acc * (if hex then 16 else 10) + xdigit_value c) true s in
    if (if hex then is_xdigit c else is_digit c) then rest else if seen then some acc else none

-- `strtoul` in base 16 skips `0x`; the zero counts as a digit where no other follows.
after_zero : Bytes → Option ℕ
after_zero [] = some 0
after_zero (c ∷ s) =
    if c == b'x' || c == b'X'
    then elim (radix_value true 0 false s) [ none ↦ some 0 | some n ↦ some n ]
    else radix_value true 0 true (c ∷ s)

unsigned_value : Bool → Bytes → Option ℕ
unsigned_value hex [] = none
unsigned_value hex (c ∷ s) =
    if hex && c == b'0' then after_zero s else radix_value hex 0 false (c ∷ s)

-- `unsigned long` wraps at 64 bits
negated : Option ℕ → Option ℕ
negated none = none
negated (some n) = some ((2 ^ 64 - n) % 2 ^ 64)

stoul_after_space : Bool → Bytes → Option ℕ
stoul_after_space hex [] = none
stoul_after_space hex (c ∷ s) =
    if c == b'-'
    then negated (unsigned_value hex s)
    else if c == b'+'
    then unsigned_value hex s
    else unsigned_value hex (c ∷ s)

-- `std::stoul`, on the at most nine bytes of an entity, so that no value is out of range
unfoldable pub stoul : Bool → Bytes → Option ℕ
unfolding stoul_after_space unsigned_value after_zero radix_value negated
stoul hex s = stoul_after_space hex (drop_while is_space s)

-- The UTF-8 bytes of a code point of the basic plane; `none` above it.
unfoldable pub encode_utf8 : ℕ → Option Bytes
encode_utf8 cp =
    if ltb cp 0x80
    then some (cp ∷ [])
    else if ltb cp 0x800
    then some (bit_or 0xC0 (cp / 2 ^ 6) ∷ bit_or 0x80 (bit_and cp 0x3F) ∷ [])
    else if ltb cp 0x10000
    then some (
        bit_or 0xE0 (cp / 2 ^ 12)
        ∷ bit_or 0x80 (bit_and (cp / 2 ^ 6) 0x3F)
        ∷ bit_or 0x80 (bit_and cp 0x3F)
        ∷ [])
    else none

code_point : Option ℕ → Option Bytes
code_point none = none
code_point (some cp) = encode_utf8 cp

-- a reference, behind its `#`
numeric_reference : Bytes → Option Bytes
numeric_reference [] = code_point (stoul false [])
numeric_reference (c ∷ s) =
    if c == b'x' || c == b'X' then code_point (stoul true s) else code_point (stoul false (c ∷ s))

numeric_entity : Bytes → Option Bytes
numeric_entity [] = none
numeric_entity (c ∷ s) = if c == b'#' then numeric_reference s else none

-- What an entity's name is replaced by; `none` where the `&` stays as it is.
unfoldable pub entity_value : Bytes → Option Bytes
unfolding numeric_entity numeric_reference code_point
entity_value ent =
    if beq ent (codes "amp")
    then some (b'&' ∷ [])
    else if beq ent (codes "apos")
    then some (39 ∷ [])
    else if beq ent (codes "quot")
    then some (b'"' ∷ [])
    else if beq ent (codes "lt")
    then some (b'<' ∷ [])
    else if beq ent (codes "gt")
    then some (b'>' ∷ [])
    else numeric_entity ent

-- At a `&`, with what follows it: the replacement and how many of the following bytes it covers.
-- The semicolon stands `d + 1` bytes after the `&`.
pub entity_at : Bytes → Option ℕ → Option (Bytes × ℕ)
entity_at s none = none
entity_at s (some d) =
    if ltb 10 (d + 1)
    then none
    else elim (entity_value (take d s)) [ none ↦ none | some r ↦ some (r, d + 1) ]

replaced : Option (Bytes × ℕ) → ℕ → Bytes × ℕ
replaced none c = (c ∷ [], 0)
replaced (some r) c = r

-- One round of the loop, at byte `c` with `s` behind it: what is written, and how many bytes of
-- `s` the index passes over.
pub decode_byte : ℕ → Bytes → Bytes × ℕ
unfolding replaced entity_at
decode_byte c s =
    if not (c == b'&') then (c ∷ [], 0) else replaced (entity_at s (find_byte b';' s)) c

-- The loop; the number counts bytes that the index has passed over.
pub decode_from : ℕ → Bytes → Bytes
decode_from k [] = []
decode_from (suc k) (c ∷ s) = decode_from k s
decode_from zero (c ∷ s) = let (out, k) = decode_byte c s in out ++ decode_from k s

unfoldable pub decode_xml_entities : Bytes → Bytes
unfolding decode_from decode_byte
decode_xml_entities s = decode_from 0 s

open_tag : Bytes → Bytes
open_tag t = b'<' ∷ (t ++ b'>' ∷ [])

close_tag : Bytes → Bytes
close_tag t = b'<' ∷ b'/' ∷ (t ++ b'>' ∷ [])

-- The text between two positions that are found in the lower-case copy.
between : Bytes → ℕ → Option ℕ → Option Bytes
between xml b none = none
between xml b (some e) = if e == 0 then none else some (take e (drop b xml))

located : Bytes → Bytes → Bytes → Option ℕ → Option Bytes
located xml lower_xml t none = none
located xml lower_xml t (some p) =
    let b = p + length (open_tag t) in between xml b (find (close_tag t) (drop b lower_xml))

-- The first tag with a text that is not empty.
first_field : Bytes → Bytes → List Bytes → Option Bytes
first_field xml lower_xml [] = none
first_field xml lower_xml (tag ∷ tags) =
    let t = lower_copy tag in
    elim (located xml lower_xml t (find (open_tag t) lower_xml)) [
      | none ↦ first_field xml lower_xml tags
      | some v ↦ some v
    ]

or_empty : Option Bytes → Bytes
or_empty none = []
or_empty (some v) = v

unfoldable pub xml_field_raw : Bytes → List Bytes → Bytes
unfolding first_field located between open_tag close_tag or_empty
xml_field_raw xml tags = or_empty (first_field xml (lower_copy xml) tags)

unfoldable pub xml_field : Bytes → List Bytes → Bytes
unfolding xml_field_raw decode_xml_entities
xml_field xml tags = decode_xml_entities (xml_field_raw xml tags)

-- The value found is trimmed, and nothing is decoded.
unfoldable pub extract_cue_from_xml : Bytes → List Bytes → Bytes
unfolding xml_field_raw
extract_cue_from_xml xml tags = trim_copy (xml_field_raw xml tags)
