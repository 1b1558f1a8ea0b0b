-- ===== src/Xml/Entities.antt =====
-- `xmlEscape` of the supervisor and `decodeXmlEntities` of the worker undo one another.
use multi_coder.Prelude.{
  ℕ, false, [], ◌∷◌, ◌++◌, ◌≡◌, refl, ap, ◌∙◌, arith, Bytes, codes, beq, find_byte, ◌==◌,
}
use multi_coder.Xml.{
  escape_char, xml_escape, entity_value, decode_byte, decode_from, decode_xml_entities,
}

decode_amp : (s : Bytes) → decode_from 0 (codes "&amp;" ++ s) ≡ b'&' ∷ decode_from 0 s
unfolding decode_from decode_byte find_byte entity_value beq
decode_amp s = refl

decode_lt : (s : Bytes) → decode_from 0 (codes "&lt;" ++ s) ≡ b'<' ∷ decode_from 0 s
unfolding decode_from decode_byte find_byte entity_value beq
decode_lt s = refl

decode_gt : (s : Bytes) → decode_from 0 (codes "&gt;" ++ s) ≡ b'>' ∷ decode_from 0 s
unfolding decode_from decode_byte find_byte entity_value beq
decode_gt s = refl

decode_quot : (s : Bytes) → decode_from 0 (codes "&quot;" ++ s) ≡ b'"' ∷ decode_from 0 s
unfolding decode_from decode_byte find_byte entity_value beq
decode_quot s = refl

decode_apos : (s : Bytes) → decode_from 0 (codes "&apos;" ++ s) ≡ 39 ∷ decode_from 0 s
unfolding decode_from decode_byte find_byte entity_value beq
decode_apos s = refl

decode_other :
    (c : ℕ) (s : Bytes) → (c == b'&') ≡ false → decode_from 0 (c ∷ s) ≡ c ∷ decode_from 0 s
unfolding decode_from decode_byte
decode_other c s h = rw h

decode_escaped : (c : ℕ) (s : Bytes) → decode_from 0 (escape_char c ++ s) ≡ c ∷ decode_from 0 s
unfolding escape_char
decode_escaped c s =
    ground (
      arith,
      decode_amp s,
      decode_lt s,
      decode_gt s,
      decode_quot s,
      decode_apos s,
      decode_other c s,
    )

decode_from-escape : (s : Bytes) → decode_from 0 (xml_escape s) ≡ s
unfolding xml_escape
decode_from-escape [] = unfold decode_from in refl
decode_from-escape (c ∷ s) =
    decode_escaped c (xml_escape s) ∙ ap (λ t. c ∷ t) (decode_from-escape s)

-- The worker decodes what the supervisor escapes to the same bytes, whatever they are.
pub decode-escape : (s : Bytes) → decode_xml_entities (xml_escape s) ≡ s
unfolding decode_xml_entities
decode-escape s = decode_from-escape s
