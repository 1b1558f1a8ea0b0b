-- ===== src/Json/RoundTrip/Tokens.antt =====
-- Escaped texts between quotes (`escape`, `unescape` of src/common/SimpleJson.cpp).
use multi_coder.Prelude.{false, [], ◌∷◌, ◌++◌, ◌≡◌, refl, arith, Bytes, some}
use multi_coder.Json.{escape_byte, escape, unescape_from, unescape, scan_quoted}

unescape_from-escape : (s : Bytes) → unescape_from false (escape s) ≡ s
unfolding unescape_from escape escape_byte
unescape_from-escape [] = refl
unescape_from-escape (c ∷ s) = ground (arith, unescape_from-escape s)

pub unescape-escape : (s : Bytes) → unescape (escape s) ≡ s
unfolding unescape
unescape-escape s = unescape_from-escape s

-- The scanner stops at the quote behind an escaped text, and at none inside it.
pub scan_quoted-escape :
    (s rest : Bytes) → scan_quoted false (escape s ++ b'"' ∷ rest) ≡ some (escape s, rest)
unfolding scan_quoted escape escape_byte
scan_quoted-escape [] rest = refl
scan_quoted-escape (c ∷ s) rest = ground (arith, scan_quoted-escape s rest)
