-- ===== src/Tests/Texts.antt =====
-- Texts and addresses (src/common/SimpleJson.cpp, src/livewire/LivewireMapping.cpp,
-- src/worker/worker.cpp, src/supervisor/supervisor_api.cpp).
use multi_coder.Prelude.{ℕ, true, false, [], ◌∷◌, ◌≡◌, ◌↔◌, refl, arith, codes, some, is_some}
use multi_coder.Json.{Object, raw_step, parse, serialize, bytes_lt}
use multi_coder.Bits.{halved}
use multi_coder.Strings.{trim, drop_while, drop_last_while}
use multi_coder.Json.RoundTrip.{parse-serialize, IsReadable}
use multi_coder.Json.Order.{IsOrdered}
use multi_coder.Json.Total.{parse_total}
use multi_coder.Net.{same_network}
use multi_coder.Net.Cidr.{same_network_iff}
use multi_coder.Livewire.{channel_to_multicast}
use multi_coder.Livewire.RoundTrip.{channel_round_trip, bind_address}
use multi_coder.Xml.{xml_escape, decode_xml_entities}
use multi_coder.Xml.Entities.{decode-escape}

-- A text with a quote and a newline, and a number.
abbrev settings : Object
settings =
    (codes "name", record { raw = b'"' ∷ 10 ∷ []; quoted = true })
    ∷ (codes "port", record { raw = codes "9100"; quoted = false })
    ∷ []

settings-IsOrdered : IsOrdered settings
unfolding bytes_lt
settings-IsOrdered = ((refl, tt), (tt, tt))

settings-IsReadable : IsReadable settings
unfolding trim drop_while drop_last_while raw_step
settings-IsReadable = (
  record { no_quote = λ e. cc; trimmed = λ e. cc; closed = λ e. cc },
  (record { no_quote = λ e. refl; trimmed = λ e. refl; closed = λ e. refl }, tt),
)

parse-serialize_example : parse (serialize settings) ≡ some (true, settings)
parse-serialize_example = parse-serialize settings settings-IsOrdered settings-IsReadable

parse_total_example : is_some (parse (codes "{\"a\":")) ≡ true
parse_total_example = parse_total (codes "{\"a\":")

abbrev home : ℕ
home = 3232235777

abbrev network : ℕ
network = 3232235776

same_network_iff_example :
    (same_network home network 24 ≡ true) ↔ (halved 8 home ≡ halved 8 network)
same_network_iff_example =
    same_network_iff home network 24 (omega arith) (omega arith) (omega arith)

same_network_holds : same_network home network 24 ≡ true
same_network_holds = same_network_iff_example.1 refl

channel_round_trip_example : bind_address (channel_to_multicast 1001) ≡ some 1001
channel_round_trip_example = channel_round_trip 1001

decode-escape_example : decode_xml_entities (xml_escape (codes "R&B <Live>")) ≡ codes "R&B <Live>"
decode-escape_example = decode-escape (codes "R&B <Live>")

escape_reads : xml_escape (codes "R&B") ≡ codes "R&amp;B"
unfolding xml_escape
escape_reads = refl
