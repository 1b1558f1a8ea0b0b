-- ===== src/Tests/Targets.antt =====
-- Packets and targets (src/worker/worker.cpp, `parseRtpStereoLevelsWithFallback`;
-- src/supervisor/supervisor_api.cpp, `parseTargetHostPort`).
use multi_coder.Prelude.{
  true, [], ◌∷◌, ◌≡◌, refl, Bytes, codes, some, is_some, beq, starts_with, find_byte,
}
use multi_coder.Prelude.Int.{pos, negsuc}
use multi_coder.Strings.{trim, lower_copy, stoi, split_last}
use multi_coder.Rtp.{parse_rtp_stereo_levels_with_fallback}
use multi_coder.Rtp.Bounds.{fallback_reads_inside}
use multi_coder.Supervisor.Targets.{parse_optional_port, parse_target_host_port, parsed_target}
use multi_coder.Supervisor.Targets.Sound.{IsSound, parse_target-IsSound}

-- A header without sources, and one frame of 16 bits: 1 and -1.
abbrev packet : Bytes
packet = 128 ∷ 96 ∷ 0 ∷ 1 ∷ 0 ∷ 0 ∷ 0 ∷ 1 ∷ 0 ∷ 0 ∷ 0 ∷ 1 ∷ 0 ∷ 1 ∷ 255 ∷ 255 ∷ []

packet_read :
    parse_rtp_stereo_levels_with_fallback packet 24
    ≡ some (record { samples = some ((pos 1, negsuc 0) ∷ []); detected_bit_depth = 16 })
unfolding parse_rtp_stereo_levels_with_fallback
packet_read = refl

fallback_reads_inside_example : is_some (parse_rtp_stereo_levels_with_fallback packet 24) ≡ true
fallback_reads_inside_example = fallback_reads_inside packet 24

abbrev url : Bytes
url = codes "http://Host:8080/cue"

url_read :
    parse_target_host_port url [] (codes "http")
    ≡ parsed_target (record { host = codes "Host"; port = 8080; path = codes "/cue" })
unfolding parse_target_host_port parse_optional_port trim lower_copy stoi split_last beq starts_with
    find_byte
url_read = refl

parse_target-IsSound_example :
    IsSound (parse_optional_port []) (parse_target_host_port url [] (codes "http"))
parse_target-IsSound_example = parse_target-IsSound url [] (codes "http")
