-- ===== src/Rtp.antt =====
-- RTP input packets (src/worker/worker.cpp, `parseRtpStereoLevels`,
-- `parseRtpStereoLevelsWithFallback`, `be16ToSigned`, `be24ToSigned`). A read of the buffer is
-- `get_elem?`, so `none` is a read outside it; `some none` is `return false`. The samples are the
-- result: the levels that the code makes of them are doubles.
pub mod Bounds
use multi_coder.Prelude.{
  ℕ, zero, suc, ◌+◌, ◌-◌, ◌*◌, ◌/◌, ◌%◌, ◌^◌, Bool, true, false, not, ◌&&◌, ◌||◌, List, [], ◌∷◌,
  ◌++◌, Option, none, some, Bytes, length, get_elem?, ltb, leb, ◌==◌, if◌then◌else◌, is_some,
}
use multi_coder.Prelude.Int.{ℤ, pos, negsuc}

-- a `w`-bit number as a signed one
abbrev signed : ℕ → ℕ → ℤ
signed w u = if ltb u (2 ^ (w - 1)) then pos u else negsuc (2 ^ w - 1 - u)

unfoldable pub be16_to_signed : ℕ → ℕ → ℤ
be16_to_signed a b = signed 16 (a * 2 ^ 8 + b)

unfoldable pub be24_to_signed : ℕ → ℕ → ℕ → ℤ
be24_to_signed a b c = signed 24 (a * 2 ^ 16 + b * 2 ^ 8 + c)

-- A read, and what follows it.
unfoldable pub reading {ℓ} : {A : Type ℓ} → Option ℕ → (ℕ → Option A) → Option A
reading none next = none
reading (some b) next = next b

-- Where the payload starts and how long it is.
pub record Payload : Type 0 where
  pub header_len : ℕ
  pub payload_len : ℕ

-- The padding that the last byte counts.
unfoldable pub without_padding : Bytes → Bool → ℕ → Option (Option Payload)
unfolding reading
without_padding packet padded header =
    let size = length packet - header in
    if padded
    then reading (get_elem? packet (length packet - 1)) (λ pad.
      if pad == 0 || ltb size pad
      then some none
      else some (some (record { header_len = header; payload_len = size - pad })))
    else some (some (record { header_len = header; payload_len = size }))

-- The extension behind the sources: a profile, and a length in words.
unfoldable pub without_extension : Bytes → Bool → Bool → ℕ → Option (Option Payload)
unfolding reading without_padding
without_extension packet extended padded header =
    if not extended
    then without_padding packet padded header
    else if ltb (length packet) (header + 4)
    then some none
    else reading (get_elem? packet (header + 2)) (λ hi.
      reading (get_elem? packet (header + 3)) (λ lo.
        let end = header + (4 + (hi * 2 ^ 8 + lo) * 4) in
        if leb (length packet) end then some none else without_padding packet padded end))

unfoldable pub rtp_payload : Bytes → Option (Option Payload)
unfolding reading without_extension
rtp_payload packet =
    if ltb (length packet) 16
    then some none
    else reading (get_elem? packet 0) (λ first. reading (get_elem? packet 1) (λ second.
      let header = 12 + first % 16 * 4 in
      if not (first / 64 % 4 == 2) || not (second % 128 == 96) || leb (length packet) header
      then some none
      else without_extension packet (first / 16 % 2 == 1) (first / 32 % 2 == 1) header))

abbrev bytes_per_frame : ℕ → ℕ
bytes_per_frame depth = depth / 8 * 2

-- One stereo frame.
unfoldable pub frame_at : Bytes → ℕ → ℕ → Option (ℤ × ℤ)
unfolding reading be24_to_signed be16_to_signed
frame_at packet depth i = reading (get_elem? packet i) (λ a.
    reading (get_elem? packet (i + 1)) (λ b. reading (get_elem? packet (i + 2)) (λ c.
      reading (get_elem? packet (i + 3)) (λ d.
        if depth == 24
        then reading (get_elem? packet (i + 4)) (λ e.
          reading (get_elem? packet (i + 5))
            (λ f. some (be24_to_signed a b c, be24_to_signed d e f)))
        else some (be16_to_signed a b, be16_to_signed c d)))))

abbrev framed : Option (ℤ × ℤ) → Option (List (ℤ × ℤ)) → Option (List (ℤ × ℤ))
framed none rest = none
framed (some s) none = none
framed (some s) (some ss) = some (s ∷ ss)

-- The loop over the frames, from the one at `i`.
unfoldable pub frames_from : Bytes → ℕ → ℕ → ℕ → Option (List (ℤ × ℤ))
unfolding frame_at
frames_from packet depth i zero = some []
frames_from packet depth i (suc n) =
    framed (frame_at packet depth i) (frames_from packet depth (i + bytes_per_frame depth) n)

abbrev wrapped : Option (List (ℤ × ℤ)) → Option (Option (List (ℤ × ℤ)))
wrapped none = none
wrapped (some ss) = some (some ss)

unfoldable pub stereo_frames : Bytes → ℕ → Option (Option Payload) → Option (Option (List (ℤ × ℤ)))
unfolding frames_from
stereo_frames packet depth none = none
stereo_frames packet depth (some none) = some none
stereo_frames packet depth (some (some p)) =
    let size = bytes_per_frame depth in
    if size == 0 || ltb p.payload_len size
    then some none
    else wrapped (frames_from packet depth p.header_len (p.payload_len / size))

unfoldable pub parse_rtp_stereo_levels : Bytes → ℕ → Option (Option (List (ℤ × ℤ)))
unfolding rtp_payload stereo_frames
parse_rtp_stereo_levels packet depth = stereo_frames packet depth (rtp_payload packet)

-- The samples, and `detectedBitDepth`.
pub record Detected : Type 0 where
  pub samples : Option (List (ℤ × ℤ))
  pub detected_bit_depth : ℕ

unfoldable pub front_depth : ℕ → ℕ
front_depth configured = if configured == 16 || configured == 24 then configured else 24

abbrev pub candidates_from : ℕ → List ℕ
candidates_from front =
    front ∷ ((if front == 24 then [] else 24 ∷ []) ++ (if front == 16 then [] else 16 ∷ []))

-- What one depth gives, with what the depths behind it give.
fitted : Option Detected → ℕ → Option (Option (List (ℤ × ℤ))) → Option Detected
fitted rest depth none = none
fitted rest depth (some none) = rest
fitted rest depth (some (some ss)) = some (record { samples = some ss; detected_bit_depth = depth })

first_fit : Bytes → ℕ → List ℕ → Option Detected
unfolding fitted parse_rtp_stereo_levels
first_fit packet configured [] = some (record { samples = none; detected_bit_depth = configured })
first_fit packet configured (depth ∷ depths) =
    fitted (first_fit packet configured depths) depth (parse_rtp_stereo_levels packet depth)

unfoldable pub parse_rtp_stereo_levels_with_fallback : Bytes → ℕ → Option Detected
unfolding first_fit parse_rtp_stereo_levels front_depth
parse_rtp_stereo_levels_with_fallback packet configured =
    first_fit packet configured (candidates_from (front_depth configured))
