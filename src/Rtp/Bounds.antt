-- ===== src/Rtp/Bounds.antt =====
-- No read of an RTP packet leaves its buffer (src/worker/worker.cpp, `parseRtpStereoLevels`).
use multi_coder.Prelude.{
  ℕ, zero, suc, ◌+◌, ◌-◌, ◌*◌, ◌/◌, ◌%◌, ◌^◌, ◌≤◌, ◌<◌, Bool, true, false, not, ◌||◌, List, [], ◌∷◌,
  ◌≡◌, ◌⊎◌, inl, inr, refl, arith, Option, none, some, Bytes, length, get_elem?, ltb, leb, ◌==◌,
  is_some, All, Bool-cases,
}
use multi_coder.Prelude.Int.{ℤ}
use multi_coder.Rtp.{
  reading, Payload, without_padding, without_extension, rtp_payload, frame_at, frames_from,
  stereo_frames, parse_rtp_stereo_levels, Detected, fitted, first_fit,
  parse_rtp_stereo_levels_with_fallback, bytes_per_frame, be16_to_signed, be24_to_signed,
  candidates_from, front_depth,
}

get_elem?-some : (xs : Bytes) (i : ℕ) → i < length xs → (b : ℕ) × (get_elem? xs i ≡ some b)
get_elem?-some [] i h = absurd (omega arith)
get_elem?-some (x ∷ xs) zero h = (x, refl)
get_elem?-some (x ∷ xs) (suc i) h = get_elem?-some xs i (omega arith)

-- What a read of the header may give: a refusal, or a payload inside the buffer.
pub data Inside (packet : Bytes) : Option (Option Payload) → Type 0 where
  refused : Inside packet (some none)
  within :
      (p : Payload) → p.header_len + p.payload_len ≤ length packet → Inside packet (some (some p))

without_padding-Inside :
    (packet : Bytes) (padded : Bool) (header : ℕ)
    → header < length packet
    → Inside packet (without_padding packet padded header)
unfolding without_padding reading
without_padding-Inside packet false header h = within _ (omega arith)
without_padding-Inside packet true header h =
    let (pad, e) = get_elem?-some packet (length packet - 1) (omega arith) in
    elim (Bool-cases (pad == 0 || ltb (length packet - header) pad)) [
      | inl r ↦ rw (e, r) refused
      | inr k ↦ rw (e, k) (within _ (ground arith))
    ]

without_extension-Inside :
    (packet : Bytes) (extended padded : Bool) (header : ℕ)
    → header < length packet
    → Inside packet (without_extension packet extended padded header)
unfolding without_extension reading
without_extension-Inside packet false padded header h =
    without_padding-Inside packet padded header h
without_extension-Inside packet true padded header h =
    elim (Bool-cases (ltb (length packet) (header + 4))) [
      | inl short ↦ rw short refused
      | inr room ↦
          let (hi, e) = get_elem?-some packet (header + 2) (ground arith) in
          let (lo, f) = get_elem?-some packet (header + 3) (ground arith) in
          let end = header + (4 + (hi * 2 ^ 8 + lo) * 4) in
          elim (Bool-cases (leb (length packet) end)) [
            | inl r ↦ rw (room, e, f, r) refused
            | inr k ↦ rw (room, e, f, k) (without_padding-Inside packet padded end (ground arith))
          ]
    ]

rtp_payload-Inside : (packet : Bytes) → Inside packet (rtp_payload packet)
unfolding rtp_payload reading
rtp_payload-Inside packet = elim (Bool-cases (ltb (length packet) 16)) [
  | inl short ↦ rw short refused
  | inr room ↦
      let (first, e) = get_elem?-some packet 0 (ground arith) in
      let (second, f) = get_elem?-some packet 1 (ground arith) in
      let header = 12 + first % 16 * 4 in
      elim (Bool-cases
        (not (first / 64 % 4 == 2) || not (second % 128 == 96) || leb (length packet) header)) [
          | inl r ↦ rw (room, e, f, r) refused
          | inr k ↦
              rw (room, e, f, k)
                (without_extension-Inside packet (first / 16 % 2 == 1) (first / 32 % 2 == 1) header
                  (ground arith))
        ]
]

-- The two depths that the code calls with.
abbrev IsDepth : ℕ → Type 0
IsDepth depth = (depth ≡ 16) ⊎ (depth ≡ 24)

frame_at-some :
    (packet : Bytes) (depth i : ℕ)
    → IsDepth depth
    → i + bytes_per_frame depth ≤ length packet
    → (s : ℤ × ℤ) × (frame_at packet depth i ≡ some s)
unfolding frame_at reading
frame_at-some packet depth i (inl d) h =
    let size : 4 ≤ length packet - i = ground arith in
    let (a, ea) = get_elem?-some packet i (omega arith) in
    let (b, eb) = get_elem?-some packet (i + 1) (omega arith) in
    let (c, ec) = get_elem?-some packet (i + 2) (omega arith) in
    let (e, ee) = get_elem?-some packet (i + 3) (omega arith) in
    let narrow : depth == 24 ≡ false = ground arith in
    ((be16_to_signed a b, be16_to_signed c e), rw (ea, eb, ec, ee, narrow))
frame_at-some packet depth i (inr d) h =
    let size : 6 ≤ length packet - i = ground arith in
    let (a, ea) = get_elem?-some packet i (omega arith) in
    let (b, eb) = get_elem?-some packet (i + 1) (omega arith) in
    let (c, ec) = get_elem?-some packet (i + 2) (omega arith) in
    let (e, ee) = get_elem?-some packet (i + 3) (omega arith) in
    let (f, ef) = get_elem?-some packet (i + 4) (omega arith) in
    let (g, eg) = get_elem?-some packet (i + 5) (omega arith) in
    let wide : depth == 24 ≡ true = ground arith in
    ((be24_to_signed a b c, be24_to_signed e f g), rw (ea, eb, ec, ee, wide, ef, eg))

frames_from-some :
    (packet : Bytes) (depth i n : ℕ)
    → IsDepth depth
    → i + n * bytes_per_frame depth ≤ length packet
    → (ss : List (ℤ × ℤ)) × (frames_from packet depth i n ≡ some ss)
unfolding frames_from
frames_from-some packet depth i zero d h = ([], refl)
frames_from-some packet depth i (suc n) d h =
    let (s, e) = frame_at-some packet depth i d (ground arith) in
    let (ss, f) = frames_from-some packet depth (i + bytes_per_frame depth) n d (ground arith) in
    (s ∷ ss, rw (e, f))

stereo_frames-some :
    (packet : Bytes) (depth : ℕ) (o : Option (Option Payload))
    → IsDepth depth
    → Inside packet o
    → (r : Option (List (ℤ × ℤ))) × (stereo_frames packet depth o ≡ some r)
unfolding stereo_frames
stereo_frames-some packet depth _ d refused = (none, refl)
stereo_frames-some packet depth _ d (within p h) =
    let size = bytes_per_frame depth in
    elim (Bool-cases (size == 0 || ltb p.payload_len size)) [
      | inl r ↦ (none, rw r)
      | inr k ↦
          let (ss, e) =
            frames_from-some packet depth p.header_len (p.payload_len / size) d (ground arith) in
          (some ss, rw (k, e))
    ]

answered :
    (rest : Option Detected) (depth : ℕ) (r : Option (List (ℤ × ℤ)))
    → is_some rest ≡ true
    → is_some (fitted rest depth (some r)) ≡ true
unfolding fitted
answered rest depth none h = h
answered rest depth (some ss) h = refl

first_fit-some :
    (packet : Bytes) (configured : ℕ) (depths : List ℕ)
    → All IsDepth depths
    → is_some (first_fit packet configured depths) ≡ true
unfolding first_fit parse_rtp_stereo_levels
first_fit-some packet configured [] h = refl
first_fit-some packet configured (depth ∷ depths) h =
    let ih = first_fit-some packet configured depths h.1 in
    let (r, e) =
      stereo_frames-some packet depth (rtp_payload packet) h.0 (rtp_payload-Inside packet) in
    rw e (answered (first_fit packet configured depths) depth r ih)

front_depth-IsDepth : (configured : ℕ) → IsDepth (front_depth configured)
unfolding front_depth
front_depth-IsDepth configured = ground arith

candidates_from-IsDepth : (front : ℕ) → IsDepth front → All IsDepth (candidates_from front)
candidates_from-IsDepth front (inl e) = rw e (inl refl, (inr refl, tt))
candidates_from-IsDepth front (inr e) = rw e (inr refl, (inl refl, tt))

-- Whatever the packet and the configured bit depth, no read of the header, the extension, the padding
-- or a sample leaves the packet's buffer, with any of the depths that are tried.
pub fallback_reads_inside :
    (packet : Bytes) (configured : ℕ)
    → is_some (parse_rtp_stereo_levels_with_fallback packet configured) ≡ true
unfolding parse_rtp_stereo_levels_with_fallback
fallback_reads_inside packet configured =
    first_fit-some packet configured (candidates_from (front_depth configured))
      (candidates_from-IsDepth (front_depth configured) (front_depth-IsDepth configured))
