-- ===== src/Cue/Framing/Prefixed.antt =====
-- Length-prefixed framing ends, and reads back whole frames (src/worker/worker.cpp,
-- `parseFramedMessages`).
use multi_coder.Prelude.{
  take-append, drop-append, ℕ, zero, suc, ◌/◌, ◌%◌, ◌^◌, ◌≤◌, ◌<◌, true, List, [], ◌∷◌, ◌++◌, ◌≡◌,
  refl, ◌∙◌, ap, arith, Bytes, length, length-append, length-drop, take, drop, ltb, if◌then◌else◌,
  All, some, is_some,
}
use multi_coder.Strings.{trim_copy}
use multi_coder.Cue.Framing.{
  prefixed_frames, parse_framed_messages, length_prefixed, push_message, max_frame, be32,
  with_message,
}

-- The loop ends within as many rounds as the buffer has bytes, and one.
pub prefixed_frames_total :
    (fuel : ℕ) (s : Bytes) → length s < fuel → is_some (prefixed_frames fuel s) ≡ true
unfolding prefixed_frames
prefixed_frames_total zero s h = absurd (omega arith)
prefixed_frames_total (suc fuel) (a ∷ b ∷ c ∷ d ∷ s) h =
    ground (arith, prefixed_frames_total fuel (drop (be32 a b c d) s), length-drop (be32 a b c d) s)
prefixed_frames_total (suc fuel) [] h = refl
prefixed_frames_total (suc fuel) (a ∷ []) h = refl
prefixed_frames_total (suc fuel) (a ∷ b ∷ []) h = refl
prefixed_frames_total (suc fuel) (a ∷ b ∷ c ∷ []) h = refl

-- A frame as a sender writes it: four bytes of length, the highest first, and the payload.
abbrev pub frame : Bytes → Bytes
frame m = let n = length m in n / 2 ^ 24 ∷ n / 2 ^ 16 % 256 ∷ n / 2 ^ 8 % 256 ∷ n % 256 ∷ m

abbrev pub stream : List Bytes → Bytes → Bytes
stream [] tail = tail
stream (m ∷ ms) tail = frame m ++ stream ms tail

abbrev pub frames_messages : List Bytes → List Bytes
frames_messages [] = []
frames_messages (m ∷ ms) = push_message (trim_copy m) (frames_messages ms)

framed_at :
    (fuel len : ℕ) (m s : Bytes) (whole : List Bytes × Bytes)
    → len ≡ length m
    → length m ≤ max_frame
    → (if ltb max_frame len
        then some ([], [])
        else if ltb (length (m ++ s)) len
        then some whole
        else with_message
            (trim_copy (take len (m ++ s)))
            (prefixed_frames fuel (drop len (m ++ s))))
      ≡ with_message (trim_copy m) (prefixed_frames fuel s)
framed_at fuel len m s whole e h =
    rw e (rw (take-append m s, drop-append m s) (ground (arith, length-append m s)))

prefixed_frames-frame :
    (fuel : ℕ) (m s : Bytes)
    → length m ≤ max_frame
    → prefixed_frames (suc fuel) (frame m ++ s)
      ≡ with_message (trim_copy m) (prefixed_frames fuel s)
unfolding prefixed_frames
prefixed_frames-frame fuel m s h = framed_at fuel _ m s _ (omega arith) h

prefixed_frames_tail :
    (fuel : ℕ) (s : Bytes) → length s < 4 → prefixed_frames (suc fuel) s ≡ some ([], s)
unfolding prefixed_frames
prefixed_frames_tail fuel [] h = refl
prefixed_frames_tail fuel (a ∷ []) h = refl
prefixed_frames_tail fuel (a ∷ b ∷ []) h = refl
prefixed_frames_tail fuel (a ∷ b ∷ c ∷ []) h = refl
prefixed_frames_tail fuel (a ∷ b ∷ c ∷ d ∷ s) h = absurd (omega arith)

prefixed_frames-stream :
    (ms : List Bytes) (fuel : ℕ) (tail : Bytes)
    → All (λ m. length m ≤ max_frame) ms
    → length tail < 4
    → length ms < fuel
    → prefixed_frames fuel (stream ms tail) ≡ some (frames_messages ms, tail)
prefixed_frames-stream ms zero tail h t f = absurd (omega arith)
prefixed_frames-stream [] (suc fuel) tail h t f = prefixed_frames_tail fuel tail t
prefixed_frames-stream (m ∷ ms) (suc fuel) tail h t f =
    prefixed_frames-frame fuel m (stream ms tail) h.0
    ∙ ap (with_message (trim_copy m)) (prefixed_frames-stream ms fuel tail h.1 t (omega arith))

length-stream : (ms : List Bytes) (tail : Bytes) → length ms ≤ length (stream ms tail)
length-stream [] tail = omega arith
length-stream (m ∷ ms) tail = omega (arith, length-stream ms tail, length-append m (stream ms tail))

-- With length-prefixed framing, frames of at most a mebibyte, with fewer than four bytes behind
-- them, give their payloads, trimmed, without the empty ones; the bytes behind them stay buffered.
pub parse_framed-stream :
    (ms : List Bytes) (tail : Bytes)
    → All (λ m. length m ≤ max_frame) ms
    → length tail < 4
    → parse_framed_messages length_prefixed (stream ms tail) ≡ (frames_messages ms, tail)
unfolding parse_framed_messages
parse_framed-stream ms tail h t = rw (
    prefixed_frames-stream ms (suc (length (stream ms tail))) tail h t
      (omega (arith, length-stream ms tail)))
