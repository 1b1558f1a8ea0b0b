-- ===== src/Cue/Framing.antt =====
-- Messages out of a TCP stream (src/worker/worker.cpp, the lambda `parseFramedMessages` of
-- `listenCueTcpPort`, and the loop that appends each chunk to `buf`).
pub mod Newline
pub mod Prefixed
use multi_coder.Prelude.{
  ℕ, zero, suc, ◌+◌, ◌*◌, ◌^◌, Bool, true, false, List, [], ◌∷◌, ◌++◌, Option, none, some, Bytes,
  drop, take, length, is_empty, ltb, ◌==◌, if◌then◌else◌,
}
use multi_coder.Strings.{trim_copy}

-- a message that is not empty once trimmed
abbrev pub push_message : Bytes → List Bytes → List Bytes
push_message m out = if is_empty m then out else m ∷ out

-- Newline framing: the messages, and the unfinished line that stays in `buf`. `find('\n', pos)`
-- and `substr` are one pass here, which keeps the line read so far.
unfoldable pub newline_frames : Bytes → Bytes → List Bytes × Bytes
newline_frames cur [] = ([], cur)
newline_frames cur (c ∷ s) =
    let (out, rest) = newline_frames (if c == 10 then [] else cur ++ c ∷ []) s in
    if c == 10 then (push_message (trim_copy cur) out, rest) else (out, rest)

-- `(p[0] << 24) | (p[1] << 16) | (p[2] << 8) | p[3]`, of bytes
abbrev pub be32 : ℕ → ℕ → ℕ → ℕ → ℕ
be32 a b c d = a * 2 ^ 24 + b * 2 ^ 16 + c * 2 ^ 8 + d

abbrev pub max_frame : ℕ
max_frame = 1024 * 1024

abbrev with_message : Bytes → Option (List Bytes × Bytes) → Option (List Bytes × Bytes)
with_message m none = none
with_message m (some (out, rest)) = some (push_message m out, rest)

-- Length-prefixed framing; `none` is that the fuel runs out. A length above the limit drops all
-- that is buffered.
unfoldable pub prefixed_frames : ℕ → Bytes → Option (List Bytes × Bytes)
prefixed_frames zero s = none
prefixed_frames (suc fuel) (a ∷ b ∷ c ∷ d ∷ s) =
    let len = be32 a b c d in
    let more = with_message (trim_copy (take len s)) (prefixed_frames fuel (drop len s)) in
    if ltb max_frame len
    then some ([], [])
    else if ltb (length s) len
    then some ([], a ∷ b ∷ c ∷ d ∷ s)
    else more
prefixed_frames (suc fuel) s = some ([], s)

pub data CueFraming : Type 0 where
  newline_delimited length_prefixed : CueFraming

or_nothing : Option (List Bytes × Bytes) → List Bytes × Bytes
or_nothing none = ([], [])
or_nothing (some r) = r

unfoldable pub parse_framed_messages : CueFraming → Bytes → List Bytes × Bytes
unfolding newline_frames prefixed_frames or_nothing
parse_framed_messages newline_delimited buf = newline_frames [] buf
parse_framed_messages length_prefixed buf = or_nothing (prefixed_frames (suc (length buf)) buf)

-- The receive loop: the messages of all chunks, and what stays buffered.
unfoldable pub receive : CueFraming → Bytes → List Bytes → List Bytes × Bytes
receive framing buf [] = ([], buf)
receive framing buf (chunk ∷ chunks) =
    let (out, buf') = parse_framed_messages framing (buf ++ chunk) in
    let (outs, last) = receive framing buf' chunks in (out ++ outs, last)
