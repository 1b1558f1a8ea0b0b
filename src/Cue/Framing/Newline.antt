-- ===== src/Cue/Framing/Newline.antt =====
-- Newline framing does not depend on how the stream is cut (src/worker/worker.cpp,
-- `parseFramedMessages`).
use mathlib.Core.List.{flatten}
use multi_coder.Prelude.{
  false, List, [], ◌∷◌, ◌++◌, ◌≡◌, refl, sym, ◌∙◌, ap, arith, Bytes, append_assoc, append-nil, ◌==◌,
  if◌then◌else◌, All, All-append, Bool-cases, inl, inr,
}
use multi_coder.Strings.{trim_copy}
use multi_coder.Cue.Framing.{
  newline_frames, parse_framed_messages, receive, newline_delimited, push_message,
}

abbrev HasNoNewline : Bytes → Type 0
HasNoNewline s = All (λ c. (c == 10) ≡ false) s

abbrev joined_out : List Bytes → List Bytes × Bytes → List Bytes × Bytes
joined_out out (more, rest) = (out ++ more, rest)

abbrev joined : List Bytes × Bytes → List Bytes × Bytes → List Bytes × Bytes
joined (out, _) (more, rest) = (out ++ more, rest)

push-append : (m : Bytes) (xs ys : List Bytes) → push_message m xs ++ ys ≡ push_message m (xs ++ ys)
push-append [] xs ys = refl
push-append (c ∷ m) xs ys = refl

newline_frames-append :
    (cur a b : Bytes)
    → newline_frames cur (a ++ b)
      ≡ joined (newline_frames cur a) (newline_frames (newline_frames cur a).1 b)
unfolding newline_frames
newline_frames-append cur [] b = refl
newline_frames-append cur (c ∷ a) b = ground (
  arith,
  newline_frames-append (if c == 10 then [] else cur ++ c ∷ []) a b,
  push-append (trim_copy cur) (newline_frames [] a).0 (newline_frames (newline_frames [] a).1 b).0,
)

newline_frames-line :
    (cur x b : Bytes) → HasNoNewline x → newline_frames cur (x ++ b) ≡ newline_frames (cur ++ x) b
unfolding newline_frames
newline_frames-line cur [] b h = rw append-nil
newline_frames-line cur (c ∷ x) b h =
    rw h.0 (newline_frames-line (cur ++ c ∷ []) x b h.1 ∙ rw append_assoc)

rest-HasNoNewline : (cur a : Bytes) → HasNoNewline cur → HasNoNewline (newline_frames cur a).1
unfolding newline_frames
rest-HasNoNewline cur [] h = h
rest-HasNoNewline cur (c ∷ a) h = elim (Bool-cases (c == 10)) [
  | inl e ↦ rw e (rest-HasNoNewline [] a tt)
  | inr e ↦ rw e (
      rest-HasNoNewline (cur ++ c ∷ []) a
        (All-append (λ x. (x == 10) ≡ false) cur (c ∷ []) h (e, tt)))
]

receive_from :
    (chunks : List Bytes) (buf : Bytes)
    → HasNoNewline buf
    → receive newline_delimited buf chunks ≡ newline_frames buf (flatten chunks)
unfolding receive parse_framed_messages flatten
receive_from [] buf h = unfold newline_frames in refl
receive_from (chunk ∷ chunks) buf h =
    let (out, rest) = newline_frames [] (buf ++ chunk) in
    let first : newline_frames [] (buf ++ chunk) ≡ newline_frames buf chunk =
      newline_frames-line [] buf chunk h in
    ap (joined_out out) (receive_from chunks rest (rest-HasNoNewline [] (buf ++ chunk) tt))
    ∙ ap (λ r. joined_out r.0 (newline_frames r.1 (flatten chunks))) first
    ∙ sym (newline_frames-append buf chunk (flatten chunks))

-- With newline framing, however the stream is cut into chunks, the messages and the unfinished
-- line are those of the whole stream at once.
pub receive-newline :
    (chunks : List Bytes)
    → receive newline_delimited [] chunks ≡ parse_framed_messages newline_delimited (flatten chunks)
unfolding parse_framed_messages
receive-newline chunks = receive_from chunks [] tt
