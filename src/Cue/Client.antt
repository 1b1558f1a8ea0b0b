-- ===== src/Cue/Client.antt =====
-- One client of the cue listener (src/worker/worker.cpp, the loop of `listenCueTcpPort` over a
-- client's chunks, and what follows it when the client is gone). The handling of a message is an
-- argument; Handler's is one.
use multi_coder.Prelude.{List, [], ◌∷◌, ◌++◌, ◌≡◌, refl, sym, ap, ◌∙◌, Bytes}
use mathlib.Core.List.{flatten}
use multi_coder.Strings.{trim_copy}
use multi_coder.Cue.Framing.{
  CueFraming, newline_delimited, length_prefixed, push_message, parse_framed_messages, receive,
}
use multi_coder.Cue.Framing.Newline.{receive-newline}

module _ {ℓ} {S : Type ℓ} (handle : Bytes → S → S) where
  unfoldable pub handle_all : List Bytes → S → S
  handle_all [] st = st
  handle_all (m ∷ ms) st = handle_all ms (handle m st)

  -- The loop over the chunks, to the state and what is left in `buf`.
  unfoldable pub receive_all : CueFraming → Bytes → List Bytes → S → S × Bytes
  unfolding handle_all
  receive_all framing buf [] st = (st, buf)
  receive_all framing buf (chunk ∷ chunks) st =
      let (out, buf') = parse_framed_messages framing (buf ++ chunk) in
      receive_all framing buf' chunks (handle_all out st)

  -- The unfinished line is a message too.
  unfoldable pub handle_tail : CueFraming → Bytes → S → S
  unfolding handle_all
  handle_tail newline_delimited buf st = handle_all (push_message (trim_copy buf) []) st
  handle_tail length_prefixed buf st = st

  unfoldable pub handle_client : CueFraming → List Bytes → S → S
  unfolding receive_all handle_tail
  handle_client framing chunks st =
      let (st', buf) = receive_all framing [] chunks st in handle_tail framing buf st'

  handle_all-append :
      (ms ns : List Bytes) (st : S) → handle_all (ms ++ ns) st ≡ handle_all ns (handle_all ms st)
  unfolding handle_all
  handle_all-append [] ns st = refl
  handle_all-append (m ∷ ms) ns st = handle_all-append ms ns (handle m st)

  receive_all-receive :
      (framing : CueFraming) (buf : Bytes) (chunks : List Bytes) (st : S)
      → let (out, rest) = receive framing buf chunks in
        receive_all framing buf chunks st ≡ (handle_all out st, rest)
  unfolding receive_all receive
  receive_all-receive framing buf [] st = unfold handle_all in refl
  receive_all-receive framing buf (chunk ∷ chunks) st =
      let (out, buf') = parse_framed_messages framing (buf ++ chunk) in
      let (outs, last) = receive framing buf' chunks in
      receive_all-receive framing buf' chunks (handle_all out st)
      ∙ ap (λ x. (x, last)) (sym (handle_all-append out outs st))

  -- With newline framing, a client's messages are the lines of all that it sent, the unfinished
  -- one included, each handled once and in order, however the chunks were cut.
  pub handle_client-newline :
      (chunks : List Bytes) (st : S)
      → let (out, rest) = parse_framed_messages newline_delimited (flatten chunks) in
        handle_client newline_delimited chunks st
        ≡ handle_all (out ++ push_message (trim_copy rest) []) st
  unfolding handle_client handle_tail
  handle_client-newline chunks st =
      let (out, rest) = parse_framed_messages newline_delimited (flatten chunks) in
      ap (λ r. handle_tail newline_delimited r.1 r.0)
        (receive_all-receive newline_delimited [] chunks st
          ∙ ap (λ r. (handle_all r.0 st, r.1)) (receive-newline chunks))
      ∙ sym (handle_all-append out (push_message (trim_copy rest) []) st)
