-- ===== src/Listener/Socket/Payloads.antt =====
-- The bytes of a connection and the payloads they become (src/worker/worker.cpp,
-- `processSocketUntilClose`).
use multi_coder.Prelude.{
  ℕ, Bool, true, false, not, ◌||◌, List, [], ◌∷◌, ◌++◌, ◌≡◌, refl, sym, ap, ◌∙◌, Bytes, is_empty,
  append-nil, append_assoc, Bool-cases, inl, inr, if◌then◌else◌,
}
use multi_coder.Listener.Socket.{
  Source, chunk, silence, ended, Round, Sink, finish, change_line, idle_line,
  source_config_change_reason, run_rounds, process_socket_until_close,
}

-- What the socket gives in the rounds up to the one that ends the loop.
abbrev pub bytes_read : {T : Type 0} → ℕ → Source → List (Round T) → Bytes
bytes_read idx source [] = []
bytes_read idx source (r ∷ rs) =
    let rest = bytes_read idx source rs in
    if not (is_empty (source_config_change_reason idx source r.runtime r.metadata))
    then []
    else elim r.outcome [ chunk bytes ↦ bytes ++ rest | silence due ↦ rest | ended ↦ [] ]

module _ {T S : Type 0} (sink : Sink T S) (idx : ℕ) (source : Source) (peer : Bytes)
    (content : S → Bytes)
    (of_payload : (at : T) (xml : Bytes) (st : S)
      → content (sink.payload at xml st) ≡ content st ++ xml)
    (of_line : (line : Bytes) (st : S) → content (sink.line line st) ≡ content st) where
  finish-content :
      (at : T) (xml : Bytes) (saw : Bool) (st : S)
      → content (finish sink idx source peer at xml saw st) ≡ content st ++ xml
  unfolding finish
  finish-content at [] true st = sym (append-nil (content st))
  finish-content at [] false st = of_line _ st ∙ sym (append-nil (content st))
  finish-content at (c ∷ xml) saw st = of_payload at (c ∷ xml) st

  idle-content :
      (due : Bool) (st : S) → content (idle_line sink idx source peer due st) ≡ content st
  unfolding idle_line
  idle-content true st = of_line _ st
  idle-content false st = refl

  silence-content :
      (at : T) (due : Bool) (xml : Bytes) (st : S)
      → content (
          if not (is_empty xml)
          then sink.payload at xml st
          else idle_line sink idx source peer due st)
        ≡ content st ++ xml
  silence-content at due [] st = idle-content due st ∙ sym (append-nil (content st))
  silence-content at due (c ∷ xml) st = of_payload at (c ∷ xml) st

  run_rounds-content :
      (last : T) (rs : List (Round T)) (xml : Bytes) (saw : Bool) (st : S)
      → content (run_rounds sink idx source peer last rs xml saw st)
        ≡ content st ++ (xml ++ bytes_read idx source rs)
  unfolding run_rounds
  run_rounds-content last [] xml saw st = rw (append-nil xml) (finish-content last xml saw st)
  run_rounds-content last (r ∷ rs) xml saw st =
      let reason = source_config_change_reason idx source r.runtime r.metadata in
      let line = change_line sink idx source peer reason in
      elim (Bool-cases (is_empty reason)) [
        | inr e ↦
            rw (e, append-nil xml)
              (finish-content last xml saw (sink.line line st)
                ∙ ap (λ t. t ++ xml) (of_line line st))
        | inl e ↦
            rw e
              (elim r.outcome
                as (λ o.
                  content (elim o [
                    | chunk bytes ↦ run_rounds sink idx source peer last rs (xml ++ bytes) saw st
                    | ended ↦ finish sink idx source peer last xml saw st
                    | silence due ↦
                        run_rounds sink idx source peer last rs [] (saw || not (is_empty xml)) (
                          if not (is_empty xml)
                          then sink.payload r.at xml st
                          else idle_line sink idx source peer due st)
                  ])
                  ≡ content st
                    ++ (xml ++ elim o [
                      | chunk bytes ↦ bytes ++ bytes_read idx source rs
                      | silence due ↦ bytes_read idx source rs
                      | ended ↦ []
                    ])) [
                      | chunk bytes ↦
                          run_rounds-content last rs (xml ++ bytes) saw st
                          ∙ ap (λ t. content st ++ t)
                              (append_assoc xml bytes (bytes_read idx source rs))
                      | ended ↦ rw (append-nil xml) (finish-content last xml saw st)
                      | silence due ↦
                          run_rounds-content last rs [] _ _
                          ∙ ap (λ t. t ++ bytes_read idx source rs)
                              (silence-content r.at due xml st)
                          ∙ append_assoc (content st) xml (bytes_read idx source rs)
                    ])
      ]

  -- For every sink that adds the bytes of a payload behind what it has and nothing for a line, what
  -- it has after a connection is what the socket gave up to the end of the loop, in order: no byte
  -- is lost at a silence, at a change of the settings or at the end, and none is handled twice.
  pub process_socket_keeps_bytes :
      (last : T) (rounds : List (Round T)) (st : S)
      → content (process_socket_until_close sink idx source peer last rounds st)
        ≡ content st ++ bytes_read idx source rounds
  unfolding process_socket_until_close
  process_socket_keeps_bytes last rounds st = run_rounds-content last rounds [] false st
