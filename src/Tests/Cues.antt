-- ===== src/Tests/Cues.antt =====
-- Cues over TCP (src/worker/worker.cpp, `listenCueTcpPort`).
use multi_coder.Prelude.{
  ℕ, Bool, true, List, [], ◌∷◌, ◌≡◌, ◌⊎◌, refl, arith, Bytes, codes, Option, some, none, beq,
  if◌then◌else◌,
}
use multi_coder.Json.{Object}
use multi_coder.Cue.Gate.{Limits, empty, run, gate, is_replay, drop_old}
use multi_coder.Prelude.Map.{get, put}
use multi_coder.Strings.{trim_copy}
use mathlib.Core.List.{flatten}
use multi_coder.Cue.Gate.Rate.{IsRated, rate_limit_holds}
use multi_coder.Cue.Gate.Replay.{IsSpaced, replay_protection_holds}
use multi_coder.Cue.Framing.{
  newline_delimited, length_prefixed, receive, parse_framed_messages, newline_frames,
}
use multi_coder.Cue.Client.{handle_client, handle_all, handle_client-newline}
use multi_coder.Cue.Framing.Prefixed.{stream, frames_messages, parse_framed-stream}
use multi_coder.Cue.Handler.{CueState, process_cue_message, read_fields, limits_of}
use multi_coder.Cue.Handler.Checks.{IsAuthorised, AreLimits, process_cue_safe, limits_of-AreLimits}

abbrev limits : Limits
limits = record { rate_count = 2; rate_window_sec = 10; dedupe_sec = 30 }

-- Three in one window, then a repetition, then one that is late enough.
abbrev cues : List (ℕ × Bytes)
cues =
    (1000, codes "A")
    ∷ (2000, codes "B")
    ∷ (3000, codes "C")
    ∷ (13000, codes "A")
    ∷ (40000, codes "A")
    ∷ []

cues_through :
    (run limits cues [] empty).0 ≡ (40000, codes "A") ∷ (2000, codes "B") ∷ (1000, codes "A") ∷ []
unfolding run gate is_replay drop_old get put beq
cues_through = refl

rate_limit_holds_example : IsRated limits (run limits cues [] empty).0
rate_limit_holds_example =
    rate_limit_holds limits cues
      (omega arith, (omega arith, (omega arith, (omega arith, (omega arith, tt)))))

replay_protection_holds_example : IsSpaced limits (run limits cues [] empty).0
replay_protection_holds_example = replay_protection_holds limits cues (omega arith)

-- One message over two chunks, and the start of another.
abbrev chunks : List Bytes
chunks = codes "ST" ∷ codes "ART\n{" ∷ []

chunks_read : receive newline_delimited [] chunks ≡ (codes "START" ∷ [], codes "{")
unfolding receive parse_framed_messages newline_frames trim_copy
chunks_read = refl

abbrev payloads : List Bytes
payloads = codes "OUT" ∷ codes " " ∷ codes "IN" ∷ []

parse_framed-stream_example :
    parse_framed_messages length_prefixed (stream payloads (0 ∷ 0 ∷ []))
    ≡ (frames_messages payloads, 0 ∷ 0 ∷ [])
parse_framed-stream_example =
    parse_framed-stream payloads (0 ∷ 0 ∷ []) (omega arith, (omega arith, (omega arith, tt)))
      (omega arith)

payloads_read : frames_messages payloads ≡ codes "OUT" ∷ codes "IN" ∷ []
unfolding trim_copy
payloads_read = refl

-- A worker that records the actions it was asked for.
abbrev execute : Bytes → Bytes → Bytes → List Bytes → Bool × List Bytes
execute action event_id cue w = (true, action ∷ w)

abbrev pton : Bytes → Option ℕ
pton s = if beq s (codes "10.0.0.1") then some 167772161 else none

-- The encoder's SCTE settings: no token, no allowlist.
abbrev settings : Object
settings = []

abbrev idle : CueState (List Bytes)
idle = record { worker = []; gate_runtime = empty; runtime_file = [] }

process_cue_safe_example :
    ((process_cue_message pton execute settings settings 1000
        (codes "10.0.0.1")
        (codes "SCTE35_OUT")
        idle).worker
      ≡ [])
    ⊎ IsAuthorised pton execute settings settings 1000
        (codes "10.0.0.1")
        (read_fields settings (codes "SCTE35_OUT"))
        empty
process_cue_safe_example =
    process_cue_safe pton execute settings settings 1000 (codes "10.0.0.1") (codes "SCTE35_OUT")
      idle

limits_of-AreLimits_example : AreLimits (limits_of settings settings)
limits_of-AreLimits_example = limits_of-AreLimits settings settings

-- A client whose messages are recorded, the newest first.
handle_client-newline_example :
    handle_client (λ m ms. m ∷ ms) newline_delimited chunks []
    ≡ handle_all (λ m ms. m ∷ ms) (codes "START" ∷ codes "{" ∷ []) []
unfolding flatten parse_framed_messages newline_frames trim_copy
handle_client-newline_example = handle_client-newline (λ m ms. m ∷ ms) chunks []
