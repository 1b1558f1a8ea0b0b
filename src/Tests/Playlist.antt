-- ===== src/Tests/Playlist.antt =====
-- Breaks of a playlist (src/worker/worker.cpp, `persistHlsScteRangeState`,
-- `injectHlsScteDateRange`).
use multi_coder.Prelude.{◌*◌, List, [], ◌∷◌, ◌≡◌, ◌≢◌, refl, arith, Bytes, codes, beq, to_string}
use multi_coder.Prelude.Int.{ℤ, pos}
use multi_coder.Json.{Object, lookup, get_string, get_bool}
use multi_coder.Strings.{trim_copy, stoll}
use multi_coder.Scte.{
  Range, no_range, Now, break_of, other, start_range, read_hls_scte_range_state, read_epoch,
  persist_break, persist_hls_scte_range_state, current_range,
}
use multi_coder.Scte.DateRange.{inject_hls_scte_date_range}
use multi_coder.Scte.Lifecycle.{IsCoherent, persist-IsCoherent}
use multi_coder.Scte.Store.{
  IsStorable, persist-read, Occurrence, persist, persist_all, persist_all-absorbed,
}
use multi_coder.Scte.Inject.{Injected, inject-Injected}

-- Stands for the calendar: minutes behind noon.
abbrev minutes : Bytes → ℤ
minutes [] = pos 0
minutes (c ∷ s) = pos (c * 60000)

abbrev noon : Now
noon = record { now_ms = 1000; now_iso = codes "2026-01-01T12:00:00.000Z" }

no_range-IsCoherent :
    IsCoherent 1000 (current_range no_range (read_hls_scte_range_state minutes []))
unfolding read_hls_scte_range_state read_epoch get_bool get_string lookup stoll trim_copy
no_range-IsCoherent = record { on = λ e. cc; over = λ e n. omega arith; past = omega arith }

abbrev started : Object × Range
started =
    persist_hls_scte_range_state minutes 1 (codes "START_BREAK") (codes "e1") (codes "OUT") noon []
      no_range

persist-IsCoherent_example : IsCoherent 1000 started.1
persist-IsCoherent_example =
    persist-IsCoherent minutes 1 (codes "START_BREAK") (codes "e1") (codes "OUT") noon [] no_range
      no_range-IsCoherent

abbrev open_range : Range
open_range = start_range 1 (codes "START_BREAK") (codes "e1") (codes "OUT") noon no_range

started-IsStorable : IsStorable started.1
unfolding persist_hls_scte_range_state persist_break break_of beq trim_copy to_string
started-IsStorable = record {
  id = refl;
  event_id = refl;
  action_out = refl;
  action_in = refl;
  cue_out = refl;
  cue_in = refl;
  start_date = refl;
  end_date = refl;
  start_ms = (omega arith, omega arith);
  end_ms = (omega arith, omega arith);
  start_dated = refl;
  end_dated = refl;
}

started_differs : break_of (codes "START_BREAK") ≢ other
unfolding break_of beq
started_differs e = cc

persist-read_example : read_hls_scte_range_state minutes started.0 ≡ started.1
persist-read_example =
    persist-read minutes 1 (codes "START_BREAK") (codes "e1") (codes "OUT") noon [] no_range
      started_differs started-IsStorable

abbrev break_on : Occurrence
break_on = record {
  action = codes "START_BREAK";
  event_id = codes "e1";
  cue = codes "OUT";
  now = noon;
}

abbrev identification : Occurrence
identification = record {
  action = codes "LEGAL_ID";
  event_id = codes "e2";
  cue = codes "ID";
  now = noon;
}

abbrev break_off : Occurrence
break_off = record {
  action = codes "END_BREAK";
  event_id = codes "e3";
  cue = codes "IN";
  now = record { now_ms = 61000; now_iso = codes "2026-01-01T12:01:00.000Z" };
}

quiet-IsNoBreak : break_of (codes "LEGAL_ID") ≡ other
unfolding break_of beq
quiet-IsNoBreak = refl

-- A break that is on, two identifications, and its end.
persist_all-absorbed_example :
    persist minutes 1
      (persist_all minutes 1
        (persist minutes 1 ([], no_range) break_on)
        (identification ∷ identification ∷ []))
      break_off
    ≡ persist minutes 1 (persist minutes 1 ([], no_range) break_on) break_off
persist_all-absorbed_example =
    persist_all-absorbed minutes 1 ([], no_range) break_on (identification ∷ identification ∷ [])
      break_off started_differs started-IsStorable (quiet-IsNoBreak, (quiet-IsNoBreak, tt))

abbrev playlist : List Bytes
playlist =
    codes "#EXTM3U"
    ∷ codes "#EXT-X-PROGRAM-DATE-TIME:1"
    ∷ codes "#EXTINF:6,"
    ∷ codes "a.ts"
    ∷ codes "#EXT-X-PROGRAM-DATE-TIME:2"
    ∷ codes "#EXTINF:6,"
    ∷ codes "b.ts"
    ∷ []

inject-Injected_example :
    Injected minutes open_range playlist (inject_hls_scte_date_range minutes open_range playlist)
inject-Injected_example = inject-Injected minutes open_range playlist
