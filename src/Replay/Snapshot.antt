-- ===== src/Replay/Snapshot.antt =====
-- replay.go: At. A time is a number of nanoseconds, so it is not negative.
use vmux.Base.{
  ℤ, pos, negsuc, int_ltb, mul64, ℕ, zero, suc, ◌+◌, ◌-◌, List, [], ◌∷◌, ◌++◌, if◌then◌else◌, ltb,
  Map, String, String-eq, ◌==◌,
}
use vmux.Activity.Event.{Event}

pub record Snapshot : Type 0 where
  pub t : ℕ
  pub latest_shot : Map String String
  pub last_tool_call : String
  pub files_touched : List String
  pub commands_run : List String
  pub console_errors : List String

-- The first `switch` of the loop.
unfoldable pub note_latest : Event → Snapshot → Snapshot
note_latest e s =
    if e.kind == "screenshot"
    then record s { latest_shot = e.refs }
    else (if e.kind == "tool_call" then record s { last_tool_call = e.summary } else s)

-- The second `switch` of the loop.
unfoldable pub note_recent : Event → Snapshot → Snapshot
note_recent e s =
    if e.kind == "file_edit"
    then record s { files_touched = s.files_touched ++ e.summary ∷ [] }
    else (if e.kind == "command_run"
        then record s { commands_run = s.commands_run ++ e.summary ∷ [] }
        else (if e.kind == "console"
            then record s { console_errors = s.console_errors ++ e.summary ∷ [] }
            else s))

-- The body of the loop after its `break`.
unfoldable pub note : ℤ → Event → Snapshot → Snapshot
unfolding note_latest note_recent
note window_start e s =
    if int_ltb (pos e.ts) window_start then note_latest e s else note_recent e (note_latest e s)

-- The loop of At.
unfoldable pub scan_events : ℕ → ℤ → List Event → Snapshot → Snapshot
unfolding note
scan_events t window_start [] s = s
scan_events t window_start (e ∷ es) s =
    let rest = scan_events t window_start es (note window_start e s) in
    if ltb t e.ts then s else rest

-- windowSeconds, with 30 for 0 and for a negative number
unfoldable pub window_seconds : ℤ → ℤ
window_seconds (pos zero) = pos 30
window_seconds (pos (suc n)) = pos (suc n)
window_seconds (negsuc n) = pos 30

-- -n
unfoldable pub negative : ℤ → ℤ
negative (pos zero) = pos 0
negative (pos (suc n)) = negsuc n
negative (negsuc n) = pos (suc n)

-- t.Add of a number of nanoseconds
unfoldable pub add_duration : ℕ → ℤ → ℤ
add_duration t (pos d) = pos (t + d)
add_duration t (negsuc d) = if ltb d t then pos (t - suc d) else negsuc (d - t)

-- windowStart: the product of the durations is one of int64, which can wrap.
unfoldable pub start_of_window : ℕ → ℤ → ℤ
unfolding window_seconds negative add_duration mul64
start_of_window t n = add_duration t (mul64 (negative (window_seconds n)) (pos 1000000000))

abbrev pub blank : ℕ → Snapshot
blank t = record {
  t = t;
  latest_shot = [];
  last_tool_call = "";
  files_touched = [];
  commands_run = [];
  console_errors = [];
}

-- At, on the events that the source of events has for the session.
unfoldable pub at : List Event → ℕ → ℤ → Snapshot
unfolding scan_events start_of_window
at events t n = scan_events t (start_of_window t n) events (blank t)
