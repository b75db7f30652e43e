-- ===== src/Replay/Tests.antt =====
-- Snapshots at concrete inputs.
use vmux.Base.{
  ℤ, pos, int_eq, ℕ, ◌*◌, ◌^◌, ◌≡◌, ◌≢◌, refl, List, [], ◌∷◌, String, arith, some, lookup, insert,
}
use vmux.Activity.Event.{Event}
use vmux.Replay.Snapshot.{at, blank}
use vmux.Replay.Timeline.{Moment, timeline, shown, panicked, bucket_of, last_ts}
use vmux.Replay.Buckets.{Ascending, has_key}
use vmux.Replay.Moments.{has_event}
use vmux.Replay.Density.{Fits, timeline-Fits}
use vmux.Replay.Window.{Shows, IsTimed, span_of, at-Shows}

abbrev event_at : ℕ → String → String → Event
event_at seconds kind summary = record {
  seq = 0;
  ts = seconds * 1000000000;
  session_id = "s";
  kind = kind;
  actor = "agent";
  summary = summary;
  detail = "";
  refs = ("shotId", summary) ∷ [];
  risk = "";
}

abbrev session : List Event
session =
    event_at 10 "screenshot" "one"
    ∷ event_at 20 "file_edit" "early"
    ∷ event_at 80 "file_edit" "a.go"
    ∷ event_at 90 "command_run" "go test"
    ∷ event_at 101 "screenshot" "two"
    ∷ []

shows_window :
    ((at session 100000000000 (pos 0)).files_touched ≡ "a.go" ∷ [])
    × ((at session 100000000000 (pos 0)).commands_run ≡ "go test" ∷ [])
    × ((at session 100000000000 (pos 0)).latest_shot ≡ ("shotId", "one") ∷ [])
unfolding at vmux.Base.int_ltb
shows_window = (refl, refl, refl)

session-IsTimed : IsTimed session
session-IsTimed = (
  (omega arith, (omega arith, (omega arith, (omega arith, tt)))),
  (
    (omega arith, (omega arith, (omega arith, tt))),
    ((omega arith, (omega arith, tt)), ((omega arith, tt), (tt, tt))),
  ),
)

at-Shows_example :
    Shows 100000000000
      (span_of (pos 25))
      session
      (blank 100000000000)
      (at session 100000000000 (pos 25))
at-Shows_example = at-Shows session 100000000000 (pos 25) (omega arith) session-IsTimed

-- A window of 10000000000 seconds wraps around to one that begins in the future, and shows nothing.
wrapped_window : (at session 100000000000 (pos 10000000000)).files_touched ≡ []
unfolding at vmux.Base.int_ltb
wrapped_window = refl

abbrev edits : List Event
edits =
    event_at 11 "screenshot" "two"
    ∷ event_at 13 "file_edit" "a.go"
    ∷ event_at 2 "console" "old"
    ∷ []

-- An event from before the first one has a bucket of its own, unless it is within one bucket's time.
counts_buckets :
    timeline (some (event_at 10 "screenshot" "one" ∷ edits)) (pos 2)
    ≡ shown 10000000000 2000000000 (
        record { t = pos 2000000000; count = 1; kind = "console"; max_risk = "" }
        ∷ record { t = pos 10000000000; count = 2; kind = "screenshot"; max_risk = "" }
        ∷ record { t = pos 12000000000; count = 1; kind = "file_edit"; max_risk = "" }
        ∷ [])
unfolding timeline lookup insert int_eq
counts_buckets = refl

-- 2^55 seconds last 0 nanoseconds in 64 bits.
panics_at_overflow : timeline (some (event_at 10 "screenshot" "one" ∷ [])) (pos (2 ^ 55)) ≡ panicked
unfolding timeline int_eq
panics_at_overflow = refl

two_seconds : bucket_of (pos 2) ≢ pos 0
unfolding bucket_of
two_seconds h = cc h

timeline-Fits_example :
    (ks : List ℤ) × (ms : List Moment) × (timeline
        (some (event_at 10 "screenshot" "one" ∷ edits))
        (pos 2)
      ≡ shown 10000000000 (last_ts (event_at 10 "screenshot" "one") edits) ms)
    × Ascending ks
    × ((k : ℤ)
        → has_key k ks
          ≡ has_event 10000000000 (bucket_of (pos 2)) k (event_at 10 "screenshot" "one" ∷ edits))
    × Fits 10000000000 (bucket_of (pos 2)) (event_at 10 "screenshot" "one" ∷ edits) ks ms
timeline-Fits_example = timeline-Fits (event_at 10 "screenshot" "one") edits (pos 2) two_seconds
