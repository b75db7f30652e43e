-- ===== src/Replay/Window.antt =====
-- What a snapshot shows: the events of its window, and the latest ones before its time.
use mathlib.Core.List.{append_assoc, append-nil}
use vmux.Base.{
  ℤ, pos, negsuc, int_ltb, mul64, wrap64, negated, to_int64, ℕ, zero, suc, ◌+◌, ◌-◌, ◌*◌, ◌≤◌, ◌<◌,
  ◌%◌, ◌^◌, subst, ◌≡◌, refl, sym, ◌∙◌, true, false, ◌&&◌, List, [], ◌∷◌, ◌++◌, if◌then◌else◌, ltb,
  leb, ap, arith, Bool-cases, inl, inr, Map, String, String-eq, ◌==◌, Every, eq_of_test,
}
use vmux.Activity.Event.{Event}
use vmux.Replay.Snapshot.{
  Snapshot, note_latest, note_recent, note, scan_events, start_of_window, window_seconds, negative,
  add_duration, blank, at,
}

-- The events stand in the order of their times.
abbrev pub IsTimed : List Event → Type 0
IsTimed [] = Unit
IsTimed (e ∷ es) = Every (λ d. e.ts ≤ d.ts) es × IsTimed es

-- The summaries of the events of the kind `kind` from `span` before the time `until` to that time.
unfoldable pub summaries : String → ℕ → ℕ → List Event → List String
summaries kind span until [] = []
summaries kind span until (e ∷ es) =
    if leb e.ts until && (leb until (e.ts + span) && e.kind == kind)
    then e.summary ∷ summaries kind span until es
    else summaries kind span until es

-- The references of the last screenshot until `until`, or `old` if there is none.
unfoldable pub last_shot : ℕ → List Event → Map String String → Map String String
last_shot until [] old = old
last_shot until (e ∷ es) old =
    if leb e.ts until && e.kind == "screenshot"
    then last_shot until es e.refs
    else last_shot until es old

-- Past the time, nothing counts.
summaries-late :
    (kind : String) (span until : ℕ) (es : List Event) (t : ℕ)
    → Every (λ d. t ≤ d.ts) es
    → ltb until t ≡ true
    → summaries kind span until es ≡ []
unfolding summaries
summaries-late kind span until [] t h late = refl
summaries-late kind span until (e ∷ es) t h late =
    let none_left = summaries-late kind span until es t h.1 late in
    let after : leb e.ts until ≡ false = ground (arith, h.0, late) in rw (after, none_left)

last_shot-late :
    (until : ℕ) (es : List Event) (old : Map String String) (t : ℕ)
    → Every (λ d. t ≤ d.ts) es
    → ltb until t ≡ true
    → last_shot until es old ≡ old
unfolding last_shot
last_shot-late until [] old t h late = refl
last_shot-late until (e ∷ es) old t h late =
    let after : leb e.ts until ≡ false = ground (arith, h.0, late) in
    rw after (last_shot-late until es old t h.1 late)

-- A kind is one literal at most.
edit-ne-command : (k : String) → (k == "command_run") ≡ true → (k == "file_edit") ≡ false
edit-ne-command k h = rw (eq_of_test k "command_run" h) refl

console-ne :
    (k : String)
    → (k == "console") ≡ true
    → ((k == "file_edit") ≡ false) × ((k == "command_run") ≡ false)
console-ne k h = rw (eq_of_test k "console" h) (refl, refl)

-- The window that starts at `w` is the one of the last `span` before `t`.
abbrev pub IsWindow : ℤ → ℕ → ℕ → Type 0
IsWindow w t span = (ts : ℕ) → int_ltb (pos ts) w ≡ ltb (ts + span) t

module _ (w : ℤ) (t span : ℕ) (same : IsWindow w t span) (e : Event) (s : Snapshot) where
  note-files : (note w e s).files_touched ≡ (
      if leb t (e.ts + span) && e.kind == "file_edit"
      then s.files_touched ++ e.summary ∷ []
      else s.files_touched)
  unfolding note note_latest note_recent
  note-files = ground (arith, same e.ts)

  note-commands : (note w e s).commands_run ≡ (
      if leb t (e.ts + span) && e.kind == "command_run"
      then s.commands_run ++ e.summary ∷ []
      else s.commands_run)
  unfolding note note_latest note_recent
  note-commands = ground (arith, same e.ts, edit-ne-command e.kind)

  note-consoles : (note w e s).console_errors ≡ (
      if leb t (e.ts + span) && e.kind == "console"
      then s.console_errors ++ e.summary ∷ []
      else s.console_errors)
  unfolding note note_latest note_recent
  note-consoles = ground (arith, same e.ts, console-ne e.kind)

note-shot :
    (w : ℤ) (e : Event) (s : Snapshot)
    → (note w e s).latest_shot ≡ (if e.kind == "screenshot" then e.refs else s.latest_shot)
unfolding note note_latest note_recent
note-shot w e s = ground arith

-- What stands in the snapshot `s'` that the loop makes of `s` and the events `es`.
pub record Shows (t span : ℕ) (es : List Event) (s s' : Snapshot) : Type 0 where
  pub files : s'.files_touched ≡ s.files_touched ++ summaries "file_edit" span t es
  pub commands : s'.commands_run ≡ s.commands_run ++ summaries "command_run" span t es
  pub consoles : s'.console_errors ≡ s.console_errors ++ summaries "console" span t es
  pub shot : s'.latest_shot ≡ last_shot t es s.latest_shot

-- A list that grows by an event's summary where the event counts, and then by those of the rest.
summaries-cons :
    (kind : String) (span t : ℕ) (e : Event) (es : List Event) (old new out : List String)
    → leb e.ts t ≡ true
    → new ≡ (if leb t (e.ts + span) && e.kind == kind then old ++ e.summary ∷ [] else old)
    → out ≡ new ++ summaries kind span t es
    → out ≡ old ++ summaries kind span t (e ∷ es)
unfolding summaries
summaries-cons kind span t e es old new out soon n o =
    elim (Bool-cases (leb t (e.ts + span) && e.kind == kind)) [
      | inl counts ↦
          rw (o, n, soon, counts) (append_assoc old (e.summary ∷ []) (summaries kind span t es))
      | inr skipped ↦ rw (o, n, soon, skipped)
    ]

late-Shows :
    (t span from : ℕ) (es : List Event) (s : Snapshot)
    → Every (λ d. from ≤ d.ts) es
    → ltb t from ≡ true
    → Shows t span es s s
late-Shows t span from es s h late = record {
  files = rw (summaries-late "file_edit" span t es from h late) (sym (append-nil s.files_touched));
  commands =
      rw (summaries-late "command_run" span t es from h late) (sym (append-nil s.commands_run));
  consoles =
      rw (summaries-late "console" span t es from h late) (sym (append-nil s.console_errors));
  shot = sym (last_shot-late t es s.latest_shot from h late);
}

last_shot-cons :
    (t : ℕ) (w : ℤ) (e : Event) (es : List Event) (s : Snapshot)
    → leb e.ts t ≡ true
    → last_shot t es (note w e s).latest_shot ≡ last_shot t (e ∷ es) s.latest_shot
unfolding last_shot
last_shot-cons t w e es s near = elim (Bool-cases (e.kind == "screenshot")) [
  | inl is ↦ rw (note-shot w e s, near, is)
  | inr other ↦ rw (note-shot w e s, near, other)
]

scan_events-Shows :
    (t span : ℕ) (w : ℤ) (es : List Event) (s : Snapshot)
    → IsWindow w t span
    → IsTimed es
    → Shows t span es s (scan_events t w es s)
unfolding scan_events
scan_events-Shows t span w [] s same h = late-Shows t span (suc t) [] s tt (ground arith)
scan_events-Shows t span w (e ∷ es) s same h = elim (Bool-cases (ltb t e.ts)) [
  | inl late ↦ rw late (late-Shows t span e.ts (e ∷ es) s (omega arith, h.0) late)
  | inr soon ↦
      let near : leb e.ts t ≡ true = ground arith in
      let s' : Snapshot = note w e s in
      let rest = scan_events-Shows t span w es s' same h.1 in
      rw soon (record {
        files =
            summaries-cons "file_edit" span t e es s.files_touched s'.files_touched _ near
              (note-files w t span same e s) rest.files;
        commands =
            summaries-cons "command_run" span t e es s.commands_run s'.commands_run _ near
              (note-commands w t span same e s) rest.commands;
        consoles =
            summaries-cons "console" span t e es s.console_errors s'.console_errors _ near
              (note-consoles w t span same e s) rest.consoles;
        shot = rest.shot ∙ last_shot-cons t w e es s near;
      })
]

-- The nanoseconds of a window of `n` seconds, 30 seconds where `n` is not positive.
abbrev pub span_of : ℤ → ℕ
span_of (pos zero) = 30000000000
span_of (pos (suc n)) = suc n * 1000000000
span_of (negsuc n) = 30000000000

-- The number of nanoseconds of `n` seconds is an int64.
abbrev pub IsDuration : ℤ → Type 0
IsDuration (pos n) = n ≤ 9223372036
IsDuration (negsuc n) = Unit

wrap64-negated : (m : ℕ) → 0 < m → m ≤ 9223372036854775808 → wrap64 (negated m) ≡ negsuc (m - 1)
unfolding wrap64 negated to_int64
wrap64-negated zero p h = absurd (omega (arith, p))
wrap64-negated (suc m) p h =
    let small : m % 2 ^ 64 ≡ m = omega (arith, h) in
    let last : (2 ^ 64 - 1 - m) % 2 ^ 64 ≡ 2 ^ 64 - 1 - m = omega (arith, h) in
    let big : ltb (2 ^ 64 - 1 - m) (2 ^ 63) ≡ false = ground (arith, h) in
    let back : 2 ^ 64 - 1 - (2 ^ 64 - 1 - m) ≡ m = omega (arith, h) in
    rw (small, last, big, back) (ap negsuc (omega arith))

negative-mul64 :
    (n : ℕ)
    → suc n ≤ 9223372036
    → mul64 (negsuc n) (pos 1000000000) ≡ negsuc (suc n * 1000000000 - 1)
unfolding mul64
negative-mul64 n h = wrap64-negated (suc n * 1000000000) (omega arith) (omega (arith, h))

add_duration-IsWindow : (t d span : ℕ) → span ≡ suc d → IsWindow (add_duration t (negsuc d)) t span
unfolding add_duration int_ltb
add_duration-IsWindow t d span is ts = ground (arith, is)

start_of_window-IsWindow :
    (t : ℕ) (n : ℤ) → IsDuration n → IsWindow (start_of_window t n) t (span_of n)
unfolding start_of_window window_seconds negative
start_of_window-IsWindow t (pos zero) h = add_duration-IsWindow t 29999999999 30000000000 refl
start_of_window-IsWindow t (pos (suc n)) h =
    let d : ℕ = suc n * 1000000000 - 1 in
    let wrapped = negative-mul64 n h in
    subst (λ z. IsWindow (add_duration t z) t (suc n * 1000000000)) (sym wrapped)
      (add_duration-IsWindow t d (suc n * 1000000000) (omega arith))
start_of_window-IsWindow t (negsuc n) h = add_duration-IsWindow t 29999999999 30000000000 refl

-- Of events that stand in the order of their times, the snapshot at `t` shows the summaries of all
-- file edits, commands and console entries from `n` seconds before `t` (30 seconds where `n` is 0 or
-- negative) until `t`, and the last screenshot until `t`, however old: for every `n` whose nanoseconds
-- are an int64.
pub at-Shows :
    (events : List Event) (t : ℕ) (n : ℤ)
    → IsDuration n
    → IsTimed events
    → Shows t (span_of n) events (blank t) (at events t n)
unfolding at
at-Shows events t n fits h =
    scan_events-Shows t (span_of n) (start_of_window t n) events (blank t)
      (start_of_window-IsWindow t n fits) h
