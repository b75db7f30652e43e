-- ===== src/Activity/Tests.antt =====
-- The activity store at concrete inputs.
use vmux.Base.{
  ℕ, ◌≡◌, refl, Bool, true, false, List, [], ◌∷◌, Option, none, some, String, Bytes, arith,
  keep_last, lookup, nat_eq, Map, codes, if◌then◌else◌, bytes_eq,
}
use vmux.Activity.Event.{Event}
use vmux.Activity.Log.{all, safe_key}
use vmux.Activity.Store.{
  Step, System, closes, appends, subscribes, unsubscribes, sends_next, reads, new_store, new_system,
  recent, run, pick,
}
use vmux.Activity.Ring.{appended, of_session}
use vmux.Activity.Recent.{recent-run}
use vmux.Activity.Persist.{IsCoded, of_key}
use vmux.Activity.Full.{all-run}
use vmux.Activity.Channels.{IsBounded, run-IsBounded, unsubscribe-then_send}

abbrev event : ℕ → String → Event
event n session = record {
  seq = n;
  ts = 0;
  session_id = session;
  kind = "command_run";
  actor = "agent";
  summary = "ls";
  detail = "";
  refs = [];
  risk = "low";
}

-- A stand-in for Redact that hides the whole text.
abbrev hide : String → String
hide s = "***"

abbrev hidden : ℕ → String → Event
hidden n session = record (event n session) { summary = "***"; detail = "***" }

-- Two sessions whose ids have one key, with a subscriber of all events.
abbrev steps : List Step
steps =
    subscribes
    ∷ appends (event 0 "a/b")
    ∷ sends_next 0
    ∷ closes
    ∷ appends (event 0 "a_b")
    ∷ reads 0
    ∷ []

abbrev marshal : Event → Option Bytes
marshal e = some (e.seq ∷ [])

unmarshal : Bytes → Option Event
unmarshal [] = none
unmarshal (n ∷ b) = if nat_eq n 1 then some (hidden 1 "a/b") else some (hidden n "a_b")

abbrev any_file : Bytes → Bool
any_file key = true

-- What an earlier run has written.
abbrev old_files : Map Bytes (List Bytes)
old_files = (codes "a_b", (7 ∷ []) ∷ []) ∷ []

recent-run_example :
    recent (run hide marshal (new_system old_files any_file) steps).store "a_b" 10
    ≡ keep_last 10 (of_session "a_b" (appended hide 0 steps))
recent-run_example =
    recent-run hide marshal old_files any_file steps "a_b" 10 (omega arith) (omega arith)

recent_a_b : keep_last 10 (of_session "a_b" (appended hide 0 steps)) ≡ hidden 2 "a_b" ∷ []
unfolding of_session appended keep_last
recent_a_b = refl

first_line : IsCoded marshal unmarshal (1 ∷ []) (hidden 1 "a/b")
unfolding unmarshal
first_line = record { encodes = refl; decodes = refl; fits = omega arith }

second_line : IsCoded marshal unmarshal (2 ∷ []) (hidden 2 "a_b")
unfolding unmarshal
second_line = record { encodes = refl; decodes = refl; fits = omega arith }

-- All returns the old event and the events of both sessions.
all-run_example :
    all unmarshal (run hide marshal (new_system old_files any_file) steps).store.logs "a_b"
    ≡ (hidden 7 "a_b" ∷ hidden 1 "a/b" ∷ hidden 2 "a_b" ∷ [], true)
unfolding appended of_key safe_key bytes_eq new_store all unmarshal lookup
all-run_example =
    all-run marshal unmarshal (λ e. e.seq ∷ []) old_files any_file hide steps "a_b"
      (hidden 7 "a_b" ∷ []) (λ key. refl) refl (first_line, (second_line, tt))

channels-IsBounded : IsBounded (run hide marshal (new_system old_files any_file) steps)
unfolding lookup
channels-IsBounded =
    run-IsBounded hide marshal (new_system old_files any_file) steps (λ id c e. cc e)

abbrev sending : System
sending = record (new_system old_files any_file) {
  channels = (0, record { queued = []; closed = false }) ∷ [];
  sends = (hidden 1 "a_b", 0) ∷ [];
}

unsubscribe-then_send_example :
    (run hide marshal sending (unsubscribes 0 ∷ sends_next 0 ∷ [])).panicked ≡ true
unfolding lookup pick
unsubscribe-then_send_example =
    unsubscribe-then_send hide marshal sending 0 0 (record { queued = []; closed = false })
      (hidden 1 "a_b") [] refl refl refl
