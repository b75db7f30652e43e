-- ===== src/Pty/Tests.antt =====
-- The sessions and environments at concrete inputs.
use vmux.Base.{
  ◌||◌, ◌≡◌, ◌≢◌, ◌⊎◌, refl, true, false, List, [], ◌∷◌, ◌++◌, String, String-eq, Bytes, codes,
  lookup, insert, delete, pos, none, some,
}
use mathlib.Core.Bool.{false≢true}
use text.Mathlib.TextEquality.{eq_iff}
use vmux.Pty.Env.{build_env, has_key, requested_or, default_term, has_prefix, build_env-has_key}
use vmux.Pty.Manager.{Manager, starts, enters, ends, is_running, run}
use vmux.Pty.Live
use vmux.Pty.Reader
use vmux.Pty.Signals.{Distinct, live_run-Distinct}
use vmux.Pty.Sessions.{IsDead, ends-then_enters}

abbrev path_only : List Bytes
path_only = codes "PATH=/bin" ∷ []

term_of_child :
    (has_key (build_env path_only []) (codes "TERM") ≡ true)
    × ((build_env path_only [] ≡ requested_or path_only [])
          × (has_key (requested_or path_only []) (codes "TERM") ≡ true)
        ⊎ (build_env path_only [] ≡ requested_or path_only [] ++ default_term ∷ [])
          × (has_key (requested_or path_only []) (codes "TERM") ≡ false))
term_of_child = build_env-has_key path_only []

-- An inherited entry for TERM is kept.
keeps_term : build_env (codes "TERM=dumb" ∷ []) [] ≡ codes "TERM=dumb" ∷ []
unfolding build_env has_key requested_or has_prefix
keeps_term = refl

-- `true` has been started and is over at once.
abbrev short_lived : Manager
short_lived = record { running = ("s", true) ∷ []; sessions = [] }

t-ne-s : ◌≢◌ {A = String} "t" "s"
t-ne-s e = false≢true ((eq_iff "t" "s").1 e)

session-IsDead :
    IsDead "s" (run short_lived (ends "s" ∷ enters "s" ∷ starts "t" ∷ enters "t" ∷ ends "s" ∷ []))
unfolding is_running lookup
session-IsDead =
    ends-then_enters short_lived "s" (starts "t" ∷ enters "t" ∷ ends "s" ∷ []) refl (t-ne-s, tt)

abbrev two_sessions : List Live.Step
two_sessions =
    Live.moves (starts "a")
    ∷ Live.moves (enters "a")
    ∷ Live.kills "a"
    ∷ Live.kills "a"
    ∷ Live.moves (starts "b")
    ∷ Live.moves (enters "b")
    ∷ []

-- The session `c` is entered after KillAll has taken the others, and is not signalled.
abbrev killing_steps : List Live.Step
killing_steps =
    Live.kills_taken "b"
    ∷ Live.moves (starts "c")
    ∷ Live.moves (enters "c")
    ∷ Live.kills_taken "a"
    ∷ []

misses_late_session :
    (Live.live_run
      (Live.take_all (Live.live_run Live.new_live two_sessions))
      killing_steps).signalled
    ≡ "a" ∷ "b" ∷ []
unfolding Live.live_run Live.take_all lookup insert delete
misses_late_session = refl

live_run-Distinct_example :
    Distinct
      (Live.live_run
        (Live.take_all (Live.live_run Live.new_live two_sessions))
        killing_steps).signalled
    × ((Live.is_among "b"
            (Live.live_run
              (Live.take_all (Live.live_run Live.new_live two_sessions))
              killing_steps).signalled
          || Live.is_among "b"
              (Live.live_run
                (Live.take_all (Live.live_run Live.new_live two_sessions))
                killing_steps).killing)
        ≡ true)
unfolding Live.live_run Live.is_among lookup insert delete
live_run-Distinct_example = live_run-Distinct two_sessions killing_steps "b" refl

spawns_session :
    ((Live.spawn Live.new_live "" (some "a")).1 ≡ none)
    × (Live.list (Live.spawn (Live.spawn Live.new_live "sh" (some "b")).0 "sh" (some "a")).0.manager
        ≡ "a" ∷ "b" ∷ [])
unfolding Live.spawn Live.list insert lookup
spawns_session = (refl, refl)

abbrev three_reads : List Reader.Read
three_reads =
    record { data_read = codes "hi"; ends = false }
    ∷ record { data_read = []; ends = false }
    ∷ record { data_read = codes "!"; ends = true }
    ∷ []

pumps_reads : Reader.read_pump "s" (Reader.exit_error (pos 2)) three_reads ≡ (
  Reader.data_notice "s" (codes "hi")
      ∷ Reader.data_notice "s" (codes "!")
      ∷ Reader.exit_notice "s" (pos 2)
      ∷ [],
  true,
)
unfolding Reader.read_pump
pumps_reads = refl

read_pump-EndsOnce_example :
    Reader.IsPumped "s"
      (Reader.exit_code (Reader.exit_error (pos 2)))
      (Reader.read_pump "s" (Reader.exit_error (pos 2)) three_reads)
      (Reader.output_of three_reads)
read_pump-EndsOnce_example = Reader.read_pump-EndsOnce "s" (Reader.exit_error (pos 2)) three_reads
