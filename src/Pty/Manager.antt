-- ===== src/Pty/Manager.antt =====
-- manager.go: the live sessions. Spawn starts a process and its reader, and enters the session in
-- the map afterwards; the reader, another goroutine, removes it when the process is over. A list of
-- steps is an interleaving of the two.
use vmux.Base.{
  Bool, true, false, List, [], ◌∷◌, none, some, Map, lookup, insert, delete, String, String-eq,
}

-- Whether the reader of a session that was started still runs, and the map of the manager.
pub record Manager : Type 0 where
  pub running : Map String Bool
  pub sessions : Map String Bool

pub data Step : Type 0 where
  -- startSession has returned a session under an id
  starts : String → Step
  -- Spawn enters it in the map
  enters : String → Step
  -- readPump is at its end and calls onExit
  ends : String → Step

-- get: whether the manager has the session; Write, Resize and Kill fail where it has not.
unfoldable pub has_session : Manager → String → Bool
has_session m sid = elim (lookup sid m.sessions) [ none ↦ false | some s ↦ true ]

unfoldable pub is_running : Manager → String → Bool
is_running m sid = elim (lookup sid m.running) [ none ↦ false | some b ↦ b ]

unfoldable pub remove : Manager → String → Manager
remove m sid = record m { sessions = delete sid m.sessions }

unfoldable pub end_session : Manager → String → Manager
unfolding remove
end_session m sid = remove (record m { running = insert sid false m.running }) sid

-- A reader that has ended, or was never started, ends no more.
unfoldable pub step : Manager → Step → Manager
unfolding end_session is_running
step m (starts sid) = record m { running = insert sid true m.running }
step m (enters sid) = record m { sessions = insert sid true m.sessions }
step m (ends sid) = elim (is_running m sid) [ false ↦ m | true ↦ end_session m sid ]

unfoldable pub run : Manager → List Step → Manager
unfolding step
run m [] = m
run m (a ∷ steps) = run (step m a) steps
