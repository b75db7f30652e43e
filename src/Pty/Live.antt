-- ===== src/Pty/Live.antt =====
-- manager.go and session.go: Write, Resize, Kill, KillAll and List over the map of the sessions, and a
-- session's kill, which sync.Once lets run once. Ids are drawn at random, so an id stands for one
-- session.
use vmux.Base.{
  Bool, true, false, ◌||◌, List, [], ◌∷◌, ◌++◌, Option, none, some, if◌then◌else◌, map, String,
  String-eq, ◌==◌,
}
use Prim.Native.String.{compare}
use Prim.Native.Nat.{Ordering}
use vmux.Pty.Manager.{Manager, has_session, step}
use vmux.Pty.Manager

-- What Write, Resize and Kill return: nothing, the error that there is no such session, or that of the
-- pseudo-terminal.
pub data Called : Type 0 where
  done no_session broken : Called

-- `once` are the sessions whose Once has run, `signalled` the process groups that were killed, in order,
-- and `killing` the sessions that calls of KillAll have taken from the map and not killed yet.
pub record Live : Type 0 where
  pub manager : Manager
  pub killing : List String
  pub once : List String
  pub signalled : List String

abbrev pub new_live : Live
new_live = record {
  manager = record { running = []; sessions = [] };
  killing = [];
  once = [];
  signalled = [];
}

-- Write and Resize, with whether the call of the pseudo-terminal succeeds
unfoldable pub use_session : Manager → String → Bool → Called
unfolding has_session
use_session m sid ok = if has_session m sid then (if ok then done else broken) else no_session

unfoldable pub is_among : String → List String → Bool
is_among sid [] = false
is_among sid (s ∷ rest) = s == sid || is_among sid rest

-- kill of a session
unfoldable pub kill_session : Live → String → Live
unfolding is_among
kill_session l sid =
    if is_among sid l.once
    then l
    else record l { once = sid ∷ l.once; signalled = l.signalled ++ sid ∷ [] }

-- Kill
unfoldable pub kill : Live → String → Live × Called
unfolding kill_session has_session
kill l sid = if has_session l.manager sid then (kill_session l sid, done) else (l, no_session)

abbrev pub session_ids : Live → List String
session_ids l = map (λ e. e.0) l.manager.sessions

-- KillAll up to the unlocking of the mutex
unfoldable pub take_all : Live → Live
take_all l = record l { killing = l.killing ++ session_ids l }

unfoldable pub without_id : String → List String → List String
without_id sid [] = []
without_id sid (s ∷ rest) = let later = without_id sid rest in if s == sid then rest else s ∷ later

-- One turn of the loop of KillAll, which no mutex guards, on a session that it has taken. The order in
-- which it takes them is that of a map of Go.
unfoldable pub kill_taken : Live → String → Live
unfolding kill_session without_id is_among
kill_taken l sid =
    if is_among sid l.killing
    then kill_session (record l { killing = without_id sid l.killing }) sid
    else l

unfoldable pub text_before : String → String → Bool
text_before a b = elim (compare a b) [ Ordering.lt ↦ true | _ ↦ false ]

unfoldable pub insert_id : String → List String → List String
unfolding text_before
insert_id sid [] = sid ∷ []
insert_id sid (s ∷ rest) =
    let later = insert_id sid rest in if text_before sid s then sid ∷ s ∷ rest else s ∷ later

-- sort.Strings
unfoldable pub sort_ids : List String → List String
unfolding insert_id
sort_ids [] = []
sort_ids (sid ∷ sids) = insert_id sid (sort_ids sids)

-- List
unfoldable pub list : Manager → List String
unfolding sort_ids
list m = sort_ids (map (λ e. e.0) m.sessions)

pub data Step : Type 0 where
  kills : String → Step
  takes_all : Step
  kills_taken : String → Step
  -- a step of Spawn or of a reader
  moves : Manager.Step → Step

unfoldable pub live_step : Live → Step → Live
unfolding kill take_all kill_taken step
live_step l (kills sid) = (kill l sid).0
live_step l takes_all = take_all l
live_step l (kills_taken sid) = kill_taken l sid
live_step l (moves a) = record l { manager = step l.manager a }

unfoldable pub live_run : Live → List Step → Live
unfolding live_step
live_run l [] = l
live_run l (a ∷ steps) = live_run (live_step l a) steps

unfoldable pub spawn_started : Live → Option String → Live × Option String
unfolding step
spawn_started l none = (l, none)
spawn_started l (some sid) = (
  record l { manager = step (step l.manager (Manager.starts sid)) (Manager.enters sid) },
  some sid,
)

-- Spawn of a command, where no step of the session's reader comes between; `started` is the session
-- that startSession returns, if it succeeds.
unfoldable pub spawn : Live → String → Option String → Live × Option String
unfolding spawn_started
spawn l cmd started = if cmd == "" then (l, none) else spawn_started l started
