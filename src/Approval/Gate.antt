-- ===== src/Approval/Gate.antt =====
-- gate.go and the modes of modes.go. A call of Check that needs approval waits; what can happen to
-- the gate meanwhile is a list of events.
use vmux.Base.{
  Bool, true, false, ◌||◌, List, [], ◌∷◌, Option, none, some, String, Map, String-eq, ◌==◌,
  if◌then◌else◌, lookup, insert,
}
use Prim.Native.String.{◌++◌}
use vmux.Approval.Rules.{Rule, default_rules, first_match}
use vmux.Approval.Queue.{Action, Queue}
use vmux.Approval.Queue

-- The mode strings.
abbrev pub mode_watch : String
mode_watch = "watch"

abbrev pub mode_gate : String
mode_gate = "gate"

abbrev pub mode_sandbox : String
mode_sandbox = "sandbox"

unfoldable pub valid_mode : String → Bool
valid_mode m = m == mode_watch || m == mode_gate || m == mode_sandbox

pub record Gate : Type 0 where
  pub rules : List Rule
  pub queue : Queue
  pub modes : Map String String

abbrev pub new_gate : Gate
new_gate = record { rules = default_rules; queue = Queue.empty; modes = [] }

-- Mode: DefaultMode where none is set.
unfoldable pub mode : Gate → String → String
mode g workspace = elim (lookup workspace g.modes) [ none ↦ mode_watch | some m ↦ m ]

-- `false` is the error "invalid mode".
unfoldable pub set_mode : Gate → String → String → Gate × Bool
unfolding valid_mode
set_mode g workspace m =
    if valid_mode m then (record g { modes = insert workspace m g.modes }, true) else (g, false)

pub data Decision : Type 0 where
  allow deny need_approval : Decision

-- The reason is that of the rule that Evaluate returns beside the decision.
pub record Verdict : Type 0 where
  pub decision : Decision
  pub rule : Option Rule
  pub reason : String

abbrev pub allowed : Verdict
allowed = record { decision = allow; rule = none; reason = "" }

abbrev pub denied : Verdict
denied = record { decision = deny; rule = none; reason = "sandbox mode blocks writes and commands" }

gate_verdict : Option Rule → Verdict
gate_verdict none = allowed
gate_verdict (some r) = record { decision = need_approval; rule = some r; reason = r.reason }

unfoldable pub evaluate : Gate → Action → Verdict
unfolding gate_verdict
evaluate g a =
    let m = mode g a.workspace in
    if m == mode_sandbox
    then (if a.tool == "command_run" || a.tool == "file_write" then denied else allowed)
    else if m == mode_gate
    then (if a.tool == "command_run"
        then gate_verdict (first_match g.rules a.command a.args)
        else allowed)
    else allowed

-- How a call of Check stands: it has returned, with its Boolean and its reason, or it waits for
-- the decision about its item.
pub data Call : Type 0 where
  returned : Bool → String → Call
  waiting : Rule → Call

-- Check up to the `select`, on the verdict `v` of Evaluate. `id` is what id.New returns if an item
-- is queued.
unfoldable pub respond_to : Option Rule → Decision → Gate → String → Action → String → Gate × Call
respond_to (some r) d g id a reason = (record g { queue = Queue.add g.queue id a r }, waiting r)
respond_to none allow g id a reason = (g, returned true "")
respond_to none d g id a reason = (g, returned false reason)

unfoldable pub check_start : Gate → String → Action → Gate × Call
unfolding respond_to
check_start g id a = let v = evaluate g a in respond_to v.rule v.decision g id a v.reason

-- The gate with its calls of Check, each under the id of its item.
pub record System : Type 0 where
  pub gate : Gate
  pub calls : Map String Call

pub data Event : Type 0 where
  -- an agent's call of Check
  checks : String → Action → Event
  -- the user's answer to a pending item
  decides : String → Bool → Event
  -- the `select` of a waiting call: by its channel, or by the end of its context
  receives cancels : String → Event
  -- the user sets a workspace's mode
  sets_mode : String → String → Event

unfoldable pub receive : System → String → System
receive s id = elim (lookup id s.calls) [
  | none ↦ s
  | some c ↦ elim c [
    | returned b reason ↦ s
    | waiting r ↦ elim (lookup id s.gate.queue.channels) [
      | none ↦ s
      | some b ↦ record s {
        calls =
            insert id (if b then returned true "" else returned false ("denied: " ++ r.reason))
              s.calls;
      }
    ]
  ]
]

unfoldable pub cancel : System → String → System
cancel s id = elim (lookup id s.calls) [
  | none ↦ s
  | some c ↦ elim c [
    | returned b reason ↦ s
    | waiting r ↦ record {
      gate = record (s.gate) { queue = Queue.remove s.gate.queue id };
      calls = insert id (returned false "approval cancelled") s.calls;
    }
  ]
]

unfoldable pub step : System → Event → System
step s (checks id a) =
    let (g, c) = check_start s.gate id a in record { gate = g; calls = insert id c s.calls }
step s (decides id b) = record s {
  gate = record (s.gate) { queue = (Queue.decide s.gate.queue id b).0 };
}
step s (receives id) = receive s id
step s (cancels id) = cancel s id
step s (sets_mode workspace m) = record s { gate = (set_mode s.gate workspace m).0 }

unfoldable pub run : System → List Event → System
unfolding step
run s [] = s
run s (e ∷ es) = run (step s e) es
