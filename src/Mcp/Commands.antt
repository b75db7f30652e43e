-- ===== src/Mcp/Commands.antt =====
-- native_command.go: the handler of command_run, up to the start of the program.
use vmux.Base.{
  ◌≡◌, ◌≢◌, inl, inr, refl, sym, ap, ◌∙◌, Bool, true, false, ◌&&◌, ◌||◌, not, List, [], ◌∷◌, Option,
  none, some, String, String-eq, ◌==◌, if◌then◌else◌, arith, Option-cases, Map, lookup, Bytes,
  codes, Bytes-eq,
}
use vmux.Approval.Gate.{
  Gate, mode, mode_sandbox, mode_watch, evaluate, Call, returned, waiting, check_start, respond_to,
}
use mathlib.Core.Bool.{false≢true}
use vmux.Approval.Rules.{Rule}
use vmux.Approval.Queue.{Action}
use vmux.Mcp.Paths.{FilePath}

pub record CommandArgs : Type 0 where
  pub workspace_id : String
  pub command : Bytes
  pub args : List Bytes

-- `ran` holds the program that is started, its arguments and its working directory.
pub data CommandReply : Type 0 where
  invalid_arguments unknown_workspace : CommandReply
  blocked : String → CommandReply
  not_allowed : CommandReply
  ran : FilePath → Bytes → List Bytes → CommandReply

-- cmdAllowlist
abbrev pub allowlist : List Bytes
allowlist =
    codes "ls"
    ∷ codes "cat"
    ∷ codes "pwd"
    ∷ codes "echo"
    ∷ codes "head"
    ∷ codes "tail"
    ∷ codes "wc"
    ∷ codes "grep"
    ∷ []

contains : Bytes → List Bytes → Bool
contains c [] = false
contains c (x ∷ xs) = c == x || contains c xs

unfoldable pub is_listed : Bytes → Bool
unfolding contains
is_listed c = contains c allowlist

abbrev pub command_action : CommandArgs → Action
command_action a = record {
  tool = "command_run";
  command = a.command;
  args = a.args;
  workspace = a.workspace_id;
}

-- What Check returns: its own answer, or `answer` where it waits.
unfoldable pub settled : Call → Bool × String → Bool × String
settled (returned b reason) answer = (b, reason)
settled (waiting r) answer = answer

-- The handler after Check has returned. `later` is the gate at that time: the mode is read again.
after_check : Gate → Bool × String → FilePath → CommandArgs → CommandReply
after_check later (false, reason) dir a = blocked reason
after_check later (true, reason) dir a =
    if mode later a.workspace_id == mode_watch && not (is_listed a.command)
    then not_allowed
    else ran dir a.command a.args

-- `id` is the id of the item that Check may queue, and `answer` what a waiting Check returns.
run_gated : Option Gate → Gate → String → Bool × String → FilePath → CommandArgs → CommandReply
unfolding after_check
run_gated none later id answer dir a =
    if is_listed a.command then ran dir a.command a.args else not_allowed
run_gated (some g) later id answer dir a =
    after_check later (settled (check_start g id (command_action a)).1 answer) dir a

unfoldable pub run_command :
    Map String FilePath
    → Option Gate
    → Gate
    → String
    → Bool × String
    → Option CommandArgs
    → CommandReply
unfolding run_gated
run_command workspaces gate later id answer none = invalid_arguments
run_command workspaces gate later id answer (some a) = elim (lookup a.workspace_id workspaces) [
  | none ↦ unknown_workspace
  | some dir ↦ run_gated gate later id answer dir a
]

-- What must hold where a program is started.
pub record MayRun (g later : Gate) (answer : Bool × String) (a : CommandArgs) : Type 0 where
  pub not_sandboxed : mode g a.workspace_id ≢ mode_sandbox
  pub approved : (r : Rule) → (evaluate g (command_action a)).rule ≡ some r → answer.0 ≡ true
  pub listed : mode later a.workspace_id ≡ mode_watch → is_listed a.command ≡ true

after_check-ran :
    (later : Gate) (out : Bool × String) (dir : FilePath) (a : CommandArgs) (d : FilePath)
    (c : Bytes) (args : List Bytes)
    → after_check later out dir a ≡ ran d c args
    → (out.0 ≡ true)
      × ((mode later a.workspace_id ≡ mode_watch) → is_listed a.command ≡ true)
      × (c ≡ a.command)
      × (args ≡ a.args)
      × (d ≡ dir)
unfolding after_check
after_check-ran later (false, reason) dir a d c args h = cc h
after_check-ran later (true, reason) dir a d c args h = (
  refl,
  λ watch. ground (arith, String-eq.test_iff (mode later a.workspace_id) mode_watch),
  ground arith,
  ground arith,
  ground arith,
)

settled-waiting :
    (g : Gate) (id : String) (a : Action) (answer : Bool × String) (r : Rule)
    → (evaluate g a).rule ≡ some r
    → settled (check_start g id a).1 answer ≡ answer
unfolding check_start settled
settled-waiting g id a answer r e = rw (e, respond_to)

settled-denied :
    (g : Gate) (id : String) (a : CommandArgs) (answer : Bool × String)
    → mode g a.workspace_id ≡ mode_sandbox
    → (settled (check_start g id (command_action a)).1 answer).0 ≡ false
unfolding check_start settled evaluate
settled-denied g id a answer e = rw e

run_command-unknown :
    (workspaces : Map String FilePath) (g later : Gate) (id : String) (answer : Bool × String)
    (a : CommandArgs)
    → lookup a.workspace_id workspaces ≡ none
    → run_command workspaces (some g) later id answer (some a) ≡ unknown_workspace
unfolding run_command
run_command-unknown workspaces g later id answer a e = rw (e, run_command)

run_command-known :
    (workspaces : Map String FilePath) (g later : Gate) (id : String) (answer : Bool × String)
    (a : CommandArgs) (dir : FilePath)
    → lookup a.workspace_id workspaces ≡ some dir
    → run_command workspaces (some g) later id answer (some a)
      ≡ after_check later (settled (check_start g id (command_action a)).1 answer) dir a
unfolding run_command
run_command-known workspaces g later id answer a dir e = rw (e, run_command)

-- A command of a known workspace is started under a gate only if the workspace is not in sandbox
-- mode, the user has approved it if a rule fires in gate mode, and it is on the allowlist if the
-- workspace is in watch mode when Check returns; the program, the arguments and the directory are
-- then those of the request and the workspace.
pub run_command-MayRun :
    (workspaces : Map String FilePath) (g later : Gate) (id : String) (answer : Bool × String)
    (a : CommandArgs) (d : FilePath) (c : Bytes) (args : List Bytes)
    → run_command workspaces (some g) later id answer (some a) ≡ ran d c args
    → MayRun g later answer a
      × (lookup a.workspace_id workspaces ≡ some d)
      × (c ≡ a.command)
      × (args ≡ a.args)
run_command-MayRun workspaces g later id answer a d c args h =
    elim (Option-cases (lookup a.workspace_id workspaces)) [
      | inl e ↦ absurd (cc (run_command-unknown workspaces g later id answer a e, h))
      | inr (dir, e) ↦
          let out = settled (check_start g id (command_action a)).1 answer in
          let ran_here =
            after_check-ran later out dir a d c args
              (sym (run_command-known workspaces g later id answer a dir e) ∙ h) in
          (
            record {
              not_sandboxed = λ m. false≢true (sym (settled-denied g id a answer m) ∙ ran_here.0);
              approved = λ r f.
                  ap (λ (o : Bool × String). o.0)
                    (sym (settled-waiting g id (command_action a) answer r f))
                  ∙ ran_here.0;
              listed = ran_here.1;
            },
            rw ran_here.4 e,
            ran_here.2,
            ran_here.3,
          )
    ]
