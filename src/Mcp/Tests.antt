-- ===== src/Mcp/Tests.antt =====
-- The theorems about the native tools at concrete inputs.
use mathlib.Core.List.{flat_map}
use vmux.Base.{
  ◌≡◌, ◌≢◌, refl, true, [], ◌∷◌, none, some, String, String-eq, Map, lookup, codes, ◌==◌,
  if◌then◌else◌,
}
use vmux.Approval.Gate.{Gate, new_gate, mode, mode_gate, mode_sandbox, evaluate, deny, check_start}
use vmux.Approval.Rules.{first_match, fires, command_line}
use vmux.Approval.Regex.{match_string}
use vmux.Diff.Store.{File, Disk, Store, read_file, accept_all, reject_all}
use vmux.Diff.Store
use vmux.Diff.Decisions.{IsResolved}
use vmux.Mcp.Paths.{
  FilePath, Links, inside, refused, escapes_workspace, join_path, resolve_existing,
  resolve_workspace_path, within_root, IsBelow, LeadsTo, resolve_workspace_path-IsBelow,
}
use vmux.Mcp.Files.{World, WriteArgs, path_text, file_write, text_or_empty}
use vmux.Mcp.Writes.{
  write_action, file_write-gate_mode, file_write-sandbox, file_write-then_accept,
  file_write-reject_missing,
}
use vmux.Mcp.Commands.{CommandArgs, run_command, ran, MayRun, run_command-MayRun, settled}

-- A file system where /w/out is a link to /etc, and the other paths up to two elements are real.
links : Links
links [] = some []
links (e ∷ []) = some (e ∷ [])
links (e ∷ f ∷ p) = if e == "out" then some ("etc" ∷ []) else none

abbrev workspaces : Map String FilePath
workspaces = ("ws", "w" ∷ []) ∷ []

accepts_inside :
    resolve_workspace_path links workspaces "ws" ("a.txt" ∷ []) ≡ inside ("a.txt" ∷ "w" ∷ [])
unfolding resolve_workspace_path lookup within_root resolve_existing links
accepts_inside = refl

refuses_dots :
    resolve_workspace_path links workspaces "ws" (".." ∷ "x" ∷ []) ≡ refused escapes_workspace
unfolding resolve_workspace_path lookup within_root resolve_existing links
refuses_dots = refl

refuses_link :
    resolve_workspace_path links workspaces "ws" ("out" ∷ "x" ∷ []) ≡ refused escapes_workspace
unfolding resolve_workspace_path lookup within_root resolve_existing links
refuses_link = refl

resolve_workspace_path-IsBelow_example :
    (path root real : FilePath) × (lookup "ws" workspaces ≡ some path)
    × (links path ≡ some root)
    × ("a.txt" ∷ "w" ∷ [] ≡ join_path root ("a.txt" ∷ []))
    × LeadsTo links ("a.txt" ∷ "w" ∷ []) real
    × IsBelow root real
unfolding links
resolve_workspace_path-IsBelow_example =
    resolve_workspace_path-IsBelow links [] workspaces "ws" ("a.txt" ∷ []) ("a.txt" ∷ "w" ∷ []) refl
      accepts_inside

abbrev gate_in : String → Gate
gate_in m = record new_gate { modes = ("ws", m) ∷ [] }

-- An empty disk, under a gate in the given mode.
abbrev world : String → World
world m = record {
  workspaces = workspaces;
  links = links;
  gate = some (gate_in m);
  reviews = some Store.empty;
  disk = record { files = []; writable = λ _. true };
  mkdir_succeeds = λ _. true;
}

abbrev request : WriteArgs
request = record { workspace_id = "ws"; path = "a.txt" ∷ []; content = codes "hi" }

in_gate_mode : mode (gate_in mode_gate) "ws" ≡ mode_gate
unfolding mode lookup
in_gate_mode = refl

in_sandbox_mode : mode (gate_in mode_sandbox) "ws" ≡ mode_sandbox
unfolding mode lookup
in_sandbox_mode = refl

writes_in_gate_mode : (file_write (world mode_gate) (some request)).0.disk ≡ (world mode_gate).disk
writes_in_gate_mode =
    file_write-gate_mode (world mode_gate) (gate_in mode_gate) Store.empty request refl refl
      in_gate_mode

abbrev target : FilePath
target = "a.txt" ∷ "w" ∷ []

file_write-sandbox_example :
    ((evaluate (gate_in mode_sandbox) (write_action request)).decision ≡ deny)
    × (read_file (file_write (world mode_sandbox) (some request)).0.disk (path_text target)
        ≡ some (codes "hi"))
file_write-sandbox_example =
    file_write-sandbox (world mode_sandbox) (gate_in mode_sandbox) request target refl
      in_sandbox_mode accepts_inside refl refl

missing : read_file (world mode_gate).disk (path_text target) ≡ none
unfolding read_file
missing = refl

filled : codes "hi" ≢ []
filled e = cc

file_write-then_accept_example :
    (s : Store) × ((file_write (world mode_gate) (some request)).0.reviews ≡ some s)
    × IsResolved
        (path_text target)
        (codes "hi")
        s
        (world mode_gate).disk
        (accept_all s (world mode_gate).disk (path_text target))
file_write-then_accept_example =
    file_write-then_accept (world mode_gate) (gate_in mode_gate) Store.empty request target refl
      refl in_gate_mode accepts_inside refl (rw missing (unfold text_or_empty in λ e. cc)) refl

rejects_missing_file :
    (s : Store) × ((file_write (world mode_gate) (some request)).0.reviews ≡ some s)
    × (read_file (reject_all s (world mode_gate).disk (path_text target)).disk (path_text target)
        ≡ some [])
rejects_missing_file =
    file_write-reject_missing (world mode_gate) (gate_in mode_gate) Store.empty request target refl
      refl in_gate_mode accepts_inside refl missing filled refl

abbrev sudo_request : CommandArgs
sudo_request = record { workspace_id = "ws"; command = codes "sudo"; args = codes "ls" ∷ [] }

-- The user approves, and the command is started.
sudo-ran :
    run_command workspaces
      (some (gate_in mode_gate))
      (gate_in mode_gate)
      "i"
      (true, "")
      (some sudo_request)
    ≡ ran ("w" ∷ []) (codes "sudo") (codes "ls" ∷ [])
unfolding run_command settled check_start evaluate mode first_match fires match_string command_line
    lookup flat_map
sudo-ran = refl

run_command-MayRun_example :
    MayRun (gate_in mode_gate) (gate_in mode_gate) (true, "") sudo_request
    × (lookup "ws" workspaces ≡ some ("w" ∷ []))
    × (codes "sudo" ≡ codes "sudo")
    × (codes "ls" ∷ [] ≡ codes "ls" ∷ [])
run_command-MayRun_example =
    run_command-MayRun workspaces (gate_in mode_gate) (gate_in mode_gate) "i" (true, "")
      sudo_request ("w" ∷ []) (codes "sudo") (codes "ls" ∷ []) sudo-ran
