-- ===== src/Workspace/Tests.antt =====
-- Tests of the workspaces, and the properties at concrete inputs.
use text.Mathlib.TextEquality.{eq_iff}
use mathlib.Core.Bool.{false≢true}
use vmux.Base.{
  ℕ, zero, suc, ◌≡◌, ◌≢◌, refl, sym, ap, subst, ◌∙◌, Bool, true, false, List, [], ◌∷◌, ◌++◌, Option,
  none, some, Map, lookup, insert, String, Bytes, codes, Every, map, Option-cases, inl, inr,
  if◌then◌else◌, ltb, length, arith, String-eq, ◌==◌, Bool-cases, eq_of_test,
}
use vmux.Workspace.Git.{
  GitChange, not_a_repository, parse_branch, parse_status, read_git_status, clean,
}
use vmux.Workspace.Header.{Header, tracking, print_header, IsHeader}
use vmux.Workspace.Porcelain.{IsListed, print_change, print_lines, parse_status-print_lines}
use vmux.Workspace.Meta.{Codec, Env, read_or_create_meta}
use vmux.Workspace.Registry.{
  Workspace, Entry, Registry, entry_of, persist, open_path, close, get, list, on_git_change, empty,
  new_registry, Step, opens, closes, git_changes, step, run, Opened, opened,
}
use vmux.Workspace.Inverse.{IsInverse}
use vmux.Workspace.Runs.{AreFresh, run-IsInverse}
use vmux.Workspace.Restart.{IsReady}
use vmux.Workspace.Reload.{path_of, new_registry-persist}

branch_of_upstream : parse_branch (codes "main...origin/main [ahead 1]") ≡ codes "main"
unfolding parse_branch
branch_of_upstream = refl

-- In a repository with no commit the header is no branch's name but a sentence.
branch_before_commits : parse_branch (codes "No commits yet on main") ≡ codes "No"
unfolding parse_branch
branch_before_commits = refl

abbrev edited : GitChange
edited = record { status = codes " M"; path = codes "a.go" }

abbrev renamed : GitChange
renamed = record { status = codes "R "; path = codes "b -> c" }

parsed_changes : parse_status (codes "## main\n M a.go\nR  b -> c\n") ≡ record {
  is_repo = true;
  branch = codes "main";
  dirty = true;
  changes = edited ∷ renamed ∷ [];
}
unfolding parse_status
parsed_changes = refl

edited-IsListed : IsListed edited
edited-IsListed = record {
  letters = refl;
  not_header = λ e. absurd (omega (arith, ap (λ s. first s) e));
  plain_status = ((omega arith, omega arith), ((omega arith, omega arith), tt));
  plain_path = (
    (omega arith, omega arith),
    ((omega arith, omega arith), ((omega arith, omega arith), ((omega arith, omega arith), tt))),
  );
  named = omega arith;
  fits = omega arith;
}
  where
    first : Bytes → ℕ
    first [] = 0
    first (c ∷ s) = c

abbrev dev : Header
dev = tracking (codes "dev") (codes "o/dev")

dev-IsHeader : IsHeader dev
dev-IsHeader = record {
  solid = (omega arith, (omega arith, (omega arith, tt)));
  dots = (refl, (refl, (refl, tt)));
}

parse_status-print_lines_example :
    parse_status (print_lines ((codes "## " ++ print_header dev) ∷ map print_change (edited ∷ [])))
    ≡ record { is_repo = true; branch = codes "dev"; dirty = ltb 0 1; changes = edited ∷ [] }
parse_status-print_lines_example =
    parse_status-print_lines dev (edited ∷ []) dev-IsHeader (omega arith) (omega arith)
      (edited-IsListed, tt)

-- Metadata that is decoded to a fixed record and written as two bytes.
abbrev codec : Codec
codec = record {
  decode = λ s. some (record { name = "m"; created_at = 7 });
  encode = λ m. some (codes "{}");
}

abbrev env : Env
env = record {
  abs = λ p. some p;
  base = λ p. "m";
  is_dir = λ p. some true;
  unreadable = λ p. false;
  writable = λ p. true;
  now = 7;
  git = λ p. not_a_repository;
  watch = λ p. true;
  can_save = true;
}

abbrev nothing : Registry
nothing = empty none []

nothing_IsInverse : IsInverse nothing.by_id nothing.by_path
unfolding lookup
nothing_IsInverse = record { known = λ path id got. cc got; named = λ id w got. cc got; keys = tt }

abbrev steps : List Step
steps = opens env "/a" "1" ∷ git_changes "1" clean ∷ opens env "/b" "2" ∷ closes env "1" ∷ []

paths_left : map (λ (w : Workspace). w.path) (list (run codec nothing steps)) ≡ "/b" ∷ []
unfolding list run lookup vmux.Workspace.Registry.open_locked read_or_create_meta read_git_status
    insert vmux.Base.delete
paths_left = refl

-- Opening a path a second time gives the workspace it has.
opened_twice :
    (open_path codec env (run codec nothing steps) "/b" "3").1
    ≡ opened (get (run codec nothing steps) "2")
unfolding open_path get run lookup vmux.Workspace.Registry.open_locked read_or_create_meta
    read_git_status insert vmux.Base.delete
opened_twice = refl

steps-AreFresh : AreFresh codec nothing steps
unfolding step lookup vmux.Workspace.Registry.open_locked read_or_create_meta read_git_status insert
    vmux.Base.delete
steps-AreFresh = (refl, (refl, tt))

run-IsInverse_example : IsInverse (run codec nothing steps).by_id (run codec nothing steps).by_path
run-IsInverse_example = run-IsInverse codec nothing steps steps-AreFresh nothing_IsInverse

abbrev left : Registry
left = run codec nothing steps

abbrev at_b : Workspace
at_b = record {
  id = "2";
  path = "/b";
  meta = record { name = "m"; created_at = 7 };
  git = record { is_repo = false; branch = []; dirty = false; changes = [] };
}

left_workspaces : left.by_id ≡ ("2", at_b) ∷ []
unfolding run lookup vmux.Workspace.Registry.open_locked read_or_create_meta read_git_status insert
    vmux.Base.delete
left_workspaces = refl

abbrev files : Map String Bytes
files = ("/b", codes "{}") ∷ []

at_b-IsReady : IsReady codec env files "/b"
unfolding lookup read_git_status
at_b-IsReady = record {
  content = codes "{}";
  meta = at_b.meta;
  git = at_b.git;
  there = refl;
  readable = refl;
  holds = refl;
  decodes = refl;
  answers = refl;
  watches = refl;
}

abbrev no_workspace : Option Workspace
no_workspace = none

only_b :
    (k : String) (w : Workspace) → lookup k (("2", at_b) ∷ []) ≡ some w → (k ≡ "2") × (at_b ≡ w)
unfolding lookup
only_b k w got = elim (Bool-cases (k == "2")) [
  | inl t ↦ let is : some at_b ≡ some w = rw t at got in (eq_of_test k "2" t, cc is)
  | inr t ↦ let is : no_workspace ≡ some w = rw t at got in cc is
]

left-IsReady :
    (k : String) (w : Workspace)
    → lookup k left.by_id ≡ some w
    → (k ≢ "") × IsReady codec env files w.path
left-IsReady k w got =
    let (key, is) = only_b k w (ap (lookup k) (sym left_workspaces) ∙ got) in
    (
      subst (λ i. i ≢ "") (sym key) (λ e. false≢true ((eq_iff "2" "").1 e)),
      subst (λ (v : Workspace). IsReady codec env files v.path) is at_b-IsReady,
    )

new_registry-persist_example :
    path_of (new_registry codec env (λ p. "9") (persist env left).saved files) "2"
    ≡ path_of left "2"
new_registry-persist_example =
    new_registry-persist codec env env (λ p. "9") left files "2" refl run-IsInverse_example
      left-IsReady
