-- ===== src/Editor/Tests.antt =====
-- The editors at concrete inputs.
use vmux.Base.{
  pos, negsuc, ◌≡◌, refl, true, false, List, [], ◌∷◌, ◌++◌, none, some, String, codes, lookup,
  insert, Every, map, String-eq, ◌==◌, if◌then◌else◌,
}
use vmux.Mcp.Paths.{FilePath, Links, IsBelow, join_path, within_root}
use vmux.Editor.Args.{Editor, build_args, itoa, is_space}
use vmux.Editor.Templates.{
  Piece, rune, path, line, col, show_pieces, IsToken, build_args-print_tokens,
}
use vmux.Editor.Prefs.{
  Prefs, Stored, Codec, Disk, written, broken_off, Env, read_from, load_prefs, editor_for,
}
use vmux.Editor.Choices.{preferred}
use vmux.Editor.Kept.{Same, run, start, run-load_prefs}
use vmux.Editor.Detect.{Machine, DetectedEditor, resolve_binary, detect, pick_editor}
use vmux.Editor.Contain.{or_unresolved, contain_workspace_path, contain_workspace_path-IsBelow}
use vmux.Editor.Invoke.{
  InvokeParams, World, launched, path_text, editor_invoke, editor_invoke-launched, chosen_id,
}

-- The template of VS Code and of nvim.
abbrev code_tokens : List (List Piece)
code_tokens = (rune b'-' ∷ rune b'g' ∷ []) ∷ (path ∷ rune b':' ∷ line ∷ rune b':' ∷ col ∷ []) ∷ []

abbrev code : Editor
code = record {
  id = "vscode";
  name = "VS Code";
  bin = "code";
  args = codes "-g {path}:{line}:{col}";
  line_col = true;
}

abbrev nvim : Editor
nvim = record {
  id = "nvim-terminal";
  name = "nvim (terminal)";
  bin = "nvim";
  args = codes "+{line} {path}";
  line_col = true;
}

-- A path with a space and a placeholder in it.
fills_template :
    build_args nvim (codes "/my dir/{line}") (pos 12) (negsuc 0)
    ≡ codes "+12" ∷ codes "/my dir/{line}" ∷ []
unfolding build_args
fills_template = refl

prints_numbers : (itoa (negsuc 119) ≡ codes "-120") × (itoa (pos 0) ≡ codes "0")
unfolding itoa
prints_numbers = (refl, refl)

code_tokens-IsToken : Every IsToken code_tokens
unfolding is_space
code_tokens-IsToken = (
  ((λ e. cc e), ((refl, refl), ((refl, refl), tt))),
  (((λ e. cc e), (tt, ((refl, refl), (tt, ((refl, refl), (tt, tt)))))), tt),
)

build_args-print_tokens_example :
    build_args code (codes "/a b") (pos 3) (pos 4)
    ≡ map (show_pieces (codes "/a b") (pos 3) (pos 4)) code_tokens
build_args-print_tokens_example =
    build_args-print_tokens code (codes "/a b") (pos 3) (pos 4) code_tokens code_tokens-IsToken refl

-- An encoding that keeps what it is given.
abbrev plain : Codec Stored
plain = record {
  marshal = λ p. some (record { global = p.global; per_workspace = some p.per_workspace });
  unmarshal = λ s. s;
}

plain_read : (p : Prefs) (j : Stored) → plain.marshal p ≡ some j → Same (read_from plain (some j)) p
unfolding read_from
plain_read p j e =
    let kept : Stored = record { global = p.global; per_workspace = some p.per_workspace } in
    let is : some kept ≡ some j = e in
    let same : j ≡ kept = cc is in rw same (record { global = refl; per_workspace = λ id. refl })

abbrev good : Env Stored
good = record { can_make_dir = true; write = written; can_rename = true }

-- A crash in the middle of writing the file.
abbrev crash : Env Stored
crash = record { can_make_dir = true; write = broken_off none; can_rename = true }

abbrev fresh : Disk Stored
fresh = record { kept = none; tmp = none }

abbrev choices : List (Env Stored × (String × String))
choices = (good, ("", "zed")) ∷ (good, ("w", "code")) ∷ (crash, ("w", "nvim")) ∷ []

keeps_choices :
    (editor_for (load_prefs plain (run plain (start plain fresh) choices).disk) "w" ≡ "code")
    × (editor_for (load_prefs plain (run plain (start plain fresh) choices).disk) "v" ≡ "zed")
    × (editor_for (run plain (start plain fresh) choices).memory "w" ≡ "nvim")
unfolding run load_prefs editor_for lookup insert
keeps_choices = (refl, refl, refl)

run-load_prefs_example :
    editor_for (load_prefs plain (run plain (start plain fresh) choices).disk) "w"
    ≡ preferred (load_prefs plain fresh) "w" (run plain (start plain fresh) choices).kept
run-load_prefs_example = run-load_prefs plain fresh choices "w" plain_read

-- The workspace /w has a link to the directory /etc.
abbrev root : FilePath
root = "w" ∷ []

abbrev links : Links
links [] = some []
links (e ∷ []) = some (e ∷ [])
links (e ∷ d ∷ p) = if e == "out" then some ("etc" ∷ []) else none

contains_file :
    ("a" ∷ "w" ∷ [] ≡ join_path root ("a" ∷ []))
    × ((below : List String) × (or_unresolved (links ("a" ∷ "w" ∷ [])) ("a" ∷ "w" ∷ [])
          ≡ below ++ or_unresolved (links root) root))
unfolding contain_workspace_path join_path within_root
contains_file = contain_workspace_path-IsBelow links root ("a" ∷ []) ("a" ∷ "w" ∷ []) refl

-- The link itself is refused, and a new file in the directory that it leads to is accepted.
accepts_new_file_outside :
    (contain_workspace_path links root ("out" ∷ []) ≡ none)
    × (contain_workspace_path links root ("out" ∷ "new" ∷ []) ≡ some ("new" ∷ "out" ∷ "w" ∷ []))
unfolding contain_workspace_path join_path within_root
accepts_new_file_outside = (refl, refl)

abbrev machine : Machine
machine = record {
  look_path = λ bin. if bin == "nvim" then some "/bin/nvim" else none;
  has_file = λ p. false;
}

abbrev world : World
world = record {
  links = links;
  workspaces = ("id", root) ∷ [];
  prefs = record { global = "vscode"; per_workspace = [] };
  machine = machine;
  registry = code ∷ nvim ∷ [];
  starts = λ bin args. true;
}

abbrev asked : InvokeParams
asked = record { workspace_id = "id"; path = "a" ∷ []; line = pos 1; col = pos 1; editor_id = "" }

-- The preferred editor is not installed, so the first one that is opens the file.
opens_file :
    editor_invoke world (some asked) ≡ launched "/bin/nvim" (codes "+1" ∷ codes "/w/a" ∷ [])
unfolding editor_invoke build_args contain_workspace_path join_path within_root path_text
    pick_editor detect resolve_binary chosen_id editor_for lookup insert
opens_file = refl

editor_invoke-launched_example :
    (root abs : FilePath) × (d : DetectedEditor) × (lookup "id" world.workspaces ≡ some root)
    × (abs ≡ join_path root ("a" ∷ []))
    × IsBelow (or_unresolved (links root) root) (or_unresolved (links abs) abs)
    × (pick_editor (detect machine world.registry) (chosen_id world asked) ≡ some d)
    × (resolve_binary machine d.editor.bin ≡ some "/bin/nvim")
    × (codes "+1" ∷ codes "/w/a" ∷ [] ≡ build_args d.editor (path_text abs) (pos 1) (pos 1))
editor_invoke-launched_example =
    editor_invoke-launched world asked "/bin/nvim" (codes "+1" ∷ codes "/w/a" ∷ []) opens_file
