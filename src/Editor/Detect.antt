-- ===== src/Editor/Detect.antt =====
-- detect.go and registry.go: which of the known editors are installed, and pickEditor of
-- editor_methods.go. exec.LookPath and os.Stat are arguments.
use vmux.Base.{
  Bool, List, [], ◌∷◌, Option, none, some, if◌then◌else◌, Map, lookup, insert, String, String-eq,
  ◌==◌,
}
use vmux.Editor.Args.{Editor}

pub record Machine : Type 0 where
  -- exec.LookPath
  pub look_path : String → Option String
  -- whether os.Stat succeeds
  pub has_file : String → Bool

-- bundleCandidates
abbrev pub known_bundles : Map String (List String)
known_bundles =
    ("code", "/Applications/Visual Studio Code.app/Contents/Resources/app/bin/code" ∷ [])
    ∷ ("cursor", "/Applications/Cursor.app/Contents/Resources/app/bin/cursor" ∷ [])
    ∷ ("zed", "/Applications/Zed.app/Contents/MacOS/cli" ∷ [])
    ∷ ("subl", "/Applications/Sublime Text.app/Contents/SharedSupport/bin/subl" ∷ [])
    ∷ ("mvim", "/Applications/MacVim.app/Contents/bin/mvim" ∷ [])
    ∷ []

bundles_for : Option String → Map String (List String)
bundles_for none = insert "open" ("/usr/bin/open" ∷ []) known_bundles
bundles_for (some p) = known_bundles

-- bundleCandidates after init
unfoldable pub bundle_candidates : Machine → Map String (List String)
unfolding bundles_for
bundle_candidates m = bundles_for (m.look_path "open")

unfoldable pub first_file : Machine → List String → Option String
first_file m [] = none
first_file m (p ∷ ps) = if m.has_file p then some p else first_file m ps

unfoldable pub in_bundles : Machine → Option (List String) → Option String
unfolding first_file
in_bundles m none = none
in_bundles m (some ps) = first_file m ps

unfoldable pub resolve_with : Machine → String → Option String → Option String
unfolding in_bundles bundle_candidates
resolve_with m bin (some p) = some p
resolve_with m bin none = in_bundles m (lookup bin (bundle_candidates m))

-- resolveBinary; `none` is the empty text.
unfoldable pub resolve_binary : Machine → String → Option String
unfolding resolve_with
resolve_binary m bin = resolve_with m bin (m.look_path bin)

pub record DetectedEditor : Type 0 where
  pub editor : Editor
  pub resolved_bin : String

unfoldable pub keep_found : Editor → Option String → List DetectedEditor → List DetectedEditor
keep_found e none found = found
keep_found e (some bin) found = record { editor = e; resolved_bin = bin } ∷ found

-- Detect, on the editors of the registry
unfoldable pub detect : Machine → List Editor → List DetectedEditor
unfolding keep_found resolve_binary
detect m [] = []
detect m (e ∷ editors) = keep_found e (resolve_binary m e.bin) (detect m editors)

-- Find, on the editors of the registry
unfoldable pub find : List Editor → String → Option Editor
find [] id = none
find (e ∷ editors) id = if e.id == id then some e else find editors id

unfoldable pub with_id : List DetectedEditor → String → Option DetectedEditor
with_id [] id = none
with_id (d ∷ detected) id = if d.editor.id == id then some d else with_id detected id

unfoldable pub or_first : Option DetectedEditor → List DetectedEditor → Option DetectedEditor
or_first (some d) detected = some d
or_first none [] = none
or_first none (d ∷ detected) = some d

-- pickEditor
unfoldable pub pick_editor : List DetectedEditor → String → Option DetectedEditor
unfolding with_id or_first
pick_editor detected id = or_first (with_id detected id) detected
