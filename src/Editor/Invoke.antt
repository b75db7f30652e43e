-- ===== src/Editor/Invoke.antt =====
-- editor_methods.go and invoke.go: editor.invoke and editor.preference. Parameters come decoded, or as
-- none where they do not decode.
use vmux.Base.{
  ◌≡◌, inl, inr, refl, sym, ap, ◌∙◌, ℤ, Bool, false, List, [], ◌∷◌, ◌++◌, Option, none, some,
  String, String-eq, ◌==◌, if◌then◌else◌, Bool-cases, Option-cases, Map, lookup, Bytes, codes,
}
use vmux.Mcp.Paths.{FilePath, Links, join_path, IsBelow}
use vmux.Editor.Args.{Editor, build_args}
use vmux.Editor.Prefs.{Prefs, Codec, Disk, Env, editor_for, set}
use vmux.Editor.Detect.{
  Machine, DetectedEditor, resolve_binary, keep_found, detect, with_id, or_first, pick_editor,
}
use vmux.Editor.Contain.{or_unresolved, contain_workspace_path, contain_workspace_path-IsBelow}

-- editorInvokeParams, with the path split at its slashes
pub record InvokeParams : Type 0 where
  pub workspace_id : String
  pub path : List String
  pub line : ℤ
  pub col : ℤ
  pub editor_id : String

-- What the method finds: the links of the disk, the paths of the open workspaces, the preferences,
-- what is installed, the editors of the registry, and whether a program starts.
pub record World : Type 0 where
  pub links : Links
  pub workspaces : Map String FilePath
  pub prefs : Prefs
  pub machine : Machine
  pub registry : List Editor
  pub starts : String → List Bytes → Bool

-- An error of the method, with its code, or the program that was started with its arguments.
pub data Invoked : Type 0 where
  invalid_params internal_error : Invoked
  launched : String → List Bytes → Invoked

elements_text : FilePath → Bytes
elements_text [] = []
elements_text (e ∷ p) = elements_text p ++ b'/' ∷ codes e

-- The text of a clean absolute path.
unfoldable pub path_text : FilePath → Bytes
unfolding elements_text
path_text [] = b'/' ∷ []
path_text (e ∷ p) = elements_text (e ∷ p)

-- Invoke
unfoldable pub invoke : World → DetectedEditor → FilePath → ℤ → ℤ → Invoked
unfolding path_text
invoke world d abs line col =
    let args = build_args d.editor (path_text abs) line col in
    if world.starts d.resolved_bin args then launched d.resolved_bin args else internal_error

unfoldable pub invoke_picked : World → Option DetectedEditor → FilePath → ℤ → ℤ → Invoked
unfolding invoke
invoke_picked world none abs line col = internal_error
invoke_picked world (some d) abs line col = invoke world d abs line col

-- The editor's id: the one asked for, or the preferred one.
unfoldable pub chosen_id : World → InvokeParams → String
chosen_id world p = if p.editor_id == "" then editor_for world.prefs p.workspace_id else p.editor_id

unfoldable pub invoke_at : World → InvokeParams → Option FilePath → Invoked
unfolding invoke_picked chosen_id
invoke_at world p none = invalid_params
invoke_at world p (some abs) =
    let picked = pick_editor (detect world.machine world.registry) (chosen_id world p) in
    invoke_picked world picked abs p.line p.col

unfoldable pub invoke_in : World → InvokeParams → Option FilePath → Invoked
unfolding invoke_at
invoke_in world p none = invalid_params
invoke_in world p (some root) = invoke_at world p (contain_workspace_path world.links root p.path)

-- editorInvoke
unfoldable pub editor_invoke : World → Option InvokeParams → Invoked
unfolding invoke_in
editor_invoke world none = invalid_params
editor_invoke world (some p) = invoke_in world p (lookup p.workspace_id world.workspaces)

-- editorPreference, with whether it returned no error; the id of the workspace and of the editor
unfoldable pub editor_preference :
    {J : Type 0}
    → Codec J
    → Env J
    → Prefs
    → Disk J
    → Option (String × String)
    → Prefs × (Disk J × Bool)
editor_preference codec env p d none = (p, (d, false))
editor_preference codec env p d (some choice) = set codec env p d choice.0 choice.1

-- A detected editor that can be started where detection said.
abbrev pub IsInstalled : Machine → DetectedEditor → Type 0
IsInstalled m d = resolve_binary m d.editor.bin ≡ some d.resolved_bin

AllInstalled : Machine → List DetectedEditor → Type 0
AllInstalled m [] = Unit
AllInstalled m (d ∷ ds) = IsInstalled m d × AllInstalled m ds

keep_found-AllInstalled :
    (m : Machine) (e : Editor) (o : Option String) (ds : List DetectedEditor)
    → resolve_binary m e.bin ≡ o
    → AllInstalled m ds
    → AllInstalled m (keep_found e o ds)
unfolding keep_found AllInstalled
keep_found-AllInstalled m e none ds is all = all
keep_found-AllInstalled m e (some bin) ds is all = (is, all)

detect-AllInstalled : (m : Machine) (es : List Editor) → AllInstalled m (detect m es)
unfolding detect AllInstalled
detect-AllInstalled m [] = tt
detect-AllInstalled m (e ∷ es) =
    keep_found-AllInstalled m e (resolve_binary m e.bin) (detect m es) refl
      (detect-AllInstalled m es)

with_id-IsInstalled :
    (m : Machine) (ds : List DetectedEditor) (id : String) (d : DetectedEditor)
    → AllInstalled m ds
    → with_id ds id ≡ some d
    → IsInstalled m d
unfolding with_id AllInstalled
with_id-IsInstalled m [] id d all got = cc got
with_id-IsInstalled m (e ∷ ds) id d all got = elim (Bool-cases (e.editor.id == id)) [
  | inl is ↦
      let same : some e ≡ some d = rw is at got in let eq : e ≡ d = cc same in rw (sym eq) all.0
  | inr other ↦ with_id-IsInstalled m ds id d all.1 (rw other at got)
]

or_first-IsInstalled :
    (m : Machine) (o : Option DetectedEditor) (ds : List DetectedEditor) (d : DetectedEditor)
    → AllInstalled m ds
    → ((e : DetectedEditor) → o ≡ some e → IsInstalled m e)
    → or_first o ds ≡ some d
    → IsInstalled m d
unfolding or_first AllInstalled
or_first-IsInstalled m (some e) ds d all found got = found d got
or_first-IsInstalled m none [] d all found got = cc got
or_first-IsInstalled m none (e ∷ ds) d all found got = let eq : e ≡ d = cc got in rw (sym eq) all.0

pick_editor-IsInstalled :
    (m : Machine) (es : List Editor) (id : String) (d : DetectedEditor)
    → pick_editor (detect m es) id ≡ some d
    → IsInstalled m d
unfolding pick_editor
pick_editor-IsInstalled m es id d got =
    let all = detect-AllInstalled m es in
    or_first-IsInstalled m (with_id (detect m es) id) (detect m es) d all
      (λ e found. with_id-IsInstalled m (detect m es) id e all found) got

invoke-launched :
    (world : World) (d : DetectedEditor) (abs : FilePath) (line col : ℤ) (bin : String)
    (args : List Bytes)
    → invoke world d abs line col ≡ launched bin args
    → (bin ≡ d.resolved_bin) × (args ≡ build_args d.editor (path_text abs) line col)
unfolding invoke
invoke-launched world d abs line col bin args h =
    let given : List Bytes = build_args d.editor (path_text abs) line col in
    elim (Bool-cases (world.starts d.resolved_bin given)) [
      | inr e ↦ cc (rw e at h)
      | inl e ↦
          let is : launched d.resolved_bin given ≡ launched bin args = rw e at h in (cc is, cc is)
    ]

-- What the later part of the method starts, where the path is contained.
module _ (world : World) (p : InvokeParams) (bin : String) (args : List Bytes) where
  IsPicked : FilePath → DetectedEditor → Type 0
  IsPicked abs d =
      (pick_editor (detect world.machine world.registry) (chosen_id world p) ≡ some d)
      × (resolve_binary world.machine d.editor.bin ≡ some bin)
      × (args ≡ build_args d.editor (path_text abs) p.line p.col)

  invoke_at-launched :
      (abs : FilePath)
      → invoke_at world p (some abs) ≡ launched bin args
      → (d : DetectedEditor) × IsPicked abs d
  unfolding invoke_at invoke_picked IsPicked
  invoke_at-launched abs h =
      let picked : Option DetectedEditor =
        pick_editor (detect world.machine world.registry) (chosen_id world p) in
      elim (Option-cases picked) [
        | inl e ↦ cc (rw e at h)
        | inr (d, e) ↦
            let run : invoke world d abs p.line p.col ≡ launched bin args = rw e at h in
            let (same_bin, same_args) = invoke-launched world d abs p.line p.col bin args run in
            let found = pick_editor-IsInstalled world.machine world.registry _ d e in
            (d, (e, found ∙ ap some (sym same_bin), same_args))
      ]

-- What editor.invoke starts: for an open workspace, the program that detection found for an editor of the
-- registry, with the arguments that BuildArgs makes for the path joined to the workspace's root. Where
-- EvalSymlinks resolves that path, what it resolves to is the workspace's root or lies below it; where
-- it does not, as for a file that is missing, only the path itself does, and a link on the way to it
-- is not followed. The root is what EvalSymlinks resolves it to, or itself where it does not.
pub editor_invoke-launched :
    (world : World) (p : InvokeParams) (bin : String) (args : List Bytes)
    → editor_invoke world (some p) ≡ launched bin args
    → (root abs : FilePath) × (d : DetectedEditor) × (lookup p.workspace_id world.workspaces
        ≡ some root)
      × (abs ≡ join_path root p.path)
      × IsBelow (or_unresolved (world.links root) root) (or_unresolved (world.links abs) abs)
      × (pick_editor (detect world.machine world.registry) (chosen_id world p) ≡ some d)
      × (resolve_binary world.machine d.editor.bin ≡ some bin)
      × (args ≡ build_args d.editor (path_text abs) p.line p.col)
unfolding editor_invoke invoke_in invoke_at IsPicked
editor_invoke-launched world p bin args h =
    elim (Option-cases (lookup p.workspace_id world.workspaces)) [
      | inl e ↦ cc (rw e at h)
      | inr (root, e) ↦
          let h' : invoke_at world p (contain_workspace_path world.links root p.path)
              ≡ launched bin args =
            rw e at h in
          elim (Option-cases (contain_workspace_path world.links root p.path)) [
            | inl f ↦ cc (rw f at h')
            | inr (abs, f) ↦
                let (same, below) = contain_workspace_path-IsBelow world.links root p.path abs f in
                let (d, picked) = invoke_at-launched world p bin args abs (rw f at h') in
                (root, abs, d, e, same, below, picked.0, picked.1, picked.2)
          ]
    ]
