-- ===== src/Mcp/Files.antt =====
-- native_file.go: the handlers of file_read and file_write. Arguments are the decoded JSON, `none`
-- where it does not decode; a reply names the text that the handler formats.
use vmux.Base.{
  ℕ, ◌^◌, Bool, List, [], ◌∷◌, Option, none, some, String, String-eq, ◌==◌, if◌then◌else◌, Map,
  Bytes, length, ltb, Bytes-eq,
}
use Prim.Native.String.{◌++◌}
use vmux.Approval.Gate.{Gate, mode, mode_gate}
use vmux.Diff.Store.{Disk, Store, read_file, write_file, stage}
use vmux.Mcp.Paths.{FilePath, Links, PathError, Resolved, inside, refused, resolve_workspace_path}

-- The path as a text, the last element first.
pub path_text : FilePath → String
path_text [] = ""
path_text (e ∷ []) = "/" ++ e
path_text (e ∷ x ∷ p) = path_text (x ∷ p) ++ ("/" ++ e)

-- What the handlers read and change: the registry's paths, the links, the gate and the diff store
-- (each may be absent), the disk, and whether os.MkdirAll succeeds at a path.
pub record World : Type 0 where
  pub workspaces : Map String FilePath
  pub links : Links
  pub gate : Option Gate
  pub reviews : Option Store
  pub disk : Disk
  pub mkdir_succeeds : FilePath → Bool

pub data Reply : Type 0 where
  invalid_arguments : Reply
  bad_path : PathError → Reply
  cannot_read : Reply
  too_large : ℕ → Reply
  text : Bytes → Reply
  cannot_make_directory : Reply
  staged_for_review : Reply
  no_changes : Reply
  cannot_write : Reply
  wrote : ℕ → Reply

-- maxFileRead, 1 << 20
abbrev pub max_file_read : ℕ
max_file_read = 2 ^ 20

pub record ReadArgs : Type 0 where
  pub workspace_id : String
  pub path : List String

pub record WriteArgs : Type 0 where
  pub workspace_id : String
  pub path : List String
  pub content : Bytes

read_at : World → Resolved → Reply
read_at w (refused e) = bad_path e
read_at w (inside p) = elim (read_file w.disk (path_text p)) [
  | none ↦ cannot_read
  | some content ↦
      if ltb max_file_read (length content) then too_large (length content) else text content
]

unfoldable pub file_read : World → Option ReadArgs → Reply
unfolding read_at
file_read w none = invalid_arguments
file_read w (some a) = read_at w (resolve_workspace_path w.links w.workspaces a.workspace_id a.path)

-- The store that stages the change, where one is to be staged: there is a diff store, and a gate
-- whose mode for the workspace is "gate".
unfoldable pub staging_store : World → String → Option Store
staging_store w workspace = elim w.reviews [
  | none ↦ none
  | some s ↦ elim w.gate [
    | none ↦ none
    | some g ↦ if mode g workspace == mode_gate then some s else none
  ]
]

-- os.ReadFile with its error dropped: a missing file reads as the empty text.
unfoldable pub text_or_empty : Option Bytes → Bytes
text_or_empty none = []
text_or_empty (some t) = t

unfoldable pub write_directly : World → String → Bytes → World × Reply
write_directly w path content =
    let (d, e) = write_file w.disk path content 0o644 in
    (record w { disk = d }, elim e [ none ↦ wrote (length content) | some _ ↦ cannot_write ])

unfoldable pub stage_write : World → Store → String → Bytes → World × Reply
unfolding text_or_empty
stage_write w s path content =
    let (s', changed) = stage s w.disk path (text_or_empty (read_file w.disk path)) content in
    (record w { reviews = some s' }, if changed then staged_for_review else no_changes)

unfoldable pub write_at : World → String → Bytes → Resolved → World × Reply
unfolding write_directly stage_write
write_at w workspace content (refused e) = (w, bad_path e)
write_at w workspace content (inside p) =
    if w.mkdir_succeeds p
    then (elim (staging_store w workspace) [
      | some s ↦ stage_write w s (path_text p) content
      | none ↦ write_directly w (path_text p) content
    ])
    else (w, cannot_make_directory)

unfoldable pub file_write : World → Option WriteArgs → World × Reply
unfolding write_at
file_write w none = (w, invalid_arguments)
file_write w (some a) =
    write_at w a.workspace_id a.content
      (resolve_workspace_path w.links w.workspaces a.workspace_id a.path)
