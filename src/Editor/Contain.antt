-- ===== src/Editor/Contain.antt =====
-- editor_methods.go: containWorkspacePath, over clean absolute paths.
use vmux.Base.{◌≡◌, inl, inr, List, Option, none, some, String, if◌then◌else◌, Bool-cases}
use vmux.Mcp.Paths.{FilePath, Links, join_path, within_root, IsBelow, within_root-IsBelow}

unfoldable pub or_unresolved : Option FilePath → FilePath → FilePath
or_unresolved none p = p
or_unresolved (some resolved) p = resolved

-- The path that the check looks at: with its links followed if it exists, else as it is.
abbrev pub seen : Links → FilePath → FilePath
seen links p = or_unresolved (links p) p

-- `none` is the error.
unfoldable pub contain_workspace_path : Links → FilePath → List String → Option FilePath
unfolding or_unresolved
contain_workspace_path links root rel =
    let abs = join_path root rel in
    if within_root (seen links root) (seen links abs) then some abs else none

-- A path that containWorkspacePath accepts is the one asked for, and leads, where it exists, to the
-- workspace's real root or below it. Where it does not exist only its name is below that root:
-- symbolic links on the way to it are not followed.
pub contain_workspace_path-IsBelow :
    (links : Links) (root : FilePath) (rel : List String) (p : FilePath)
    → contain_workspace_path links root rel ≡ some p
    → (p ≡ join_path root rel)
      × IsBelow (or_unresolved (links root) root) (or_unresolved (links p) p)
unfolding contain_workspace_path
contain_workspace_path-IsBelow links root rel p h =
    let abs : FilePath = join_path root rel in
    elim (Bool-cases (within_root (seen links root) (seen links abs))) [
      | inr e ↦ cc (rw e at h)
      | inl e ↦
          let is : some abs ≡ some p = rw e at h in
          let same : p ≡ abs = cc is in
          (same, rw same (within_root-IsBelow (seen links root) (seen links abs) e))
    ]
