-- ===== src/Service/Imports.antt =====
-- chrome_import_methods.go: the import of Chrome's bookmarks. The disk is the contents of the profiles'
-- Bookmarks files.
use vmux.Base.{
  ◌≡◌, ◌⊎◌, inl, inr, refl, ℕ, Bool, true, false, ◌&&◌, ◌||◌, nat_eq, List, [], ◌∷◌, Option, none,
  some, if◌then◌else◌, Map, lookup, String, String-eq, ◌==◌, Bytes, codes, Bool-cases, Option-cases,
  arith, eq_of_test,
}
use Prim.Native.Char.{Char, code}
use vmux.Mcp.Paths.{FilePath, enter, join_path}
use vmux.ChromeImport.Bookmarks.{Json, merge_bookmarks}
use vmux.ChromeImport.Profiles.{Machine, Profile, chrome_root, scan, profile_dir}
use vmux.Service.Reply.{Reply, returned, invalid_params, internal_error, failed}

unfoldable pub onto_head : Char → List String → List String
onto_head c [] = String.◌∷◌ c "" ∷ []
onto_head c (e ∷ es) = String.◌∷◌ c e ∷ es

-- strings.ContainsRune(dir, '/')
unfoldable pub has_separator : Bytes → Bool
has_separator [] = false
has_separator (c ∷ s) = nat_eq c b'/' || has_separator s

-- strings.Contains(dir, ".."), where `dot` is whether a dot stands before
unfoldable pub has_dots : Bool → Bytes → Bool
has_dots dot [] = false
has_dots dot (c ∷ s) = dot && nat_eq c b'.' || has_dots (nat_eq c b'.') s

-- The test of ProfileDir.
unfoldable pub is_component : String → Bool
unfolding has_separator has_dots
is_component dir =
    if dir == ""
    then false
    else (if has_separator (codes dir)
        then false
        else (if has_dots false (codes dir) then false else true))

-- The elements of a path, cut at its slashes.
unfoldable pub split_path : String → List String
unfolding onto_head
split_path String.[] = "" ∷ []
split_path (String.◌∷◌ c s) =
    let later = split_path s in if nat_eq (code c) b'/' then "" ∷ later else onto_head c later

-- What the method finds outside: the user's home directory, Chrome's profiles, the paths of the open
-- workspaces, the codec of bookmarks, and which profiles' files can be written.
pub record World : Type 0 where
  pub home : Option FilePath
  pub machine : Machine
  pub workspaces : Map String FilePath
  pub json : Json
  pub writable : FilePath → Bool

-- What happens to the disk: the profile that is read, the one that is written, its new content, and how
-- many bookmarks were imported.
pub data Imported : Type 0 where
  refused broken : Imported
  merged : FilePath → FilePath → Option Bytes → Option ℕ → Imported

unfoldable pub import_from :
    World → (FilePath → Option Bytes) → Option FilePath → FilePath → String → Imported
unfolding split_path
import_from w bookmarks none workspace dir = broken
import_from w bookmarks (some root) workspace dir =
    let source = join_path root (split_path dir) in
    let target = profile_dir workspace in
    let (content, count) =
      merge_bookmarks w.json (w.writable target) (bookmarks source) (bookmarks target) in
    merged source target content count

unfoldable pub import_into : World → (FilePath → Option Bytes) → Option FilePath → String → Imported
unfolding import_from is_component
import_into w bookmarks none dir = refused
import_into w bookmarks (some workspace) dir =
    let done = import_from w bookmarks (chrome_root w.home) workspace dir in
    if is_component dir then done else refused

-- chromeImportBookmarks, on a workspace and a profile's directory
unfoldable pub chrome_import_bookmarks :
    World → (FilePath → Option Bytes) → Option (String × String) → Imported
unfolding import_into
chrome_import_bookmarks w bookmarks none = refused
chrome_import_bookmarks w bookmarks (some (workspace_id, dir)) =
    import_into w bookmarks (lookup workspace_id w.workspaces) dir

unfoldable pub count_reply : Option ℕ → Reply ℕ
count_reply none = internal_error
count_reply (some count) = returned count

-- What the method replies.
unfoldable pub import_reply : Imported → Reply ℕ
unfolding count_reply
import_reply refused = invalid_params
import_reply broken = failed
import_reply (merged source target content count) = count_reply count

unfoldable pub scan_reply : Option (List Profile) → Reply (List Profile)
scan_reply none = internal_error
scan_reply (some profiles) = returned profiles

unfoldable pub scan_root : World → Option FilePath → Reply (List Profile)
unfolding scan_reply
scan_root w none = failed
scan_root w (some root) = scan_reply (scan w.machine root)

-- chromeImportScan
unfoldable pub chrome_import_scan : World → Reply (List Profile)
unfolding scan_root
chrome_import_scan w = scan_root w (chrome_root w.home)

dots-is_component : (dir : String) → (dir == "..") ≡ true → is_component dir ≡ false
unfolding is_component
dots-is_component dir h = rw (eq_of_test dir ".." h) refl

split_path-component :
    (dir : String) → has_separator (codes dir) ≡ false → split_path dir ≡ dir ∷ []
unfolding split_path has_separator onto_head
split_path-component String.[] h = refl
split_path-component (String.◌∷◌ c s) h =
    let apart : nat_eq (code c) b'/' ≡ false = ground (arith, h) in
    let later : has_separator (codes s) ≡ false = ground (arith, h) in
    rw (apart, split_path-component s later) refl

component-has_separator :
    (dir : String) → is_component dir ≡ true → has_separator (codes dir) ≡ false
unfolding is_component
component-has_separator dir h = ground (arith, h)

-- One element that is neither empty nor two dots is entered, or is a dot.
one_element :
    (root : FilePath) (dir : String)
    → is_component dir ≡ true
    → (join_path root (dir ∷ []) ≡ dir ∷ root) ⊎ ((join_path root (dir ∷ []) ≡ root) × (dir ≡ "."))
unfolding join_path enter is_component
one_element root dir h = elim (Bool-cases (dir == ".")) [
  | inl dot ↦ rw (eq_of_test dir "." dot) (inr (refl, refl))
  | inr name ↦ inl (ground (arith, h, name, dots-is_component dir))
]

component-join_path :
    (root : FilePath) (dir : String)
    → is_component dir ≡ true
    → (join_path root (split_path dir) ≡ dir ∷ root)
      ⊎ ((join_path root (split_path dir) ≡ root) × (dir ≡ "."))
component-join_path root dir h =
    rw (split_path-component dir (component-has_separator dir h)) (one_element root dir h)

-- What an import has read and written.
pub record IsImport (w : World) (bookmarks : FilePath → Option Bytes) (workspace_id dir : String)
    (source target : FilePath) (content : Option Bytes) (count : Option ℕ) : Type 0 where
  pub root : FilePath
  pub workspace : FilePath
  pub has_root : chrome_root w.home ≡ some root
  pub has_workspace : lookup workspace_id w.workspaces ≡ some workspace
  pub below : (source ≡ dir ∷ root) ⊎ ((source ≡ root) × (dir ≡ "."))
  pub into : target ≡ profile_dir workspace
  pub made :
      (content, count)
      ≡ merge_bookmarks w.json (w.writable target) (bookmarks source) (bookmarks target)

import_from-IsImport :
    (w : World) (bookmarks : FilePath → Option Bytes) (o : Option FilePath) (workspace : FilePath)
    (workspace_id dir : String) (source target : FilePath) (content : Option Bytes)
    (count : Option ℕ)
    → chrome_root w.home ≡ o
    → lookup workspace_id w.workspaces ≡ some workspace
    → is_component dir ≡ true
    → import_from w bookmarks o workspace dir ≡ merged source target content count
    → IsImport w bookmarks workspace_id dir source target content count
unfolding import_from
import_from-IsImport w bookmarks none workspace id dir source target content count has is_open one
      h =
    cc h
import_from-IsImport w bookmarks (some root) workspace id dir source target content count has
      is_open one h =
    let from : source ≡ join_path root (split_path dir) = cc h in
    let into : target ≡ profile_dir workspace = cc h in
    record {
      root = root;
      workspace = workspace;
      has_root = has;
      has_workspace = is_open;
      below = rw from (component-join_path root dir one);
      into = into;
      made = rw (from, into) (cc h);
    }

-- chrome.importBookmarks reads only from the directory of the given name directly in the user's Chrome
-- directory, or from that directory itself where the name is a dot, whatever slashes and dots the
-- client sends; and writes only into the browser profile of an open workspace what MergeBookmarks makes
-- of the two.
pub chrome_import_bookmarks-IsImport :
    (w : World) (bookmarks : FilePath → Option Bytes) (workspace_id dir : String)
    (source target : FilePath) (content : Option Bytes) (count : Option ℕ)
    → chrome_import_bookmarks w bookmarks (some (workspace_id, dir))
      ≡ merged source target content count
    → IsImport w bookmarks workspace_id dir source target content count
unfolding chrome_import_bookmarks import_into
chrome_import_bookmarks-IsImport w bookmarks workspace_id dir source target content count h =
    elim (Option-cases (lookup workspace_id w.workspaces)) [
      | inl e ↦ cc (rw e at h)
      | inr (workspace, e) ↦ elim (Bool-cases (is_component dir)) [
        | inr g ↦ cc (rw (e, g) at h)
        | inl g ↦
            import_from-IsImport w bookmarks (chrome_root w.home) workspace workspace_id dir source
              target content count refl e g (rw (e, g) at h)
      ]
    ]
