-- ===== src/ChromeImport/Bookmarks.antt =====
-- bookmarks.go: merging the bookmarks of a Chrome profile into another one.
use vmux.Base.{
  ℕ, ◌+◌, Bool, ◌&&◌, [], Option, none, some, if◌then◌else◌, Map, lookup, insert, String, String-eq,
  ◌==◌, Bytes,
}

-- bookmarkNode: its type, its name, its URL and its children.
mutual
  pub data Node : Type 0 where
    node : String → String → String → Nodes → Node

  pub data Nodes : Type 0 where
    nil : Nodes
    cons : Node → Nodes → Nodes

-- bookmarkFile
pub record BookmarkFile : Type 0 where
  pub version : ℕ
  pub roots : Map String Node

-- The zero value of a node, which Go reads from a map without the key.
abbrev pub zero_node : Node
zero_node = node "" "" "" nil

abbrev pub root : String → BookmarkFile → Node
root name f = elim (lookup name f.roots) [ none ↦ zero_node | some n ↦ n ]

-- collectChildren
unfoldable pub collect_children : Node → Nodes
collect_children (node kind name url children) = children

unfoldable pub append : Nodes → Nodes → Nodes
append nil ms = ms
append (cons n ns) ms = cons n (append ns ms)

unfoldable pub is_folder_named : String → Node → Bool
is_folder_named folder (node kind name url children) = kind == "folder" && name == folder

unfoldable pub without_folder : String → Nodes → Nodes
unfolding is_folder_named
without_folder folder nil = nil
without_folder folder (cons n ns) =
    let kept = without_folder folder ns in if is_folder_named folder n then kept else cons n kept

abbrev pub import_name : String
import_name = "Imported from Chrome"

abbrev pub import_folder : Nodes → Node
import_folder imported = node "folder" import_name "" imported

-- replaceImportFolder
unfoldable pub replace_import_folder : Nodes → Nodes → Nodes
unfolding without_folder append
replace_import_folder children imported =
    append (without_folder import_name children) (cons (import_folder imported) nil)

unfoldable pub imported_from : BookmarkFile → Nodes
unfolding collect_children append
imported_from src =
    append (collect_children (root "bookmark_bar" src)) (collect_children (root "other" src))

-- The bookmark bar with the imported folder.
unfoldable pub with_import : Nodes → Node → Node
unfolding replace_import_folder
with_import imported (node kind name url children) =
    node "folder" (if name == "" then "Bookmarks Bar" else name) url
      (replace_import_folder children imported)

unfoldable pub merge : Nodes → BookmarkFile → BookmarkFile
unfolding with_import
merge imported target = record target {
  roots = insert "bookmark_bar" (with_import imported (root "bookmark_bar" target)) target.roots;
}

-- countURLs
unfoldable mutual
  pub count_node : Node → ℕ
  count_node (node kind name url children) = (if kind == "url" then 1 else 0) + count_urls children

  pub count_urls : Nodes → ℕ
  count_urls nil = 0
  count_urls (cons n ns) = count_node n + count_urls ns

-- json.Unmarshal of a file, json.Unmarshal onto a file that is there, whose error is passed over, and
-- json.MarshalIndent.
pub record Json : Type 0 where
  pub decode : Bytes → Option BookmarkFile
  pub decode_onto : BookmarkFile → Bytes → BookmarkFile
  pub encode : BookmarkFile → Option Bytes

abbrev pub fresh_file : BookmarkFile
fresh_file = record { version = 1; roots = [] }

unfoldable pub target_of : Json → Option Bytes → BookmarkFile
target_of json none = fresh_file
target_of json (some content) = json.decode_onto fresh_file content

-- The target's file after the merge and the count of URLs; an error is `none`, and `writable` is
-- whether the file can be written.
unfoldable pub write_merged : Bool → Option Bytes → Nodes → Option Bytes → Option Bytes × Option ℕ
unfolding count_urls
write_merged writable old imported none = (old, none)
write_merged writable old imported (some out) =
    if writable then (some out, some (count_urls imported)) else (old, none)

unfoldable pub merge_decoded :
    Json → Bool → Option BookmarkFile → Option Bytes → Option Bytes × Option ℕ
unfolding write_merged merge imported_from target_of
merge_decoded json writable none old = (old, none)
merge_decoded json writable (some src) old =
    write_merged writable old (imported_from src)
      (json.encode (merge (imported_from src) (target_of json old)))

-- MergeBookmarks, on the contents of the two files, `none` where one cannot be read.
unfoldable pub merge_bookmarks : Json → Bool → Option Bytes → Option Bytes → Option Bytes × Option ℕ
unfolding merge_decoded
merge_bookmarks json writable none old = (old, none)
merge_bookmarks json writable (some content) old =
    merge_decoded json writable (json.decode content) old
