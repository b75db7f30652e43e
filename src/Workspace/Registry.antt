-- ===== src/Workspace/Registry.antt =====
-- registry.go: the open workspaces. Every method holds the mutex, so it is one step; the ids that
-- id.New returns are arguments.
use vmux.Base.{
  Bool, true, false, List, [], ◌∷◌, ◌++◌, Option, none, some, if◌then◌else◌, Map, lookup, insert,
  delete, map, String, String-eq, ◌==◌, Bytes,
}
use vmux.Workspace.Git.{GitStatus, read_git_status}
use vmux.Workspace.Meta.{Meta, Codec, Env, read_or_create_meta}

pub record Workspace : Type 0 where
  pub id : String
  pub path : String
  pub meta : Meta
  pub git : GitStatus

-- persistedEntry
pub record Entry : Type 0 where
  pub id : String
  pub path : String

-- `saved` is what the registry's file holds, `none` where it cannot be read or decoded; `metas` are
-- the metadata files; `notices` are the notifications sent.
pub record Registry : Type 0 where
  pub by_id : Map String Workspace
  pub by_path : Map String String
  pub saved : Option (List Entry)
  pub metas : Map String Bytes
  pub notices : List (String × GitStatus)

abbrev pub entry_of : String × Workspace → Entry
entry_of kv = record { id = kv.1.id; path = kv.1.path }

-- persistLocked
unfoldable pub persist : Env → Registry → Registry
persist env r = if env.can_save then record r { saved = some (map entry_of r.by_id) } else r

-- The id that openLocked gives: the fixed one, unless it is empty.
unfoldable pub id_or : String → String → String
id_or fixed fresh = if fixed == "" then fresh else fixed

unfoldable pub enter :
    Env → Registry → String → String → Meta → Option GitStatus → Registry × Option Workspace
enter env r path id meta none = (r, none)
enter env r path id meta (some st) =
    let w : Workspace = record { id = id; path = path; meta = meta; git = st } in
    if env.watch path
    then (record r { by_id = insert id w r.by_id; by_path = insert path id r.by_path }, some w)
    else (r, none)

unfoldable pub open_with :
    Env → Registry → String → String → Option Meta → Registry × Option Workspace
unfolding enter
open_with env r path id none = (r, none)
open_with env r path id (some meta) = enter env r path id meta (read_git_status (env.git path))

-- openLocked; `none` is an error.
unfoldable pub open_locked :
    Codec → Env → Registry → String → String → String → Registry × Option Workspace
unfolding open_with id_or
open_locked codec env r path fixed fresh =
    let (metas, meta) = read_or_create_meta codec env r.metas path in
    open_with env (record r { metas = metas }) path (id_or fixed fresh) meta

pub data Opened : Type 0 where
  failed : Opened
  -- what Open returns with no error
  opened : Option Workspace → Opened

unfoldable pub open_new : Codec → Env → Registry → String → String → Registry × Opened
open_new codec env r path fresh =
    let (r', w) = open_locked codec env r path "" fresh in
    elim w [ none ↦ (r', failed) | some v ↦ (persist env r', opened (some v)) ]

unfoldable pub open_at : Codec → Env → Registry → String → String → Registry × Opened
unfolding open_new
open_at codec env r path fresh = elim (lookup path r.by_path) [
  | some id ↦ (r, opened (lookup id r.by_id))
  | none ↦ open_new codec env r path fresh
]

unfoldable pub open_dir : Codec → Env → Registry → String → Option Bool → String → Registry × Opened
unfolding open_at
open_dir codec env r path none fresh = (r, failed)
open_dir codec env r path (some false) fresh = (r, failed)
open_dir codec env r path (some true) fresh = open_at codec env r path fresh

-- Open
unfoldable pub open_path : Codec → Env → Registry → String → String → Registry × Opened
unfolding open_dir
open_path codec env r path fresh = elim (env.abs path) [
  | none ↦ (r, failed)
  | some p ↦ open_dir codec env r p (env.is_dir p) fresh
]

-- Close, with whether it had the workspace. The watcher that it stops is outside.
unfoldable pub close : Env → Registry → String → Registry × Bool
unfolding persist
close env r id = elim (lookup id r.by_id) [
  | none ↦ (r, false)
  | some w ↦ (
    persist env (record r { by_id = delete id r.by_id; by_path = delete w.path r.by_path }),
    true,
  )
]

-- Get
unfoldable pub get : Registry → String → Option Workspace
get r id = lookup id r.by_id

-- List
unfoldable pub list : Registry → List Workspace
list r = map (λ kv. kv.1) r.by_id

-- onGitChange
unfoldable pub on_git_change : Registry → String → GitStatus → Registry
on_git_change r id st =
    let noticed : Registry = record r { notices = r.notices ++ (id, st) ∷ [] } in
    elim (lookup id r.by_id) [
      | none ↦ noticed
      | some w ↦ record noticed { by_id = insert id (record w { git = st }) r.by_id }
    ]

-- The body of load's loop.
unfoldable pub load_entry : Codec → Env → (String → String) → Registry → Entry → Registry
unfolding open_locked
load_entry codec env fresh r e = elim (env.is_dir e.path) [
  | none ↦ r
  | some d ↦ elim (lookup e.path r.by_path) [
    | some id ↦ r
    | none ↦ (open_locked codec env r e.path e.id (fresh e.path)).0
  ]
]

unfoldable pub load_entries : Codec → Env → (String → String) → Registry → List Entry → Registry
unfolding load_entry
load_entries codec env fresh r [] = r
load_entries codec env fresh r (e ∷ es) =
    load_entries codec env fresh (load_entry codec env fresh r e) es

abbrev pub empty : Option (List Entry) → Map String Bytes → Registry
empty saved metas = record { by_id = []; by_path = []; saved = saved; metas = metas; notices = [] }

-- NewRegistry: load on what the file holds. `fresh` has the id that the entry of a path is
-- given where its own is empty.
unfoldable pub new_registry :
    Codec → Env → (String → String) → Option (List Entry) → Map String Bytes → Registry
unfolding load_entries
new_registry codec env fresh none metas = empty none metas
new_registry codec env fresh (some es) metas =
    load_entries codec env fresh (empty (some es) metas) es

pub data Step : Type 0 where
  -- Open of a path, with the id that id.New returns
  opens : Env → String → String → Step
  closes : Env → String → Step
  -- a watcher reports a git state
  git_changes : String → GitStatus → Step

unfoldable pub step : Codec → Registry → Step → Registry
unfolding open_path close on_git_change
step codec r (opens env path fresh) = (open_path codec env r path fresh).0
step codec r (closes env id) = (close env r id).0
step codec r (git_changes id st) = on_git_change r id st

unfoldable pub run : Codec → Registry → List Step → Registry
unfolding step
run codec r [] = r
run codec r (a ∷ steps) = run codec (step codec r a) steps
