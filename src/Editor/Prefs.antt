-- ===== src/Editor/Prefs.antt =====
-- prefs.go: the editor that a user prefers, and the file that keeps the choice. `J` is the content of
-- a file.
use vmux.Base.{
  Bool, true, false, [], Option, none, some, if◌then◌else◌, Map, lookup, insert, String, String-eq,
  ◌==◌,
}

-- Prefs, without its path
pub record Prefs : Type 0 where
  pub global : String
  pub per_workspace : Map String String

-- What json.Unmarshal leaves in a fresh Prefs; `none` is a nil map.
pub record Stored : Type 0 where
  pub global : String
  pub per_workspace : Option (Map String String)

-- json.MarshalIndent and json.Unmarshal.
pub record Codec (J : Type 0) : Type 0 where
  pub marshal : Prefs → Option J
  pub unmarshal : J → Stored

-- The preferences and their ".tmp" file, where they exist.
pub record Disk (J : Type 0) : Type 0 where
  pub kept : Option J
  pub tmp : Option J

-- How a save fares: os.MkdirAll, os.WriteFile, which may fail and leave something in the file, and
-- os.Rename.
pub data Write (J : Type 0) : Type 0 where
  written : Write J
  broken_off : Option J → Write J

pub record Env (J : Type 0) : Type 0 where
  pub can_make_dir : Bool
  pub write : Write J
  pub can_rename : Bool

unfoldable pub or_empty : Option (Map String String) → Map String String
or_empty none = []
or_empty (some m) = m

abbrev pub no_prefs : Prefs
no_prefs = record { global = ""; per_workspace = [] }

module _ {J : Type 0} where
  unfoldable pub read_from : Codec J → Option J → Prefs
  unfolding or_empty
  read_from codec none = no_prefs
  read_from codec (some j) = record {
    global = (codec.unmarshal j).global;
    per_workspace = or_empty (codec.unmarshal j).per_workspace;
  }

  -- LoadPrefs
  unfoldable pub load_prefs : Codec J → Disk J → Prefs
  unfolding read_from
  load_prefs codec d = read_from codec d.kept

  unfoldable pub rename : Bool → Disk J → Disk J × Bool
  rename true d = (record { kept = d.tmp; tmp = none }, true)
  rename false d = (d, false)

  unfoldable pub write_tmp : Env J → Write J → J → Disk J → Disk J × Bool
  unfolding rename
  write_tmp env written out d = rename env.can_rename (record d { tmp = some out })
  write_tmp env (broken_off left) out d = (record d { tmp = left }, false)

  unfoldable pub write_out : Env J → Option J → Disk J → Disk J × Bool
  unfolding write_tmp
  write_out env none d = (d, false)
  write_out env (some out) d =
      if env.can_make_dir then write_tmp env env.write out d else (d, false)

  -- save, with whether it returned no error
  unfoldable pub save : Codec J → Env J → Prefs → Disk J → Disk J × Bool
  unfolding write_out
  save codec env p d = write_out env (codec.marshal p) d

unfoldable pub found_id : Option String → String
found_id none = ""
found_id (some id) = id

-- EditorFor
unfoldable pub editor_for : Prefs → String → String
unfolding found_id
editor_for p workspace_id =
    let id = found_id (lookup workspace_id p.per_workspace) in if id == "" then p.global else id

-- Set up to its save
unfoldable pub choose : Prefs → String → String → Prefs
choose p workspace_id editor_id =
    if workspace_id == ""
    then record p { global = editor_id }
    else record p { per_workspace = insert workspace_id editor_id p.per_workspace }

-- Set: the preferences in memory, the disk, and whether it returned no error
unfoldable pub set :
    {J : Type 0} → Codec J → Env J → Prefs → Disk J → String → String → Prefs × (Disk J × Bool)
unfolding choose save
set codec env p d workspace_id editor_id =
    let chosen = choose p workspace_id editor_id in (chosen, save codec env chosen d)
