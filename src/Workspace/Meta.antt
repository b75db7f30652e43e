-- ===== src/Workspace/Meta.antt =====
-- meta.go: the metadata file of a workspace. What is outside of the program is in an environment,
-- which an operation takes as it is at that time.
use vmux.Base.{
  ℕ, Bool, Option, none, some, if◌then◌else◌, Map, lookup, insert, String, String-eq, Bytes,
}
use vmux.Workspace.Git.{GitRun}

pub record Meta : Type 0 where
  pub name : String
  pub created_at : ℕ

-- json.Unmarshal and json.MarshalIndent for the metadata.
pub record Codec : Type 0 where
  pub decode : Bytes → Option Meta
  pub encode : Meta → Option Bytes

pub record Env : Type 0 where
  -- filepath.Abs and filepath.Base
  pub abs : String → Option String
  pub base : String → String
  -- os.Stat: an error, or whether the path is a directory
  pub is_dir : String → Option Bool
  -- whether reading the metadata file fails though it is there
  pub unreadable : String → Bool
  -- whether its directory can be made and it can be written
  pub writable : String → Bool
  pub now : ℕ
  pub git : String → GitRun
  -- whether the watcher of a path starts
  pub watch : String → Bool
  -- whether the registry's file can be written
  pub can_save : Bool

create_meta : Codec → Env → Map String Bytes → String → Map String Bytes × Option Meta
create_meta codec env files path =
    let m : Meta = record { name = env.base path; created_at = env.now } in
    if env.writable path
    then elim (codec.encode m) [ none ↦ (files, none) | some out ↦ (insert path out files, some m) ]
    else (files, none)

-- readOrCreateMeta: the metadata files, by the path of their workspace, and the metadata or an
-- error.
unfoldable pub read_or_create_meta :
    Codec → Env → Map String Bytes → String → Map String Bytes × Option Meta
unfolding create_meta
read_or_create_meta codec env files path =
    if env.unreadable path then (files, none) else elim (lookup path files) [
      | some content ↦ (files, codec.decode content)
      | none ↦ create_meta codec env files path
    ]
