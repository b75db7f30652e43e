-- ===== src/ChromeImport/Profiles.antt =====
-- profiles.go: the profiles of Chrome, and profile.go of browsersession: the profile of a workspace. Paths
-- are clean and absolute.
use vmux.Base.{
  Bool, ◌&&◌, ◌||◌, List, [], ◌∷◌, Option, none, some, if◌then◌else◌, ltb, length, take, Map,
  lookup, String, String-eq, ◌==◌, Bytes-eq, codes,
}
use vmux.Mcp.Paths.{FilePath}

pub record Profile : Type 0 where
  pub name : String
  pub dir : String
  pub path : FilePath
  pub has_cookies : Bool
  pub has_bookmarks : Bool
  pub has_history : Bool

-- ChromeRoot; `none` is an error.
unfoldable pub chrome_root : Option FilePath → Option FilePath
chrome_root none = none
chrome_root (some home) = some ("Chrome" ∷ "Google" ∷ "Application Support" ∷ "Library" ∷ home)

-- isProfileDir
unfoldable pub is_profile_dir : String → Bool
is_profile_dir name =
    ltb (length (codes "Profile ")) (length (codes name))
    && take (length (codes "Profile ")) (codes name) == codes "Profile "

-- What the scan finds outside: the entries of a directory, each with whether it is a directory, which
-- paths os.Stat finds, and the names that Local State has for the profiles, none if it cannot be read
-- or decoded.
pub record Machine : Type 0 where
  pub entries : FilePath → Option (List (String × Bool))
  pub exists : FilePath → Bool
  pub info_cache : FilePath → Map String String

unfoldable pub found_name : Option String → String
found_name none = ""
found_name (some name) = name

-- The names of profileDisplayNames, or the directory's own.
unfoldable pub display_name : Map String String → String → String
unfolding found_name
display_name names dir =
    let name = found_name (lookup dir names) in if name == "" then dir else name

unfoldable pub profile_at : Machine → FilePath → Map String String → String → Profile
unfolding display_name
profile_at m root names dir = record {
  name = display_name names dir;
  dir = dir;
  path = dir ∷ root;
  has_cookies = m.exists ("Cookies" ∷ dir ∷ root);
  has_bookmarks = m.exists ("Bookmarks" ∷ dir ∷ root);
  has_history = m.exists ("History" ∷ dir ∷ root);
}

-- The loop of Scan.
unfoldable pub profiles_in :
    Machine → FilePath → Map String String → List (String × Bool) → List Profile
unfolding is_profile_dir profile_at
profiles_in m root names [] = []
profiles_in m root names ((dir, is_dir) ∷ entries) =
    let rest = profiles_in m root names entries in
    if is_dir && (dir == "Default" || is_profile_dir dir)
    then profile_at m root names dir ∷ rest
    else rest

unfoldable pub scan_entries :
    Machine → FilePath → Option (List (String × Bool)) → Option (List Profile)
unfolding profiles_in
scan_entries m root none = none
scan_entries m root (some entries) = some (profiles_in m root (m.info_cache root) entries)

-- Scan; `none` is an error.
unfoldable pub scan : Machine → FilePath → Option (List Profile)
unfolding scan_entries
scan m root = scan_entries m root (m.entries root)

-- ProfileDir, for a workspace at a clean path
unfoldable pub profile_dir : FilePath → FilePath
profile_dir workspace = "chrome-profile" ∷ ".vmux" ∷ workspace
