-- ===== src/BrowserSession/Screenshots.antt =====
-- screenshot_store.go: the screenshots of each session, in memory and on disk. Decoding and encoding
-- of images is an argument.
use vmux.Base.{
  ℕ, suc, Bool, true, false, ◌&&◌, ◌||◌, List, [], ◌∷◌, ◌++◌, Option, none, some, if◌then◌else◌,
  ltb, leb, nat_eq, Map, lookup, insert, delete, map, String, String-eq, ◌==◌, Bytes, Bytes-eq,
  codes, length,
}

-- maxShotsPerSession
abbrev pub max_shots : ℕ
max_shots = 50

-- A file of a session's directory: the picture of a shot or its thumbnail.
pub data FileName : Type 0 where
  full thumb : String → FileName

pub record Shot : Type 0 where
  pub id : String
  pub session_id : String
  pub width : ℕ
  pub height : ℕ
  pub captured_at : ℕ

-- What image.Decode, downscale and png.Encode make of the bytes of a screenshot.
pub record Picture : Type 0 where
  pub width : ℕ
  pub height : ℕ
  pub png : Bytes
  pub thumbnail : Bytes

-- `files` has the content of a file under the key of its directory.
pub record ScreenshotStore : Type 0 where
  pub shots : Map String (List Shot)
  pub files : Bytes → FileName → Option Bytes

abbrev pub new_store : ScreenshotStore
new_store = record { shots = []; files = λ key name. none }

is_safe : ℕ → Bool
is_safe r =
    leb b'a' r && leb r b'z'
    || leb b'A' r && leb r b'Z'
    || leb b'0' r && leb r b'9'
    || nat_eq r b'-'
    || nat_eq r b'_'

safe_char : ℕ → ℕ
unfolding is_safe
safe_char r = if is_safe r then r else b'_'

key_or_session : Bytes → Bytes
key_or_session [] = codes "session"
key_or_session (r ∷ rs) = r ∷ rs

-- safeKey
unfoldable pub safe_key : String → Bytes
unfolding safe_char key_or_session
safe_key s = key_or_session (map safe_char (codes s))

unfoldable pub same_name : FileName → FileName → Bool
same_name (full a) (full b) = a == b
same_name (full a) (thumb b) = false
same_name (thumb a) (full b) = false
same_name (thumb a) (thumb b) = a == b

-- A file is written, or removed.
unfoldable pub set_file :
    Bytes
    → FileName
    → Option Bytes
    → (Bytes → FileName → Option Bytes)
    → Bytes
    → FileName
    → Option Bytes
unfolding same_name
set_file key name content files k n = if k == key && same_name n name then content else files k n

unfoldable pub remove_shot :
    Bytes → Shot → (Bytes → FileName → Option Bytes) → Bytes → FileName → Option Bytes
unfolding set_file
remove_shot key shot files =
    set_file key (thumb shot.id) none (set_file key (full shot.id) none files)

unfoldable pub remove_shots :
    Bytes → List Shot → (Bytes → FileName → Option Bytes) → Bytes → FileName → Option Bytes
unfolding remove_shot
remove_shots key [] files = files
remove_shots key (shot ∷ shots) files = remove_shots key shots (remove_shot key shot files)

-- os.RemoveAll of a directory.
unfoldable pub remove_all :
    Bytes → (Bytes → FileName → Option Bytes) → Bytes → FileName → Option Bytes
remove_all key files k n = if k == key then none else files k n

-- The ring that a lookup finds, empty where there is none.
unfoldable pub found_ring : Option (List Shot) → List Shot
found_ring none = []
found_ring (some ring) = ring

unfoldable pub ring_of : ScreenshotStore → String → List Shot
unfolding found_ring
ring_of s session_id = found_ring (lookup session_id s.shots)

-- The loop of Add that evicts: what is left of the ring and of the files. Each turn drops a shot, so the
-- ring itself bounds the turns.
unfoldable pub evict :
    Bytes
    → List Shot
    → (Bytes → FileName → Option Bytes)
    → List Shot × (Bytes → FileName → Option Bytes)
unfolding remove_shot
evict key [] files = ([], files)
evict key (shot ∷ ring) files =
    let rest = evict key ring (remove_shot key shot files) in
    if ltb max_shots (suc (length ring)) then rest else (shot ∷ ring, files)

-- What Add finds outside: the id and the time of the shot, and whether its directory can be made and
-- its two files written.
pub record Env : Type 0 where
  pub id : String
  pub now : ℕ
  pub can_make : Bool
  pub can_write : Bool
  pub can_write_thumb : Bool

abbrev pub shot_of : Env → String → Picture → Shot
shot_of env session_id p = record {
  id = env.id;
  session_id = session_id;
  width = p.width;
  height = p.height;
  captured_at = env.now;
}

unfoldable pub enter_shot :
    ScreenshotStore → String → Shot → (Bytes → FileName → Option Bytes) → ScreenshotStore
unfolding evict ring_of
enter_shot s session_id shot files =
    let (ring, left) = evict (safe_key session_id) (ring_of s session_id ++ shot ∷ []) files in
    record { shots = insert session_id ring s.shots; files = left }

-- What comes of the files: whether the picture could be written, and the thumbnail after it.
unfoldable pub add_where :
    Bool → Bool → Env → ScreenshotStore → String → Picture → ScreenshotStore × Option Shot
unfolding enter_shot set_file safe_key
add_where false thumb_written env s session_id p = (s, none)
add_where true false env s session_id p =
    let key = safe_key session_id in
    let written = set_file key (full env.id) (some p.png) s.files in
    (record s { files = set_file key (full env.id) none written }, none)
add_where true true env s session_id p =
    let key = safe_key session_id in
    let written = set_file key (full env.id) (some p.png) s.files in
    let both = set_file key (thumb env.id) (some p.thumbnail) written in
    (enter_shot s session_id (shot_of env session_id p) both, some (shot_of env session_id p))

unfoldable pub add_files : Env → ScreenshotStore → String → Picture → ScreenshotStore × Option Shot
unfolding add_where
add_files env s session_id p =
    add_where (env.can_make && env.can_write) env.can_write_thumb env s session_id p

-- Add; `none` is an error.
unfoldable pub add :
    (Bytes → Option Picture)
    → Env
    → ScreenshotStore
    → String
    → Bytes
    → ScreenshotStore × Option Shot
unfolding add_files
add decode env s session_id raw = elim (decode raw) [
  | none ↦ (s, none)
  | some p ↦ add_files env s session_id p
]

unfoldable pub last_of : List Shot → Option Shot
last_of [] = none
last_of (shot ∷ []) = some shot
last_of (shot ∷ next ∷ ring) = last_of (next ∷ ring)

-- Latest
unfoldable pub latest : ScreenshotStore → String → Option Shot
unfolding last_of ring_of
latest s session_id = last_of (ring_of s session_id)

-- List
unfoldable pub list : ScreenshotStore → String → List Shot
unfolding ring_of
list s session_id = ring_of s session_id

-- Sessions
unfoldable pub sessions : ScreenshotStore → List String
sessions s = map (λ kv. kv.0) s.shots

unfoldable pub has_shot : String → List Shot → Bool
has_shot id [] = false
has_shot id (shot ∷ ring) = shot.id == id || has_shot id ring

-- ReadFull; `none` is an error.
unfoldable pub read_full : ScreenshotStore → String → String → Option Bytes
unfolding has_shot ring_of safe_key
read_full s session_id id =
    if has_shot id (ring_of s session_id) then s.files (safe_key session_id) (full id) else none

-- Clear
unfoldable pub clear : ScreenshotStore → String → ScreenshotStore
unfolding remove_shots remove_all ring_of safe_key
clear s session_id = record {
  shots = delete session_id s.shots;
  files =
      remove_all (safe_key session_id)
        (remove_shots (safe_key session_id) (ring_of s session_id) s.files);
}
