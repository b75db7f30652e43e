-- ===== src/Activity/Log.antt =====
-- store.go: the log files. A file is the list of its lines, under the name of its directory.
use vmux.Base.{
  ℕ, Bool, true, false, ◌||◌, ◌&&◌, List, [], ◌∷◌, ◌++◌, Option, none, some, if◌then◌else◌, leb,
  ltb, nat_eq, Map, lookup, insert, Bytes, Bytes-eq, codes, String, String-eq, length, map,
}
use vmux.Activity.Event.{Event}

abbrev pub is_safe : ℕ → Bool
is_safe r =
    leb b'a' r && leb r b'z'
    || leb b'A' r && leb r b'Z'
    || leb b'0' r && leb r b'9'
    || nat_eq r b'-'
    || nat_eq r b'_'

safe_char : ℕ → ℕ
safe_char r = if is_safe r then r else b'_'

key_or_session : Bytes → Bytes
key_or_session [] = codes "session"
key_or_session (r ∷ rs) = r ∷ rs

-- safeKey, over the runes of a session's id
unfoldable pub safe_key : String → Bytes
unfolding safe_char key_or_session
safe_key s = key_or_session (map safe_char (codes s))

-- The files that are open, by session, the files, and whether os.MkdirAll and os.OpenFile succeed.
pub record Logs : Type 0 where
  pub open_files : Map String Bytes
  pub lines : Map Bytes (List Bytes)
  pub can_open : Bytes → Bool

unfoldable pub lines_of : Logs → Bytes → List Bytes
lines_of l key = elim (lookup key l.lines) [ none ↦ [] | some ls ↦ ls ]

-- f.Write of a line that json.Marshal may fail to give
unfoldable pub write_line : Logs → Bytes → Option Bytes → Logs
unfolding lines_of
write_line l key none = l
write_line l key (some line) = record l { lines = insert key (lines_of l key ++ line ∷ []) l.lines }

-- persistLocked
unfoldable pub persist : (Event → Option Bytes) → Logs → Event → Logs
unfolding write_line safe_key
persist marshal l e = elim (lookup e.session_id l.open_files) [
  | some key ↦ write_line l key (marshal e)
  | none ↦
      if l.can_open (safe_key e.session_id)
      then write_line
          (record l { open_files = insert e.session_id (safe_key e.session_id) l.open_files })
          (safe_key e.session_id) (marshal e)
      else l
]

-- 8*1024*1024, the longest line of the scanner with its newline
abbrev pub max_line : ℕ
max_line = 8388608

unfoldable pub keep_some : Option Event → List Event → List Event
keep_some none es = es
keep_some (some e) es = e ∷ es

-- The loop of All: the events of the lines that decode, and whether the scanner ended without an
-- error. It stops at a line that is too long.
unfoldable pub scan : (Bytes → Option Event) → List Bytes → List Event × Bool
unfolding keep_some
scan unmarshal [] = ([], true)
scan unmarshal (line ∷ ls) =
    let rest = scan unmarshal ls in
    if ltb (length line) max_line then (keep_some (unmarshal line) rest.0, rest.1) else ([], false)

-- All, where the file can be read: a missing file has no events.
unfoldable pub all : (Bytes → Option Event) → Logs → String → List Event × Bool
unfolding scan safe_key lines_of
all unmarshal l session_id = scan unmarshal (lines_of l (safe_key session_id))
