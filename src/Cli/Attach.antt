-- ===== src/Cli/Attach.antt =====
-- attach.go: what a terminal shows of the session that it is attached to, and when it is done.
use vmux.Base.{
  ℤ, List, [], ◌∷◌, ◌++◌, Option, none, some, Bytes, String, String-eq, ◌==◌, if◌then◌else◌,
}
use vmux.Cli.Client.{Probe, Codec, Client, has_id}

-- json.Unmarshal of the parameters of the two notifications, with base64's DecodeString of a chunk:
-- the id of the session, and the bytes or the code.
pub record Notices : Type 0 where
  pub read_data : Bytes → Option (String × Option Bytes)
  pub read_exit : Bytes → Option (String × ℤ)

-- What was written to the standard output, and the channel `done`.
pub record Terminal : Type 0 where
  pub out : List Bytes
  pub done : Option ℤ

unfoldable pub data_of : String → Option (String × Option Bytes) → List Bytes
data_of sid none = []
data_of sid (some (id, none)) = []
data_of sid (some (id, some chunk)) = if id == sid then chunk ∷ [] else []

unfoldable pub code_of : String → Option (String × ℤ) → Option ℤ
code_of sid none = none
code_of sid (some (id, code)) = if id == sid then some code else none

-- A send that is dropped where the channel, of capacity one, is full.
unfoldable pub or_new : Option ℤ → Option ℤ → Option ℤ
or_new none new = new
or_new (some code) new = some code

-- onNotify
unfoldable pub on_notify : Notices → String → Terminal → String → Bytes → Terminal
unfolding data_of code_of or_new
on_notify n sid t method params =
    if method == "pty.data"
    then record t { out = t.out ++ data_of sid (n.read_data params) }
    else (if method == "pty.exit"
        then record t { done = or_new t.done (code_of sid (n.read_exit params)) }
        else t)

unfoldable pub on_notices : Notices → String → Terminal → List (String × Bytes) → Terminal
unfolding on_notify
on_notices n sid t [] = t
on_notices n sid t (m ∷ ms) = on_notices n sid (on_notify n sid t m.0 m.1) ms

abbrev pub blank : Terminal
blank = record { out = []; done = none }

-- What attach makes of the notifications that the client has given to it.
unfoldable pub attach : Notices → String → Client → Terminal
unfolding on_notices
attach n sid c = on_notices n sid blank c.notified

-- The notification that stands in a line.
unfoldable pub probe_notice : Option Probe → List (String × Bytes)
probe_notice none = []
probe_notice (some p) =
    if has_id p.id then [] else (if p.method == "" then [] else (p.method, p.params) ∷ [])

unfoldable pub line_notices : Codec → List Bytes → List (String × Bytes)
unfolding probe_notice
line_notices codec [] = []
line_notices codec (line ∷ lines) = probe_notice (codec.probe line) ++ line_notices codec lines

unfoldable pub chunk_list : Option Bytes → List Bytes
chunk_list none = []
chunk_list (some chunk) = chunk ∷ []

-- The chunk of the session in decoded parameters, and the code of its exit.
unfoldable pub own_chunk : String → Option (String × Option Bytes) → List Bytes
unfolding chunk_list
own_chunk sid none = []
own_chunk sid (some m) = if m.0 == sid then chunk_list m.1 else []

unfoldable pub own_code : String → Option (String × ℤ) → Option ℤ
own_code sid none = none
own_code sid (some m) = if m.0 == sid then some m.1 else none

-- The chunk and the code that one notification has for the session.
unfoldable pub notice_data : Notices → String → String × Bytes → List Bytes
unfolding own_chunk
notice_data n sid m = if m.0 == "pty.data" then own_chunk sid (n.read_data m.1) else []

unfoldable pub notice_code : Notices → String → String × Bytes → Option ℤ
unfolding own_code
notice_code n sid m = if m.0 == "pty.exit" then own_code sid (n.read_exit m.1) else none

-- The chunks of the session's output, and the code of its first exit.
unfoldable pub chunks : Notices → String → List (String × Bytes) → List Bytes
unfolding notice_data
chunks n sid [] = []
chunks n sid (m ∷ ms) = notice_data n sid m ++ chunks n sid ms

unfoldable pub first_exit : Notices → String → List (String × Bytes) → Option ℤ
unfolding notice_code
first_exit n sid [] = none
first_exit n sid (m ∷ ms) = or_new (notice_code n sid m) (first_exit n sid ms)
