-- ===== src/Rpc/Reader.antt =====
-- server.go and conn.go: the frames that a connection reads and writes, over the bytes that come
-- until the connection ends.
use mathlib.Core.Option
use vmux.Base.{
  ℕ, zero, suc, Bool, true, false, ◌||◌, List, [], ◌∷◌, ◌++◌, Option, none, some, if◌then◌else◌,
  ltb, nat_eq, Bytes, length,
}

-- maxLine
abbrev pub max_line : ℕ
max_line = 16777216

-- bufio.Reader.ReadBytes of a newline: what was read, what is left, and whether the input ended.
pub record ReadBytes : Type 0 where
  pub line : Bytes
  pub rest : Bytes
  pub ended : Bool

unfoldable pub read_bytes : Bytes → ReadBytes
read_bytes [] = record { line = []; rest = []; ended = true }
read_bytes (c ∷ s) =
    let later = read_bytes s in
    if nat_eq c b'\n'
    then record { line = c ∷ []; rest = s; ended = false }
    else record later { line = c ∷ later.line }

is_break : ℕ → Bool
is_break c = nat_eq c b'\n' || nat_eq c b'\r'

trim_onto : ℕ → Bytes → Bytes
unfolding is_break
trim_onto c [] = if is_break c then [] else c ∷ []
trim_onto c (d ∷ s) = c ∷ d ∷ s

-- The loop of readLine that cuts line breaks off the end.
unfoldable pub trim_breaks : Bytes → Bytes
unfolding trim_onto
trim_breaks [] = []
trim_breaks (c ∷ s) = trim_onto c (trim_breaks s)

pub data ReadLine : Type 0 where
  too_long ended : ReadLine
  -- a line, and the input after it
  got : Bytes → Bytes → ReadLine

-- readLine on what was read.
unfoldable pub read_line_of : ReadBytes → ReadLine
unfolding trim_breaks
read_line_of r =
    if ltb max_line (length r.line)
    then too_long
    else (if r.ended then ended else got (trim_breaks r.line) r.rest)

-- readLine; a line that the end of the input cuts off is not used.
unfoldable pub read_line : Bytes → ReadLine
unfolding read_bytes read_line_of
read_line s = read_line_of (read_bytes s)

unfoldable pub keep_line : Bytes → List Bytes → List Bytes
keep_line [] ls = ls
keep_line (c ∷ line) ls = (c ∷ line) ∷ ls

-- One turn of the loop of handleConn: it returns at an error, or goes on with what is left.
unfoldable pub serve_line : (Bytes → Option (List Bytes)) → ReadLine → Option (List Bytes)
unfolding keep_line
serve_line later too_long = some []
serve_line later ended = some []
serve_line later (got line rest) = Option.map (keep_line line) (later rest)

-- The loop of handleConn, on fuel: the lines it has dispatched when it returns, after which the
-- connection is closed; `none` where it has not returned.
unfoldable pub handle_conn : ℕ → Bytes → Option (List Bytes)
unfolding read_line serve_line
handle_conn zero s = none
handle_conn (suc fuel) s = serve_line (handle_conn fuel) (read_line s)

-- The frames of writeLoop.
unfoldable pub write_frames : List Bytes → Bytes
write_frames [] = []
write_frames (line ∷ ls) = line ++ b'\n' ∷ write_frames ls
