-- ===== src/Workspace/Git.antt =====
-- git.go: reading the output of `git status --porcelain=v1 --branch`.
use mathlib.Core.Option
use vmux.Base.{
  ℕ, suc, Bool, true, false, ◌&&◌, List, [], ◌∷◌, ◌++◌, if◌then◌else◌, ltb, nat_eq, Bytes, codes,
  length, take, drop, Option, some, none,
}

pub record GitChange : Type 0 where
  pub status : Bytes
  pub path : Bytes

pub record GitStatus : Type 0 where
  pub is_repo : Bool
  pub branch : Bytes
  pub dirty : Bool
  pub changes : List GitChange

-- strings.HasPrefix
unfoldable pub has_prefix : Bytes → Bytes → Bool
has_prefix s [] = true
has_prefix [] (p ∷ ps) = false
has_prefix (c ∷ s) (p ∷ ps) = nat_eq c p && has_prefix s ps

-- strings.Index, with `none` for -1.
unfoldable pub index_of : Bytes → Bytes → Option ℕ
unfolding has_prefix
index_of sep [] = if has_prefix [] sep then some 0 else none
index_of sep (c ∷ s) =
    let later = Option.map suc (index_of sep s) in if has_prefix (c ∷ s) sep then some 0 else later

unfoldable pub parse_branch : Bytes → Bytes
unfolding index_of
parse_branch header = elim (index_of (codes "...") header) [
  | some i ↦ take i header
  | none ↦ elim (index_of (codes " ") header) [ some i ↦ take i header | none ↦ header ]
]

onto_first : ℕ → List Bytes → List Bytes
onto_first c [] = (c ∷ []) ∷ []
onto_first c (line ∷ ls) = (c ∷ line) ∷ ls

-- The lines of a text as a bufio.Scanner cuts them, each without its newline.
unfoldable pub raw_lines : Bytes → List Bytes
unfolding onto_first
raw_lines [] = []
raw_lines (c ∷ s) =
    let rest = raw_lines s in if nat_eq c b'\n' then [] ∷ rest else onto_first c rest

-- bufio.MaxScanTokenSize: the scanner ends at a line that does not fit.
abbrev pub max_token : ℕ
max_token = 65536

-- A carriage return at the end of a line is cut.
unfoldable pub drop_cr : Bytes → Bytes
drop_cr [] = []
drop_cr (c ∷ []) = if nat_eq c b'\r' then [] else c ∷ []
drop_cr (c ∷ d ∷ s) = c ∷ drop_cr (d ∷ s)

unfoldable pub scanned : List Bytes → List Bytes
unfolding drop_cr
scanned [] = []
scanned (line ∷ ls) =
    let rest = scanned ls in if ltb (length line) max_token then drop_cr line ∷ rest else []

-- The body of parseStatus's loop.
unfoldable pub parse_line : Bytes → GitStatus → GitStatus
unfolding has_prefix parse_branch
parse_line line st =
    if has_prefix line (codes "## ")
    then record st { branch = parse_branch (drop 3 line) }
    else (if ltb (length line) 4 then st else record st {
      changes = st.changes ++ record { status = take 2 line; path = drop 3 line } ∷ [];
    })

unfoldable pub parse_lines : List Bytes → GitStatus → GitStatus
unfolding parse_line
parse_lines [] st = st
parse_lines (line ∷ ls) st = parse_lines ls (parse_line line st)

abbrev pub clean : GitStatus
clean = record { is_repo = true; branch = []; dirty = false; changes = [] }

unfoldable pub parse_status : Bytes → GitStatus
unfolding parse_lines scanned raw_lines
parse_status out =
    let st = parse_lines (scanned (raw_lines out)) clean in
    record st { dirty = ltb 0 (length st.changes) }

-- What running git comes to: its output, an exit with an error outside a work tree, or a failure.
pub data GitRun : Type 0 where
  output : Bytes → GitRun
  not_a_repository failed : GitRun

unfoldable pub read_git_status : GitRun → Option GitStatus
unfolding parse_status
read_git_status (output out) = some (parse_status out)
read_git_status not_a_repository =
    some (record { is_repo = false; branch = []; dirty = false; changes = [] })
read_git_status failed = none
