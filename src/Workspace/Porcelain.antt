-- ===== src/Workspace/Porcelain.antt =====
-- Reading back a status that is printed the way git prints it.
use mathlib.Core.List.{append_assoc, append-nil}
use vmux.Base.{
  ℕ, ◌+◌, ◌<◌, ◌≡◌, ◌≢◌, refl, sym, ap, ◌∙◌, true, false, List, [], ◌∷◌, ◌++◌, ltb, nat_eq, Bytes,
  codes, length, arith, Every, map, length-append, Bool-cases, inl, inr,
}
use vmux.Workspace.Header.{Header, print_header, shown_branch, IsHeader, parse_branch-print_header}
use vmux.Workspace.Git.{
  GitChange, GitStatus, has_prefix, raw_lines, drop_cr, scanned, parse_line, parse_lines,
  parse_status, parse_branch, clean, max_token,
}

-- A line of a status: the two letters, a space and the path.
abbrev pub print_change : GitChange → Bytes
print_change c = c.status ++ b' ' ∷ c.path

abbrev pub print_lines : List Bytes → Bytes
print_lines [] = []
print_lines (line ∷ ls) = line ++ b'\n' ∷ print_lines ls

-- Neither a newline nor a carriage return.
abbrev pub IsPlain : Bytes → Type 0
IsPlain s = Every (λ c. (c ≢ b'\n') × (c ≢ b'\r')) s

-- What git lists: two letters other than "##", and a path on one line.
pub record IsListed (c : GitChange) : Type 0 where
  pub letters : length c.status ≡ 2
  pub not_header : c.status ≢ codes "##"
  pub plain_status : IsPlain c.status
  pub plain_path : IsPlain c.path
  pub named : 0 < length c.path
  pub fits : length c.path + 3 < max_token

raw_lines-line :
    (line rest : Bytes) → IsPlain line → raw_lines (line ++ b'\n' ∷ rest) ≡ line ∷ raw_lines rest
unfolding raw_lines
raw_lines-line [] rest h = refl
raw_lines-line (c ∷ line) rest h =
    let other : nat_eq c b'\n' ≡ false = ground (arith, h.0.0) in
    rw (raw_lines-line line rest h.1, other) refl

drop_cr-IsPlain : (line : Bytes) → IsPlain line → drop_cr line ≡ line
unfolding drop_cr
drop_cr-IsPlain [] h = refl
drop_cr-IsPlain (c ∷ []) h = ground (arith, h.0.1)
drop_cr-IsPlain (c ∷ d ∷ line) h = ap (◌∷◌ c) (drop_cr-IsPlain (d ∷ line) h.1)

-- The scanner gives the lines that were printed.
scanned-print_lines :
    (ls : List Bytes)
    → Every (λ line. IsPlain line × (length line < max_token)) ls
    → scanned (raw_lines (print_lines ls)) ≡ ls
unfolding scanned raw_lines
scanned-print_lines [] h = refl
scanned-print_lines (line ∷ ls) h =
    let short : ltb (length line) max_token ≡ true = ground (arith, h.0.1) in
    rw (
      raw_lines-line line (print_lines ls) h.0.0,
      short,
      drop_cr-IsPlain line h.0.0,
      scanned-print_lines ls h.1,
    )

letters_not_header :
    (a b : ℕ) (path : Bytes)
    → (a ∷ b ∷ []) ≢ codes "##"
    → has_prefix (a ∷ b ∷ b' ' ∷ path) (codes "## ") ≡ false
unfolding has_prefix
letters_not_header a b path h = elim (Bool-cases (nat_eq a b'#')) [
  | inl p ↦ elim (Bool-cases (nat_eq b b'#')) [
    | inl q ↦ absurd (
        h (
          let a_is : a ≡ b'#' = ground arith in
          let b_is : b ≡ b'#' = ground arith in rw (a_is, b_is)))
    | inr q ↦ rw (p, q)
  ]
  | inr p ↦ rw p
]

parse_line-change :
    (c : GitChange) (st : GitStatus)
    → IsListed c
    → parse_line (print_change c) st ≡ record st { changes = st.changes ++ c ∷ [] }
unfolding parse_line
parse_line-change c st h = by_letters c.status c.path h.letters h.not_header h.named
  where
    by_letters :
        (status path : Bytes)
        → length status ≡ 2
        → status ≢ codes "##"
        → 0 < length path
        → parse_line (status ++ b' ' ∷ path) st
          ≡ record st { changes = st.changes ++ record { status = status; path = path } ∷ [] }
    by_letters [] path e n p = absurd (omega (arith, e))
    by_letters (a ∷ []) path e n p = absurd (omega (arith, e))
    by_letters (a ∷ b ∷ []) path e n p =
        let long : ltb (length (a ∷ b ∷ b' ' ∷ path)) 4 ≡ false = ground arith in
        rw (letters_not_header a b path n, long, parse_line)
    by_letters (a ∷ b ∷ c ∷ s) path e n p = absurd (omega (arith, e))

parse_lines-changes :
    (cs : List GitChange) (st : GitStatus)
    → Every IsListed cs
    → parse_lines (map print_change cs) st ≡ record st { changes = st.changes ++ cs }
unfolding parse_lines
parse_lines-changes [] st h = ap (λ l. record st { changes = l }) (sym (append-nil st.changes))
parse_lines-changes (c ∷ cs) st h =
    let st' : GitStatus = record st { changes = st.changes ++ c ∷ [] } in
    ap (parse_lines (map print_change cs)) (parse_line-change c st h.0)
    ∙ parse_lines-changes cs st' h.1
    ∙ ap (λ l. record st { changes = l }) (append_assoc st.changes (c ∷ []) cs)

IsPlain-append : (s t : Bytes) → IsPlain s → IsPlain t → IsPlain (s ++ t)
IsPlain-append [] t h k = k
IsPlain-append (c ∷ s) t h k = (h.0, IsPlain-append s t h.1 k)

changes-ArePlain :
    (cs : List GitChange)
    → Every IsListed cs
    → Every (λ line. IsPlain line × (length line < max_token)) (map print_change cs)
changes-ArePlain [] h = tt
changes-ArePlain (c ∷ cs) h = (
  (
    IsPlain-append c.status (b' ' ∷ c.path) h.0.plain_status
        ((omega arith, omega arith), h.0.plain_path),
    omega (arith, length-append c.status (b' ' ∷ c.path), h.0.letters, h.0.fits),
  ),
  changes-ArePlain cs h.1,
)

-- What git prints, a header and a line for each change, is read back: parseStatus returns exactly the
-- changes, in their order, is dirty where there is one, and has the branch that the header names,
-- "HEAD" where it says that there is no branch, and only "No" where it says that the branch has no
-- commits yet, with no upstream behind it. Each line is shorter than the scanner's limit and holds no
-- line break, each path has a letter at least, no change has the letters of a header, "##", and a
-- branch's name has no space, no two dots in a row and no dot at its end.
pub parse_status-print_lines :
    (header : Header) (cs : List GitChange)
    → IsHeader header
    → IsPlain (print_header header)
    → length (print_header header) + 3 < max_token
    → Every IsListed cs
    → parse_status (print_lines ((codes "## " ++ print_header header) ∷ map print_change cs))
      ≡ record {
        is_repo = true;
        branch = shown_branch header;
        dirty = ltb 0 (length cs);
        changes = cs;
      }
unfolding parse_status parse_lines parse_line has_prefix
parse_status-print_lines header cs is h fits listed =
    let text : Bytes = print_header header in
    let ls : List Bytes = (codes "## " ++ text) ∷ map print_change cs in
    let plain : Every (λ line. IsPlain line × (length line < max_token)) ls = (
      (
        ((omega arith, omega arith), ((omega arith, omega arith), ((omega arith, omega arith), h))),
        omega (arith, fits),
      ),
      changes-ArePlain cs listed,
    ) in
    rw
      (
        scanned-print_lines ls plain,
        parse_lines-changes cs (record clean { branch = parse_branch text }) listed,
        parse_branch-print_header header is,
      )
      refl
