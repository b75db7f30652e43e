-- ===== src/Diff/Lcs.antt =====
-- hunk.go: the table of common-subsequence lengths and the edit script that it yields.
use vmux.Base.{
  ℕ, suc, ◌+◌, ◌≡◌, refl, ap, Bool, true, false, List, [], ◌∷◌, ◌==◌, ℕ-eq, Bytes-eq, eq_of_test,
  leb, map, if◌then◌else◌, inl, inr, Bool-cases, length, drop, get_or, replicate,
}
use vmux.Diff.Lines.{Line}

-- The type `op`, with its kind as the constructor.
pub data Op : Type 0 where
  equal del ins : Line → Op

-- Row i of the table from row i+1 (`below`), column by column from the right: the lists are the
-- lines from some column j on, and `below` starts at that column.
unfoldable pub lcs_cell : Bool → ℕ → ℕ → ℕ → ℕ
lcs_cell same diagonal down right =
    if same then diagonal + 1 else if leb right down then down else right

unfoldable pub lcs_row : Line → List Line → List ℕ → List ℕ
unfolding lcs_cell
lcs_row x [] below = 0 ∷ []
lcs_row x (y ∷ ys) below =
    let right = lcs_row x ys (drop 1 below) in
    lcs_cell (x == y) (get_or below 1 0) (get_or below 0 0) (get_or right 0 0) ∷ right

-- The rows from i on, for the old lines from i on.
unfoldable pub lcs_table : List Line → List Line → List (List ℕ)
unfolding lcs_row
lcs_table [] n = replicate (suc (length n)) 0 ∷ []
lcs_table (x ∷ o) n = let rows = lcs_table o n in lcs_row x n (get_or rows 0 []) ∷ rows

-- lcs[i][j]
unfoldable pub cell : List (List ℕ) → ℕ → ℕ → ℕ
cell t i j = get_or (get_or t i []) j 0

-- The loops of diffMiddle: the lists are the old lines from i on and the new lines from j on.
unfoldable pub diff_from : List (List ℕ) → ℕ → ℕ → List Line → List Line → List Op
unfolding cell
diff_from t i j [] n = map ins n
diff_from t i j (x ∷ o) [] = map del (x ∷ o)
diff_from t i j (x ∷ o) (y ∷ n) = elim (x == y) [
  | true ↦ equal x ∷ diff_from t (i + 1) (j + 1) o n
  | false ↦ elim (leb (cell t i (j + 1)) (cell t (i + 1) j)) [
    | true ↦ del x ∷ diff_from t (i + 1) j o (y ∷ n)
    | false ↦ ins y ∷ diff_from t i (j + 1) (x ∷ o) n
  ]
]

unfoldable pub diff_middle : List Line → List Line → List Op
unfolding diff_from lcs_table
diff_middle o n = diff_from (lcs_table o n) 0 0 o n

-- What an edit script reads, and what it writes.
unfoldable pub old_of : List Op → List Line
old_of [] = []
old_of (equal x ∷ s) = x ∷ old_of s
old_of (del x ∷ s) = x ∷ old_of s
old_of (ins x ∷ s) = old_of s

unfoldable pub new_of : List Op → List Line
new_of [] = []
new_of (equal x ∷ s) = x ∷ new_of s
new_of (del x ∷ s) = new_of s
new_of (ins x ∷ s) = x ∷ new_of s

old_of-map_ins : (n : List Line) → old_of (map ins n) ≡ []
unfolding old_of
old_of-map_ins [] = refl
old_of-map_ins (y ∷ n) = old_of-map_ins n

new_of-map_ins : (n : List Line) → new_of (map ins n) ≡ n
unfolding new_of
new_of-map_ins [] = refl
new_of-map_ins (y ∷ n) = ap (◌∷◌ y) (new_of-map_ins n)

old_of-map_del : (o : List Line) → old_of (map del o) ≡ o
unfolding old_of
old_of-map_del [] = refl
old_of-map_del (x ∷ o) = ap (◌∷◌ x) (old_of-map_del o)

new_of-map_del : (o : List Line) → new_of (map del o) ≡ []
unfolding new_of
new_of-map_del [] = refl
new_of-map_del (x ∷ o) = new_of-map_del o

pub record IsScript (o n : List Line) (s : List Op) : Type 0 where
  pub reads : old_of s ≡ o
  pub writes : new_of s ≡ n

IsScript-equal :
    (x y : Line) (o n : List Line) (s : List Op)
    → x ≡ y
    → IsScript o n s
    → IsScript (x ∷ o) (y ∷ n) (equal x ∷ s)
unfolding old_of new_of
IsScript-equal x y o n s e h = record { reads = cc h.reads; writes = cc (e, h.writes) }

IsScript-del :
    (x : Line) (o n : List Line) (s : List Op) → IsScript o n s → IsScript (x ∷ o) n (del x ∷ s)
unfolding old_of new_of
IsScript-del x o n s h = record { reads = cc h.reads; writes = h.writes }

IsScript-ins :
    (y : Line) (o n : List Line) (s : List Op) → IsScript o n s → IsScript o (y ∷ n) (ins y ∷ s)
unfolding old_of new_of
IsScript-ins y o n s h = record { reads = h.reads; writes = cc h.writes }

diff_from-IsScript :
    (t : List (List ℕ)) (i j : ℕ) (o n : List Line) → IsScript o n (diff_from t i j o n)
unfolding diff_from
diff_from-IsScript t i j [] n = record { reads = old_of-map_ins n; writes = new_of-map_ins n }
diff_from-IsScript t i j (x ∷ o) [] = record {
  reads = old_of-map_del (x ∷ o);
  writes = new_of-map_del (x ∷ o);
}
diff_from-IsScript t i j (x ∷ o) (y ∷ n) = elim (Bool-cases (x == y)) [
  | inl e ↦
      rw (e, diff_from)
        (IsScript-equal x y o n _ (eq_of_test x y e) (diff_from-IsScript t (i + 1) (j + 1) o n))
  | inr e ↦ elim (Bool-cases (leb (cell t i (j + 1)) (cell t (i + 1) j))) [
    | inl g ↦ rw (e, g, diff_from) (IsScript-del x o _ _ (diff_from-IsScript t (i + 1) j o (y ∷ n)))
    | inr g ↦ rw (e, g, diff_from) (IsScript-ins y _ n _ (diff_from-IsScript t i (j + 1) (x ∷ o) n))
  ]
]

-- Whatever two lists of lines are compared, the edit script reads the first and writes the second.
pub diff_middle-IsScript : (o n : List Line) → IsScript o n (diff_middle o n)
unfolding diff_middle
diff_middle-IsScript o n = diff_from-IsScript _ 0 0 o n
