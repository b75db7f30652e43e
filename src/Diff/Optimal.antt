-- ===== src/Diff/Optimal.antt =====
-- The edit script of diffMiddle is a shortest one: it keeps a longest common subsequence.
use vmux.Base.{
  ℕ, zero, suc, ◌+◌, ◌≤◌, ◌≡◌, ◌⊎◌, refl, sym, ap, subst, ◌∙◌, true, false, List, [], ◌∷◌, arith,
  ◌==◌, ℕ-eq, Bytes-eq, eq_self, leb, map, if◌then◌else◌, inl, inr, Bool-cases, length, drop,
  get_or, replicate,
}
use vmux.Diff.Lines.{Line}
use vmux.Diff.Lcs.{
  Op, equal, del, ins, lcs_cell, lcs_row, lcs_table, cell, diff_from, diff_middle,
  diff_middle-IsScript, old_of, new_of,
}

-- `cs` is what is left of `xs` when some lines are dropped.
abbrev pub IsSubsequence : List Line → List Line → Type 0
IsSubsequence [] xs = Unit
IsSubsequence (c ∷ cs) [] = ⊥
IsSubsequence (c ∷ cs) (x ∷ xs) = IsSubsequence (c ∷ cs) xs ⊎ ((c ≡ x) × IsSubsequence cs xs)

-- The lines that an edit script keeps.
unfoldable pub kept_of : List Op → List Line
kept_of [] = []
kept_of (equal x ∷ s) = x ∷ kept_of s
kept_of (del x ∷ s) = kept_of s
kept_of (ins x ∷ s) = kept_of s

IsSubsequence-skip :
    (cs : List Line) (x : Line) (xs : List Line) → IsSubsequence cs xs → IsSubsequence cs (x ∷ xs)
IsSubsequence-skip [] x xs h = tt
IsSubsequence-skip (c ∷ cs) x xs h = inl h

IsSubsequence-tail :
    (c : Line) (cs xs : List Line) → IsSubsequence (c ∷ cs) xs → IsSubsequence cs xs
IsSubsequence-tail c cs [] h = absurd h
IsSubsequence-tail c cs (x ∷ xs) (inl h) = IsSubsequence-skip cs x xs (IsSubsequence-tail c cs xs h)
IsSubsequence-tail c cs (x ∷ xs) (inr h) = IsSubsequence-skip cs x xs h.1

IsSubsequence-drop_head :
    (c : Line) (cs : List Line) (x : Line) (xs : List Line)
    → IsSubsequence (c ∷ cs) (x ∷ xs)
    → IsSubsequence cs xs
IsSubsequence-drop_head c cs x xs (inl h) = IsSubsequence-tail c cs xs h
IsSubsequence-drop_head c cs x xs (inr h) = h.1

-- The length of a longest common subsequence.
lcs_length : List Line → List Line → ℕ
unfolding lcs_cell
lcs_length [] n = 0
lcs_length (x ∷ o) [] = 0
lcs_length (x ∷ o) (y ∷ n) =
    lcs_cell (x == y) (lcs_length o n) (lcs_length o (y ∷ n)) (lcs_length (x ∷ o) n)

lcs_length-same :
    (x y : Line) (o n : List Line)
    → (x == y) ≡ true
    → lcs_length (x ∷ o) (y ∷ n) ≡ suc (lcs_length o n)
unfolding lcs_length
lcs_length-same x y o n e = rw (e, lcs_cell) (omega arith)

lcs_length-other :
    (x y : Line) (o n : List Line)
    → (x == y) ≡ false
    → lcs_length (x ∷ o) (y ∷ n) ≡ (
        if leb (lcs_length (x ∷ o) n) (lcs_length o (y ∷ n))
        then lcs_length o (y ∷ n)
        else lcs_length (x ∷ o) n)
unfolding lcs_length
lcs_length-other x y o n e = rw e

length-le-lcs_length :
    (cs o n : List Line) → IsSubsequence cs o → IsSubsequence cs n → length cs ≤ lcs_length o n
length-le-lcs_length [] o n p q = omega arith
length-le-lcs_length (c ∷ cs) [] n p q = absurd p
length-le-lcs_length (c ∷ cs) (x ∷ o) [] p q = absurd q
length-le-lcs_length (c ∷ cs) (x ∷ o) (y ∷ n) p q = elim (Bool-cases (x == y)) [
  | inl e ↦ omega (
    arith,
    lcs_length-same x y o n e,
    length-le-lcs_length cs o n (IsSubsequence-drop_head c cs x o p)
        (IsSubsequence-drop_head c cs y n q),
  )
  | inr e ↦ elim p [
    | inl p' ↦
        let ih = length-le-lcs_length (c ∷ cs) o (y ∷ n) p' q in
        ground (arith, lcs_length-other x y o n e, ih)
    | inr p' ↦ elim q [
      | inl q' ↦
          let ih = length-le-lcs_length (c ∷ cs) (x ∷ o) n (inr p') q' in
          ground (arith, lcs_length-other x y o n e, ih)
      | inr q' ↦
          let xy : x ≡ y = sym p'.0 ∙ q'.0 in
          let t : (x == y) ≡ true = rw xy (eq_self y) in absurd (cc (e, t))
    ]
  ]
]

-- A row of the table holds the lengths for the old lines `o` against the new lines from each
-- column on.
abbrev IsRow : List ℕ → List Line → List Line → Type 0
IsRow r o n = (j : ℕ) → get_or r j 0 ≡ lcs_length o (drop j n)

get_or-drop_one : (xs : List ℕ) (j : ℕ) → get_or (drop 1 xs) j 0 ≡ get_or xs (suc j) 0
get_or-drop_one [] j = refl
get_or-drop_one (x ∷ xs) j = refl

lcs_length-nil : (o : List Line) → lcs_length o [] ≡ 0
unfolding lcs_length
lcs_length-nil [] = refl
lcs_length-nil (x ∷ o) = refl

drop-nil : (j : ℕ) → drop {A = Line} j [] ≡ []
drop-nil zero = refl
drop-nil (suc j) = refl

lcs_row-IsRow :
    (x : Line) (o n : List Line) (below : List ℕ)
    → IsRow below o n
    → IsRow (lcs_row x n below) (x ∷ o) n
unfolding lcs_row lcs_length
lcs_row-IsRow x o [] below h zero = refl
lcs_row-IsRow x o [] below h (suc j) = refl
lcs_row-IsRow x o (y ∷ n) below h zero =
    let right = lcs_row-IsRow x o n (drop 1 below) (λ j. get_or-drop_one below j ∙ h (suc j)) 0 in
    rw (h 1, h 0, right)
lcs_row-IsRow x o (y ∷ n) below h (suc j) =
    lcs_row-IsRow x o n (drop 1 below) (λ k. get_or-drop_one below k ∙ h (suc k)) j

get_or-zeros : (k j : ℕ) → get_or {A = ℕ} (replicate k 0) j 0 ≡ 0
get_or-zeros zero j = refl
get_or-zeros (suc k) zero = refl
get_or-zeros (suc k) (suc j) = get_or-zeros k j

-- Every cell of the table, also outside it, where it reads as 0.
cell-lcs_table :
    (o n : List Line) (i j : ℕ) → cell (lcs_table o n) i j ≡ lcs_length (drop i o) (drop j n)
unfolding lcs_table cell lcs_length
cell-lcs_table [] n zero j = get_or-zeros (suc (length n)) j
cell-lcs_table [] n (suc i) j = refl
cell-lcs_table (x ∷ o) n zero j =
    lcs_row-IsRow x o n (get_or (lcs_table o n) 0 []) (λ k. cell-lcs_table o n 0 k) j
cell-lcs_table (x ∷ o) n (suc i) j = cell-lcs_table o n i j

kept_of-map_ins : (n : List Line) → kept_of (map ins n) ≡ []
unfolding kept_of
kept_of-map_ins [] = refl
kept_of-map_ins (y ∷ n) = kept_of-map_ins n

kept_of-map_del : (o : List Line) → kept_of (map del o) ≡ []
unfolding kept_of
kept_of-map_del [] = refl
kept_of-map_del (x ∷ o) = kept_of-map_del o

-- The table, read from row i and column j on, holds the lengths for `o` and `n`.
abbrev IsTable : List (List ℕ) → ℕ → ℕ → List Line → List Line → Type 0
IsTable t i j o n = (a b : ℕ) → cell t (i + a) (j + b) ≡ lcs_length (drop a o) (drop b n)

IsTable-row :
    (t : List (List ℕ)) (i j : ℕ) (x : Line) (o n : List Line)
    → IsTable t i j (x ∷ o) n
    → IsTable t (i + 1) j o n
IsTable-row t i j x o n h a b = let e : i + 1 + a ≡ i + suc a = omega arith in rw e (h (suc a) b)

IsTable-column :
    (t : List (List ℕ)) (i j : ℕ) (o : List Line) (y : Line) (n : List Line)
    → IsTable t i j o (y ∷ n)
    → IsTable t i (j + 1) o n
IsTable-column t i j o y n h a b = let e : j + 1 + b ≡ j + suc b = omega arith in rw e (h a (suc b))

-- The cell below and the cell to the right, as diffMiddle reads them.
IsTable-down :
    (t : List (List ℕ)) (i j : ℕ) (x : Line) (o n : List Line)
    → IsTable t i j (x ∷ o) n
    → cell t (i + 1) j ≡ lcs_length o n
IsTable-down t i j x o n h =
    let e : j + 0 ≡ j = omega arith in subst (λ k. cell t (i + 1) k ≡ lcs_length o n) e (h 1 0)

IsTable-right :
    (t : List (List ℕ)) (i j : ℕ) (o : List Line) (y : Line) (n : List Line)
    → IsTable t i j o (y ∷ n)
    → cell t i (j + 1) ≡ lcs_length o n
IsTable-right t i j o y n h =
    let e : i + 0 ≡ i = omega arith in subst (λ k. cell t k (j + 1) ≡ lcs_length o n) e (h 0 1)

kept-diff_from :
    (t : List (List ℕ)) (i j : ℕ) (o n : List Line)
    → IsTable t i j o n
    → length (kept_of (diff_from t i j o n)) ≡ lcs_length o n
unfolding diff_from kept_of
kept-diff_from t i j [] n h = unfold lcs_length in ap length (kept_of-map_ins n)
kept-diff_from t i j (x ∷ o) [] h = unfold lcs_length in ap length (kept_of-map_del (x ∷ o))
kept-diff_from t i j (x ∷ o) (y ∷ n) h = elim (Bool-cases (x == y)) [
  | inl e ↦
      rw
        (
          e,
          diff_from,
          kept-diff_from t (i + 1) (j + 1) o n
              (IsTable-column t (i + 1) j o y n (IsTable-row t i j x o (y ∷ n) h)),
        )
        (sym (lcs_length-same x y o n e))
  | inr e ↦
      let down = IsTable-down t i j x o (y ∷ n) h in
      let right = IsTable-right t i j (x ∷ o) y n h in
      elim (Bool-cases (leb (cell t i (j + 1)) (cell t (i + 1) j))) [
        | inl g ↦
            rw (e, g, diff_from)
              (kept-diff_from t (i + 1) j o (y ∷ n) (IsTable-row t i j x o (y ∷ n) h)
                ∙ ground (arith, down, right, lcs_length-other x y o n e))
        | inr g ↦
            rw (e, g, diff_from)
              (kept-diff_from t i (j + 1) (x ∷ o) n (IsTable-column t i j (x ∷ o) y n h)
                ∙ ground (arith, down, right, lcs_length-other x y o n e))
      ]
]

kept-old : (s : List Op) → IsSubsequence (kept_of s) (old_of s)
unfolding kept_of old_of
kept-old [] = tt
kept-old (equal x ∷ s) = inr (refl, kept-old s)
kept-old (del x ∷ s) = IsSubsequence-skip (kept_of s) x (old_of s) (kept-old s)
kept-old (ins x ∷ s) = kept-old s

kept-new : (s : List Op) → IsSubsequence (kept_of s) (new_of s)
unfolding kept_of new_of
kept-new [] = tt
kept-new (equal x ∷ s) = inr (refl, kept-new s)
kept-new (del x ∷ s) = kept-new s
kept-new (ins x ∷ s) = IsSubsequence-skip (kept_of s) x (new_of s) (kept-new s)

IsTable-start : (o n : List Line) → IsTable (lcs_table o n) 0 0 o n
IsTable-start o n a b =
    let e : 0 + a ≡ a = omega arith in
    let f : 0 + b ≡ b = omega arith in rw (e, f) (cell-lcs_table o n a b)

-- For all lists of lines, what the edit script of diffMiddle keeps is a common subsequence of the
-- two lists, and no common subsequence is longer.
pub diff_middle-keeps_longest :
    (o n : List Line)
    → IsSubsequence (kept_of (diff_middle o n)) o
      × IsSubsequence (kept_of (diff_middle o n)) n
      × ((cs : List Line)
          → IsSubsequence cs o
          → IsSubsequence cs n
          → length cs ≤ length (kept_of (diff_middle o n)))
unfolding diff_middle
diff_middle-keeps_longest o n = (
  subst (IsSubsequence (kept_of (diff_middle o n))) (diff_middle-IsScript o n).reads (kept-old _),
  subst (IsSubsequence (kept_of (diff_middle o n))) (diff_middle-IsScript o n).writes (kept-new _),
  λ cs p q. omega (
    arith,
    kept-diff_from (lcs_table o n) 0 0 o n (IsTable-start o n),
    length-le-lcs_length cs o n p q,
  ),
)
