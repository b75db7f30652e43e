-- ===== src/Diff/Hunks.antt =====
-- hunk.go: ComputeHunks and ApplyHunks.
use vmux.Base.{
  ℕ, zero, suc, ◌+◌, ◌-◌, Bool, true, false, List, [], ◌∷◌, ◌++◌, none, some, ℕ-eq, ltb,
  if◌then◌else◌, length, take, drop, Map, lookup, Bytes,
}
use vmux.Diff.Lines.{Line, split_lines, join, common_prefix, common_suffix}
use vmux.Diff.Lcs.{Op, equal, del, ins, diff_middle}

pub record Hunk : Type 0 where
  pub id : ℕ
  pub old_start : ℕ
  pub old_lines : List Line
  pub new_lines : List Line

-- The inner loop of ComputeHunks: the deleted and the inserted lines of a run of changes, and the
-- operations after the run.
unfoldable pub collect : List Op → List Line × List Line × List Op
collect [] = ([], [], [])
collect (equal x ∷ s) = ([], [], equal x ∷ s)
collect (del x ∷ s) = let (olds, news, rest) = collect s in (x ∷ olds, news, rest)
collect (ins x ∷ s) = let (olds, news, rest) = collect s in (olds, x ∷ news, rest)

is_empty : List Line → Bool
is_empty [] = true
is_empty (x ∷ xs) = false

-- The outer loop, from the operation list `s` on: `oi` is the index into the old lines and `id`
-- the next hunk's id. Each round takes one operation at least, so `length s` rounds are enough.
unfoldable pub hunks_from : ℕ → ℕ → ℕ → List Op → List Hunk
unfolding collect is_empty
hunks_from zero oi id s = []
hunks_from (suc fuel) oi id [] = []
hunks_from (suc fuel) oi id (equal x ∷ s) = hunks_from fuel (oi + 1) id s
hunks_from (suc fuel) oi id (op ∷ s) =
    let (olds, news, rest) = collect (op ∷ s) in
    elim (is_empty olds) [
      | false ↦
          record { id = id; old_start = oi; old_lines = olds; new_lines = news }
          ∷ hunks_from fuel (oi + length olds) (id + 1) rest
      | true ↦ elim (is_empty news) [
        | true ↦ hunks_from fuel (oi + length olds) id rest
        | false ↦
            record { id = id; old_start = oi; old_lines = olds; new_lines = news }
            ∷ hunks_from fuel (oi + length olds) (id + 1) rest
      ]
    ]

-- xs[:len(xs)-n]
unfoldable pub drop_last : ℕ → List Line → List Line
drop_last n xs = take (length xs - n) xs

-- The edit script between two lists of lines without their common ends.
unfoldable pub compute_hunks : Bytes → Bytes → List Hunk
unfolding hunks_from drop_last
compute_hunks old_text new_text =
    let o = split_lines old_text in
    let n = split_lines new_text in
    let pre = common_prefix o n in
    let suf = common_suffix (drop pre o) (drop pre n) in
    let ops = diff_middle (drop_last suf (drop pre o)) (drop_last suf (drop pre n)) in
    hunks_from (length ops) pre 0 ops

-- accepted[id] of a Go map: a missing key reads as false.
unfoldable pub is_accepted : Map ℕ Bool → ℕ → Bool
unfolding lookup
is_accepted m id = elim (lookup id m) [ none ↦ false | some b ↦ b ]

-- The loop that emits unchanged lines until `stop`: the lines emitted, and the cursor and the
-- lines that are left.
unfoldable pub emit : ℕ → ℕ → List Line → List Line × ℕ × List Line
emit cursor stop [] = ([], cursor, [])
emit cursor stop (x ∷ rest) =
    let (out, c, r) = emit (cursor + 1) stop rest in
    if ltb cursor stop then (x ∷ out, c, r) else ([], cursor, x ∷ rest)

-- The loop of ApplyHunks over the hunks: `rest` holds the old lines from `cursor` on, and
-- `accepted` is the reading of its map argument.
unfoldable pub apply_from : (ℕ → Bool) → ℕ → List Line → List Hunk → List Line
unfolding emit
apply_from accepted cursor rest [] = rest
apply_from accepted cursor rest (h ∷ hs) =
    let (out, c, r) = emit cursor h.old_start rest in
    out
    ++ ((if accepted h.id then h.new_lines else h.old_lines)
        ++ apply_from accepted (c + length h.old_lines) (drop (length h.old_lines) r) hs)

unfoldable pub apply_hunks : Bytes → List Hunk → Map ℕ Bool → Bytes
unfolding apply_from is_accepted
apply_hunks old_text hunks accepted =
    join (apply_from (is_accepted accepted) 0 (split_lines old_text) hunks)
