-- ===== src/Diff/Patch.antt =====
-- What ComputeHunks promises of its hunks: numbered from 0, in order, apart from one another, and
-- each with the old lines that stand at its place.
use mathlib.Core.List.{append_assoc}
use vmux.Base.{
  ℕ, zero, suc, ◌+◌, ◌≤◌, ◌<◌, ◌≡◌, ◌⊎◌, refl, sym, subst, ◌∙◌, true, List, [], ◌∷◌, ◌++◌, arith,
  length, take, drop, Bytes, length-append, drop-append_length, take-append_length, length-take,
  inl, inr,
}
use vmux.Diff.Lines.{Line, split_lines, common_prefix_lem}
use vmux.Diff.Lcs.{Op, equal, del, ins, old_of}
use vmux.Diff.Hunks.{Hunk, collect, hunks_from, compute_hunks}
use vmux.Diff.Resolve.{AtEqual, collect-IsRun, hunks_from-ins}
use vmux.Diff.Review.{pre, mid, tail_lines, read_parts}

-- The hunks `hs` of the old lines `o`: the first has the id `k` and starts at line `c` or later,
-- each holds the old lines at its place and changes something, and an unchanged line at least
-- stands between two of them.
abbrev pub IsPatch : List Line → ℕ → ℕ → List Hunk → Type 0
IsPatch o c k [] = Unit
IsPatch o c k (h ∷ hs) =
    (h.id ≡ k)
    × (c ≤ h.old_start)
    × (take (length h.old_lines) (drop h.old_start o) ≡ h.old_lines)
    × (0 < length h.old_lines + length h.new_lines)
    × IsPatch o (h.old_start + length h.old_lines + 1) (k + 1) hs

abbrev Gap : ℕ → ℕ → List Op → Type 0
Gap c oi s = (c ≤ oi) ⊎ ((c ≤ oi + 1) × AtEqual s)

module _ (tail : List Line) where
  abbrev whole : List Line → List Op → List Line
  whole before s = before ++ (old_of s ++ tail)

  IsPatch-cons :
      (c k oi : ℕ) (before olds news rest : List Line) (hs : List Hunk)
      → oi ≡ length before
      → c ≤ oi
      → 0 < length olds + length news
      → IsPatch (before ++ (olds ++ rest)) (oi + length olds + 1) (k + 1) hs
      → IsPatch
          (before ++ (olds ++ rest))
          c
          k
          (record { id = k; old_start = oi; old_lines = olds; new_lines = news } ∷ hs)
  IsPatch-cons c k oi before olds news rest hs e l n h = (
    refl,
    l,
    rw (e, drop-append_length before (olds ++ rest)) (take-append_length olds rest),
    n,
    h,
  )

  whole-run :
      (before olds : List Line) (s rest : List Op)
      → old_of s ≡ olds ++ old_of rest
      → whole before s ≡ whole (before ++ olds) rest
  whole-run before olds s rest e = rw e (simp append_assoc)

  IsPatch-run :
      (c k oi : ℕ) (before olds news : List Line) (s rest : List Op) (hs : List Hunk)
      → oi ≡ length before
      → c ≤ oi
      → 0 < length olds + length news
      → old_of s ≡ olds ++ old_of rest
      → IsPatch (whole (before ++ olds) rest) (oi + length olds + 1) (k + 1) hs
      → IsPatch
          (whole before s)
          c
          k
          (record { id = k; old_start = oi; old_lines = olds; new_lines = news } ∷ hs)
  IsPatch-run c k oi before olds news s rest hs e l n r h =
      let p : whole (before ++ olds) rest ≡ before ++ (olds ++ (old_of rest ++ tail)) =
        append_assoc before olds (old_of rest ++ tail) in
      let q : whole before s ≡ before ++ (olds ++ (old_of rest ++ tail)) =
        whole-run before olds s rest r ∙ p in
      subst
        (λ o.
          IsPatch o c k
            (record { id = k; old_start = oi; old_lines = olds; new_lines = news } ∷ hs))
        (sym q)
        (IsPatch-cons c k oi before olds news (old_of rest ++ tail) hs e l n
          (subst (λ o. IsPatch o (oi + length olds + 1) (k + 1) hs) p h))

  whole-equal :
      (before : List Line) (x : Line) (s : List Op)
      → whole (before ++ x ∷ []) s ≡ whole before (equal x ∷ s)
  unfolding old_of
  whole-equal before x s = simp append_assoc

  IsPatch-hunks_from :
      (fuel c k oi : ℕ) (before : List Line) (s : List Op)
      → length s ≤ fuel
      → oi ≡ length before
      → Gap c oi s
      → IsPatch (whole before s) c k (hunks_from fuel oi k s)
  unfolding hunks_from
  IsPatch-hunks_from zero c k oi before s l e g = tt
  IsPatch-hunks_from (suc fuel) c k oi before [] l e g = tt
  IsPatch-hunks_from (suc fuel) c k oi before (equal x ∷ s) l e g =
      subst (λ o. IsPatch o c k (hunks_from fuel (oi + 1) k s)) (whole-equal before x s)
        (IsPatch-hunks_from fuel c k (oi + 1) (before ++ x ∷ []) s (omega arith)
          (omega (arith, length-append before (x ∷ [])))
          (inl (elim g [ inl h ↦ omega arith | inr h ↦ omega arith ])))
  IsPatch-hunks_from (suc fuel) c k oi before (del x ∷ s) l e (inr h) = absurd h.1
  IsPatch-hunks_from (suc fuel) c k oi before (del x ∷ s) l e (inl h) =
      let run = collect-IsRun (λ _. true) 0 (del x ∷ s) in
      let olds = (collect (del x ∷ s)).0 in
      let rest = (collect (del x ∷ s)).2 in
      IsPatch-run c k oi before olds (collect (del x ∷ s)).1 (del x ∷ s) rest _ e h (omega arith)
        run.reads
        (IsPatch-hunks_from fuel (oi + length olds + 1) (k + 1) (oi + length olds) (before ++ olds)
          rest (omega (arith, (collect-IsRun (λ _. true) 0 s).shorter))
          (omega (arith, length-append before olds)) (inr (omega arith, run.at_equal)))
  IsPatch-hunks_from (suc fuel) c k oi before (ins x ∷ s) l e (inr h) = absurd h.1
  IsPatch-hunks_from (suc fuel) c k oi before (ins x ∷ s) l e (inl h) =
      let run = collect-IsRun (λ _. true) 0 (ins x ∷ s) in
      let olds = (collect (ins x ∷ s)).0 in
      let rest = (collect (ins x ∷ s)).2 in
      subst (IsPatch (whole before (ins x ∷ s)) c k) (sym (hunks_from-ins fuel oi k x s)) (
        IsPatch-run c k oi before olds (collect (ins x ∷ s)).1 (ins x ∷ s) rest _ e h (omega arith)
          run.reads
          (IsPatch-hunks_from fuel (oi + length olds + 1) (k + 1) (oi + length olds)
            (before ++ olds) rest (omega (arith, (collect-IsRun (λ _. true) 0 s).shorter))
            (omega (arith, length-append before olds)) (inr (omega arith, run.at_equal))))

-- For all texts, the computed hunks have the ids 0, 1, 2, …, stand in the order of the old lines
-- with an unchanged line at least between two of them, each change something, and each hold the
-- old lines at their place.
pub compute_hunks-IsPatch :
    (old_text new_text : Bytes)
    → IsPatch (split_lines old_text) 0 0 (compute_hunks old_text new_text)
unfolding compute_hunks
compute_hunks-IsPatch old_text new_text =
    let o = split_lines old_text in
    let n = split_lines new_text in
    subst (λ ls. IsPatch ls 0 0 (compute_hunks old_text new_text)) (read_parts o n)
      (IsPatch-hunks_from (tail_lines o n) (length (mid o n)) 0 0 (pre o n) (take (pre o n) o)
        (mid o n) (omega arith)
        (omega (arith, length-take (pre o n) o, (common_prefix_lem o n).fits_old))
        (inl (omega arith)))
