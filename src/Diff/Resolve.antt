-- ===== src/Diff/Resolve.antt =====
-- A description of a review that knows nothing of hunks' positions: walk through the edit script,
-- keep the lines that did not change, and in each run of changes take the inserted lines if the
-- run is accepted and the deleted lines if not. ApplyHunks after ComputeHunks is shown to be that.
use vmux.Base.{
  ℕ, zero, suc, ◌+◌, ◌≤◌, ◌≡◌, refl, ap, ◌∙◌, Bool, true, false, List, [], ◌∷◌, ◌++◌, arith, le→ltb,
  lt→ltb, map, if◌then◌else◌, length, drop, length-append, drop-append_length, Every,
}
use mathlib.Core.List.{append_assoc}
use vmux.Diff.Lines.{Line}
use vmux.Diff.Lcs.{Op, equal, del, ins, old_of, new_of}
use vmux.Diff.Hunks.{Hunk, collect, hunks_from, emit, apply_from}

-- `k` is the number of runs before, or up to, this place; `inside` tells whether the operation
-- before was a change.
unfoldable pub resolve : (ℕ → Bool) → ℕ → Bool → List Op → List Line
resolve f k inside [] = []
resolve f k inside (equal x ∷ s) = x ∷ resolve f (if inside then k + 1 else k) false s
resolve f k inside (del x ∷ s) = let rest = resolve f k true s in if f k then rest else x ∷ rest
resolve f k inside (ins x ∷ s) = let rest = resolve f k true s in if f k then x ∷ rest else rest

-- Accepting every run writes the new lines; rejecting every run keeps the old ones.
pub resolve-accept :
    (f : ℕ → Bool) (k : ℕ) (inside : Bool) (s : List Op)
    → ((i : ℕ) → f i ≡ true)
    → resolve f k inside s ≡ new_of s
unfolding resolve new_of
resolve-accept f k inside [] h = refl
resolve-accept f k inside (equal x ∷ s) h =
    ap (◌∷◌ x) (resolve-accept f (if inside then k + 1 else k) false s h)
resolve-accept f k inside (del x ∷ s) h = rw (h k) (resolve-accept f k true s h)
resolve-accept f k inside (ins x ∷ s) h = rw (h k) (ap (◌∷◌ x) (resolve-accept f k true s h))

pub resolve-reject :
    (f : ℕ → Bool) (k : ℕ) (inside : Bool) (s : List Op)
    → ((i : ℕ) → f i ≡ false)
    → resolve f k inside s ≡ old_of s
unfolding resolve old_of
resolve-reject f k inside [] h = refl
resolve-reject f k inside (equal x ∷ s) h =
    ap (◌∷◌ x) (resolve-reject f (if inside then k + 1 else k) false s h)
resolve-reject f k inside (del x ∷ s) h = rw (h k) (ap (◌∷◌ x) (resolve-reject f k true s h))
resolve-reject f k inside (ins x ∷ s) h = rw (h k) (resolve-reject f k true s h)

-- After a run of changes the script is at its end, or at a line that did not change.
abbrev pub AtEqual : List Op → Type 0
AtEqual [] = Unit
AtEqual (equal x ∷ s) = Unit
AtEqual (del x ∷ s) = ⊥
AtEqual (ins x ∷ s) = ⊥

pub record IsRun (f : ℕ → Bool) (k : ℕ) (s : List Op) (r : List Line × List Line × List Op)
    : Type 0 where
  pub reads : old_of s ≡ r.0 ++ old_of r.2
  pub resolves : resolve f k true s ≡ (if f k then r.1 else r.0) ++ resolve f k true r.2
  pub at_equal : AtEqual r.2
  pub shorter : length r.2 ≤ length s

pub collect-IsRun : (f : ℕ → Bool) (k : ℕ) (s : List Op) → IsRun f k s (collect s)
unfolding collect old_of resolve
collect-IsRun f k [] = record {
  reads = refl;
  resolves = ground arith;
  at_equal = tt;
  shorter = omega arith;
}
collect-IsRun f k (equal x ∷ s) = record {
  reads = refl;
  resolves = ground arith;
  at_equal = tt;
  shorter = omega arith;
}
collect-IsRun f k (del x ∷ s) =
    let ih = collect-IsRun f k s in
    record {
      reads = cc ih.reads;
      resolves = ground (arith, ih.resolves);
      at_equal = ih.at_equal;
      shorter = omega (arith, ih.shorter);
    }
collect-IsRun f k (ins x ∷ s) =
    let ih = collect-IsRun f k s in
    record {
      reads = ih.reads;
      resolves = ground (arith, ih.resolves);
      at_equal = ih.at_equal;
      shorter = omega (arith, ih.shorter);
    }

-- A run that is over counts as passed.
resolve-next :
    (f : ℕ → Bool) (k : ℕ) (s : List Op)
    → AtEqual s
    → resolve f k true s ≡ resolve f (k + 1) false s
unfolding resolve
resolve-next f k [] h = refl
resolve-next f k (equal x ∷ s) h = refl
resolve-next f k (del x ∷ s) h = absurd h
resolve-next f k (ins x ∷ s) h = absurd h

emit_lem :
    (c stop : ℕ) (eqs rest : List Line)
    → stop ≡ c + length eqs
    → emit c stop (eqs ++ rest) ≡ (eqs, stop, rest)
unfolding emit
emit_lem c stop [] [] e = let e' : c ≡ stop = omega arith in rw e'
emit_lem c stop [] (x ∷ rest) e =
    let e' : c ≡ stop = omega arith in rw (e', le→ltb stop stop (omega arith))
emit_lem c stop (x ∷ eqs) rest e =
    rw (emit_lem (c + 1) stop eqs rest (omega arith), lt→ltb c stop (omega arith))

-- A run that begins with an insertion makes a hunk, whether or not lines are deleted in it.
pub hunks_from-ins :
    (fuel oi k : ℕ) (x : Line) (s : List Op)
    → hunks_from (suc fuel) oi k (ins x ∷ s)
      ≡ record {
        id = k;
        old_start = oi;
        old_lines = (collect (ins x ∷ s)).0;
        new_lines = (collect (ins x ∷ s)).1;
      }
        ∷ hunks_from fuel (oi + length (collect (ins x ∷ s)).0) (k + 1) (collect (ins x ∷ s)).2
unfolding hunks_from
hunks_from-ins fuel oi k x s = ground arith

module _ (accepted : ℕ → Bool) where
  apply_from-cons :
      (c oi : ℕ) (eqs olds news rest : List Line) (id : ℕ) (hs : List Hunk)
      → oi ≡ c + length eqs
      → apply_from accepted c
          (eqs ++ (olds ++ rest))
          (record { id = id; old_start = oi; old_lines = olds; new_lines = news } ∷ hs)
        ≡ eqs
          ++ ((if accepted id then news else olds)
              ++ apply_from accepted (oi + length olds) rest hs)
  unfolding apply_from
  apply_from-cons c oi eqs olds news rest id hs e =
      rw (emit_lem c oi eqs (olds ++ rest) e, drop-append_length olds rest)

  abbrev Resolved : ℕ → ℕ → List Line → List Line → ℕ → ℕ → List Op → Type 0
  Resolved fuel c eqs tail oi k s =
      apply_from accepted c (eqs ++ (old_of s ++ tail)) (hunks_from fuel oi k s)
      ≡ eqs ++ (resolve accepted k false s ++ tail)

  Resolved-run :
      (fuel c : ℕ) (eqs tail olds news : List Line) (oi k : ℕ) (s rest : List Op)
      → oi ≡ c + length eqs
      → IsRun accepted k s (olds, news, rest)
      → Resolved fuel (oi + length olds) [] tail (oi + length olds) (k + 1) rest
      → apply_from accepted c (eqs ++ (old_of s ++ tail)) (
          record { id = k; old_start = oi; old_lines = olds; new_lines = news }
          ∷ hunks_from fuel (oi + length olds) (k + 1) rest)
        ≡ eqs ++ (resolve accepted k true s ++ tail)
  Resolved-run fuel c eqs tail olds news oi k s rest e run ih = rw (
    run.reads,
    append_assoc,
    apply_from-cons c oi eqs olds news (old_of rest ++ tail) k
        (hunks_from fuel (oi + length olds) (k + 1) rest) e,
    ih,
    run.resolves,
    resolve-next accepted k rest run.at_equal,
    append_assoc,
  )

  Resolved-cons :
      (fuel c : ℕ) (eqs tail : List Line) (oi k : ℕ) (x : Line) (s : List Op)
      → Resolved fuel c (eqs ++ x ∷ []) tail (oi + 1) k s
      → Resolved (suc fuel) c eqs tail oi k (equal x ∷ s)
  unfolding hunks_from resolve old_of
  Resolved-cons fuel c eqs tail oi k x s h = simp append_assoc at h

  Resolved-del :
      (fuel c : ℕ) (eqs tail : List Line) (oi k : ℕ) (x : Line) (s : List Op)
      → oi ≡ c + length eqs
      → (let olds = (collect (del x ∷ s)).0 in
          Resolved fuel
            (oi + length olds)
            []
            tail
            (oi + length olds)
            (k + 1)
            (collect (del x ∷ s)).2)
      → Resolved (suc fuel) c eqs tail oi k (del x ∷ s)
  unfolding hunks_from resolve
  Resolved-del fuel c eqs tail oi k x s e ih =
      Resolved-run fuel c eqs tail (collect (del x ∷ s)).0 (collect (del x ∷ s)).1 oi k (del x ∷ s)
        (collect (del x ∷ s)).2 e (collect-IsRun _ k (del x ∷ s)) ih

  Resolved-ins :
      (fuel c : ℕ) (eqs tail : List Line) (oi k : ℕ) (x : Line) (s : List Op)
      → oi ≡ c + length eqs
      → (let olds = (collect (ins x ∷ s)).0 in
          Resolved fuel
            (oi + length olds)
            []
            tail
            (oi + length olds)
            (k + 1)
            (collect (ins x ∷ s)).2)
      → Resolved (suc fuel) c eqs tail oi k (ins x ∷ s)
  unfolding resolve
  Resolved-ins fuel c eqs tail oi k x s e ih = rw (hunks_from-ins fuel oi k x s) (
      Resolved-run fuel c eqs tail (collect (ins x ∷ s)).0 (collect (ins x ∷ s)).1 oi k (ins x ∷ s)
        (collect (ins x ∷ s)).2 e (collect-IsRun _ k (ins x ∷ s)) ih)

  -- Rebuilding the file from the hunks of a script, whatever is accepted.
  pub apply_from-hunks_from :
      (fuel c : ℕ) (eqs tail : List Line) (oi k : ℕ) (s : List Op)
      → length s ≤ fuel
      → oi ≡ c + length eqs
      → Resolved fuel c eqs tail oi k s
  unfolding hunks_from
  apply_from-hunks_from zero c eqs tail oi k [] l e = unfold apply_from old_of resolve in refl
  apply_from-hunks_from zero c eqs tail oi k (op ∷ s) l e = absurd (omega arith)
  apply_from-hunks_from (suc fuel) c eqs tail oi k [] l e = unfold apply_from old_of resolve in refl
  apply_from-hunks_from (suc fuel) c eqs tail oi k (equal x ∷ s) l e =
      Resolved-cons fuel c eqs tail oi k x s (
        apply_from-hunks_from fuel c (eqs ++ x ∷ []) tail (oi + 1) k s (omega arith)
          (omega (arith, length-append eqs (x ∷ []))))
  apply_from-hunks_from (suc fuel) c eqs tail oi k (del x ∷ s) l e =
      let run = collect-IsRun accepted k s in
      let oi' : ℕ = oi + length (collect (del x ∷ s)).0 in
      Resolved-del fuel c eqs tail oi k x s e (
        apply_from-hunks_from fuel oi' [] tail oi' (k + 1) (collect (del x ∷ s)).2
          (omega (arith, run.shorter)) (omega arith))
  apply_from-hunks_from (suc fuel) c eqs tail oi k (ins x ∷ s) l e =
      let run = collect-IsRun accepted k s in
      let oi' : ℕ = oi + length (collect (ins x ∷ s)).0 in
      Resolved-ins fuel c eqs tail oi k x s e (
        apply_from-hunks_from fuel oi' [] tail oi' (k + 1) (collect (ins x ∷ s)).2
          (omega (arith, run.shorter)) (omega arith))

-- Only the ids of the hunks matter.
pub apply_from-ext :
    (f g : ℕ → Bool) (c : ℕ) (rest : List Line) (hs : List Hunk)
    → Every (λ h. f h.id ≡ g h.id) hs
    → apply_from f c rest hs ≡ apply_from g c rest hs
unfolding apply_from
apply_from-ext f g c rest [] h = refl
apply_from-ext f g c rest (k ∷ hs) h =
    let (out, c', r) = emit c k.old_start rest in
    rw (h.0, apply_from-ext f g (c' + length k.old_lines) (drop (length k.old_lines) r) hs h.1)

resolve-equals :
    (f : ℕ → Bool) (k : ℕ) (ls : List Line) (s : List Op)
    → resolve f k false (map equal ls ++ s) ≡ ls ++ resolve f k false s
unfolding resolve
resolve-equals f k [] s = refl
resolve-equals f k (x ∷ ls) s = ap (◌∷◌ x) (resolve-equals f k ls s)

resolve-map_equal :
    (f : ℕ → Bool) (k : ℕ) (inside : Bool) (ls : List Line) → resolve f k inside (map equal ls) ≡ ls
unfolding resolve
resolve-map_equal f k inside [] = refl
resolve-map_equal f k inside (x ∷ ls) =
    ap (◌∷◌ x) (resolve-map_equal f (if inside then k + 1 else k) false ls)

resolve-append_equals :
    (f : ℕ → Bool) (k : ℕ) (inside : Bool) (s : List Op) (ls : List Line)
    → resolve f k inside (s ++ map equal ls) ≡ resolve f k inside s ++ ls
unfolding resolve
resolve-append_equals f k inside [] ls = resolve-map_equal f k inside ls
resolve-append_equals f k inside (equal x ∷ s) ls =
    ap (◌∷◌ x) (resolve-append_equals f (if inside then k + 1 else k) false s ls)
resolve-append_equals f k inside (del x ∷ s) ls =
    ground (arith, resolve-append_equals f k true s ls)
resolve-append_equals f k inside (ins x ∷ s) ls =
    ground (arith, resolve-append_equals f k true s ls)

-- A script between two common ends.
pub resolve-between :
    (f : ℕ → Bool) (pre suf : List Line) (s : List Op)
    → resolve f 0 false (map equal pre ++ (s ++ map equal suf))
      ≡ pre ++ (resolve f 0 false s ++ suf)
resolve-between f pre suf s =
    resolve-equals f 0 pre _ ∙ ap (◌++◌ pre) (resolve-append_equals f 0 false s suf)
