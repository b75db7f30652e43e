-- ===== src/Diff/Review.antt =====
-- What a review writes: ApplyHunks after ComputeHunks, for any decisions about the hunks.
use vmux.Base.{
  ℕ, zero, suc, ◌-◌, ◌≡◌, ◌↔◌, refl, sym, ap, ◌∙◌, Bool, true, false, List, [], ◌∷◌, ◌++◌, arith,
  map, length, take, drop, Bytes, Map, Every, length-take, take-append-drop, drop_all, eq_self,
  Bytes-eq,
}
use vmux.Diff.Lines.{
  Line, split_lines, join, join-split_lines, common_prefix, common_suffix, common_prefix_lem,
  common_suffix_lem,
}
use vmux.Diff.Lcs.{Op, equal, old_of, diff_middle, diff_middle-IsScript, IsScript}
use vmux.Diff.Hunks.{hunks_from, drop_last, compute_hunks, is_accepted, apply_from, apply_hunks}
use vmux.Diff.Resolve.{
  resolve, resolve-accept, resolve-reject, resolve-between, apply_from-hunks_from, apply_from-ext,
}

module _ (o n : List Line) where
  -- The two common ends and the edit script between them, as ComputeHunks finds them.
  abbrev pub pre : ℕ
  pre = common_prefix o n

  abbrev suf : ℕ
  suf = common_suffix (drop pre o) (drop pre n)

  abbrev pub mid : List Op
  mid = diff_middle (drop_last suf (drop pre o)) (drop_last suf (drop pre n))

  abbrev pub tail_lines : List Line
  tail_lines = drop (length (drop pre o) - suf) (drop pre o)

  pub line_script : List Op
  line_script = map equal (take pre o) ++ (mid ++ map equal tail_lines)

  resolve-line_script :
      (f : ℕ → Bool)
      → resolve f 0 false line_script ≡ take pre o ++ (resolve f 0 false mid ++ tail_lines)
  unfolding line_script
  resolve-line_script f = resolve-between f (take pre o) tail_lines mid

  -- The old lines, in the parts that ComputeHunks cuts them into; and the new lines.
  old_parts : take pre o ++ (drop_last suf (drop pre o) ++ tail_lines) ≡ o
  unfolding drop_last
  old_parts =
      rw (take-append-drop (length (drop pre o) - suf) (drop pre o)) (take-append-drop pre o)

  new_parts : take pre o ++ (drop_last suf (drop pre n) ++ tail_lines) ≡ n
  unfolding drop_last
  new_parts =
      rw
        (
          (common_prefix_lem o n).same,
          (common_suffix_lem (drop pre o) (drop pre n)).same,
          take-append-drop (length (drop pre n) - suf) (drop pre n),
        )
        (take-append-drop pre n)

  pub line_script-IsScript : IsScript o n line_script
  line_script-IsScript = record {
    reads =
        sym (resolve-reject (λ _. false) 0 false line_script (λ _. refl))
        ∙ resolve-line_script (λ _. false)
        ∙ rw
            (
              resolve-reject (λ _. false) 0 false mid (λ _. refl),
              (diff_middle-IsScript (drop_last suf (drop pre o))
                  (drop_last suf (drop pre n))).reads,
            )
            old_parts;
    writes =
        sym (resolve-accept (λ _. true) 0 false line_script (λ _. refl))
        ∙ resolve-line_script (λ _. true)
        ∙ rw
            (
              resolve-accept (λ _. true) 0 false mid (λ _. refl),
              (diff_middle-IsScript (drop_last suf (drop pre o))
                  (drop_last suf (drop pre n))).writes,
            )
            new_parts;
  }

  -- The old lines as the script of the middle reads them.
  pub read_parts : take pre o ++ (old_of mid ++ tail_lines) ≡ o
  read_parts =
      rw (diff_middle-IsScript (drop_last suf (drop pre o)) (drop_last suf (drop pre n))).reads
        old_parts

  pub apply_from-line_script :
      (f : ℕ → Bool)
      → apply_from f 0 o (hunks_from (length mid) pre 0 mid) ≡ resolve f 0 false line_script
  apply_from-line_script f =
      ap (λ ls. apply_from f 0 ls (hunks_from (length mid) pre 0 mid)) (sym read_parts)
      ∙ apply_from-hunks_from f (length mid) 0 (take pre o) tail_lines pre 0 mid (omega arith)
          (omega (arith, length-take pre o, (common_prefix_lem o n).fits_old))
      ∙ sym (resolve-line_script f)

-- The edit script of two texts.
pub script : Bytes → Bytes → List Op
script old_text new_text = line_script (split_lines old_text) (split_lines new_text)

-- The edit script of two texts reads the lines of the old text and writes those of the new one.
pub script-IsScript :
    (old_text new_text : Bytes)
    → IsScript (split_lines old_text) (split_lines new_text) (script old_text new_text)
unfolding script
script-IsScript old_text new_text = line_script-IsScript _ _

-- For every pair of texts and every choice of accepted hunks, applying the computed hunks to the
-- old text gives the lines of their edit script, with the inserted lines in place of the deleted
-- ones exactly in the runs of changes whose number is accepted.
pub apply_hunks-compute_hunks :
    (old_text new_text : Bytes) (accepted : Map ℕ Bool)
    → apply_hunks old_text (compute_hunks old_text new_text) accepted
      ≡ join (resolve (is_accepted accepted) 0 false (script old_text new_text))
unfolding apply_hunks compute_hunks script
apply_hunks-compute_hunks old_text new_text accepted =
    ap join (apply_from-line_script (split_lines old_text) (split_lines new_text) _)

-- If every computed hunk is accepted, applying the hunks to the old text gives the new text.
pub apply_hunks-accepting :
    (old_text new_text : Bytes) (accepted : Map ℕ Bool)
    → Every (λ h. is_accepted accepted h.id ≡ true) (compute_hunks old_text new_text)
    → apply_hunks old_text (compute_hunks old_text new_text) accepted ≡ new_text
unfolding apply_hunks compute_hunks
apply_hunks-accepting old_text new_text accepted h =
    let o = split_lines old_text in
    let n = split_lines new_text in
    ap join (
      apply_from-ext (is_accepted accepted) (λ _. true) 0 o _ h
      ∙ apply_from-line_script o n (λ _. true)
      ∙ resolve-accept (λ _. true) 0 false (line_script o n) (λ _. refl)
      ∙ (line_script-IsScript o n).writes)
    ∙ join-split_lines new_text

-- If no computed hunk is accepted, applying the hunks to the old text gives the old text.
pub apply_hunks-rejecting :
    (old_text new_text : Bytes) (accepted : Map ℕ Bool)
    → Every (λ h. is_accepted accepted h.id ≡ false) (compute_hunks old_text new_text)
    → apply_hunks old_text (compute_hunks old_text new_text) accepted ≡ old_text
unfolding apply_hunks compute_hunks
apply_hunks-rejecting old_text new_text accepted h =
    let o = split_lines old_text in
    let n = split_lines new_text in
    ap join (
      apply_from-ext (is_accepted accepted) (λ _. false) 0 o _ h
      ∙ apply_from-line_script o n (λ _. false)
      ∙ resolve-reject (λ _. false) 0 false (line_script o n) (λ _. refl)
      ∙ (line_script-IsScript o n).reads)
    ∙ join-split_lines old_text

common_prefix_self : (a : List Line) → common_prefix a a ≡ length a
unfolding common_prefix
common_prefix_self [] = refl
common_prefix_self (x ∷ a) = rw (eq_self x, common_prefix_self a)

take-nil : (n : ℕ) → take {A = Line} n [] ≡ []
take-nil zero = refl
take-nil (suc n) = refl

compute_hunks_self : (text : Bytes) → compute_hunks text text ≡ []
unfolding compute_hunks diff_middle drop_last
compute_hunks_self text =
    rw (common_prefix_self (split_lines text), drop_all (split_lines text), take-nil)

-- No hunk is computed exactly when the two texts are the same.
pub compute_hunks-eq-nil :
    (old_text new_text : Bytes) → (compute_hunks old_text new_text ≡ []) ↔ (old_text ≡ new_text)
compute_hunks-eq-nil old_text new_text = (
  λ h.
      sym (apply_hunks-rejecting old_text new_text [] (rw h tt))
      ∙ apply_hunks-accepting old_text new_text [] (rw h tt),
  λ e. rw e (compute_hunks_self new_text),
)
