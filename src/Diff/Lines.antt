-- ===== src/Diff/Lines.antt =====
-- hunk.go: texts as lines, and the lines that two texts share at both ends.
use native.Mathlib.Nat.{sub-zero}
use vmux.Base.{
  ℕ, zero, suc, ◌+◌, ◌-◌, ◌≤◌, ◌<◌, ◌≡◌, refl, ◌≢◌, Bool, true, ◌&&◌, List, [], ◌∷◌, ◌++◌, arith,
  Bytes, ◌==◌, ℕ-eq, Bytes-eq, nat_eq_iff, eq_of_test, ltb, if◌then◌else◌, inl, inr, Bool-cases,
  length, take, drop, get_or, drop-eq-cons, drop_all,
}

abbrev pub Line : Type 0
Line = Bytes

abbrev pub newline : ℕ
newline = b'\n'

-- strings.Split(s, "\n"): always at least one line.
pub onto_first : ℕ → List Line → List Line
onto_first c [] = (c ∷ []) ∷ []
onto_first c (l ∷ ls) = (c ∷ l) ∷ ls

unfoldable pub split : Bytes → List Line
unfolding onto_first
split [] = [] ∷ []
split (c ∷ s) = let rest = split s in if c == newline then [] ∷ rest else onto_first c rest

unfoldable pub split_lines : Bytes → List Line
unfolding split
split_lines [] = []
split_lines (c ∷ s) = split (c ∷ s)

-- strings.Join(lines, "\n")
unfoldable pub join : List Line → Bytes
join [] = []
join (l ∷ []) = l
join (l ∷ m ∷ ls) = l ++ newline ∷ join (m ∷ ls)

unfoldable pub common_prefix : List Line → List Line → ℕ
common_prefix [] b = 0
common_prefix (x ∷ a) [] = 0
common_prefix (x ∷ a) (y ∷ b) = let more = common_prefix a b in if x == y then suc more else 0

-- The loop of commonSuffix from `i` on, for `fuel` rounds: `len(a)` rounds are enough.
unfoldable pub suffix_from : ℕ → List Line → List Line → ℕ → ℕ
suffix_from zero a b i = i
suffix_from (suc fuel) a b i =
    let more = suffix_from fuel a b (i + 1) in
    if ltb i (length a)
      && ltb i (length b)
      && get_or a (length a - 1 - i) [] == get_or b (length b - 1 - i) []
    then more
    else i

unfoldable pub common_suffix : List Line → List Line → ℕ
unfolding suffix_from
common_suffix a b = suffix_from (length a) a b 0

join-onto_first : (c : ℕ) (ls : List Line) → join (onto_first c ls) ≡ c ∷ join ls
unfolding join onto_first
join-onto_first c [] = refl
join-onto_first c (l ∷ []) = refl
join-onto_first c (l ∷ m ∷ ls) = refl

split-ne-nil : (s : Bytes) → split s ≢ []
unfolding split
split-ne-nil [] e = cc
split-ne-nil (c ∷ s) e = ground arith

join-nil_cons : (ls : List Line) → ls ≢ [] → join ([] ∷ ls) ≡ newline ∷ join ls
unfolding join
join-nil_cons [] h = absurd (h refl)
join-nil_cons (m ∷ ls) h = refl

join-split : (s : Bytes) → join (split s) ≡ s
unfolding split
join-split [] = unfold join in refl
join-split (c ∷ s) = ground (
  arith,
  nat_eq_iff c newline,
  join-onto_first c (split s),
  join-nil_cons (split s) (split-ne-nil s),
  join-split s,
)

-- Joining the lines of a text gives the text back.
pub join-split_lines : (s : Bytes) → join (split_lines s) ≡ s
unfolding split_lines
join-split_lines [] = unfold join in refl
join-split_lines (c ∷ s) = join-split (c ∷ s)

pub record IsCommonPrefix (a b : List Line) (n : ℕ) : Type 0 where
  pub fits_old : n ≤ length a
  pub fits_new : n ≤ length b
  pub same : take n a ≡ take n b

pub common_prefix_lem : (a b : List Line) → IsCommonPrefix a b (common_prefix a b)
unfolding common_prefix
common_prefix_lem [] b = record { fits_old = omega arith; fits_new = omega arith; same = refl }
common_prefix_lem (x ∷ a) [] = record {
  fits_old = omega arith;
  fits_new = omega arith;
  same = refl;
}
common_prefix_lem (x ∷ a) (y ∷ b) = elim (Bool-cases (x == y)) [
  | inl e ↦
      let ih = common_prefix_lem a b in
      rw e (record {
        fits_old = omega (arith, ih.fits_old);
        fits_new = omega (arith, ih.fits_new);
        same = cc (eq_of_test x y e, ih.same);
      })
  | inr e ↦ rw e (record { fits_old = omega arith; fits_new = omega arith; same = refl })
]

pub record IsCommonSuffix (a b : List Line) (n : ℕ) : Type 0 where
  pub fits_old : n ≤ length a
  pub fits_new : n ≤ length b
  pub same : drop (length a - n) a ≡ drop (length b - n) b

last_line :
    (a : List Line) (i : ℕ)
    → i < length a
    → drop (length a - (i + 1)) a ≡ get_or a (length a - 1 - i) [] ∷ drop (length a - i) a
last_line a i h =
    let k : ℕ = length a - 1 - i in
    let e : suc k ≡ length a - i = omega arith in
    let f : length a - (i + 1) ≡ k = omega arith in rw (f, ← e) (drop-eq-cons a k [] (omega arith))

suffix_from_lem :
    (fuel : ℕ) (a b : List Line) (i : ℕ)
    → IsCommonSuffix a b i
    → IsCommonSuffix a b (suffix_from fuel a b i)
unfolding suffix_from
suffix_from_lem zero a b i h = h
suffix_from_lem (suc fuel) a b i h = elim (Bool-cases test) [
  | inr stop ↦ rw stop h
  | inl go ↦ rw go (suffix_from_lem fuel a b (i + 1) (step go))
]
  where
    test : Bool
    test =
        ltb i (length a)
        && ltb i (length b)
        && get_or a (length a - 1 - i) [] == get_or b (length b - 1 - i) []

    step : test ≡ true → IsCommonSuffix a b (i + 1)
    step go =
        let p : i < length a = ground arith in
        let q : i < length b = ground arith in
        let e : get_or a (length a - 1 - i) [] ≡ get_or b (length b - 1 - i) [] =
          eq_of_test _ _ (ground arith) in
        record {
          fits_old = omega arith;
          fits_new = omega arith;
          same = rw (last_line a i p, last_line b i q, e, h.same);
        }

pub common_suffix_lem : (a b : List Line) → IsCommonSuffix a b (common_suffix a b)
unfolding common_suffix
common_suffix_lem a b =
    suffix_from_lem (length a) a b 0
      (record { fits_old = omega arith; fits_new = omega arith; same = simp (sub-zero, drop_all) })
