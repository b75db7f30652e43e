-- ===== src/Base/Last.antt =====
-- The last entries of a list, as Go's `xs[len(xs)-n:]` behind a test of the length.
use Prim.Native.Nat.{ℕ, zero, suc, ◌+◌, ◌-◌, ◌≤◌}
use mathlib.Core.Path.{◌≡◌, refl, sym, ap, ◌∙◌}
use mathlib.Core.Logic.{inl, inr}
use mathlib.Core.List.{List, [], ◌∷◌, ◌++◌}
use native.Mathlib.Omega.{arith}
use vmux.Base.Tests.{ltb, if◌then◌else◌, Bool-cases}
use vmux.Base.Lists.{length, drop, length-drop, length-append}

module _ {ℓ} {A : Type ℓ} where
  unfoldable pub keep_last : ℕ → List A → List A
  keep_last n xs = if ltb n (length xs) then drop (length xs - n) xs else xs

  pub drop-zero_of : (xs : List A) (k : ℕ) → k ≡ 0 → drop k xs ≡ xs
  drop-zero_of xs zero e = refl
  drop-zero_of xs (suc k) e = absurd (omega arith)

  pub keep_last-eq-drop : (n : ℕ) (xs : List A) → keep_last n xs ≡ drop (length xs - n) xs
  unfolding keep_last
  keep_last-eq-drop n xs = elim (Bool-cases (ltb n (length xs))) [
    | inl e ↦ rw e
    | inr e ↦ rw e (sym (drop-zero_of xs (length xs - n) (ground arith)))
  ]

  pub drop-nil_any : (k : ℕ) → drop {A = A} k [] ≡ []
  drop-nil_any zero = refl
  drop-nil_any (suc k) = refl

  pub drop-drop : (a b : ℕ) (xs : List A) → drop a (drop b xs) ≡ drop (b + a) xs
  drop-drop a zero xs = let e : 0 + a ≡ a = omega arith in rw e
  drop-drop a (suc b) [] = drop-nil_any a ∙ sym (drop-nil_any (suc b + a))
  drop-drop a (suc b) (x ∷ xs) =
      let e : suc b + a ≡ suc (b + a) = omega arith in rw e (drop-drop a b xs)

  pub drop-append : (k : ℕ) (xs ys : List A) → k ≤ length xs → drop k (xs ++ ys) ≡ drop k xs ++ ys
  drop-append zero xs ys h = refl
  drop-append (suc k) [] ys h = absurd (omega arith)
  drop-append (suc k) (x ∷ xs) ys h = drop-append k xs ys (omega arith)

  pub length-keep_last : (n : ℕ) (xs : List A) → length (keep_last n xs) ≤ n
  unfolding keep_last
  length-keep_last n xs = ground (arith, length-drop (length xs - n) xs)

  -- Trimming, adding at the end and trimming again keeps what a single trim at the end keeps.
  pub keep_last-append :
      (n : ℕ) (xs ys : List A) → keep_last n (keep_last n xs ++ ys) ≡ keep_last n (xs ++ ys)
  keep_last-append n xs ys =
      let k : ℕ = length xs - n in
      let le : k ≤ length xs = omega arith in
      let inner : keep_last n xs ++ ys ≡ drop k (xs ++ ys) =
        ap (λ r. r ++ ys) (keep_last-eq-drop n xs) ∙ sym (drop-append k xs ys le) in
      let m : ℕ = length (drop k (xs ++ ys)) - n in
      let sum : k + m ≡ length (xs ++ ys) - n =
        omega (arith, length-drop k (xs ++ ys), length-append xs ys) in
      ap (keep_last n) inner
      ∙ keep_last-eq-drop n (drop k (xs ++ ys))
      ∙ drop-drop m k (xs ++ ys)
      ∙ ap (λ j. drop j (xs ++ ys)) sum
      ∙ sym (keep_last-eq-drop n (xs ++ ys))

  pub keep_last-keep_last :
      (n m : ℕ) (xs : List A) → n ≤ m → keep_last n (keep_last m xs) ≡ keep_last n xs
  keep_last-keep_last n m xs h =
      let k : ℕ = length xs - m in
      let sum : k + (length (drop k xs) - n) ≡ length xs - n = omega (arith, length-drop k xs) in
      ap (keep_last n) (keep_last-eq-drop m xs)
      ∙ keep_last-eq-drop n (drop k xs)
      ∙ drop-drop (length (drop k xs) - n) k xs
      ∙ ap (λ j. drop j xs) sum
      ∙ sym (keep_last-eq-drop n xs)
