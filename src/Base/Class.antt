-- ===== src/Base/Class.antt =====
-- Go's `==` as an interface: a Boolean test that decides equality, for the types that are compared.
use Prim.Native.Nat.{ℕ}
use Prim.Native.Char.{code}
use Prim.Native.String.{String}
use mathlib.Core.Path.{◌≡◌, refl}
use mathlib.Core.Logic.{◌↔◌, ◌≢◌}
use mathlib.Core.Bool.{Bool, true, false, ◌&&◌}
use mathlib.Core.List.{List, [], ◌∷◌}
use native.Mathlib.Omega.{arith}
use text.Mathlib.Text.{◌==◌ as str_eq}
use text.Mathlib.TextEquality.{eq_iff}
use vmux.Base.Tests.{nat_eq, nat_eq_iff}

pub record Equality {ℓ} (A : Type ℓ) : Type ℓ where
  pub test : A → A → Bool
  pub test_iff : (a b : A) → (test a b ≡ true) ↔ (a ≡ b)

infix 50 ◌==◌
abbrev pub ◌==◌ {ℓ} : {A : Type ℓ} ⦃e : Equality A⦄ → A → A → Bool
◌==◌ ⦃e⦄ = e.test

-- A byte string: Go's `string` and `[]byte` where the code reads single bytes.
abbrev pub Bytes : Type 0
Bytes = List ℕ

unfoldable pub bytes_eq : Bytes → Bytes → Bool
bytes_eq [] [] = true
bytes_eq [] (y ∷ ys) = false
bytes_eq (x ∷ xs) [] = false
bytes_eq (x ∷ xs) (y ∷ ys) = nat_eq x y && bytes_eq xs ys

pub bytes_eq_iff : (a b : Bytes) → (bytes_eq a b ≡ true) ↔ (a ≡ b)
unfolding bytes_eq
bytes_eq_iff [] [] = (λ h. refl, λ h. refl)
bytes_eq_iff [] (y ∷ ys) = (λ h. cc, λ h. cc)
bytes_eq_iff (x ∷ xs) [] = (λ h. cc, λ h. cc)
bytes_eq_iff (x ∷ xs) (y ∷ ys) = ground (arith, bytes_eq_iff xs ys)

instance abbrev pub ℕ-eq : Equality ℕ
ℕ-eq = record { test = nat_eq; test_iff = nat_eq_iff }

instance abbrev pub String-eq : Equality String
String-eq = record { test = str_eq; test_iff = eq_iff }

instance abbrev pub Bytes-eq : Equality Bytes
Bytes-eq = record { test = bytes_eq; test_iff = bytes_eq_iff }

pub eq_self {ℓ} : {A : Type ℓ} ⦃e : Equality A⦄ (a : A) → (a == a) ≡ true
eq_self ⦃e⦄ a = (e.test_iff a a).1 refl

pub eq_of_test {ℓ} : {A : Type ℓ} ⦃e : Equality A⦄ (a b : A) → (a == b) ≡ true → a ≡ b
eq_of_test ⦃e⦄ a b = (e.test_iff a b).0

pub test_of_ne {ℓ} : {A : Type ℓ} ⦃e : Equality A⦄ (a b : A) → a ≢ b → (a == b) ≡ false
test_of_ne ⦃e⦄ a b h = ground (arith, e.test_iff a b)

-- The bytes of an ASCII text.
abbrev pub codes : String → Bytes
codes String.[] = []
codes (String.◌∷◌ c s) = code c ∷ codes s
