-- ===== src/Base/Integers.antt =====
-- The integers over the native numbers: `pos n` is n and `negsuc n` is -(n + 1), with their order, the
-- wrap-around of 64 bits, and Go's product and quotient of int64.
use Prim.Native.Nat.{ℕ, zero, suc, ◌-◌, ◌*◌, ◌/◌, ◌%◌, ◌^◌}
use mathlib.Core.Path.{◌≡◌, refl, ap}
use mathlib.Core.Logic.{◌↔◌}
use mathlib.Core.Bool.{Bool, true, false}
use native.Mathlib.Omega.{arith}
use vmux.Base.Tests.{ltb, nat_eq, nat_eq_iff, if◌then◌else◌}
use vmux.Base.Class.{Equality}

pub data ℤ : Type 0 where
  pos negsuc : ℕ → ℤ

unfoldable pub int_eq : ℤ → ℤ → Bool
int_eq (pos a) (pos b) = nat_eq a b
int_eq (pos a) (negsuc b) = false
int_eq (negsuc a) (pos b) = false
int_eq (negsuc a) (negsuc b) = nat_eq a b

pub int_eq_iff : (a b : ℤ) → (int_eq a b ≡ true) ↔ (a ≡ b)
unfolding int_eq
int_eq_iff (pos a) (pos b) = (λ h. ap pos ((nat_eq_iff a b).0 h), λ h. (nat_eq_iff a b).1 (cc h))
int_eq_iff (pos a) (negsuc b) = (λ h. cc h, λ h. cc h)
int_eq_iff (negsuc a) (pos b) = (λ h. cc h, λ h. cc h)
int_eq_iff (negsuc a) (negsuc b) =
    (λ h. ap negsuc ((nat_eq_iff a b).0 h), λ h. (nat_eq_iff a b).1 (cc h))

instance abbrev pub ℤ-eq : Equality ℤ
ℤ-eq = record { test = int_eq; test_iff = int_eq_iff }

unfoldable pub int_ltb : ℤ → ℤ → Bool
int_ltb (pos a) (pos b) = ltb a b
int_ltb (pos a) (negsuc b) = false
int_ltb (negsuc a) (pos b) = true
int_ltb (negsuc a) (negsuc b) = ltb b a

pub int_ltb_trans : (a b c : ℤ) → int_ltb a b ≡ true → int_ltb b c ≡ true → int_ltb a c ≡ true
unfolding int_ltb
int_ltb_trans (pos a) (pos b) (pos c) h k = ground (arith, h, k)
int_ltb_trans (pos a) (pos b) (negsuc c) h k = cc k
int_ltb_trans (pos a) (negsuc b) c h k = cc h
int_ltb_trans (negsuc a) (pos b) (pos c) h k = refl
int_ltb_trans (negsuc a) (pos b) (negsuc c) h k = cc k
int_ltb_trans (negsuc a) (negsuc b) (pos c) h k = refl
int_ltb_trans (negsuc a) (negsuc b) (negsuc c) h k = ground (arith, h, k)

pub int_ltb_total : (a b : ℤ) → int_ltb a b ≡ false → int_eq b a ≡ false → int_ltb b a ≡ true
unfolding int_ltb int_eq
int_ltb_total (pos a) (pos b) h k = ground (arith, h, k)
int_ltb_total (pos a) (negsuc b) h k = refl
int_ltb_total (negsuc a) (pos b) h k = cc h
int_ltb_total (negsuc a) (negsuc b) h k = ground (arith, h, k)

-- The int64 with the same last 64 bits as a number, and as an integer.
unfoldable pub to_int64 : ℕ → ℤ
to_int64 n = let m = n % 2 ^ 64 in if ltb m (2 ^ 63) then pos m else negsuc (2 ^ 64 - 1 - m)

unfoldable pub wrap64 : ℤ → ℤ
unfolding to_int64
wrap64 (pos n) = to_int64 n
wrap64 (negsuc n) = to_int64 (2 ^ 64 - 1 - n % 2 ^ 64)

unfoldable pub negated : ℕ → ℤ
negated zero = pos 0
negated (suc n) = negsuc n

-- a * b
unfoldable pub mul64 : ℤ → ℤ → ℤ
unfolding wrap64 negated
mul64 (pos a) (pos b) = wrap64 (pos (a * b))
mul64 (pos a) (negsuc b) = wrap64 (negated (a * suc b))
mul64 (negsuc a) (pos b) = wrap64 (negated (suc a * b))
mul64 (negsuc a) (negsuc b) = wrap64 (pos (suc a * suc b))

-- a / b for a b that is not 0, rounded towards 0
unfoldable pub quo64 : ℤ → ℤ → ℤ
unfolding wrap64 negated
quo64 (pos a) (pos b) = wrap64 (pos (a / b))
quo64 (pos a) (negsuc b) = negated (a / suc b)
quo64 (negsuc a) (pos b) = negated (suc a / b)
quo64 (negsuc a) (negsuc b) = wrap64 (pos (suc a / suc b))
