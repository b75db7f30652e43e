-- ===== src/Base/Dict.antt =====
-- A Go map as an association list. `lookup` is `m[k]` with its `ok`, `insert` is `m[k] = v`,
-- `delete` is `delete(m, k)`; ranging over a map goes through the entries in the list's order.
use Prim.Native.Nat.{suc}
use mathlib.Core.Bool.{false≢true}
use mathlib.Core.Path.{◌≡◌, refl, sym, ◌∙◌}
use mathlib.Core.Logic.{◌≢◌, ◌⊎◌, inl, inr}
use mathlib.Core.Option.{Option, none, some}
use mathlib.Core.List.{List, [], ◌∷◌}
use native.Mathlib.Omega.{arith}
use vmux.Base.Tests.{if◌then◌else◌, Bool-cases}
use vmux.Base.Class.{Equality, ◌==◌, eq_of_test}
use vmux.Base.Lists.{length}

abbrev pub Map {ℓ κ} : Type ℓ → Type κ → Type (ℓ ⊔ κ)
Map K V = List (K × V)

module _ {ℓ κ} {K : Type ℓ} {V : Type κ} ⦃same : Equality K⦄ where
  unfoldable pub lookup : K → Map K V → Option V
  lookup key [] = none
  lookup key (entry ∷ rest) = if key == entry.0 then some entry.1 else lookup key rest

  unfoldable pub insert : K → V → Map K V → Map K V
  insert key new [] = (key, new) ∷ []
  insert key new (entry ∷ rest) =
      let kept = entry ∷ insert key new rest in if key == entry.0 then (key, new) ∷ rest else kept

  unfoldable pub delete : K → Map K V → Map K V
  delete key [] = []
  delete key (entry ∷ rest) =
      let others = delete key rest in if key == entry.0 then others else entry ∷ others

  pub lookup-insert :
      (key q : K) (new : V) (m : Map K V)
      → lookup q (insert key new m) ≡ (if key == q then some new else lookup q m)
  unfolding lookup insert
  lookup-insert key q new [] = ground (arith, same.test_iff key q, same.test_iff q key)
  lookup-insert key q new (entry ∷ rest) = ground (
    arith,
    lookup-insert key q new rest,
    same.test_iff key q,
    same.test_iff q key,
    same.test_iff key entry.0,
    same.test_iff q entry.0,
  )

  pub lookup-delete :
      (key q : K) (m : Map K V) → lookup q (delete key m) ≡ (if key == q then none else lookup q m)
  unfolding lookup delete
  lookup-delete key q [] = ground arith
  lookup-delete key q (entry ∷ rest) = ground (
    arith,
    lookup-delete key q rest,
    same.test_iff key q,
    same.test_iff key entry.0,
    same.test_iff q entry.0,
  )

  -- Writing a key that is absent adds one entry; writing one that is present adds none.
  pub length-insert :
      (key : K) (new : V) (m : Map K V)
      → length (insert key new m)
        ≡ elim (lookup key m) [ none ↦ suc (length m) | some _ ↦ length m ]
  unfolding lookup insert
  length-insert key new [] = refl
  length-insert key new (entry ∷ rest) = ground (arith, length-insert key new rest)

  -- What is read after a write is the value written or an older one.
  pub lookup-insert_cases :
      (key q : K) (new : V) (m : Map K V) {found : Option V}
      → lookup q (insert key new m) ≡ found
      → (key ≡ q) × (some new ≡ found) ⊎ (key ≢ q) × (lookup q m ≡ found)
  lookup-insert_cases key q new m h = elim (Bool-cases (key == q)) [
    | inl e ↦ inl (eq_of_test key q e, rw (lookup-insert key q new m, e) at h)
    | inr e ↦ inr (
      λ p. false≢true (sym e ∙ (same.test_iff key q).1 p),
      rw (lookup-insert key q new m, e) at h,
    )
  ]
