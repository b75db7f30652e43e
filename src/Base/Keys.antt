-- ===== src/Base/Keys.antt =====
-- Maps as functions of their keys: reading after a write at the same key and at another, and the
-- keys of the entries.
use mathlib.Core.Path.{◌≡◌, refl, sym, subst, ◌∙◌}
use mathlib.Core.Logic.{◌≢◌, inl, inr}
use mathlib.Core.Option.{none, some}
use mathlib.Core.List.{[], ◌∷◌}
use vmux.Base.Tests.{Bool-cases}
use vmux.Base.Class.{Equality, ◌==◌, eq_of_test, eq_self, test_of_ne}
use vmux.Base.Lists.{Every}
use vmux.Base.Dict.{Map, lookup, insert, delete, lookup-insert, lookup-delete}

module _ {ℓ κ} {K : Type ℓ} {V : Type κ} ⦃same : Equality K⦄ where
  pub lookup-insert_self : (key : K) (v : V) (m : Map K V) → lookup key (insert key v m) ≡ some v
  lookup-insert_self key v m = lookup-insert key key v m ∙ rw (eq_self key) refl

  pub lookup-insert_other :
      (key q : K) (v : V) (m : Map K V) → key ≢ q → lookup q (insert key v m) ≡ lookup q m
  lookup-insert_other key q v m h = lookup-insert key q v m ∙ rw (test_of_ne key q h) refl

  pub lookup-delete_self : (key : K) (m : Map K V) → lookup key (delete key m) ≡ none
  lookup-delete_self key m = lookup-delete key key m ∙ rw (eq_self key) refl

  pub lookup-delete_other :
      (key q : K) (m : Map K V) → key ≢ q → lookup q (delete key m) ≡ lookup q m
  lookup-delete_other key q m h = lookup-delete key q m ∙ rw (test_of_ne key q h) refl

  -- What a map still has after a deletion, it had before, at another key.
  pub lookup-delete_cases :
      (key q : K) (m : Map K V) {v : V}
      → lookup q (delete key m) ≡ some v
      → (key ≢ q) × (lookup q m ≡ some v)
  lookup-delete_cases key q m h = elim (Bool-cases (key == q)) [
    | inl e ↦ cc (h, lookup-delete_self key m, eq_of_test key q e)
    | inr e ↦
        let other : key ≢ q = λ p. cc (e, eq_self q, p) in
        (other, sym (lookup-delete_other key q m other) ∙ h)
  ]

  -- No key stands in two entries.
  abbrev pub DistinctKeys : Map K V → Type ℓ
  DistinctKeys [] = Unit
  DistinctKeys (entry ∷ rest) = Every (λ (e : K × V). entry.0 ≢ e.0) rest × DistinctKeys rest

  keys-insert :
      (k key : K) (v : V) (m : Map K V)
      → k ≢ key
      → Every (λ (e : K × V). k ≢ e.0) m
      → Every (λ (e : K × V). k ≢ e.0) (insert key v m)
  unfolding insert
  keys-insert k key v [] n h = (n, tt)
  keys-insert k key v (entry ∷ rest) n h = elim (Bool-cases (key == entry.0)) [
    | inl e ↦ rw e (n, h.1)
    | inr e ↦ rw e (h.0, keys-insert k key v rest n h.1)
  ]

  pub insert-DistinctKeys :
      (key : K) (v : V) (m : Map K V) → DistinctKeys m → DistinctKeys (insert key v m)
  unfolding insert
  insert-DistinctKeys key v [] h = (tt, tt)
  insert-DistinctKeys key v (entry ∷ rest) h = elim (Bool-cases (key == entry.0)) [
    | inl e ↦
        let there : entry.0 ≡ key = sym (eq_of_test key entry.0 e) in
        rw e (subst (λ k. Every (λ (x : K × V). k ≢ x.0) rest) there h.0, h.1)
    | inr e ↦ rw e (
      keys-insert entry.0 key v rest (λ p. cc (e, eq_self key, p)) h.0,
      insert-DistinctKeys key v rest h.1,
    )
  ]

  keys-delete :
      (k key : K) (m : Map K V)
      → Every (λ (e : K × V). k ≢ e.0) m
      → Every (λ (e : K × V). k ≢ e.0) (delete key m)
  unfolding delete
  keys-delete k key [] h = tt
  keys-delete k key (entry ∷ rest) h = elim (Bool-cases (key == entry.0)) [
    | inl e ↦ rw e (keys-delete k key rest h.1)
    | inr e ↦ rw e (h.0, keys-delete k key rest h.1)
  ]

  pub delete-DistinctKeys : (key : K) (m : Map K V) → DistinctKeys m → DistinctKeys (delete key m)
  unfolding delete
  delete-DistinctKeys key [] h = tt
  delete-DistinctKeys key (entry ∷ rest) h = elim (Bool-cases (key == entry.0)) [
    | inl e ↦ rw e (delete-DistinctKeys key rest h.1)
    | inr e ↦ rw e (keys-delete entry.0 key rest h.0, delete-DistinctKeys key rest h.1)
  ]
