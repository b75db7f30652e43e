-- ===== src/Replay/Buckets.antt =====
-- The keys of a timeline's buckets: each once, in ascending order.
use vmux.Base.{
  ℤ, int_eq, int_ltb, int_ltb_trans, int_ltb_total, ℤ-eq, ◌≡◌, inl, inr, refl, sym, ap, ◌∙◌, Bool,
  true, false, ◌||◌, List, [], ◌∷◌, ◌++◌, Option, none, some, Bool-cases, arith, ◌==◌, eq_of_test,
  Every,
}
use vmux.Replay.Timeline.{Moment, order_after, insert_key, sort_keys}

unfoldable pub has_key : ℤ → List ℤ → Bool
has_key k [] = false
has_key k (j ∷ js) = j == k || has_key k js

abbrev pub Distinct : List ℤ → Type 0
Distinct [] = Unit
Distinct (k ∷ ks) = (has_key k ks ≡ false) × Distinct ks

-- Every key is smaller than all later ones.
abbrev pub Ascending : List ℤ → Type 0
Ascending [] = Unit
Ascending (k ∷ ks) = Every (λ j. int_ltb k j ≡ true) ks × Ascending ks

has_key-append : (k j : ℤ) (ks : List ℤ) → has_key k (ks ++ j ∷ []) ≡ (has_key k ks || j == k)
unfolding has_key
has_key-append k j [] = ground arith
has_key-append k j (i ∷ ks) = ground (arith, has_key-append k j ks)

append-Distinct :
    (ks : List ℤ) (k : ℤ) → has_key k ks ≡ false → Distinct ks → Distinct (ks ++ k ∷ [])
unfolding has_key
append-Distinct [] k new h = (refl, tt)
append-Distinct (j ∷ ks) k new h =
    let later : has_key k ks ≡ false = ground (arith, new) in
    let apart : has_key j (ks ++ k ∷ []) ≡ false =
      ground (arith, has_key-append j k ks, h.0, new, ℤ-eq.test_iff j k, ℤ-eq.test_iff k j) in
    (apart, append-Distinct ks k later h.1)

pub has_key-insert_key :
    (k j : ℤ) (ks : List ℤ) → has_key k (insert_key j ks) ≡ (j == k || has_key k ks)
unfolding has_key insert_key
has_key-insert_key k j [] = refl
has_key-insert_key k j (i ∷ ks) = ground (arith, has_key-insert_key k j ks)

pub has_key-sort_keys : (k : ℤ) (ks : List ℤ) → has_key k (sort_keys ks) ≡ has_key k ks
unfolding has_key sort_keys
has_key-sort_keys k [] = refl
has_key-sort_keys k (j ∷ ks) =
    has_key-insert_key k j (sort_keys ks) ∙ ap (λ b. j == k || b) (has_key-sort_keys k ks)

insert_key-above :
    (i k : ℤ) (ks : List ℤ)
    → int_ltb i k ≡ true
    → Every (λ j. int_ltb i j ≡ true) ks
    → Every (λ j. int_ltb i j ≡ true) (insert_key k ks)
unfolding insert_key
insert_key-above i k [] h hs = (h, tt)
insert_key-above i k (j ∷ ks) h hs = elim (Bool-cases (int_ltb k j)) [
  | inl e ↦ rw e (h, hs)
  | inr e ↦ rw e (hs.0, insert_key-above i k ks h hs.1)
]

above_trans :
    (k j : ℤ) (ks : List ℤ)
    → int_ltb k j ≡ true
    → Every (λ i. int_ltb j i ≡ true) ks
    → Every (λ i. int_ltb k i ≡ true) ks
above_trans k j [] h hs = tt
above_trans k j (i ∷ ks) h hs = (int_ltb_trans k j i h hs.0, above_trans k j ks h hs.1)

insert_key-Ascending :
    (k : ℤ) (ks : List ℤ) → has_key k ks ≡ false → Ascending ks → Ascending (insert_key k ks)
unfolding insert_key has_key
insert_key-Ascending k [] new h = (tt, tt)
insert_key-Ascending k (j ∷ ks) new h = elim (Bool-cases (int_ltb k j)) [
  | inl e ↦ rw e ((e, above_trans k j ks e h.0), h)
  | inr e ↦
      let apart : int_eq j k ≡ false = ground (arith, new) in
      let rest : has_key k ks ≡ false = ground (arith, new) in
      rw e (
        insert_key-above j k ks (int_ltb_total k j e apart) h.0,
        insert_key-Ascending k ks rest h.1,
      )
]

pub sort_keys-Ascending : (ks : List ℤ) → Distinct ks → Ascending (sort_keys ks)
unfolding sort_keys
sort_keys-Ascending [] h = tt
sort_keys-Ascending (k ∷ ks) h =
    insert_key-Ascending k (sort_keys ks) (has_key-sort_keys k ks ∙ h.0)
      (sort_keys-Ascending ks h.1)

unfoldable pub is_there : Option Moment → Bool
is_there none = false
is_there (some m) = true

-- A key is noted in the order exactly where it has a moment.
pub order_after-keys :
    (key k : ℤ) (o : Option Moment) (order : List ℤ)
    → has_key key order ≡ is_there o
    → has_key k (order_after key o order) ≡ (key == k || has_key k order)
unfolding order_after is_there
order_after-keys key k none order h = has_key-append k key order ∙ ground arith
order_after-keys key k (some m) order h = elim (Bool-cases (key == k)) [
  | inl e ↦ rw e (ap (λ x. has_key x order) (sym (eq_of_test key k e)) ∙ h)
  | inr e ↦ rw e
]

pub order_after-Distinct :
    (key : ℤ) (o : Option Moment) (order : List ℤ)
    → has_key key order ≡ is_there o
    → Distinct order
    → Distinct (order_after key o order)
unfolding order_after is_there
order_after-Distinct key none order h d = append-Distinct order key h d
order_after-Distinct key (some m) order h d = d
