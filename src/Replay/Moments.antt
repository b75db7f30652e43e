-- ===== src/Replay/Moments.antt =====
-- What the moments of a timeline count: the events of their buckets.
use vmux.Base.{
  ℤ, ℤ-eq, ℕ, ◌+◌, ◌≤◌, ◌≡◌, ◌⊎◌, inl, inr, refl, ap, ◌∙◌, Bool, true, false, ◌||◌, List, [], ◌∷◌,
  Option, none, some, if◌then◌else◌, Bool-cases, arith, ◌==◌, eq_of_test, Every, lookup,
  lookup-insert, length, String, String-eq,
}
use vmux.Activity.Event.{Event}
use vmux.Replay.Timeline.{
  Moment, risk_rank, key_of, moment_time, moment_or, count_event, Buckets, add_event, add_events,
}
use vmux.Replay.Buckets.{is_there}

unfoldable pub last_kind : String → List Event → String
last_kind kind [] = kind
last_kind kind (e ∷ es) = last_kind e.kind es

unfoldable pub has_risk : String → List Event → Bool
has_risk r [] = false
has_risk r (e ∷ es) = e.risk == r || has_risk r es

-- The moment `new` is the moment `old` with these events counted in: its kind is the last event's and its
-- risk the highest.
pub record Counts (es : List Event) (old new : Moment) : Type 0 where
  pub time : new.t ≡ old.t
  pub count : new.count ≡ old.count + length es
  pub kind : new.kind ≡ last_kind old.kind es
  pub grows : risk_rank old.max_risk ≤ risk_rank new.max_risk
  pub highest : Every (λ e. risk_rank e.risk ≤ risk_rank new.max_risk) es
  pub taken : (new.max_risk ≡ old.max_risk) ⊎ (has_risk new.max_risk es ≡ true)

Counts-none : (m : Moment) → Counts [] m m
unfolding last_kind
Counts-none m = record {
  time = refl;
  count = omega arith;
  kind = refl;
  grows = omega arith;
  highest = tt;
  taken = inl refl;
}

Counts-cons :
    (e : Event) (es : List Event) (m new : Moment)
    → Counts es (count_event e m) new
    → Counts (e ∷ es) m new
unfolding count_event last_kind has_risk
Counts-cons e es m new h = record {
  time = h.time;
  count = omega (arith, h.count);
  kind = h.kind;
  grows = ground (arith, h.grows);
  highest = (ground (arith, h.grows), h.highest);
  taken = ground (arith, h.taken, String-eq.test_iff e.risk new.max_risk);
}

module _ (start : ℕ) (bucket : ℤ) where
  -- The events in the bucket of a key.
  unfoldable pub those : ℤ → List Event → List Event
  those k [] = []
  those k (e ∷ es) = if key_of start bucket e == k then e ∷ those k es else those k es

  -- What the loop makes of the moment of one key.
  unfoldable pub noted : ℤ → List Event → Option Moment → Option Moment
  noted k [] o = o
  noted k (e ∷ es) o =
      let counted = noted k es (some (count_event e (moment_or (moment_time start bucket k) o))) in
      if key_of start bucket e == k then counted else noted k es o

  pub lookup-add_event :
      (e : Event) (k : ℤ) (b : Buckets)
      → lookup k (add_event start bucket e b).by_bucket ≡ (
          if key_of start bucket e == k
          then some (count_event e (moment_or (moment_time start bucket k) (lookup k b.by_bucket)))
          else lookup k b.by_bucket)
  unfolding add_event
  lookup-add_event e k b =
      let key : ℤ = key_of start bucket e in
      let counted : ℤ → Moment =
        λ j. count_event e (moment_or (moment_time start bucket j) (lookup j b.by_bucket)) in
      lookup-insert key k (counted key) b.by_bucket ∙ elim (Bool-cases (key == k)) [
        | inl is ↦ rw is (ap (λ j. some (counted j)) (eq_of_test key k is))
        | inr is ↦ rw is
      ]

  pub lookup-add_events :
      (k : ℤ) (es : List Event) (b : Buckets)
      → lookup k (add_events start bucket es b).by_bucket ≡ noted k es (lookup k b.by_bucket)
  unfolding add_events noted
  lookup-add_events k [] b = refl
  lookup-add_events k (e ∷ es) b =
      let rest = lookup-add_events k es (add_event start bucket e b) in
      elim (Bool-cases (key_of start bucket e == k)) [
        | inl is ↦ rest ∙ ap (noted k es) (lookup-add_event e k b) ∙ rw is
        | inr is ↦ rest ∙ ap (noted k es) (lookup-add_event e k b) ∙ rw is
      ]

  pub noted-Counts :
      (k : ℤ) (es : List Event) (o : Option Moment)
      → Counts
          (those k es)
          (moment_or (moment_time start bucket k) o)
          (moment_or (moment_time start bucket k) (noted k es o))
  unfolding those noted moment_or
  noted-Counts k [] o = Counts-none (moment_or (moment_time start bucket k) o)
  noted-Counts k (e ∷ es) o =
      let m : Moment = moment_or (moment_time start bucket k) o in
      elim (Bool-cases (key_of start bucket e == k)) [
        | inl is ↦
            rw is (Counts-cons e (those k es) m _ (noted-Counts k es (some (count_event e m))))
        | inr is ↦ rw is (noted-Counts k es o)
      ]

  noted_kept : (k : ℤ) (es : List Event) (m : Moment) → is_there (noted k es (some m)) ≡ true
  unfolding noted is_there
  noted_kept k [] m = refl
  noted_kept k (e ∷ es) m = elim (Bool-cases (key_of start bucket e == k)) [
    | inl is ↦ rw is (noted_kept k es _)
    | inr is ↦ rw is (noted_kept k es m)
  ]

  -- A key has a moment in the end exactly where it has an event.
  unfoldable pub has_event : ℤ → List Event → Bool
  has_event k [] = false
  has_event k (e ∷ es) = key_of start bucket e == k || has_event k es

  pub noted-has_event : (k : ℤ) (es : List Event) → is_there (noted k es none) ≡ has_event k es
  unfolding noted is_there has_event
  noted-has_event k [] = refl
  noted-has_event k (e ∷ es) = elim (Bool-cases (key_of start bucket e == k)) [
    | inl is ↦ rw is (noted_kept k es _)
    | inr is ↦ rw is (noted-has_event k es)
  ]
