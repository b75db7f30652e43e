-- ===== src/Replay/Density.antt =====
-- The timeline of a session, described by the events of each bucket.
use vmux.Base.{
  ℤ, pos, ℤ-eq, ℕ, ◌≡◌, ◌≢◌, inl, inr, refl, sym, ap, subst, ◌∙◌, true, false, List, [], ◌∷◌, none,
  some, Bool-cases, Option-cases, arith, ◌==◌, eq_self, Map, lookup, String-eq, test_of_ne,
}
use vmux.Activity.Event.{Event}
use vmux.Replay.Timeline.{
  Moment, bucket_of, key_of, moment_time, new_moment, moment_or, Buckets, add_event, add_events,
  sort_keys, moment_cons, moments_at, shown, last_ts, shown_or, timeline_by, timeline,
}
use vmux.Replay.Buckets.{
  has_key, Distinct, Ascending, has_key-sort_keys, sort_keys-Ascending, is_there, order_after-keys,
  order_after-Distinct,
}
use vmux.Replay.Moments.{
  Counts, those, noted, lookup-add_event, lookup-add_events, noted-Counts, has_event,
  noted-has_event,
}

module _ (start : ℕ) (bucket : ℤ) where
  -- The keys that are noted in the order are those that have a moment, each once.
  record InStep (b : Buckets) : Type 0 where
    keys : (k : ℤ) → has_key k b.order ≡ is_there (lookup k b.by_bucket)
    once : Distinct b.order

  add_event-InStep : (e : Event) (b : Buckets) → InStep b → InStep (add_event start bucket e b)
  unfolding add_event is_there
  add_event-InStep e b h =
      let key : ℤ = key_of start bucket e in
      record {
        keys = λ k.
            order_after-keys key k (lookup key b.by_bucket) b.order (h.keys key)
            ∙ ground (arith, h.keys k, lookup-add_event start bucket e k b);
        once = order_after-Distinct key (lookup key b.by_bucket) b.order (h.keys key) h.once;
      }

  add_events-InStep :
      (es : List Event) (b : Buckets) → InStep b → InStep (add_events start bucket es b)
  unfolding add_events
  add_events-InStep [] b h = h
  add_events-InStep (e ∷ es) b h =
      add_events-InStep es (add_event start bucket e b) (add_event-InStep e b h)

  -- The moment of a key counts the events of its bucket, which has some.
  abbrev pub IsMoment : List Event → ℤ → Moment → Type 0
  IsMoment es k m =
      Counts (those start bucket k es) (new_moment (moment_time start bucket k)) m
      × (those start bucket k es ≢ [])

  abbrev pub Fits : List Event → List ℤ → List Moment → Type 0
  Fits es [] [] = Unit
  Fits es (k ∷ ks) (m ∷ ms) = IsMoment es k m × Fits es ks ms
  Fits es [] (m ∷ ms) = true ≡ false
  Fits es (k ∷ ks) [] = true ≡ false

  has_event-those :
      (k : ℤ) (es : List Event) → has_event start bucket k es ≡ true → those start bucket k es ≢ []
  unfolding has_event those
  has_event-those k [] h = cc h
  has_event-those k (e ∷ es) h = elim (Bool-cases (key_of start bucket e == k)) [
    | inl is ↦ rw is (λ c. cc c)
    | inr is ↦ rw is (has_event-those k es (rw is at h))
  ]

  found-IsMoment :
      (es : List Event) (k : ℤ) (m : Moment)
      → noted start bucket k es none ≡ some m
      → IsMoment es k m
  unfolding moment_or is_there
  found-IsMoment es k m got =
      let there : has_event start bucket k es ≡ true =
        sym (noted-has_event start bucket k es) ∙ ap is_there got in
      (
        subst
            (λ o.
              Counts (those start bucket k es) (new_moment (moment_time start bucket k))
                (moment_or (moment_time start bucket k) o))
            got (noted-Counts start bucket k es none),
        has_event-those k es there,
      )

  moments_at-Fits :
      (es : List Event) (by_bucket : Map ℤ Moment) (ks : List ℤ)
      → ((k : ℤ) → lookup k by_bucket ≡ noted start bucket k es none)
      → ((k : ℤ) → has_key k ks ≡ true → is_there (lookup k by_bucket) ≡ true)
      → (ms : List Moment) × ((moments_at by_bucket ks ≡ some ms) × Fits es ks ms)
  unfolding moments_at moment_cons has_key is_there
  moments_at-Fits es by_bucket [] found there = ([], (refl, tt))
  moments_at-Fits es by_bucket (k ∷ ks) found there =
      let (ms, (got, fits)) =
        moments_at-Fits es by_bucket ks found (λ j h. there j (ground (arith, h))) in
      elim (Option-cases (lookup k by_bucket)) [
        | inl e ↦ cc (there k (ground (arith, eq_self k)), e)
        | inr (m, e) ↦ (m ∷ ms, (rw (e, got), (found-IsMoment es k m (sym (found k) ∙ e), fits)))
      ]

  -- The keys of the events in ascending order, and the moments that the loop leaves for them.
  timeline-moments :
      (es : List Event)
      → (ks : List ℤ) × (ms : List Moment) × (moments_at
            (add_events start bucket es (record { by_bucket = []; order = [] })).by_bucket
            (sort_keys (add_events start bucket es (record { by_bucket = []; order = [] })).order)
          ≡ some ms)
        × Ascending ks
        × ((k : ℤ) → has_key k ks ≡ has_event start bucket k es)
        × Fits es ks ms
  unfolding lookup has_key is_there
  timeline-moments es =
      let blank : Buckets = record { by_bucket = []; order = [] } in
      let b : Buckets = add_events start bucket es blank in
      let step : InStep b = add_events-InStep es blank (record { keys = λ k. refl; once = tt }) in
      let found : (k : ℤ) → lookup k b.by_bucket ≡ noted start bucket k es none =
        λ k. lookup-add_events start bucket k es blank in
      let keys : (k : ℤ) → has_key k (sort_keys b.order) ≡ is_there (lookup k b.by_bucket) =
        λ k. has_key-sort_keys k b.order ∙ step.keys k in
      let (ms, (got, fits)) =
        moments_at-Fits es b.by_bucket (sort_keys b.order) found (λ k h. sym (keys k) ∙ h) in
      (
        sort_keys b.order,
        ms,
        got,
        sort_keys-Ascending b.order step.once,
        λ k. keys k ∙ ap is_there (found k) ∙ noted-has_event start bucket k es,
        fits,
      )

-- The timeline of a session with events, where a bucket does not last 0 nanoseconds in 64 bits: it runs
-- from the first event's time to the last one's, and it has one moment for each bucket with an event,
-- in ascending order; a moment counts the events of its bucket, and has the kind of the last and the
-- highest risk of them.
pub timeline-Fits :
    (e : Event) (es : List Event) (n : ℤ)
    → bucket_of n ≢ pos 0
    → (ks : List ℤ) × (ms : List Moment) × (timeline (some (e ∷ es)) n
        ≡ shown e.ts (last_ts e es) ms)
      × Ascending ks
      × ((k : ℤ) → has_key k ks ≡ has_event e.ts (bucket_of n) k (e ∷ es))
      × Fits e.ts (bucket_of n) (e ∷ es) ks ms
unfolding timeline timeline_by shown_or
timeline-Fits e es n lasts =
    let (ks, ms, got, up, keys, fits) = timeline-moments e.ts (bucket_of n) (e ∷ es) in
    (ks, ms, rw (test_of_ne (bucket_of n) (pos 0) lasts, got), up, keys, fits)
