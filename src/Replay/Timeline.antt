-- ===== src/Replay/Timeline.antt =====
-- replay.go: Timeline. A time is a number of nanoseconds that is not negative; a Duration is an int64,
-- and bucketSeconds an int of 64 bits.
use vmux.Base.{
  ℤ, pos, negsuc, int_ltb, mul64, quo64, ℤ-eq, ℕ, zero, suc, ◌+◌, ◌-◌, ◌^◌, List, [], ◌∷◌, ◌++◌,
  Option, none, some, if◌then◌else◌, ltb, Map, lookup, insert, String, String-eq, ◌==◌,
}
use vmux.Activity.Event.{Event}

-- Moment, whose time is a number of nanoseconds
pub record Moment : Type 0 where
  pub t : ℤ
  pub count : ℕ
  pub kind : String
  pub max_risk : String

-- riskRank
unfoldable pub risk_rank : String → ℕ
risk_rank r =
    if r == "high" then 3 else (if r == "medium" then 2 else (if r == "low" then 1 else 0))

-- bucketSeconds after its default
unfoldable pub bucket_seconds : ℤ → ℤ
bucket_seconds (pos zero) = pos 5
bucket_seconds (pos (suc n)) = pos (suc n)
bucket_seconds (negsuc n) = pos 5

-- time.Duration(bucketSeconds) * time.Second
unfoldable pub bucket_of : ℤ → ℤ
unfolding mul64 bucket_seconds
bucket_of n = mul64 (bucket_seconds n) (pos 1000000000)

-- Ts.Sub(start), which saturates
unfoldable pub since : ℕ → ℕ → ℤ
since start ts =
    if ltb ts start
    then (if ltb (2 ^ 63) (start - ts) then negsuc (2 ^ 63 - 1) else negsuc (start - ts - 1))
    else (if ltb (ts - start) (2 ^ 63) then pos (ts - start) else pos (2 ^ 63 - 1))

-- e.Ts.Sub(start) / bucket
unfoldable pub key_of : ℕ → ℤ → Event → ℤ
unfolding since quo64
key_of start bucket e = quo64 (since start e.ts) bucket

sum_int : ℤ → ℤ → ℤ
sum_int (pos a) (pos b) = pos (a + b)
sum_int (pos a) (negsuc b) = if ltb b a then pos (a - b - 1) else negsuc (b - a)
sum_int (negsuc a) (pos b) = if ltb a b then pos (b - a - 1) else negsuc (a - b)
sum_int (negsuc a) (negsuc b) = negsuc (a + b + 1)

-- start.Add(time.Duration(key) * bucket)
unfoldable pub moment_time : ℕ → ℤ → ℤ → ℤ
unfolding mul64 sum_int
moment_time start bucket key = sum_int (pos start) (mul64 key bucket)

abbrev pub new_moment : ℤ → Moment
new_moment t = record { t = t; count = 0; kind = ""; max_risk = "" }

-- The moment of a key that is found, or a new one.
unfoldable pub moment_or : ℤ → Option Moment → Moment
moment_or t none = new_moment t
moment_or t (some m) = m

-- The body of the loop on the event's moment.
unfoldable pub count_event : Event → Moment → Moment
unfolding risk_rank
count_event e m = record {
  t = m.t;
  count = m.count + 1;
  kind = e.kind;
  max_risk = if ltb (risk_rank m.max_risk) (risk_rank e.risk) then e.risk else m.max_risk;
}

unfoldable pub order_after : ℤ → Option Moment → List ℤ → List ℤ
order_after key none order = order ++ key ∷ []
order_after key (some m) order = order

-- The moments by key, and the keys in the order in which they came.
pub record Buckets : Type 0 where
  pub by_bucket : Map ℤ Moment
  pub order : List ℤ

-- The body of the loop.
unfoldable pub add_event : ℕ → ℤ → Event → Buckets → Buckets
unfolding key_of moment_or moment_time count_event order_after
add_event start bucket e b =
    let key = key_of start bucket e in
    let m = count_event e (moment_or (moment_time start bucket key) (lookup key b.by_bucket)) in
    record {
      by_bucket = insert key m b.by_bucket;
      order = order_after key (lookup key b.by_bucket) b.order;
    }

-- The loop of Timeline.
unfoldable pub add_events : ℕ → ℤ → List Event → Buckets → Buckets
unfolding add_event
add_events start bucket [] b = b
add_events start bucket (e ∷ es) b = add_events start bucket es (add_event start bucket e b)

unfoldable pub insert_key : ℤ → List ℤ → List ℤ
unfolding int_ltb
insert_key k [] = k ∷ []
insert_key k (j ∷ js) = let later = insert_key k js in if int_ltb k j then k ∷ j ∷ js else j ∷ later

-- sort.Slice of distinct keys
unfoldable pub sort_keys : List ℤ → List ℤ
unfolding insert_key
sort_keys [] = []
sort_keys (k ∷ ks) = insert_key k (sort_keys ks)

unfoldable pub moment_cons : Option Moment → Option (List Moment) → Option (List Moment)
moment_cons none rest = none
moment_cons (some m) none = none
moment_cons (some m) (some ms) = some (m ∷ ms)

-- The last loop; `none` is the panic at a key without a moment.
unfoldable pub moments_at : Map ℤ Moment → List ℤ → Option (List Moment)
unfolding moment_cons
moments_at by_bucket [] = some []
moments_at by_bucket (k ∷ ks) = moment_cons (lookup k by_bucket) (moments_at by_bucket ks)

pub data Timeline : Type 0 where
  -- the source of events fails
  failed : Timeline
  -- no events: the zero times and no moments
  empty : Timeline
  panicked : Timeline
  shown : ℕ → ℕ → List Moment → Timeline

unfoldable pub last_ts : Event → List Event → ℕ
last_ts e [] = e.ts
last_ts e (d ∷ ds) = last_ts d ds

unfoldable pub shown_or : ℕ → ℕ → Option (List Moment) → Timeline
shown_or start end none = panicked
shown_or start end (some ms) = shown start end ms

-- A division by 0 panics.
unfoldable pub timeline_by : ℤ → Event → List Event → Timeline
unfolding add_events sort_keys moments_at last_ts shown_or
timeline_by bucket e es =
    let b = add_events e.ts bucket (e ∷ es) (record { by_bucket = []; order = [] }) in
    if bucket == pos 0
    then panicked
    else shown_or e.ts (last_ts e es) (moments_at b.by_bucket (sort_keys b.order))

-- Timeline on what the source of events has for the session; `none` is its error.
unfoldable pub timeline : Option (List Event) → ℤ → Timeline
unfolding timeline_by bucket_of
timeline none n = failed
timeline (some []) n = empty
timeline (some (e ∷ es)) n = timeline_by (bucket_of n) e es
