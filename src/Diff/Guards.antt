-- ===== src/Diff/Guards.antt =====
-- What a decision cannot do: write over a file that changed, or touch another file; and what the
-- count of decisions lets through.
use vmux.Base.{
  ℕ, ◌≤◌, ◌<◌, ◌≡◌, ◌≢◌, ◌⊎◌, refl, sym, ap, subst, Bool, true, false, List, [], ◌∷◌, Option, none,
  some, arith, ℕ-eq, String-eq, Bytes-eq, length, Map, lookup, insert, lookup-insert, lookup-delete,
  length-insert, Bool-cases, inl, inr, Bytes, String, Option-cases, eq_self, test_of_ne,
}
use native.Mathlib.Decide.{ℕ_discrete}
use vmux.Diff.Hunks.{Hunk, compute_hunks, is_accepted, apply_hunks}
use vmux.Diff.Review.{apply_hunks-rejecting}
use vmux.Diff.Bulk.{is_accepted-insert}
use vmux.Diff.Decisions.{
  IsResolved, settle-write, settle-stale, settle-keep, settle-IsResolved, decide_many-found,
  lookup-stage, read_file-write_file,
}
use vmux.Diff.Store.{
  Disk, Pending, Store, changed_on_disk, read_file, write_file, is_stale, staged, stage,
  decide_rest, record_decisions, settle, decide_many, decide,
}

-- Recording decisions changes neither the hunks nor the text that the review is about, and
-- forgets no decision.
record IsSameReview (p q : Pending) : Type 0 where
  old_text : q.old_text ≡ p.old_text
  hunks : q.hunks ≡ p.hunks
  decisions : length p.decided ≤ length q.decided

length-le-insert : (i : ℕ) (v : Bool) (m : Map ℕ Bool) → length m ≤ length (insert i v m)
length-le-insert i v m = ground (arith, length-insert i v m)

decide_rest-IsSameReview :
    (bulk : Bool) (hs : List Hunk) (p : Pending) → IsSameReview p (decide_rest bulk hs p)
unfolding decide_rest
decide_rest-IsSameReview bulk [] p = record {
  old_text = refl;
  hunks = refl;
  decisions = omega arith;
}
decide_rest-IsSameReview bulk (h ∷ hs) p = elim (Bool-cases (is_accepted p.decided h.id)) [
  | inl e ↦ rw e (decide_rest-IsSameReview bulk hs p)
  | inr e ↦
      let q : Pending = record p {
        decided = insert h.id true p.decided;
        accepted = insert h.id bulk p.accepted;
      } in
      let ih = decide_rest-IsSameReview bulk hs q in
      rw e (record {
        old_text = ih.old_text;
        hunks = ih.hunks;
        decisions = omega (arith, ih.decisions, length-le-insert h.id true p.decided);
      })
]

record_decisions-IsSameReview :
    (single : Option (ℕ × Bool)) (bulk : Bool) (p : Pending)
    → IsSameReview p (record_decisions single bulk p)
unfolding record_decisions
record_decisions-IsSameReview none bulk p = decide_rest-IsSameReview bulk p.hunks p
record_decisions-IsSameReview (some (id, v)) bulk p = record {
  old_text = refl;
  hunks = refl;
  decisions = length-le-insert id true p.decided;
}

is_stale-changed :
    (d : Disk) (path : String) (current old_text : Bytes)
    → read_file d path ≡ some current
    → current ≢ old_text
    → is_stale d path old_text ≡ true
unfolding is_stale
is_stale-changed d path current old_text e h = rw (e, is_stale, test_of_ne current old_text h) refl

-- A decision on a review whose file can be read and no longer holds the text that was staged
-- writes nothing to the disk. It either discards the review with an error, or keeps it open and
-- reports none.
pub decide_many-stale :
    (s : Store) (d : Disk) (path : String) (single : Option (ℕ × Bool)) (bulk : Bool) (p : Pending)
    (current : Bytes)
    → lookup path s.by_path ≡ some p
    → read_file d path ≡ some current
    → current ≢ p.old_text
    → ((decide_many s d path single bulk).disk ≡ d)
      × (((decide_many s d path single bulk).error ≡ some changed_on_disk)
            × (lookup path (decide_many s d path single bulk).store.by_path ≡ none)
          ⊎ ((decide_many s d path single bulk).error ≡ none)
            × (lookup path (decide_many s d path single bulk).store.by_path
                ≡ some (record_decisions single bulk p)))
decide_many-stale s d path single bulk p current found read changed =
    let stale = is_stale-changed d path current p.old_text read changed in
    let q : Pending = record_decisions single bulk p in
    let same : IsSameReview p q = record_decisions-IsSameReview single bulk p in
    elim (ℕ_discrete (length q.decided) (length q.hunks)) [
      | yes n ↦
          rw
            (
              decide_many-found s d path single bulk p found,
              settle-stale s d path q n (rw same.old_text stale),
            )
            (refl, inl (refl, rw (lookup-delete path path s.by_path, eq_self path)))
      | no n ↦
          rw (decide_many-found s d path single bulk p found, settle-keep s d path q n)
            (refl, inr (refl, rw (lookup-insert path path q s.by_path, eq_self path)))
    ]

write_file-other :
    (d : Disk) (path q : String) (content : Bytes) (mode : ℕ)
    → q ≢ path
    → read_file (write_file d path content mode).0 q ≡ read_file d q
write_file-other d path q content mode h = elim (Bool-cases (d.writable path)) [
  | inl w ↦ rw (read_file-write_file d path q content mode w, test_of_ne path q (λ e. h (sym e)))
  | inr w ↦ unfold write_file in rw w
]

settle-other :
    (s : Store) (d : Disk) (path q : String) (p : Pending)
    → q ≢ path
    → read_file (settle s d path p).disk q ≡ read_file d q
settle-other s d path q p h = elim (ℕ_discrete (length p.decided) (length p.hunks)) [
  | no n ↦ rw (settle-keep s d path p n)
  | yes n ↦ elim (Bool-cases (is_stale d path p.old_text)) [
    | inl stale ↦ rw (settle-stale s d path p n stale)
    | inr fresh ↦
        rw (settle-write s d path p n fresh)
          (write_file-other d path q (apply_hunks p.old_text p.hunks p.accepted) p.mode h)
  ]
]

-- Whatever the state, a decision on one path leaves every other file as it was.
pub decide_many-other_files :
    (s : Store) (d : Disk) (path q : String) (single : Option (ℕ × Bool)) (bulk : Bool)
    → q ≢ path
    → read_file (decide_many s d path single bulk).disk q ≡ read_file d q
decide_many-other_files s d path q single bulk h = elim (Option-cases (lookup path s.by_path)) [
  | inl e ↦ unfold decide_many in rw (e, decide_many)
  | inr (p, e) ↦
      rw (decide_many-found s d path single bulk p e)
        (settle-other s d path q (record_decisions single bulk p) h)
]

one_decision : (i j : ℕ) (v : Bool) → i ≢ j → is_accepted (insert i v []) j ≡ false
one_decision i j v h =
    rw (is_accepted-insert i j v [], test_of_ne i j h) (unfold is_accepted in refl)

-- A fresh review of a change of one hunk is settled by a decision about an id that no hunk has,
-- whether it accepts or rejects: the old text is written, and the proposed change is lost.
pub decide-unknown_id :
    (s : Store) (d d' : Disk) (path : String) (old_text new_text : Bytes) (h : Hunk) (id : ℕ)
    (accept : Bool)
    → old_text ≢ new_text
    → compute_hunks old_text new_text ≡ h ∷ []
    → id ≢ h.id
    → is_stale d' path old_text ≡ false
    → d'.writable path ≡ true
    → IsResolved path old_text
        (stage s d path old_text new_text).0
        d'
        (decide (stage s d path old_text new_text).0 d' path id accept)
unfolding decide
decide-unknown_id s d d' path old_text new_text h id accept changed one unknown fresh w =
    let p : Pending = staged d path old_text (compute_hunks old_text new_text) in
    let after : Store = (stage s d path old_text new_text).0 in
    let q : Pending = record_decisions (some (id, accept)) false p in
    let final =
      apply_hunks-rejecting old_text new_text q.accepted
        (rw one (one_decision id h.id accept unknown, tt)) in
    rw
      (decide_many-found after d' path (some (id, accept)) false p
        (lookup-stage s d path old_text new_text changed))
      (subst (λ t. IsResolved path t after d' (settle after d' path q)) final
        (settle-IsResolved after d' path q (rw one (unfold insert in refl)) fresh w))

-- A review that holds more decisions than hunks can never be settled: every later decision on it,
-- single or in bulk, succeeds, writes nothing, and leaves a review of that kind.
pub decide_many-stuck :
    (s : Store) (d : Disk) (path : String) (single : Option (ℕ × Bool)) (bulk : Bool) (p : Pending)
    → lookup path s.by_path ≡ some p
    → length p.hunks < length p.decided
    → ((decide_many s d path single bulk).disk ≡ d)
      × ((decide_many s d path single bulk).error ≡ none)
      × ((q : Pending) × (lookup path (decide_many s d path single bulk).store.by_path ≡ some q)
          × (length q.hunks < length q.decided))
decide_many-stuck s d path single bulk p found many =
    let q : Pending = record_decisions single bulk p in
    let same : IsSameReview p q = record_decisions-IsSameReview single bulk p in
    let n : length q.hunks < length q.decided =
      omega (arith, same.decisions, ap length same.hunks) in
    rw
      (
        decide_many-found s d path single bulk p found,
        settle-keep s d path q (λ e. absurd (omega arith)),
      )
      (refl, refl, (q, rw (lookup-insert path path q s.by_path, eq_self path), n))
