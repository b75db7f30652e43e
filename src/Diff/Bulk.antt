-- ===== src/Diff/Bulk.antt =====
-- What AcceptAll and RejectAll record, and when a review counts as decided.
use vmux.Base.{
  ℕ, suc, ◌+◌, ◌≤◌, ◌<◌, ◌≡◌, refl, ◌∙◌, Bool, true, false, List, [], ◌∷◌, none, arith, ◌==◌, ℕ-eq,
  if◌then◌else◌, length, Map, lookup, insert, lookup-insert, length-insert, Every, Bytes,
}
use vmux.Diff.Lines.{Line}
use vmux.Diff.Hunks.{Hunk, compute_hunks, is_accepted}
use vmux.Diff.Patch.{IsPatch, compute_hunks-IsPatch}
use vmux.Diff.Store.{Pending, decide_rest}

abbrev pub IsNumbered : ℕ → List Hunk → Type 0
IsNumbered k [] = Unit
IsNumbered k (h ∷ hs) = (h.id ≡ k) × IsNumbered (k + 1) hs

IsPatch-IsNumbered : (o : List Line) (c k : ℕ) (hs : List Hunk) → IsPatch o c k hs → IsNumbered k hs
IsPatch-IsNumbered o c k [] h = tt
IsPatch-IsNumbered o c k (x ∷ hs) h =
    (h.0, IsPatch-IsNumbered o (x.old_start + length x.old_lines + 1) (k + 1) hs h.4)

pub compute_hunks-IsNumbered :
    (old_text new_text : Bytes) → IsNumbered 0 (compute_hunks old_text new_text)
compute_hunks-IsNumbered old_text new_text =
    IsPatch-IsNumbered _ 0 0 _ (compute_hunks-IsPatch old_text new_text)

-- Reading a decision map after a write.
pub is_accepted-insert :
    (i j : ℕ) (v : Bool) (m : Map ℕ Bool)
    → is_accepted (insert i v m) j ≡ (if i == j then v else is_accepted m j)
unfolding is_accepted
is_accepted-insert i j v m = ground (arith, lookup-insert i j v m)

pub is_accepted-none : (m : Map ℕ Bool) (i : ℕ) → lookup i m ≡ none → is_accepted m i ≡ false
unfolding is_accepted
is_accepted-none m i h = ground (arith, h)

-- No decision is recorded from the id `k` on.
abbrev pub IsOpenFrom : ℕ → Pending → Type 0
IsOpenFrom k p = (i : ℕ) → k ≤ i → lookup i p.decided ≡ none

abbrev decided_one : Bool → ℕ → Pending → Pending
decided_one bulk id p = record p {
  decided = insert id true p.decided;
  accepted = insert id bulk p.accepted;
}

decided_one-IsOpenFrom :
    (bulk : Bool) (k : ℕ) (p : Pending) → IsOpenFrom k p → IsOpenFrom (k + 1) (decided_one bulk k p)
decided_one-IsOpenFrom bulk k p o i h = ground (arith, lookup-insert k i true p.decided, o i)

-- What the loop over the hunks from `k` on leaves, where none of them is decided yet.
pub record IsBulk (bulk : Bool) (k : ℕ) (hs : List Hunk) (p q : Pending) : Type 0 where
  pub decisions : length q.decided ≡ length p.decided + length hs
  pub choices : Every (λ h. is_accepted q.accepted h.id ≡ bulk) hs
  pub earlier : (i : ℕ) → i < k → is_accepted q.accepted i ≡ is_accepted p.accepted i
  pub old_text : q.old_text ≡ p.old_text
  pub hunks : q.hunks ≡ p.hunks
  pub mode : q.mode ≡ p.mode

decide_rest-cons :
    (bulk : Bool) (k : ℕ) (h : Hunk) (hs : List Hunk) (p : Pending)
    → h.id ≡ k
    → IsOpenFrom k p
    → decide_rest bulk (h ∷ hs) p ≡ decide_rest bulk hs (decided_one bulk k p)
unfolding decide_rest
decide_rest-cons bulk k h hs p e o = rw (e, is_accepted-none p.decided k (o k (omega arith)))

pub decide_rest-IsBulk :
    (bulk : Bool) (k : ℕ) (hs : List Hunk) (p : Pending)
    → IsNumbered k hs
    → IsOpenFrom k p
    → IsBulk bulk k hs p (decide_rest bulk hs p)
decide_rest-IsBulk bulk k [] p n o =
    unfold decide_rest in
    record {
      decisions = omega arith;
      choices = tt;
      earlier = λ i h. refl;
      old_text = refl;
      hunks = refl;
      mode = refl;
    }
decide_rest-IsBulk bulk k (h ∷ hs) p n o =
    let ih =
      decide_rest-IsBulk bulk (k + 1) hs (decided_one bulk k p) n.1
        (decided_one-IsOpenFrom bulk k p o) in
    rw (decide_rest-cons bulk k h hs p n.0 o) (record {
      decisions = omega (arith, ih.decisions, unfold_length k p (o k (omega arith)));
      choices = (
        rw n.0
            (ih.earlier k (omega arith) ∙ ground (arith, is_accepted-insert k k bulk p.accepted)),
        ih.choices,
      );
      earlier = λ i l.
          ih.earlier i (omega arith) ∙ ground (arith, is_accepted-insert k i bulk p.accepted);
      old_text = ih.old_text;
      hunks = ih.hunks;
      mode = ih.mode;
    })
  where
    unfold_length :
        (i : ℕ) (r : Pending)
        → lookup i r.decided ≡ none
        → length (insert i true r.decided) ≡ suc (length r.decided)
    unfold_length i r e = ground (arith, length-insert i true r.decided)
