-- ===== src/Diff/Decisions.antt =====
-- What a review does to the file under review, from staging to the last decision.
use vmux.Base.{
  ℕ, ◌+◌, ◌≡◌, ◌≢◌, refl, sym, ap, subst, Bool, true, false, List, [], ◌∷◌, Option, none, some,
  arith, ◌==◌, ℕ-eq, String-eq, Bytes-eq, if◌then◌else◌, length, Map, lookup, insert, delete,
  lookup-insert, lookup-delete, Every, Bytes, String, eq_self, test_of_ne, nat_eq_iff,
}
use vmux.Diff.Hunks.{Hunk, compute_hunks, is_accepted, apply_hunks}
use vmux.Diff.Review.{compute_hunks-eq-nil, apply_hunks-accepting, apply_hunks-rejecting}
use vmux.Diff.Bulk.{IsBulk, compute_hunks-IsNumbered, decide_rest-IsBulk}
use vmux.Diff.Store.{
  Disk, Pending, Store, Outcome, changed_on_disk, notify, read_file, write_file, is_stale, staged,
  stage, record_decisions, settle, decide_many, accept_all, reject_all,
}

stage-cases :
    (s : Store) (d : Disk) (path : String) (old_text new_text : Bytes)
    → old_text ≢ new_text
    → stage s d path old_text new_text ≡ (
      notify (record s {
        by_path = insert path (staged d path old_text (compute_hunks old_text new_text)) s.by_path;
      }),
      true,
    )
unfolding stage
stage-cases s d path old_text new_text h = go (compute_hunks old_text new_text) refl
  where
    go :
        (hs : List Hunk)
        → compute_hunks old_text new_text ≡ hs
        → stage s d path old_text new_text ≡ (
          notify (record s {
            by_path =
                insert path (staged d path old_text (compute_hunks old_text new_text)) s.by_path;
          }),
          true,
        )
    go [] e = absurd (h ((compute_hunks-eq-nil old_text new_text).0 e))
    go (k ∷ hs) e = rw (e, stage)

-- The call reported success: the file under review reads as `text`, the review is gone, and no
-- other file and no other review has changed.
pub record IsResolved (path : String) (text : Bytes) (s : Store) (d : Disk) (r : Outcome)
    : Type 0 where
  pub no_error : r.error ≡ none
  pub file : read_file r.disk path ≡ some text
  pub other_files : (q : String) → q ≢ path → read_file r.disk q ≡ read_file d q
  pub closed : lookup path r.store.by_path ≡ none
  pub other_reviews : (q : String) → q ≢ path → lookup q r.store.by_path ≡ lookup q s.by_path

pub read_file-write_file :
    (d : Disk) (path q : String) (content : Bytes) (mode : ℕ)
    → d.writable path ≡ true
    → read_file (write_file d path content mode).0 q
      ≡ (if path == q then some content else read_file d q)
unfolding read_file write_file
read_file-write_file d path q content mode w = rw w (
    ground (
      arith,
      lookup-insert path q
          (record {
            content = content;
            mode = elim (lookup path d.files) [ none ↦ mode | some f ↦ f.mode ];
          })
          d.files,
    ))

module _ (s : Store) (d : Disk) (path : String) (p : Pending) where
  abbrev pub closed_store : Store
  closed_store = record s { by_path = delete path s.by_path; notices = s.notices + 1 }

  abbrev pub final_text : Bytes
  final_text = apply_hunks p.old_text p.hunks p.accepted

  pub settle-write :
      length p.decided ≡ length p.hunks
      → is_stale d path p.old_text ≡ false
      → settle s d path p ≡ record {
        store = closed_store;
        disk = (write_file d path final_text p.mode).0;
        error = (write_file d path final_text p.mode).1;
      }
  unfolding settle
  settle-write n fresh = rw ((nat_eq_iff (length p.decided) (length p.hunks)).1 n, fresh)

  pub settle-stale :
      length p.decided ≡ length p.hunks
      → is_stale d path p.old_text ≡ true
      → settle s d path p ≡ record { store = closed_store; disk = d; error = some changed_on_disk }
  unfolding settle
  settle-stale n stale = rw ((nat_eq_iff (length p.decided) (length p.hunks)).1 n, stale)

  pub settle-keep :
      length p.decided ≢ length p.hunks
      → settle s d path p ≡ record {
        store = record s { by_path = insert path p s.by_path; notices = s.notices + 1 };
        disk = d;
        error = none;
      }
  unfolding settle
  settle-keep n = rw (test_of_ne (length p.decided) (length p.hunks) n)

  pub settle-IsResolved :
      length p.decided ≡ length p.hunks
      → is_stale d path p.old_text ≡ false
      → d.writable path ≡ true
      → IsResolved path final_text s d (settle s d path p)
  settle-IsResolved n fresh w = rw (settle-write n fresh) (record {
    no_error = unfold write_file in rw w;
    file = rw (read_file-write_file d path path final_text p.mode w, eq_self path);
    other_files = λ q h.
        rw (read_file-write_file d path q final_text p.mode w, test_of_ne path q (λ e. h (sym e)));
    closed = rw (lookup-delete path path s.by_path, eq_self path);
    other_reviews = λ q h. rw (lookup-delete path q s.by_path, test_of_ne path q (λ e. h (sym e)));
  })

pub decide_many-found :
    (s : Store) (d : Disk) (path : String) (single : Option (ℕ × Bool)) (bulk : Bool) (p : Pending)
    → lookup path s.by_path ≡ some p
    → decide_many s d path single bulk ≡ settle s d path (record_decisions single bulk p)
unfolding decide_many
decide_many-found s d path single bulk p h = rw (h, decide_many)

pub lookup-stage :
    (s : Store) (d : Disk) (path : String) (old_text new_text : Bytes)
    → old_text ≢ new_text
    → lookup path (stage s d path old_text new_text).0.by_path
      ≡ some (staged d path old_text (compute_hunks old_text new_text))
lookup-stage s d path old_text new_text h =
    rw (stage-cases s d path old_text new_text h)
      (unfold notify in rw (lookup-insert path path _ s.by_path, eq_self path))

module _ (s : Store) (d d' : Disk) (path : String) (old_text new_text : Bytes) where
  abbrev review : Pending
  review = staged d path old_text (compute_hunks old_text new_text)

  abbrev after_stage : Store
  after_stage = (stage s d path old_text new_text).0

  record_decisions-IsBulk :
      (bulk : Bool) → IsBulk bulk 0 review.hunks review (record_decisions none bulk review)
  unfolding record_decisions
  record_decisions-IsBulk bulk =
      decide_rest-IsBulk bulk 0 review.hunks review (compute_hunks-IsNumbered old_text new_text)
        (λ i h. unfold lookup in refl)

  bulk-IsResolved :
      (bulk : Bool) (text : Bytes)
      → old_text ≢ new_text
      → is_stale d' path old_text ≡ false
      → d'.writable path ≡ true
      → ((m : Map ℕ Bool)
          → Every (λ h. is_accepted m h.id ≡ bulk) (compute_hunks old_text new_text)
          → apply_hunks old_text (compute_hunks old_text new_text) m ≡ text)
      → IsResolved path text after_stage d' (decide_many after_stage d' path none bulk)
  bulk-IsResolved bulk text changed fresh w applied =
      let q : Pending = record_decisions none bulk review in
      let b : IsBulk bulk 0 review.hunks review q = record_decisions-IsBulk bulk in
      let found = lookup-stage s d path old_text new_text changed in
      let n : length q.decided ≡ length q.hunks = omega (arith, b.decisions, ap length b.hunks) in
      let e : apply_hunks q.old_text q.hunks q.accepted ≡ text =
        rw (b.old_text, b.hunks) (applied q.accepted b.choices) in
      rw (decide_many-found after_stage d' path none bulk review found) (
        subst (λ t. IsResolved path t after_stage d' (settle after_stage d' path q)) e
          (settle-IsResolved after_stage d' path q n (rw b.old_text fresh) w))

-- After a change has been staged, accepting all of it on a disk where the file is missing or still
-- holds the old text, and can be written, succeeds: the file holds the new text, the review is
-- closed, and no other file or review has changed.
pub accept_all-stage :
    (s : Store) (d d' : Disk) (path : String) (old_text new_text : Bytes)
    → old_text ≢ new_text
    → is_stale d' path old_text ≡ false
    → d'.writable path ≡ true
    → IsResolved path new_text
        (stage s d path old_text new_text).0
        d'
        (accept_all (stage s d path old_text new_text).0 d' path)
unfolding accept_all
accept_all-stage s d d' path old_text new_text changed fresh w =
    bulk-IsResolved s d d' path old_text new_text true new_text changed fresh w
      (apply_hunks-accepting old_text new_text)

-- After a change has been staged, rejecting all of it on a disk where the file is missing or still
-- holds the old text, and can be written, succeeds: the file holds the old text, also where it was
-- missing, the review is closed, and no other file or review has changed.
pub reject_all-stage :
    (s : Store) (d d' : Disk) (path : String) (old_text new_text : Bytes)
    → old_text ≢ new_text
    → is_stale d' path old_text ≡ false
    → d'.writable path ≡ true
    → IsResolved path old_text
        (stage s d path old_text new_text).0
        d'
        (reject_all (stage s d path old_text new_text).0 d' path)
unfolding reject_all
reject_all-stage s d d' path old_text new_text changed fresh w =
    bulk-IsResolved s d d' path old_text new_text false old_text changed fresh w
      (apply_hunks-rejecting old_text new_text)
