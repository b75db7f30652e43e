-- ===== src/Diff/Store.antt =====
-- pending.go: the store of staged changes.

use vmux.Base.{
  ℕ, ◌+◌, Bool, true, false, not, List, [], ◌∷◌, Option, none, some, String, Bytes, Map, ◌==◌, ℕ-eq,
  String-eq, Bytes-eq, nat_eq, if◌then◌else◌, length, map, lookup, insert, delete,
}
use vmux.Diff.Hunks.{Hunk, compute_hunks, is_accepted, apply_hunks}

-- A file as os.Stat and os.ReadFile show it.
pub record File : Type 0 where
  pub content : Bytes
  pub mode : ℕ

-- The disk: the files that can be read, and the paths that os.WriteFile can write.
pub record Disk : Type 0 where
  pub files : Map String File
  pub writable : String → Bool

pub record Pending : Type 0 where
  pub path : String
  pub old_text : Bytes
  pub mode : ℕ
  pub hunks : List Hunk
  pub accepted : Map ℕ Bool
  pub decided : Map ℕ Bool

-- The store, and how often the callback onChange has been called.
pub record Store : Type 0 where
  pub by_path : Map String Pending
  pub notices : ℕ

abbrev pub empty : Store
empty = record { by_path = []; notices = 0 }

pub data Error : Type 0 where
  no_pending changed_on_disk write_failed : Error

-- The store and the disk after a call, and the error that the call returned, if any.
pub record Outcome : Type 0 where
  pub store : Store
  pub disk : Disk
  pub error : Option Error

unfoldable pub notify : Store → Store
notify s = record s { notices = s.notices + 1 }

-- os.ReadFile; `none` is an error.
unfoldable pub read_file : Disk → String → Option Bytes
unfolding lookup
read_file d path = elim (lookup path d.files) [ none ↦ none | some f ↦ some f.content ]

-- os.WriteFile: a file that exists keeps its mode.
unfoldable pub write_file : Disk → String → Bytes → ℕ → Disk × Option Error
unfolding lookup insert
write_file d path content mode =
    let mode' : ℕ = elim (lookup path d.files) [ none ↦ mode | some f ↦ f.mode ] in
    if d.writable path
    then (
      record d { files = insert path (record { content = content; mode = mode' }) d.files },
      none,
    )
    else (d, some write_failed)

-- The mode that Stage records: the file's, or 0644.
pub stat_mode : Disk → String → ℕ
stat_mode d path = elim (lookup path d.files) [ none ↦ 0o644 | some f ↦ f.mode ]

abbrev pub staged : Disk → String → Bytes → List Hunk → Pending
staged d path old_text hunks = record {
  path = path;
  old_text = old_text;
  mode = stat_mode d path;
  hunks = hunks;
  accepted = [];
  decided = [];
}

unfoldable pub stage : Store → Disk → String → Bytes → Bytes → Store × Bool
unfolding notify
stage s d path old_text new_text = elim (compute_hunks old_text new_text) [
  | [] ↦ (s, false)
  | h ∷ hs ↦ (
    notify (record s { by_path = insert path (staged d path old_text (h ∷ hs)) s.by_path }),
    true,
  )
]

-- List: one view for each pending review, in the order of the map's entries.
unfoldable pub list : Store → List (String × List Hunk)
list s = map (λ entry. (entry.1.path, entry.1.hunks)) s.by_path

-- The loop of decideMany over the hunks that are not decided yet.
unfoldable pub decide_rest : Bool → List Hunk → Pending → Pending
decide_rest bulk [] p = p
decide_rest bulk (h ∷ hs) p = decide_rest bulk hs (
    if is_accepted p.decided h.id
    then p
    else record p { decided = insert h.id true p.decided; accepted = insert h.id bulk p.accepted })

-- What decideMany records: one decision, or one for every hunk that has none.
unfoldable pub record_decisions : Option (ℕ × Bool) → Bool → Pending → Pending
unfolding decide_rest
record_decisions none bulk p = decide_rest bulk p.hunks p
record_decisions (some (id, v)) bulk p = record p {
  decided = insert id true p.decided;
  accepted = insert id v p.accepted;
}

unfoldable pub is_stale : Disk → String → Bytes → Bool
is_stale d path old_text = elim (read_file d path) [
  | none ↦ false
  | some current ↦ not (current == old_text)
]

-- The rest of decideMany, once the decisions stand in `p`: the review is kept, discarded because
-- the file changed, or written.
unfoldable pub settle : Store → Disk → String → Pending → Outcome
unfolding notify is_stale
settle s d path p =
    if nat_eq (length p.decided) (length p.hunks)
    then (if is_stale d path p.old_text
        then record {
          store = notify (record s { by_path = delete path s.by_path });
          disk = d;
          error = some changed_on_disk;
        }
        else (let written = write_file d path (apply_hunks p.old_text p.hunks p.accepted) p.mode in
            record {
              store = notify (record s { by_path = delete path s.by_path });
              disk = written.0;
              error = written.1;
            }))
    else record {
      store = notify (record s { by_path = insert path p s.by_path });
      disk = d;
      error = none;
    }

unfoldable pub decide_many : Store → Disk → String → Option (ℕ × Bool) → Bool → Outcome
unfolding record_decisions settle
decide_many s d path single bulk = elim (lookup path s.by_path) [
  | none ↦ record { store = s; disk = d; error = some no_pending }
  | some p ↦ settle s d path (record_decisions single bulk p)
]

unfoldable pub decide : Store → Disk → String → ℕ → Bool → Outcome
unfolding decide_many
decide s d path id accept = decide_many s d path (some (id, accept)) false

unfoldable pub accept_all : Store → Disk → String → Outcome
unfolding decide_many
accept_all s d path = decide_many s d path none true

unfoldable pub reject_all : Store → Disk → String → Outcome
unfolding decide_many
reject_all s d path = decide_many s d path none false
