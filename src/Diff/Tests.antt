-- ===== src/Diff/Tests.antt =====
-- Runs of the diff and of the review store, and the theorems about them at concrete inputs.
use vmux.Base.{
  ℕ, ◌≡◌, ◌≢◌, refl, sym, ap, Bool, true, false, List, ◌↔◌, ◌≤◌, length, [], ◌∷◌, none, some, arith,
  String, String-eq, Bytes, Bytes-eq, Map, ◌==◌, bytes_eq, lookup, eq_self,
}
use vmux.Diff.Patch.{IsPatch, compute_hunks-IsPatch}
use vmux.Diff.Optimal.{IsSubsequence, kept_of, diff_middle-keeps_longest}
use vmux.Diff.Lines.{Line, join-split_lines, join, split_lines, common_prefix, common_suffix}
use vmux.Diff.Lcs.{diff_middle, IsScript}
use vmux.Diff.Hunks.{Hunk, compute_hunks, apply_hunks, is_accepted}
use mathlib.Core.Bool.{false≢true}
use text.Mathlib.TextEquality.{eq_iff}
use vmux.Diff.Resolve.{resolve}
use vmux.Diff.Review.{
  script, apply_hunks-compute_hunks, apply_hunks-accepting, apply_hunks-rejecting, script-IsScript,
  compute_hunks-eq-nil,
}
use vmux.Diff.Decisions.{IsResolved, accept_all-stage, reject_all-stage, lookup-stage}
use vmux.Diff.Guards.{
  decide_many-stale, decide_many-other_files, decide-unknown_id, decide_many-stuck,
}
use vmux.Diff.Store.{
  Disk, Pending, Store, empty, stage, staged, is_stale, decide_many, accept_all, reject_all, decide,
  read_file,
}

-- The texts "a\nb\nc" and "a\nB\nc".
abbrev before : Bytes
before = b'a' ∷ b'\n' ∷ b'b' ∷ b'\n' ∷ b'c' ∷ []

abbrev after : Bytes
after = b'a' ∷ b'\n' ∷ b'B' ∷ b'\n' ∷ b'c' ∷ []

abbrev one_hunk : Hunk
one_hunk = record {
  id = 0;
  old_start = 1;
  old_lines = (b'b' ∷ []) ∷ [];
  new_lines = (b'B' ∷ []) ∷ [];
}

-- TestComputeHunksSingleEdit
compute_one : compute_hunks before after ≡ one_hunk ∷ []
unfolding compute_hunks diff_middle common_prefix common_suffix split_lines bytes_eq
compute_one = refl

abbrev yes_to_first : Map ℕ Bool
yes_to_first = (0, true) ∷ []

apply_hunks-accepting_example : apply_hunks before (compute_hunks before after) yes_to_first ≡ after
apply_hunks-accepting_example =
    apply_hunks-accepting before after yes_to_first
      (rw compute_one (unfold is_accepted in refl, tt))

text_rejected : apply_hunks before (compute_hunks before after) [] ≡ before
text_rejected =
    apply_hunks-rejecting before after [] (rw compute_one (unfold is_accepted in refl, tt))

before-ne-after : before ≢ after
before-ne-after e = cc (bytes_test, ap (λ (t : Bytes). t == after) e, eq_self after)
  where
    bytes_test : (before == after) ≡ false
    bytes_test = unfold bytes_eq in refl

-- A disk that holds the file "f" with a given text, and where everything can be written.
abbrev disk_with : Bytes → Disk
disk_with text = record {
  files = ("f", record { content = text; mode = 0o600 }) ∷ [];
  writable = λ _. true;
}

disk-fresh : is_stale (disk_with before) "f" before ≡ false
unfolding is_stale bytes_eq read_file
disk-fresh = refl

disk-changed : read_file (disk_with after) "f" ≡ some after
unfolding read_file lookup
disk-changed = refl

after-ne-before : after ≢ before
after-ne-before e = before-ne-after (sym e)

abbrev staged_store : Store
staged_store = (stage empty (disk_with before) "f" before after).0

abbrev staged_review : Pending
staged_review = staged (disk_with before) "f" before (compute_hunks before after)

accept_all-stage_example :
    IsResolved "f" after staged_store
      (disk_with before)
      (accept_all staged_store (disk_with before) "f")
accept_all-stage_example =
    accept_all-stage empty (disk_with before) (disk_with before) "f" before after before-ne-after
      disk-fresh refl

all_rejected :
    IsResolved "f" before staged_store
      (disk_with before)
      (reject_all staged_store (disk_with before) "f")
all_rejected =
    reject_all-stage empty (disk_with before) (disk_with before) "f" before after before-ne-after
      disk-fresh refl

decide_many-stale_example :
    (decide_many staged_store (disk_with after) "f" none true).disk ≡ disk_with after
decide_many-stale_example =
    (decide_many-stale staged_store (disk_with after) "f" none true staged_review after
      (lookup-stage empty (disk_with before) "f" before after before-ne-after) disk-changed
      after-ne-before).0

g-ne-f : ◌≢◌ {A = String} "g" "f"
g-ne-f e = false≢true ((eq_iff "g" "f").1 e)

keeps_other_files :
    read_file (decide_many staged_store (disk_with before) "f" none true).disk "g"
    ≡ read_file (disk_with before) "g"
keeps_other_files = decide_many-other_files staged_store (disk_with before) "f" "g" none true g-ne-f

unknown_id_decided :
    IsResolved "f" before staged_store
      (disk_with before)
      (decide staged_store (disk_with before) "f" 99 true)
unknown_id_decided =
    decide-unknown_id empty (disk_with before) (disk_with before) "f" before after one_hunk 99 true
      before-ne-after compute_one (omega arith) disk-fresh refl

-- A review of two hunks after a decision about the unknown id 7 and then AcceptAll.
abbrev overfull : Pending
overfull = record staged_review {
  hunks = one_hunk ∷ record one_hunk { id = 1; old_start = 5 } ∷ [];
  decided = (7, true) ∷ (0, true) ∷ (1, true) ∷ [];
  accepted = (7, true) ∷ (0, true) ∷ (1, true) ∷ [];
}

abbrev overfull_store : Store
overfull_store = record { by_path = ("f", overfull) ∷ []; notices = 0 }

stays_stuck : (accept_all overfull_store (disk_with before) "f").disk ≡ disk_with before
unfolding accept_all
stays_stuck =
    (decide_many-stuck overfull_store (disk_with before) "f" none true overfull
      (unfold lookup in refl) (omega arith)).0

apply_hunks-compute_hunks_example :
    apply_hunks before (compute_hunks before after) []
    ≡ join (resolve (is_accepted []) 0 false (script before after))
apply_hunks-compute_hunks_example = apply_hunks-compute_hunks before after []

compute_hunks-IsPatch_example : IsPatch (split_lines before) 0 0 (compute_hunks before after)
compute_hunks-IsPatch_example = compute_hunks-IsPatch before after

no_hunks : (compute_hunks before after ≡ []) ↔ (before ≡ after)
no_hunks = compute_hunks-eq-nil before after

lines_joined : join (split_lines before) ≡ before
lines_joined = join-split_lines before

script_of_edit : IsScript (split_lines before) (split_lines after) (script before after)
script_of_edit = script-IsScript before after

diff_middle-keeps_longest_example :
    IsSubsequence
      (kept_of (diff_middle (split_lines before) (split_lines after)))
      (split_lines before)
    × IsSubsequence
        (kept_of (diff_middle (split_lines before) (split_lines after)))
        (split_lines after)
    × ((cs : List Line)
        → IsSubsequence cs (split_lines before)
        → IsSubsequence cs (split_lines after)
        → length cs ≤ length (kept_of (diff_middle (split_lines before) (split_lines after))))
diff_middle-keeps_longest_example =
    diff_middle-keeps_longest (split_lines before) (split_lines after)
