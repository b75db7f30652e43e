-- ===== src/Mcp/Writes.antt =====
-- What file_write does to the disk in each mode of the approval gate.
use vmux.Base.{
  ◌≡◌, ◌≢◌, inl, inr, refl, sym, ap, ◌∙◌, true, false, [], none, some, String, String-eq, arith,
  Option-cases, Bytes, eq_self, test_of_ne, Bytes-eq,
}
use vmux.Approval.Gate.{Gate, mode, mode_gate, mode_sandbox, evaluate, deny}
use mathlib.Core.Bool.{false≢true}
use text.Mathlib.TextEquality.{eq_iff}
use vmux.Approval.Queue.{Action}
use vmux.Diff.Store.{Disk, Store, read_file, stage, is_stale, accept_all, reject_all}
use vmux.Diff.Decisions.{IsResolved, accept_all-stage, reject_all-stage, read_file-write_file}
use vmux.Mcp.Paths.{FilePath, Resolved, inside, refused, resolve_workspace_path}
use vmux.Mcp.Files.{World, WriteArgs, path_text, staging_store, text_or_empty, write_at, file_write}

staging_store-gate_mode :
    (w : World) (g : Gate) (s : Store) (workspace : String)
    → w.gate ≡ some g
    → w.reviews ≡ some s
    → mode g workspace ≡ mode_gate
    → staging_store w workspace ≡ some s
unfolding staging_store
staging_store-gate_mode w g s workspace has_gate has_store gated =
    ground (arith, String-eq.test_iff (mode g workspace) mode_gate)

staging_store-other_mode :
    (w : World) (g : Gate) (workspace : String)
    → w.gate ≡ some g
    → mode g workspace ≢ mode_gate
    → staging_store w workspace ≡ none
unfolding staging_store
staging_store-other_mode w g workspace has_gate other = elim (Option-cases w.reviews) [
  | inl e ↦ ground (arith, e)
  | inr (s, e) ↦ ground (arith, e, has_gate, test_of_ne (mode g workspace) mode_gate other)
]

write_at-staged :
    (w : World) (s : Store) (workspace : String) (content : Bytes) (p : Resolved)
    → staging_store w workspace ≡ some s
    → (write_at w workspace content p).0.disk ≡ w.disk
unfolding write_at
write_at-staged w s workspace content (refused e) h = refl
write_at-staged w s workspace content (inside p) h = rw h (ground arith)

-- With a diff store present and the workspace in gate mode, file_write changes no file, whatever
-- its arguments are.
pub file_write-gate_mode :
    (w : World) (g : Gate) (s : Store) (a : WriteArgs)
    → w.gate ≡ some g
    → w.reviews ≡ some s
    → mode g a.workspace_id ≡ mode_gate
    → (file_write w (some a)).0.disk ≡ w.disk
unfolding file_write
file_write-gate_mode w g s a has_gate has_store gated =
    write_at-staged w s a.workspace_id a.content
      (resolve_workspace_path w.links w.workspaces a.workspace_id a.path)
      (staging_store-gate_mode w g s a.workspace_id has_gate has_store gated)

-- The action that a file write would be, if the handler asked the gate about it.
abbrev pub write_action : WriteArgs → Action
write_action a = record { tool = "file_write"; command = []; args = []; workspace = a.workspace_id }

sandbox-ne-gate : mode_sandbox ≢ mode_gate
sandbox-ne-gate e = false≢true ((eq_iff mode_sandbox mode_gate).1 e)

sandbox-denies :
    (g : Gate) (a : WriteArgs)
    → mode g a.workspace_id ≡ mode_sandbox
    → (evaluate g (write_action a)).decision ≡ deny
unfolding evaluate
sandbox-denies g a e = rw e

-- In sandbox mode the gate denies the action "file_write", and yet the handler writes: where the
-- path lies in the workspace, its directory can be made and the file can be written, the file holds
-- the content afterwards.
pub file_write-sandbox :
    (w : World) (g : Gate) (a : WriteArgs) (p : FilePath)
    → w.gate ≡ some g
    → mode g a.workspace_id ≡ mode_sandbox
    → resolve_workspace_path w.links w.workspaces a.workspace_id a.path ≡ inside p
    → w.mkdir_succeeds p ≡ true
    → w.disk.writable (path_text p) ≡ true
    → ((evaluate g (write_action a)).decision ≡ deny)
      × (read_file (file_write w (some a)).0.disk (path_text p) ≡ some a.content)
unfolding file_write
file_write-sandbox w g a p has_gate sandboxed resolved made writable =
    let other : mode g a.workspace_id ≢ mode_gate = λ e. sandbox-ne-gate (sym sandboxed ∙ e) in
    let direct = staging_store-other_mode w g a.workspace_id has_gate other in
    (
      sandbox-denies g a sandboxed,
      rw (resolved, write_at, made, direct)
          (rw (read_file-write_file w.disk (path_text p) (path_text p) a.content 0o644 writable)
            (rw (eq_self (path_text p)))),
    )

-- Nothing is stale about a file that was read just now.
is_stale-read :
    (d : Disk) (path : String) → is_stale d path (text_or_empty (read_file d path)) ≡ false
unfolding is_stale text_or_empty
is_stale-read d path = ground (arith, eq_self (text_or_empty (read_file d path)))

-- A write in gate mode that changes the file, followed by AcceptAll on the same disk, leaves the
-- file as a direct write would: it holds the content, and no other file or review has changed.
pub file_write-then_accept :
    (w : World) (g : Gate) (s : Store) (a : WriteArgs) (p : FilePath)
    → w.gate ≡ some g
    → w.reviews ≡ some s
    → mode g a.workspace_id ≡ mode_gate
    → resolve_workspace_path w.links w.workspaces a.workspace_id a.path ≡ inside p
    → w.mkdir_succeeds p ≡ true
    → text_or_empty (read_file w.disk (path_text p)) ≢ a.content
    → w.disk.writable (path_text p) ≡ true
    → (s' : Store) × ((file_write w (some a)).0.reviews ≡ some s')
      × IsResolved (path_text p) a.content s' w.disk (accept_all s' w.disk (path_text p))
unfolding file_write
file_write-then_accept w g s a p has_gate has_store gated resolved made changed writable =
    let old = text_or_empty (read_file w.disk (path_text p)) in
    (
      (stage s w.disk (path_text p) old a.content).0,
      rw (
        resolved,
        write_at,
        made,
        staging_store-gate_mode w g s a.workspace_id has_gate has_store gated,
      ),
      accept_all-stage s w.disk w.disk (path_text p) old a.content changed
          (is_stale-read w.disk (path_text p)) writable,
    )

-- A write in gate mode to a file that is missing, rejected by the user, creates the file, empty.
pub file_write-reject_missing :
    (w : World) (g : Gate) (s : Store) (a : WriteArgs) (p : FilePath)
    → w.gate ≡ some g
    → w.reviews ≡ some s
    → mode g a.workspace_id ≡ mode_gate
    → resolve_workspace_path w.links w.workspaces a.workspace_id a.path ≡ inside p
    → w.mkdir_succeeds p ≡ true
    → read_file w.disk (path_text p) ≡ none
    → a.content ≢ []
    → w.disk.writable (path_text p) ≡ true
    → (s' : Store) × ((file_write w (some a)).0.reviews ≡ some s')
      × (read_file (reject_all s' w.disk (path_text p)).disk (path_text p) ≡ some [])
unfolding file_write
file_write-reject_missing w g s a p has_gate has_store gated resolved made missing filled writable =
    let old = text_or_empty (read_file w.disk (path_text p)) in
    let empty : old ≡ [] = unfold text_or_empty in rw missing in
    let r =
      reject_all-stage s w.disk w.disk (path_text p) old a.content (λ e. filled (sym e ∙ empty))
        (is_stale-read w.disk (path_text p)) writable in
    (
      (stage s w.disk (path_text p) old a.content).0,
      rw (
        resolved,
        write_at,
        made,
        staging_store-gate_mode w g s a.workspace_id has_gate has_store gated,
      ),
      r.file ∙ ap some empty,
    )
