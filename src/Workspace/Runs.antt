-- ===== src/Workspace/Runs.antt =====
-- The maps of the registry over every sequence of operations.
use vmux.Base.{
  ◌≡◌, inl, inr, refl, Bool, true, false, List, [], ◌∷◌, Option, none, some, lookup, delete,
  Option-cases, String, String-eq,
}
use vmux.Workspace.Git.{GitStatus}
use vmux.Workspace.Meta.{Codec, Env}
use vmux.Workspace.Registry.{
  Workspace, Registry, persist, id_or, open_locked, open_new, open_at, open_dir, open_path, close,
  Opened, opened, failed, on_git_change, Step, opens, closes, git_changes, step, run,
}
use vmux.Workspace.Inverse.{IsInverse, delete-IsInverse, update-IsInverse}
use vmux.Workspace.Steps.{Holds, open_locked-IsOpening, IsOpening-Holds, persist-Holds}

open_new-Holds :
    (codec : Codec) (env : Env) (r : Registry) (path fresh : String)
    → lookup fresh r.by_id ≡ none
    → lookup path r.by_path ≡ none
    → Holds r
    → Holds (open_new codec env r path fresh).0
unfolding open_new id_or
open_new-Holds codec env r path fresh new_id new_path h =
    persisted (open_locked codec env r path "" fresh) (
      IsOpening-Holds r fresh path (open_locked codec env r path "" fresh) new_id new_path
        (open_locked-IsOpening codec env r path "" fresh) h)
  where
    persisted :
        (out : Registry × Option Workspace)
        → Holds out.0
        → Holds
            (elim out.1 as (λ o. Registry × Opened) [
              | none ↦ (out.0, failed)
              | some v ↦ (persist env out.0, opened (some v))
            ]).0
    persisted (r', none) k = k
    persisted (r', some w) k = persist-Holds env r' k

open_at-Holds :
    (codec : Codec) (env : Env) (r : Registry) (path fresh : String)
    → lookup fresh r.by_id ≡ none
    → Holds r
    → Holds (open_at codec env r path fresh).0
unfolding open_at
open_at-Holds codec env r path fresh new_id h = elim (Option-cases (lookup path r.by_path)) [
  | inl e ↦ rw (e, open_at) (open_new-Holds codec env r path fresh new_id e h)
  | inr (id, e) ↦ rw (e, open_at) h
]

open_dir-Holds :
    (codec : Codec) (env : Env) (r : Registry) (path : String) (d : Option Bool) (fresh : String)
    → lookup fresh r.by_id ≡ none
    → Holds r
    → Holds (open_dir codec env r path d fresh).0
unfolding open_dir
open_dir-Holds codec env r path none fresh new_id h = h
open_dir-Holds codec env r path (some false) fresh new_id h = h
open_dir-Holds codec env r path (some true) fresh new_id h =
    open_at-Holds codec env r path fresh new_id h

open_path-Holds :
    (codec : Codec) (env : Env) (r : Registry) (path fresh : String)
    → lookup fresh r.by_id ≡ none
    → Holds r
    → Holds (open_path codec env r path fresh).0
unfolding open_path
open_path-Holds codec env r path fresh new_id h = elim (Option-cases (env.abs path)) [
  | inl e ↦ rw (e, open_path) h
  | inr (p, e) ↦ rw (e, open_path) (open_dir-Holds codec env r p (env.is_dir p) fresh new_id h)
]

close-Holds : (env : Env) (r : Registry) (id : String) → Holds r → Holds (close env r id).0
unfolding close
close-Holds env r id h = elim (Option-cases (lookup id r.by_id)) [
  | inl e ↦ rw (e, close) h
  | inr (w, e) ↦
      rw (e, close)
        (persist-Holds env
          (record r { by_id = delete id r.by_id; by_path = delete w.path r.by_path })
          (delete-IsInverse r.by_id r.by_path id w e h))
]

on_git_change-Holds :
    (r : Registry) (id : String) (st : GitStatus) → Holds r → Holds (on_git_change r id st)
unfolding on_git_change
on_git_change-Holds r id st h = elim (Option-cases (lookup id r.by_id)) [
  | inl e ↦ rw (e, on_git_change) h
  | inr (w, e) ↦
      rw (e, on_git_change)
        (update-IsInverse r.by_id r.by_path id w (record w { git = st }) e refl refl h)
]

-- Each id that is drawn is not in use.
abbrev pub AreFresh : Codec → Registry → List Step → Type 0
AreFresh codec r [] = Unit
AreFresh codec r (opens env path fresh ∷ steps) =
    (lookup fresh r.by_id ≡ none) × AreFresh codec (step codec r (opens env path fresh)) steps
AreFresh codec r (closes env id ∷ steps) = AreFresh codec (step codec r (closes env id)) steps
AreFresh codec r (git_changes id st ∷ steps) =
    AreFresh codec (step codec r (git_changes id st)) steps

-- Whatever is opened, closed and reported, in whatever environment, the registry's two maps stay
-- inverse to one another: each path leads to the workspace at that path, and each workspace stands
-- under its own id and is found by its path. The ids that are drawn must be new.
pub run-IsInverse :
    (codec : Codec) (r : Registry) (steps : List Step)
    → AreFresh codec r steps
    → IsInverse r.by_id r.by_path
    → IsInverse (run codec r steps).by_id (run codec r steps).by_path
unfolding run step
run-IsInverse codec r [] fresh h = h
run-IsInverse codec r (opens env path id ∷ steps) fresh h =
    run-IsInverse codec (step codec r (opens env path id)) steps fresh.1
      (open_path-Holds codec env r path id fresh.0 h)
run-IsInverse codec r (closes env id ∷ steps) fresh h =
    run-IsInverse codec (step codec r (closes env id)) steps fresh (close-Holds env r id h)
run-IsInverse codec r (git_changes id st ∷ steps) fresh h =
    run-IsInverse codec (step codec r (git_changes id st)) steps fresh
      (on_git_change-Holds r id st h)
