-- ===== src/Workspace/Steps.antt =====
-- What every operation of the registry keeps.
use vmux.Base.{
  ◌≡◌, inl, inr, refl, ap, subst, ◌∙◌, Option, none, some, Map, lookup, insert, Bool-cases, String,
  String-eq, Bytes,
}
use vmux.Workspace.Git.{GitStatus, read_git_status}
use vmux.Workspace.Meta.{Meta, Codec, Env, read_or_create_meta}
use vmux.Workspace.Registry.{Workspace, Registry, persist, id_or, enter, open_with, open_locked}
use vmux.Workspace.Inverse.{IsInverse, insert-IsInverse}

abbrev pub Holds : Registry → Type 0
Holds r = IsInverse r.by_id r.by_path

-- The registry has the same workspaces and the same file.
pub record IsSameMaps (r r' : Registry) : Type 0 where
  pub by_id : r'.by_id ≡ r.by_id
  pub by_path : r'.by_path ≡ r.by_path

-- `r'` has the workspace `w` at `path`, under the id `id`, besides those of `r`.
pub record IsEntered (r r' : Registry) (id path : String) (w : Workspace) : Type 0 where
  pub id_is : w.id ≡ id
  pub path_is : w.path ≡ path
  pub by_id : r'.by_id ≡ insert id w r.by_id
  pub by_path : r'.by_path ≡ insert path id r.by_path

-- What openLocked comes to: an error and no new workspace, or a workspace entered in both maps.
abbrev pub IsOpening : Registry → String → String → Registry × Option Workspace → Type 0
IsOpening r id path (r', none) = IsSameMaps r r'
IsOpening r id path (r', some w) = IsEntered r r' id path w

enter-IsOpening :
    (env : Env) (r : Registry) (path id : String) (meta : Meta) (st : Option GitStatus)
    → IsOpening r id path (enter env r path id meta st)
unfolding enter
enter-IsOpening env r path id meta none = record { by_id = refl; by_path = refl }
enter-IsOpening env r path id meta (some st) = elim (Bool-cases (env.watch path)) [
  | inl e ↦ rw e (record { id_is = refl; path_is = refl; by_id = refl; by_path = refl })
  | inr e ↦ rw e (record { by_id = refl; by_path = refl })
]

open_with-IsOpening :
    (env : Env) (r : Registry) (path id : String) (meta : Option Meta)
    → IsOpening r id path (open_with env r path id meta)
unfolding open_with
open_with-IsOpening env r path id none = record { by_id = refl; by_path = refl }
open_with-IsOpening env r path id (some meta) =
    enter-IsOpening env r path id meta (read_git_status (env.git path))

of_metas :
    (r : Registry) (metas : Map String Bytes) (id path : String) (out : Registry × Option Workspace)
    → IsOpening (record r { metas = metas }) id path out
    → IsOpening r id path out
of_metas r metas id path (r', none) h = record { by_id = h.by_id; by_path = h.by_path }
of_metas r metas id path (r', some w) h = record {
  id_is = h.id_is;
  path_is = h.path_is;
  by_id = h.by_id;
  by_path = h.by_path;
}

pub open_locked-IsOpening :
    (codec : Codec) (env : Env) (r : Registry) (path fixed fresh : String)
    → IsOpening r (id_or fixed fresh) path (open_locked codec env r path fixed fresh)
unfolding open_locked
open_locked-IsOpening codec env r path fixed fresh =
    let (metas, meta) = read_or_create_meta codec env r.metas path in
    of_metas r metas (id_or fixed fresh) path
      (open_with env (record r { metas = metas }) path (id_or fixed fresh) meta)
      (open_with-IsOpening env (record r { metas = metas }) path (id_or fixed fresh) meta)

pub IsOpening-Holds :
    (r : Registry) (id path : String) (out : Registry × Option Workspace)
    → lookup id r.by_id ≡ none
    → lookup path r.by_path ≡ none
    → IsOpening r id path out
    → Holds r
    → Holds out.0
IsOpening-Holds r id path (r', none) new_id new_path o h = rw (o.by_id, o.by_path) h
IsOpening-Holds r id path (r', some w) new_id new_path o h =
    rw (o.by_id, o.by_path)
      (subst (λ k. IsInverse (insert k w r.by_id) (insert path k r.by_path)) o.id_is
        (subst (λ p. IsInverse (insert w.id w r.by_id) (insert p w.id r.by_path)) o.path_is
          (insert-IsInverse r.by_id r.by_path w (ap (λ k. lookup k r.by_id) o.id_is ∙ new_id)
            (ap (λ p. lookup p r.by_path) o.path_is ∙ new_path) h)))

pub persist-Holds : (env : Env) (r : Registry) → Holds r → Holds (persist env r)
unfolding persist
persist-Holds env r h = elim (Bool-cases env.can_save) [ inl e ↦ rw e h | inr e ↦ rw e h ]
