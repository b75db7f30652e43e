-- ===== src/Mcp/Paths.antt =====
-- native_tools.go: resolveWorkspacePath, resolveExisting and withinRoot. A clean absolute path is
-- the list of its elements, the last one first, so the parent of a path is its tail. What symbolic
-- links the file system has is a parameter.
use vmux.Base.{
  ◌≡◌, inl, inr, refl, sym, ap, Bool, true, false, ◌&&◌, ◌||◌, List, [], ◌∷◌, ◌++◌, Option, none,
  some, ◌⊎◌, ◌∙◌, String, String-eq, ◌==◌, if◌then◌else◌, arith, Bool-cases, Option-cases, Map,
  lookup,
}
use mathlib.Core.List.{foldl, append-nil}

abbrev pub FilePath : Type 0
FilePath = List String

-- filepath.Dir
parent_of : FilePath → FilePath
parent_of [] = []
parent_of (e ∷ p) = p

-- One element of a path that filepath.Join cleans.
unfoldable pub enter : FilePath → String → FilePath
unfolding parent_of
enter p e = if e == "" || e == "." then p else if e == ".." then parent_of p else e ∷ p

-- filepath.Join(root, rel) for a clean absolute root; `rel` is split at its slashes.
unfoldable pub join_path : FilePath → List String → FilePath
unfolding enter
join_path root rel = foldl enter root rel

-- filepath.EvalSymlinks on absolute paths; `none` is an error.
abbrev pub Links : Type 0
Links = FilePath → Option FilePath

-- The loop of resolveExisting at the prefix `cur`, with the elements that were cut off it; `p` is
-- the whole path.
unfoldable pub resolve_from : Links → FilePath → FilePath → List String → FilePath
unfolding join_path
resolve_from links p [] suffix = elim (links []) [
  | some resolved ↦ join_path resolved suffix
  | none ↦ p
]
resolve_from links p (e ∷ parent) suffix =
    let above = resolve_from links p parent (e ∷ suffix) in
    elim (links (e ∷ parent)) [ some resolved ↦ join_path resolved suffix | none ↦ above ]

unfoldable pub resolve_existing : Links → FilePath → FilePath
unfolding resolve_from
resolve_existing links p = resolve_from links p p []

path_eq : FilePath → FilePath → Bool
path_eq [] [] = true
path_eq [] (y ∷ ys) = false
path_eq (x ∷ xs) [] = false
path_eq (x ∷ xs) (y ∷ ys) = x == y && path_eq xs ys

path_eq_lem : (p q : FilePath) → path_eq p q ≡ true → p ≡ q
unfolding path_eq
path_eq_lem [] [] h = refl
path_eq_lem [] (y ∷ ys) h = cc
path_eq_lem (x ∷ xs) [] h = cc
path_eq_lem (x ∷ xs) (y ∷ ys) h = ground (arith, path_eq_lem xs ys, String-eq.test_iff x y)

-- withinRoot: between clean absolute paths filepath.Rel succeeds, and its result does not begin
-- with ".." exactly where `p` is the root or lies below it.
unfoldable pub within_root : FilePath → FilePath → Bool
unfolding path_eq
within_root root [] = path_eq root []
within_root root (e ∷ parent) = path_eq root (e ∷ parent) || within_root root parent

pub data PathError : Type 0 where
  unknown_workspace bad_root escapes_workspace : PathError

pub data Resolved : Type 0 where
  inside : FilePath → Resolved
  refused : PathError → Resolved

within_cases : Bool → FilePath → Resolved
within_cases true p = inside p
within_cases false p = refused escapes_workspace

resolve_at : Links → Option FilePath → List String → Resolved
unfolding within_cases join_path
resolve_at links none rel = refused bad_root
resolve_at links (some root) rel =
    let joined = join_path root rel in
    within_cases (within_root root (resolve_existing links joined)) joined

-- The root of a workspace is looked up in the registry.
unfoldable pub resolve_workspace_path :
    Links → Map String FilePath → String → List String → Resolved
unfolding resolve_at
resolve_workspace_path links workspaces id rel = elim (lookup id workspaces) [
  | none ↦ refused unknown_workspace
  | some path ↦ resolve_at links (links path) rel
]

-- `p` is `root` or lies below it.
abbrev pub IsBelow : FilePath → FilePath → Type 0
IsBelow root p = (below : List String) × (p ≡ below ++ root)

pub within_root-IsBelow : (root p : FilePath) → within_root root p ≡ true → IsBelow root p
unfolding within_root
within_root-IsBelow root [] h = ([], sym (path_eq_lem root [] h))
within_root-IsBelow root (e ∷ parent) h = elim (Bool-cases (path_eq root (e ∷ parent))) [
  | inl same ↦ ([], sym (path_eq_lem root (e ∷ parent) same))
  | inr other ↦
      let (below, eq) = within_root-IsBelow root parent (rw other at h) in
      (e ∷ below, ap (◌∷◌ e) eq)
]

-- The elements of a path below one of its prefixes, in order, in front of `rest`.
abbrev pub down : List String → List String → List String
down [] rest = rest
down (e ∷ above) rest = down above (e ∷ rest)

-- EvalSymlinks resolves no path from `above ++ below` down to a path above `below`.
abbrev pub NoneAbove : Links → List String → FilePath → Type 0
NoneAbove links [] below = Unit
NoneAbove links (e ∷ above) below =
    (links (e ∷ above ++ below) ≡ none) × NoneAbove links above below

-- `real` is where the path `p` leads: the longest prefix `below` of `p` that EvalSymlinks resolves is
-- replaced by what it resolves to, and the elements after it are joined to that.
pub record LeadsTo (links : Links) (p real : FilePath) : Type 0 where
  pub above : List String
  pub below : FilePath
  pub target : FilePath
  pub splits : p ≡ above ++ below
  pub longest : NoneAbove links above below
  pub resolves : links below ≡ some target
  pub joined : real ≡ join_path target (down above [])

resolve_from-LeadsTo :
    (links : Links) (whole p : FilePath) (suffix : List String)
    → ((above : List String) × (below target : FilePath) × (p ≡ above ++ below)
        × NoneAbove links above below
        × (links below ≡ some target)
        × (resolve_from links whole p suffix ≡ join_path target (down above suffix)))
      ⊎ (NoneAbove links p [] × (links [] ≡ none) × (resolve_from links whole p suffix ≡ whole))
unfolding resolve_from
resolve_from-LeadsTo links whole [] suffix = elim (Option-cases (links [])) [
  | inl e ↦ inr (tt, e, rw (e, resolve_from) refl)
  | inr (real, e) ↦ inl ([], [], real, refl, tt, e, rw (e, resolve_from) refl)
]
resolve_from-LeadsTo links whole (x ∷ parent) suffix = elim (Option-cases (links (x ∷ parent))) [
  | inr (real, e) ↦ inl ([], x ∷ parent, real, refl, tt, e, rw (e, resolve_from) refl)
  | inl e ↦ elim (resolve_from-LeadsTo links whole parent (x ∷ suffix)) [
    | inl (above, below, real, splits, longest, resolves, is) ↦ inl (
      x ∷ above,
      below,
      real,
      ap (◌∷◌ x) splits,
      (ap (λ q. links (x ∷ q)) (sym splits) ∙ e, longest),
      resolves,
      rw (e, resolve_from) is,
    )
    | inr (longest, root, is) ↦
        inr (
          (ap (λ q. links (x ∷ q)) (append-nil parent) ∙ e, longest),
          root,
          rw (e, resolve_from) is,
        )
  ]
]

-- resolveExisting finds where a path leads, if EvalSymlinks resolves the root of the file system.
resolve_existing-LeadsTo :
    (links : Links) (root p : FilePath)
    → links [] ≡ some root
    → LeadsTo links p (resolve_existing links p)
unfolding resolve_existing
resolve_existing-LeadsTo links root p h = elim (resolve_from-LeadsTo links p p []) [
  | inl (above, below, target, splits, longest, resolves, is) ↦ record {
    above = above;
    below = below;
    target = target;
    splits = splits;
    longest = longest;
    resolves = resolves;
    joined = is;
  }
  | inr (longest, missing, is) ↦ cc (h, missing)
]

within_cases-inside :
    (b : Bool) (p q : FilePath) → within_cases b p ≡ inside q → (b ≡ true) × (q ≡ p)
unfolding within_cases
within_cases-inside true p q h = (refl, cc h)
within_cases-inside false p q h = cc h

resolve_at-IsBelow :
    (links : Links) (root : FilePath) (rel : List String) (p : FilePath)
    → resolve_at links (some root) rel ≡ inside p
    → (p ≡ join_path root rel) × IsBelow root (resolve_existing links p)
unfolding resolve_at
resolve_at-IsBelow links root rel p h =
    let (within, same) = within_cases-inside _ _ p h in
    (same, rw same (within_root-IsBelow root _ within))

-- A path that the tools are given for a workspace is the relative path joined to the workspace's real
-- root, and leads to that root or below it, whatever links the file system has: the longest prefix
-- of the path that EvalSymlinks resolves is replaced by what it resolves to, and the elements after
-- it are joined to that. A link to what does not exist is not resolved, and counts as such an
-- element. The root of the file system resolves.
pub resolve_workspace_path-IsBelow :
    (links : Links) (top : FilePath) (workspaces : Map String FilePath) (id : String)
    (rel : List String) (p : FilePath)
    → links [] ≡ some top
    → resolve_workspace_path links workspaces id rel ≡ inside p
    → (path root real : FilePath) × (lookup id workspaces ≡ some path)
      × (links path ≡ some root)
      × (p ≡ join_path root rel)
      × LeadsTo links p real
      × IsBelow root real
unfolding resolve_workspace_path
resolve_workspace_path-IsBelow links top workspaces id rel p has h =
    elim (Option-cases (lookup id workspaces)) [
      | inl e ↦ cc (rw (e, resolve_workspace_path) at h)
      | inr (path, e) ↦
          let h' : resolve_at links (links path) rel ≡ inside p =
            rw (e, resolve_workspace_path) at h in
          elim (Option-cases (links path)) [
            | inl f ↦ cc (rw (f, resolve_at) at h')
            | inr (root, f) ↦
                let (same, below) = resolve_at-IsBelow links root rel p (rw f at h') in
                let leads = resolve_existing-LeadsTo links top p has in
                (path, root, resolve_existing links p, e, f, same, leads, below)
          ]
    ]
