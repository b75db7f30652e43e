-- ===== src/Workspace/Reload.antt =====
-- Opened, saved and loaded again, the workspaces have the ids and paths they had.
use vmux.Base.{
  ◌≡◌, ◌≢◌, inl, inr, refl, sym, ap, subst, ◌∙◌, true, List, [], ◌∷◌, Option, none, some,
  if◌then◌else◌, Map, lookup, insert, Bool-cases, String, String-eq, ◌==◌, Bytes, test_of_ne,
  eq_of_test, eq_self, Every, map, lookup-insert_other, lookup-insert_self, DistinctKeys,
}
use vmux.Workspace.Meta.{Codec, Env}
use vmux.Workspace.Registry.{
  Workspace, Registry, Entry, entry_of, persist, load_entries, empty, new_registry,
}
use vmux.Workspace.Inverse.{IsInverse}
use vmux.Workspace.Restart.{IsReady, loaded, load_entry-IsReady}

-- The path of the workspace under an id, if there is one.
abbrev pub path_of : Registry → String → Option String
path_of r id = elim (lookup id r.by_id) [ none ↦ none | some w ↦ some w.path ]

abbrev pairs : List Entry → Map String String
pairs [] = []
pairs (e ∷ es) = (e.id, e.path) ∷ pairs es

abbrev or_else : Option String → Option String → Option String
or_else none o = o
or_else (some p) o = some p

-- No id and no path stands in two entries.
abbrev pub AreDistinct : List Entry → Type 0
AreDistinct [] = Unit
AreDistinct (e ∷ es) = Every (λ d. (e.id ≢ d.id) × (e.path ≢ d.path)) es × AreDistinct es

lookup-pairs-none :
    (id path : String) (es : List Entry)
    → Every (λ (d : Entry). (id ≢ d.id) × (path ≢ d.path)) es
    → lookup id (pairs es) ≡ none
unfolding lookup
lookup-pairs-none id path [] h = refl
lookup-pairs-none id path (e ∷ es) h =
    rw (test_of_ne id e.id h.0.0) (lookup-pairs-none id path es h.1)

module _ (codec : Codec) (env : Env) (fresh : String → String) where
  -- The entry can be loaded into `r`.
  abbrev IsLoadable : Registry → Entry → Type 0
  IsLoadable r e = IsReady codec env r.metas e.path × (e.id ≢ "") × (lookup e.path r.by_path ≡ none)

  still_absent :
      (id path : String) (by_path : Map String String) (metas : Map String Bytes) (es : List Entry)
      → Every (λ (d : Entry). (id ≢ d.id) × (path ≢ d.path)) es
      → Every
          (λ (d : Entry).
            IsReady codec env metas d.path × (d.id ≢ "") × (lookup d.path by_path ≡ none))
          es
      → Every
          (λ (d : Entry).
            IsReady codec env metas d.path
            × (d.id ≢ "")
            × (lookup d.path (insert path id by_path) ≡ none))
          es
  still_absent id path by_path metas [] n h = tt
  still_absent id path by_path metas (e ∷ es) n h = (
    (h.0.0, h.0.1, lookup-insert_other path e.path id by_path n.0.1 ∙ h.0.2),
    still_absent id path by_path metas es n.1 h.1,
  )

  entered-path_of :
      (r : Registry) (e : Entry) (w : Workspace) (by_path : Map String String) (es : List Entry)
      (id : String)
      → w.path ≡ e.path
      → Every (λ (d : Entry). (e.id ≢ d.id) × (e.path ≢ d.path)) es
      → or_else
          (lookup id (pairs es))
          (path_of (record r { by_id = insert e.id w r.by_id; by_path = by_path }) id)
        ≡ or_else (if id == e.id then some e.path else lookup id (pairs es)) (path_of r id)
  entered-path_of r e w by_path es id at d = elim (Bool-cases (id == e.id)) [
    | inl t ↦
        let is : e.id ≡ id = sym (eq_of_test id e.id t) in
        let gone : lookup id (pairs es) ≡ none =
          ap (λ k. lookup k (pairs es)) (sym is) ∙ lookup-pairs-none e.id e.path es d in
        let found : lookup id (insert e.id w r.by_id) ≡ some w =
          ap (λ k. lookup k (insert e.id w r.by_id)) (sym is) ∙ lookup-insert_self e.id w r.by_id in
        rw (t, gone, path_of, found, at)
    | inr t ↦
        let kept : lookup id (insert e.id w r.by_id) ≡ lookup id r.by_id =
          lookup-insert_other e.id id w r.by_id (λ p. cc (t, eq_self id, p)) in
        rw (t, path_of, kept)
  ]

  load_entries-path_of :
      (r : Registry) (es : List Entry) (id : String)
      → Every (IsLoadable r) es
      → AreDistinct es
      → path_of (load_entries codec env fresh r es) id
        ≡ or_else (lookup id (pairs es)) (path_of r id)
  unfolding load_entries lookup
  load_entries-path_of r [] id h d = refl
  load_entries-path_of r (e ∷ es) id h d =
      let w : Workspace = loaded codec env fresh e h.0.0.meta h.0.0.git in
      let r' : Registry = record r {
        by_id = insert e.id w r.by_id;
        by_path = insert e.path e.id r.by_path;
      } in
      ap (λ q. path_of (load_entries codec env fresh q es) id)
        (load_entry-IsReady codec env fresh r e h.0.0 h.0.1 h.0.2)
      ∙ load_entries-path_of r' es id (still_absent e.id e.path r.by_path r.metas es d.0 h.1) d.1
      ∙ entered-path_of r e w (insert e.path e.id r.by_path) es id refl d.0

-- An entry of the map by id that the map by path leads to.
abbrev IsNamed : Map String String → String × Workspace → Type 0
IsNamed by_path kv = (kv.1.id ≡ kv.0) × (lookup kv.1.path by_path ≡ some kv.0)

entries_apart :
    (by_path : Map String String) (kv : String × Workspace) (m : Map String Workspace)
    → IsNamed by_path kv
    → Every (λ (e : String × Workspace). kv.0 ≢ e.0) m
    → Every (IsNamed by_path) m
    → Every (λ (d : Entry). (kv.1.id ≢ d.id) × (kv.1.path ≢ d.path)) (map entry_of m)
entries_apart by_path kv [] h other named = tt
entries_apart by_path kv (e ∷ m) h other named = (
  (
    λ p. other.0 (sym h.0 ∙ p ∙ named.0.0),
    λ p.
        let same : some kv.0 ≡ some e.0 = sym h.1 ∙ ap (λ q. lookup q by_path) p ∙ named.0.1 in
        other.0 (cc same),
  ),
  entries_apart by_path kv m h other.1 named.1,
)

-- What a registry with inverse maps writes: distinct entries, one for each workspace.
named_entries :
    (by_path : Map String String) (m : Map String Workspace)
    → DistinctKeys m
    → Every (IsNamed by_path) m
    → AreDistinct (map entry_of m)
named_entries by_path [] keys h = tt
named_entries by_path (kv ∷ m) keys h =
    (entries_apart by_path kv m h.0 keys.0 h.1, named_entries by_path m keys.1 h.1)

lookup-pairs :
    (by_path : Map String String) (m : Map String Workspace) (id : String)
    → Every (IsNamed by_path) m
    → lookup id (pairs (map entry_of m)) ≡ elim (lookup id m) [ none ↦ none | some w ↦ some w.path ]
unfolding lookup
lookup-pairs by_path [] id h = refl
lookup-pairs by_path (kv ∷ m) id h = elim (Bool-cases (id == kv.0)) [
  | inl t ↦ rw (h.0.0, t)
  | inr t ↦ rw (h.0.0, t, lookup-pairs by_path m id h.1)
]

lookup-absent :
    (key : String) (m : Map String Workspace)
    → Every (λ (e : String × Workspace). key ≢ e.0) m
    → lookup key m ≡ none
unfolding lookup
lookup-absent key [] h = refl
lookup-absent key (e ∷ m) h = rw (test_of_ne key e.0 h.0) (lookup-absent key m h.1)

-- A fact about what each key leads to is one about every entry, where no key stands twice.
Every-entry :
    (P : String × Workspace → Type 0) (m : Map String Workspace)
    → DistinctKeys m
    → ((id : String) (w : Workspace) → lookup id m ≡ some w → P (id, w))
    → Every P m
unfolding lookup
Every-entry P [] keys h = tt
Every-entry P (kv ∷ m) keys h = (
  h kv.0 kv.1 (rw (eq_self kv.0) refl),
  Every-entry P m keys.1 (λ id w got.
      let other : id ≢ kv.0 = λ p. cc (got, ap (λ k. lookup k m) p, lookup-absent kv.0 m keys.0) in
      h id w (rw (test_of_ne id kv.0 other) got)),
)

mapped_Every :
    (P : Entry → Type 0) (m : Map String Workspace)
    → Every (λ (kv : String × Workspace). P (entry_of kv)) m
    → Every P (map entry_of m)
mapped_Every P [] h = tt
mapped_Every P (kv ∷ m) h = (h.0, mapped_Every P m h.1)

abbrev no_paths : Map String String
no_paths = []

absent_first : (path : String) → lookup path no_paths ≡ none
unfolding lookup
absent_first path = refl

nothing_before :
    (o : Option String) (id : String) (saved : Option (List Entry)) (metas : Map String Bytes)
    → or_else o (path_of (empty saved metas) id) ≡ o
unfolding lookup
nothing_before none id saved metas = refl
nothing_before (some p) id saved metas = refl

-- A registry that has been saved and is loaded again has, under every id, a workspace at the same
-- path as before, or none where there was none: provided that the registry's file could be
-- written, the old maps were inverse to one another with no empty id, and each of its workspaces
-- can be opened again, with its metadata file in place.
pub new_registry-persist :
    (codec : Codec) (saving env : Env) (fresh : String → String) (r : Registry)
    (metas : Map String Bytes) (id : String)
    → saving.can_save ≡ true
    → IsInverse r.by_id r.by_path
    → ((k : String) (w : Workspace)
        → lookup k r.by_id ≡ some w
        → (k ≢ "") × IsReady codec env metas w.path)
    → path_of (new_registry codec env fresh (persist saving r).saved metas) id ≡ path_of r id
unfolding new_registry persist
new_registry-persist codec saving env fresh r metas id saves h ready =
    let es : List Entry = map entry_of r.by_id in
    let named : Every (IsNamed r.by_path) r.by_id =
      Every-entry (IsNamed r.by_path) r.by_id h.keys (λ k w got. h.named k w got) in
    let loadable : Every (IsLoadable codec env fresh (empty (some es) metas)) es =
      mapped_Every (IsLoadable codec env fresh (empty (some es) metas)) r.by_id (
        Every-entry
          (λ (kv : String × Workspace).
            IsLoadable codec env fresh (empty (some es) metas) (entry_of kv))
          r.by_id h.keys
          (λ k w got.
            let can = ready k w got in
            (can.1, subst (λ i. i ≢ "") (sym (h.named k w got).0) can.0, absent_first w.path))) in
    rw saves (
      load_entries-path_of codec env fresh (empty (some es) metas) es id loadable
        (named_entries r.by_path r.by_id h.keys named)
      ∙ nothing_before (lookup id (pairs es)) id (some es) metas
      ∙ lookup-pairs r.by_path r.by_id id named)
