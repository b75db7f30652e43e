-- ===== src/Workspace/Inverse.antt =====
-- The two maps of the registry, by id and by path, are inverse to one another.
use vmux.Base.{
  ◌≡◌, inl, inr, sym, ap, subst, ◌∙◌, none, some, Map, lookup, insert, delete, lookup-insert_cases,
  lookup-insert_self, lookup-insert_other, lookup-delete_cases, lookup-delete_other, DistinctKeys,
  insert-DistinctKeys, delete-DistinctKeys, Bool-cases, String, String-eq, ◌==◌, eq_of_test,
  eq_self,
}
use vmux.Workspace.Registry.{Workspace}

pub record IsInverse (by_id : Map String Workspace) (by_path : Map String String) : Type 0 where
  pub known :
      (path id : String)
      → lookup path by_path ≡ some id
      → (w : Workspace) × (lookup id by_id ≡ some w) × (w.path ≡ path)
  pub named :
      (id : String) (w : Workspace)
      → lookup id by_id ≡ some w
      → (w.id ≡ id) × (lookup w.path by_path ≡ some id)
  pub keys : DistinctKeys by_id

-- A new workspace under an id and a path that the maps do not have.
pub insert-IsInverse :
    (by_id : Map String Workspace) (by_path : Map String String) (w : Workspace)
    → lookup w.id by_id ≡ none
    → lookup w.path by_path ≡ none
    → IsInverse by_id by_path
    → IsInverse (insert w.id w by_id) (insert w.path w.id by_path)
insert-IsInverse by_id by_path w new_id new_path h = record {
  known = λ path id got. elim (lookup-insert_cases w.path path w.id by_path got) [
    | inl (here, is) ↦
        let same : w.id ≡ id = cc is in
        (
          w,
          ap (λ k. lookup k (insert w.id w by_id)) (sym same) ∙ lookup-insert_self w.id w by_id,
          here,
        )
    | inr (other, older) ↦
        let (v, found, at) = h.known path id older in
        (v, lookup-insert_other w.id id w by_id (λ e. cc (e, new_id, found)) ∙ found, at)
  ];
  named = λ id v got. elim (lookup-insert_cases w.id id w by_id got) [
    | inl (here, is) ↦
        let same : w ≡ v = cc is in
        (
          ap (λ (x : Workspace). x.id) (sym same) ∙ here,
          subst (λ (x : Workspace). lookup x.path (insert w.path w.id by_path) ≡ some id) same
              (lookup-insert_self w.path w.id by_path ∙ ap some here),
        )
    | inr (other, older) ↦
        let (is, at) = h.named id v older in
        (
          is,
          lookup-insert_other w.path v.path w.id by_path
                (λ e. cc (ap (λ k. lookup k by_path) e, new_path, at))
              ∙ at,
        )
  ];
  keys = insert-DistinctKeys w.id w by_id h.keys;
}

-- A workspace that is taken out of both maps.
pub delete-IsInverse :
    (by_id : Map String Workspace) (by_path : Map String String) (id : String) (w : Workspace)
    → lookup id by_id ≡ some w
    → IsInverse by_id by_path
    → IsInverse (delete id by_id) (delete w.path by_path)
delete-IsInverse by_id by_path id w found h = record {
  known = λ path k got.
      let (other, older) = lookup-delete_cases w.path path by_path got in
      let (v, there, at) = h.known path k older in
      (
        v,
        lookup-delete_other id k by_id (λ e.
              let same : w ≡ v = cc (sym found ∙ ap (λ x. lookup x by_id) e ∙ there) in
              other (ap (λ (x : Workspace). x.path) same ∙ at))
            ∙ there,
        at,
      );
  named = λ k v got.
      let (other, older) = lookup-delete_cases id k by_id got in
      let (is, at) = h.named k v older in
      (
        is,
        lookup-delete_other w.path v.path by_path (λ e.
              let same : some id ≡ some k =
                sym (h.named id w found).1 ∙ ap (λ x. lookup x by_path) e ∙ at in
              other (cc same))
            ∙ at,
      );
  keys = delete-DistinctKeys id by_id h.keys;
}

-- A workspace whose git state changes.
pub update-IsInverse :
    (by_id : Map String Workspace) (by_path : Map String String) (id : String) (w v : Workspace)
    → lookup id by_id ≡ some w
    → v.id ≡ w.id
    → v.path ≡ w.path
    → IsInverse by_id by_path
    → IsInverse (insert id v by_id) by_path
update-IsInverse by_id by_path id w v found same_id same_path h = record {
  known = λ path k got.
      let (x, there, at) = h.known path k got in
      elim (Bool-cases (id == k)) [
        | inl e ↦
            let here : id ≡ k = eq_of_test id k e in
            let same : x ≡ w = cc (sym there ∙ ap (λ q. lookup q by_id) (sym here) ∙ found) in
            (
              v,
              ap (λ q. lookup q (insert id v by_id)) (sym here) ∙ lookup-insert_self id v by_id,
              same_path ∙ ap (λ (y : Workspace). y.path) (sym same) ∙ at,
            )
        | inr e ↦ (x, lookup-insert_other id k v by_id (λ p. cc (e, eq_self id, p)) ∙ there, at)
      ];
  named = λ k x got. elim (lookup-insert_cases id k v by_id got) [
    | inl (here, is) ↦
        let same : v ≡ x = cc is in
        let (its_id, at) = h.named id w found in
        (
          ap (λ (y : Workspace). y.id) (sym same) ∙ same_id ∙ its_id ∙ here,
          ap (λ (y : Workspace). lookup y.path by_path) (sym same)
              ∙ ap (λ q. lookup q by_path) same_path
              ∙ at
              ∙ ap some here,
        )
    | inr (other, older) ↦ h.named k x older
  ];
  keys = insert-DistinctKeys id v by_id h.keys;
}
