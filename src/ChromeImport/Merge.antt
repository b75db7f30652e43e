-- ===== src/ChromeImport/Merge.antt =====
-- Merging the same bookmarks a second time changes nothing.
use vmux.Base.{
  ◌≡◌, refl, sym, ap, ◌∙◌, Bool, true, false, [], ◌∷◌, Option, none, some, if◌then◌else◌, Map,
  insert, String, String-eq, ◌==◌, Bytes, Bool-cases, inl, inr, eq_self, lookup-insert_self,
}
use vmux.ChromeImport.Bookmarks.{
  Node, Nodes, node, nil, cons, BookmarkFile, root, zero_node, append, is_folder_named,
  without_folder, import_name, import_folder, replace_import_folder, with_import, merge, Json,
  target_of, write_merged, merge_decoded, merge_bookmarks, imported_from, fresh_file,
}

without_folder-append :
    (folder : String) (ns ms : Nodes)
    → without_folder folder (append ns ms)
      ≡ append (without_folder folder ns) (without_folder folder ms)
unfolding without_folder append
without_folder-append folder nil ms = refl
without_folder-append folder (cons n ns) ms = elim (Bool-cases (is_folder_named folder n)) [
  | inl e ↦ rw e (without_folder-append folder ns ms)
  | inr e ↦ rw e (ap (cons n) (without_folder-append folder ns ms))
]

without_folder-without_folder :
    (folder : String) (ns : Nodes)
    → without_folder folder (without_folder folder ns) ≡ without_folder folder ns
unfolding without_folder
without_folder-without_folder folder nil = refl
without_folder-without_folder folder (cons n ns) = elim (Bool-cases (is_folder_named folder n)) [
  | inl e ↦ rw e (without_folder-without_folder folder ns)
  | inr e ↦ rw (e, e) (ap (cons n) (without_folder-without_folder folder ns))
]

append-nil_nodes : (ns : Nodes) → append ns nil ≡ ns
unfolding append
append-nil_nodes nil = refl
append-nil_nodes (cons n ns) = ap (cons n) (append-nil_nodes ns)

without_folder-import :
    (imported : Nodes) → without_folder import_name (cons (import_folder imported) nil) ≡ nil
unfolding without_folder is_folder_named
without_folder-import imported = refl

replace_import_folder-twice :
    (children imported : Nodes)
    → replace_import_folder (replace_import_folder children imported) imported
      ≡ replace_import_folder children imported
unfolding replace_import_folder
replace_import_folder-twice children imported =
    let kept : Nodes = without_folder import_name children in
    ap (λ ns. append ns (cons (import_folder imported) nil))
      (without_folder-append import_name kept (cons (import_folder imported) nil)
        ∙ ap (append (without_folder import_name kept)) (without_folder-import imported)
        ∙ append-nil_nodes (without_folder import_name kept)
        ∙ without_folder-without_folder import_name children)

named_bar :
    (name : String)
    → (if (if name == "" then "Bookmarks Bar" else name) == ""
        then "Bookmarks Bar"
        else (if name == "" then "Bookmarks Bar" else name))
      ≡ (if name == "" then "Bookmarks Bar" else name)
named_bar name = elim (Bool-cases (name == "")) [ inl e ↦ rw e refl | inr e ↦ rw (e, e) refl ]

with_import-twice :
    (imported : Nodes) (n : Node)
    → with_import imported (with_import imported n) ≡ with_import imported n
unfolding with_import
with_import-twice imported (node kind name url children) =
    ap
      (λ b.
        node "folder" b url
          (replace_import_folder (replace_import_folder children imported) imported))
      (named_bar name)
    ∙ ap (node "folder" (if name == "" then "Bookmarks Bar" else name) url)
        (replace_import_folder-twice children imported)

insert-insert :
    (k : String) (a b : Node) (m : Map String Node) → insert k b (insert k a m) ≡ insert k b m
unfolding insert
insert-insert k a b [] = rw (eq_self k) refl
insert-insert k a b (e ∷ m) = elim (Bool-cases (k == e.0)) [
  | inl t ↦ rw (t, eq_self k) refl
  | inr t ↦ rw (t, t) (ap (◌∷◌ e) (insert-insert k a b m))
]

merge-twice :
    (imported : Nodes) (target : BookmarkFile)
    → merge imported (merge imported target) ≡ merge imported target
unfolding merge
merge-twice imported target =
    let bar : Node = with_import imported (root "bookmark_bar" target) in
    ap
      (λ n. record target {
        roots =
            insert "bookmark_bar" (with_import imported n) (insert "bookmark_bar" bar target.roots);
      })
      (ap (λ o. elim o as (λ _. Node) [ none ↦ zero_node | some n ↦ n ])
        (lookup-insert_self "bookmark_bar" bar target.roots))
    ∙ ap
        (λ n. record target {
          roots = insert "bookmark_bar" n (insert "bookmark_bar" bar target.roots);
        })
        (with_import-twice imported (root "bookmark_bar" target))
    ∙ ap (λ r. record target { roots = r }) (insert-insert "bookmark_bar" bar bar target.roots)

write_merged-same :
    (writable : Bool) (out : Bytes) (imported : Nodes)
    → (write_merged writable (some out) imported (some out)).0 ≡ some out
unfolding write_merged
write_merged-same true out imported = refl
write_merged-same false out imported = refl

first_merge :
    (json : Json) (source : Bytes) (src : BookmarkFile) (old : Option Bytes) (out : Bytes)
    → json.decode source ≡ some src
    → json.encode (merge (imported_from src) (target_of json old)) ≡ some out
    → (merge_bookmarks json true (some source) old).0 ≡ some out
unfolding merge_bookmarks merge_decoded write_merged
first_merge json source src old out decodes encodes =
    ap (λ o. (merge_decoded json true o old).0) decodes
    ∙ ap (λ o. (write_merged true old (imported_from src) o).0) encodes

-- Merging the same source again after a merge that wrote the target leaves the target's file as it
-- is, whether or not it can be written then: provided that what the first merge wrote is read back as
-- the file it was written for.
pub merge_bookmarks-twice :
    (json : Json) (writable : Bool) (source : Bytes) (src : BookmarkFile) (old : Option Bytes)
    (out : Bytes)
    → json.decode source ≡ some src
    → json.encode (merge (imported_from src) (target_of json old)) ≡ some out
    → json.decode_onto fresh_file out ≡ merge (imported_from src) (target_of json old)
    → (merge_bookmarks json writable
        (some source)
        (merge_bookmarks json true (some source) old).0).0
      ≡ (merge_bookmarks json true (some source) old).0
unfolding merge_bookmarks merge_decoded target_of
merge_bookmarks-twice json writable source src old out decodes encodes reads =
    let imported : Nodes = imported_from src in
    let first : (merge_bookmarks json true (some source) old).0 ≡ some out =
      first_merge json source src old out decodes encodes in
    ap (λ o. (merge_bookmarks json writable (some source) o).0) first
    ∙ ap (λ o. (merge_decoded json writable o (some out)).0) decodes
    ∙ ap (λ f. (write_merged writable (some out) imported (json.encode (merge imported f))).0) reads
    ∙ ap (λ f. (write_merged writable (some out) imported (json.encode f)).0)
        (merge-twice imported (target_of json old))
    ∙ ap (λ o. (write_merged writable (some out) imported o).0) encodes
    ∙ write_merged-same writable out imported
    ∙ sym first
