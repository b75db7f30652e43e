-- ===== src/Workspace/Restart.antt =====
-- What a new registry makes of the file that an old one has written.
use vmux.Base.{
  ◌≡◌, ◌≢◌, refl, ap, ◌∙◌, true, false, Option, none, some, Map, lookup, insert, String, String-eq,
  Bytes, test_of_ne,
}
use vmux.Workspace.Git.{GitStatus, read_git_status}
use vmux.Workspace.Meta.{Meta, Codec, Env, read_or_create_meta}
use vmux.Workspace.Registry.{
  Workspace, Registry, Entry, id_or, enter, open_with, open_locked, load_entry,
}

-- The workspace at `path` can be opened again: the directory is there, its metadata file can be
-- read and decodes, git answers, and the watcher starts.
pub record IsReady (codec : Codec) (env : Env) (metas : Map String Bytes) (path : String)
    : Type 0 where
  pub content : Bytes
  pub meta : Meta
  pub git : GitStatus
  pub there : env.is_dir path ≡ some true
  pub readable : env.unreadable path ≡ false
  pub holds : lookup path metas ≡ some content
  pub decodes : codec.decode content ≡ some meta
  pub answers : read_git_status (env.git path) ≡ some git
  pub watches : env.watch path ≡ true

module _ (codec : Codec) (env : Env) (fresh : String → String) where
  abbrev pub loaded : Entry → Meta → GitStatus → Workspace
  loaded e meta git = record { id = e.id; path = e.path; meta = meta; git = git }

  read-IsReady :
      (metas : Map String Bytes) (path : String) (h : IsReady codec env metas path)
      → read_or_create_meta codec env metas path ≡ (metas, some h.meta)
  unfolding read_or_create_meta
  read-IsReady metas path h = rw (h.readable, h.holds, read_or_create_meta, h.decodes) refl

  id_or_named : (id new : String) → id ≢ "" → id_or id new ≡ id
  unfolding id_or
  id_or_named id new h = rw (test_of_ne id "" h)

  enter-watched :
      (r : Registry) (path id : String) (meta : Meta) (st : GitStatus)
      → env.watch path ≡ true
      → (enter env r path id meta (some st)).0 ≡ record r {
        by_id = insert id (record { id = id; path = path; meta = meta; git = st }) r.by_id;
        by_path = insert path id r.by_path;
      }
  unfolding enter
  enter-watched r path id meta st h = rw h

  open_locked-IsReady :
      (r : Registry) (e : Entry) (h : IsReady codec env r.metas e.path)
      → e.id ≢ ""
      → (open_locked codec env r e.path e.id (fresh e.path)).0 ≡ record r {
        by_id = insert e.id (loaded e h.meta h.git) r.by_id;
        by_path = insert e.path e.id r.by_path;
      }
  unfolding open_locked open_with
  open_locked-IsReady r e h named =
      ap
        (λ (out : Map String Bytes × Option Meta).
          (open_with env (record r { metas = out.0 }) e.path (id_or e.id (fresh e.path)) out.1).0)
        (read-IsReady r.metas e.path h)
      ∙ ap (λ k. (enter env r e.path k h.meta (read_git_status (env.git e.path))).0)
          (id_or_named e.id (fresh e.path) named)
      ∙ ap (λ st. (enter env r e.path e.id h.meta st).0) h.answers
      ∙ enter-watched r e.path e.id h.meta h.git h.watches

  pub load_entry-IsReady :
      (r : Registry) (e : Entry) (h : IsReady codec env r.metas e.path)
      → e.id ≢ ""
      → lookup e.path r.by_path ≡ none
      → load_entry codec env fresh r e ≡ record r {
        by_id = insert e.id (loaded e h.meta h.git) r.by_id;
        by_path = insert e.path e.id r.by_path;
      }
  unfolding load_entry
  load_entry-IsReady r e h named absent =
      rw (h.there, absent, load_entry) (open_locked-IsReady r e h named)
