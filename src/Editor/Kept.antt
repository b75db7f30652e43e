-- ===== src/Editor/Kept.antt =====
-- What the preferences' file holds over a sequence of choices that may fail.
use vmux.Base.{
  Bool, true, false, List, [], ◌∷◌, Option, none, some, if◌then◌else◌, lookup, String, String-eq,
  Bool-cases, ◌≡◌, sym, ap, ◌∙◌, ◌++◌, refl, inl, inr,
}
use vmux.Editor.Prefs.{
  Prefs, Codec, Disk, Write, written, broken_off, Env, read_from, load_prefs, rename, write_tmp,
  write_out, save, editor_for, choose, set,
}
use vmux.Editor.Choices.{Choice, choose_all, choose_all-append, preferred, editor_for-choose_all}

-- Two preferences that answer alike for the global default and every workspace.
pub record Same (p q : Prefs) : Type 0 where
  pub global : p.global ≡ q.global
  pub per_workspace : (id : String) → lookup id p.per_workspace ≡ lookup id q.per_workspace

module _ {J : Type 0} (codec : Codec J) where
  -- What encoding/json documents of a struct of strings: what was marshalled is read back, up to the
  -- order of a map's keys.
  abbrev pub IsFaithful : Type 0
  IsFaithful = (p : Prefs) (j : J) → codec.marshal p ≡ some j → Same (read_from codec (some j)) p

  -- The preferences in memory, the disk, the preferences of the last Set without an error, the choices
  -- of all Sets, and those up to the last Set without an error.
  pub record State : Type 0 where
    pub memory : Prefs
    pub disk : Disk J
    pub last : Prefs
    pub made : List Choice
    pub kept : List Choice

  -- A Set: how its save fares, the workspace and the editor.
  abbrev pub Step : Type 0
  Step = Env J × Choice

  unfoldable pub step : State → Step → State
  unfolding set
  step s (env, choice) =
      let (p, saved) = set codec env s.memory s.disk choice.0 choice.1 in
      let made = s.made ++ choice ∷ [] in
      record {
        memory = p;
        disk = saved.0;
        last = if saved.1 then p else s.last;
        made = made;
        kept = if saved.1 then made else s.kept;
      }

  unfoldable pub run : State → List Step → State
  unfolding step
  run s [] = s
  run s (a ∷ steps) = run (step s a) steps

  IsKept : Disk J → Prefs → Type 0
  IsKept d last = Same (load_prefs codec d) last

  -- A save that returns no error keeps the new preferences, and one that fails the old.
  IsSaved : Disk J → Prefs → Prefs → Disk J × Bool → Type 0
  IsSaved d last p saved = IsKept saved.0 (if saved.1 then p else last)

  module _ (p last : Prefs) (d : Disk J) (old : IsKept d last) where
    rename-IsSaved :
        (can : Bool) (j : J)
        → Same (read_from codec (some j)) p
        → IsSaved d last p (rename can (record d { tmp = some j }))
    unfolding IsSaved IsKept rename load_prefs
    rename-IsSaved true j same = same
    rename-IsSaved false j same = old

    write_tmp-IsSaved :
        (env : Env J) (w : Write J) (j : J)
        → Same (read_from codec (some j)) p
        → IsSaved d last p (write_tmp env w j d)
    unfolding IsSaved IsKept write_tmp load_prefs
    write_tmp-IsSaved env written j same = rename-IsSaved env.can_rename j same
    write_tmp-IsSaved env (broken_off left) j same = old

    write_out-IsSaved :
        (env : Env J) (out : Option J)
        → ((j : J) → out ≡ some j → Same (read_from codec (some j)) p)
        → IsSaved d last p (write_out env out d)
    unfolding IsSaved IsKept write_out
    write_out-IsSaved env none same = old
    write_out-IsSaved env (some j) same = elim (Bool-cases env.can_make_dir) [
      | inl e ↦ rw e (write_tmp-IsSaved env env.write j (same j refl))
      | inr e ↦ rw e old
    ]

  step-IsKept :
      (s : State) (a : Step)
      → IsFaithful
      → IsKept s.disk s.last
      → IsKept (step s a).disk (step s a).last
  unfolding step set save IsKept IsSaved
  step-IsKept s (env, choice) faithful old =
      let p : Prefs = choose s.memory choice.0 choice.1 in
      write_out-IsSaved p s.last s.disk old env (codec.marshal p) (faithful p)

  run-IsKept :
      (s : State) (steps : List Step)
      → IsFaithful
      → IsKept s.disk s.last
      → IsKept (run s steps).disk (run s steps).last
  unfolding run
  run-IsKept s [] faithful old = old
  run-IsKept s (a ∷ steps) faithful old =
      run-IsKept (step s a) steps faithful (step-IsKept s a faithful old)

  -- The preferences are what the choices come to.
  record Made (p : Prefs) (s : State) : Type 0 where
    memory : s.memory ≡ choose_all p s.made
    last : s.last ≡ choose_all p s.kept

  if_chosen :
      (p : Prefs) (b : Bool) (new old : Prefs) (made kept : List Choice)
      → new ≡ choose_all p made
      → old ≡ choose_all p kept
      → (if b then new else old) ≡ choose_all p (if b then made else kept)
  if_chosen p true new old made kept h h' = h
  if_chosen p false new old made kept h h' = h'

  step-Made : (p : Prefs) (s : State) (a : Step) → Made p s → Made p (step s a)
  unfolding step set
  step-Made p s (env, choice) h =
      let new : choose s.memory choice.0 choice.1 ≡ choose_all p (s.made ++ choice ∷ []) =
        ap (λ m. choose m choice.0 choice.1) h.memory ∙ sym (choose_all-append p s.made choice) in
      record { memory = new; last = if_chosen p _ _ _ _ _ new h.last }

  run-Made : (p : Prefs) (s : State) (steps : List Step) → Made p s → Made p (run s steps)
  unfolding run
  run-Made p s [] h = h
  run-Made p s (a ∷ steps) h = run-Made p (step s a) steps (step-Made p s a h)

  abbrev pub start : Disk J → State
  start d = record {
    memory = load_prefs codec d;
    disk = d;
    last = load_prefs codec d;
    made = [];
    kept = [];
  }

  Same-editor_for : (p q : Prefs) (id : String) → Same p q → editor_for p id ≡ editor_for q id
  unfolding editor_for
  Same-editor_for p q id same = rw (same.per_workspace id, same.global)

  -- With a faithful encoding, after any sequence of Sets, each of whose saves may fail at any point,
  -- LoadPrefs finds for every workspace what the choices up to the last Set that returned no error
  -- come to: the last editor that was set for the workspace or, if there is none or it is empty, the
  -- last one that was set as the global default, over the preferences at the start.
  pub run-load_prefs :
      (d : Disk J) (steps : List Step) (id : String)
      → IsFaithful
      → editor_for (load_prefs codec (run (start d) steps).disk) id
        ≡ preferred (load_prefs codec d) id (run (start d) steps).kept
  unfolding IsKept choose_all
  run-load_prefs d steps id faithful =
      let p : Prefs = load_prefs codec d in
      let s : State = run (start d) steps in
      let same : Same p p = record { global = refl; per_workspace = λ id. refl } in
      let made : Made p s = run-Made p (start d) steps (record { memory = refl; last = refl }) in
      Same-editor_for _ _ id (run-IsKept (start d) steps faithful same)
      ∙ ap (λ q. editor_for q id) made.last
      ∙ editor_for-choose_all p id s.kept
