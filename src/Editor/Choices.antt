-- ===== src/Editor/Choices.antt =====
-- What a sequence of choices comes to, read off the list of the choices.
use vmux.Base.{
  ◌≡◌, refl, ◌∙◌, List, [], ◌∷◌, ◌++◌, if◌then◌else◌, lookup, lookup-insert, String, String-eq,
  ◌==◌, arith,
}
use vmux.Editor.Prefs.{Prefs, found_id, editor_for, choose}

-- A workspace and an editor.
abbrev pub Choice : Type 0
Choice = String × String

unfoldable pub choose_all : Prefs → List Choice → Prefs
choose_all p [] = p
choose_all p (c ∷ cs) = choose_all (choose p c.0 c.1) cs

pub choose_all-append :
    (p : Prefs) (cs : List Choice) (c : Choice)
    → choose_all p (cs ++ c ∷ []) ≡ choose (choose_all p cs) c.0 c.1
unfolding choose_all
choose_all-append p [] c = refl
choose_all-append p (b ∷ cs) c = choose_all-append (choose p b.0 b.1) cs c

-- The last choice without a workspace, or `old`.
unfoldable pub last_global : String → List Choice → String
last_global old [] = old
last_global old (c ∷ cs) = last_global (if c.0 == "" then c.1 else old) cs

-- The last choice for a workspace, or `old`.
unfoldable pub last_own : String → String → List Choice → String
last_own id old [] = old
last_own id old (c ∷ cs) =
    last_own id (if c.0 == "" then old else (if c.0 == id then c.1 else old)) cs

-- The last choice for the workspace, and the last one without a workspace if there is none or it is
-- empty, over the preferences `p`.
unfoldable pub preferred : Prefs → String → List Choice → String
unfolding last_own last_global
preferred p id cs =
    let own = last_own id (found_id (lookup id p.per_workspace)) cs in
    if own == "" then last_global p.global cs else own

global-choose :
    (p : Prefs) (c : Choice) → (choose p c.0 c.1).global ≡ (if c.0 == "" then c.1 else p.global)
unfolding choose
global-choose p c = ground arith

own-choose :
    (p : Prefs) (id : String) (c : Choice)
    → found_id (lookup id (choose p c.0 c.1).per_workspace) ≡ (
        if c.0 == ""
        then found_id (lookup id p.per_workspace)
        else (if c.0 == id then c.1 else found_id (lookup id p.per_workspace)))
unfolding choose found_id
own-choose p id c = ground (arith, lookup-insert c.0 id c.1 p.per_workspace)

pub editor_for-choose_all :
    (p : Prefs) (id : String) (cs : List Choice)
    → editor_for (choose_all p cs) id ≡ preferred p id cs
unfolding choose_all preferred last_own last_global editor_for
editor_for-choose_all p id [] = refl
editor_for-choose_all p id (c ∷ cs) =
    editor_for-choose_all (choose p c.0 c.1) id cs ∙ rw (own-choose p id c, global-choose p c)
