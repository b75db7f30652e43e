-- ===== src/Pty/Env.antt =====
-- env.go: the environment of a child process, a list of entries `key=value`.
use vmux.Base.{
  ◌≡◌, ◌⊎◌, inl, inr, refl, Bool, true, false, ◌&&◌, ◌||◌, List, [], ◌∷◌, ◌++◌, if◌then◌else◌,
  nat_eq, Bool-cases, arith, Bytes, codes,
}

-- strings.HasPrefix
unfoldable pub has_prefix : Bytes → Bytes → Bool
has_prefix s [] = true
has_prefix [] (p ∷ ps) = false
has_prefix (c ∷ s) (p ∷ ps) = nat_eq c p && has_prefix s ps

some_has : Bytes → List Bytes → Bool
some_has prefix [] = false
some_has prefix (kv ∷ env) = has_prefix kv prefix || some_has prefix env

unfoldable pub has_key : List Bytes → Bytes → Bool
unfolding some_has
has_key env key = some_has (key ++ codes "=") env

abbrev pub default_term : Bytes
default_term = codes "TERM=xterm-256color"

-- `inherited` is os.Environ(), taken where the caller passes nothing.
unfoldable pub requested_or : List Bytes → List Bytes → List Bytes
requested_or inherited [] = inherited
requested_or inherited (kv ∷ env) = kv ∷ env

unfoldable pub build_env : List Bytes → List Bytes → List Bytes
unfolding has_key requested_or
build_env inherited requested =
    let env = requested_or inherited requested in
    if has_key env (codes "TERM") then env else env ++ default_term ∷ []

some_has-append :
    (prefix : Bytes) (env : List Bytes) (kv : Bytes)
    → has_prefix kv prefix ≡ true
    → some_has prefix (env ++ kv ∷ []) ≡ true
unfolding some_has
some_has-append prefix [] kv h = rw h
some_has-append prefix (e ∷ env) kv h = ground (arith, some_has-append prefix env kv h)

-- The environment that a child is given has an entry for TERM; it is the environment that was
-- passed, or the inherited one where that was empty, with at most one entry more at its end, and
-- with none where TERM is set already.
pub build_env-has_key :
    (inherited requested : List Bytes)
    → (has_key (build_env inherited requested) (codes "TERM") ≡ true)
      × ((build_env inherited requested ≡ requested_or inherited requested)
            × (has_key (requested_or inherited requested) (codes "TERM") ≡ true)
          ⊎ (build_env inherited requested ≡ requested_or inherited requested ++ default_term ∷ [])
            × (has_key (requested_or inherited requested) (codes "TERM") ≡ false))
unfolding build_env has_key
build_env-has_key inherited requested =
    let env : List Bytes = requested_or inherited requested in
    elim (Bool-cases (has_key env (codes "TERM"))) [
      | inl set ↦ rw set (set, inl (refl, refl))
      | inr unset ↦ rw unset (
        some_has-append (codes "TERM=") env default_term (unfold has_prefix in refl),
        inr (refl, refl),
      )
    ]
