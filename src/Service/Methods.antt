-- ===== src/Service/Methods.antt =====
-- server.go: registerMethods.
use vmux.Base.{
  ◌≡◌, inl, inr, refl, ap, ◌∙◌, Bool, true, false, ◌||◌, List, [], ◌∷◌, Option, none, some,
  if◌then◌else◌, Map, lookup, insert, String, String-eq, ◌==◌, lookup-insert, Bool-cases, arith,
  eq_of_test,
}
use vmux.Rpc.Server.{Handler, register}

abbrev pub method_names : List String
method_names =
    "pty.spawn" ∷ "pty.write" ∷ "pty.resize" ∷ "pty.kill" ∷ "pty.list" ∷ "workspace.open"
    ∷ "workspace.list" ∷ "workspace.close" ∷ "browserSession.list" ∷ "browserSession.latestShot"
    ∷ "browserSession.close" ∷ "browserSession.focus" ∷ "activity.recent" ∷ "approval.list"
    ∷ "approval.decide" ∷ "approval.setMode" ∷ "approval.mode" ∷ "replay.timeline" ∷ "replay.at"
    ∷ "chromeImport.scan" ∷ "chromeImport.importBookmarks" ∷ "diffReview.list" ∷ "diffReview.decide"
    ∷ "diffReview.acceptAll" ∷ "diffReview.rejectAll" ∷ "editor.detected" ∷ "editor.invoke"
    ∷ "editor.preference" ∷ []

-- The calls of Register; `none` is a panic.
unfoldable pub register_all :
    (String → Handler) → List String → Option (Map String Handler) → Option (Map String Handler)
register_all handler names none = none
register_all handler [] (some handlers) = some handlers
register_all handler (name ∷ names) (some handlers) =
    register_all handler names (register handlers name (handler name))

-- registerMethods on a server with no method; `handler` has the method of each name.
unfoldable pub register_methods : (String → Handler) → Option (Map String Handler)
unfolding register_all
register_methods handler = register_all handler method_names (some [])

unfoldable pub is_among : String → List String → Bool
is_among name [] = false
is_among name (n ∷ names) = n == name || is_among name names

abbrev pub AllDistinct : List String → Type 0
AllDistinct [] = Unit
AllDistinct (n ∷ names) = (is_among n names ≡ false) × AllDistinct names

register_new :
    (handlers : Map String Handler) (name : String) (h : Handler)
    → lookup name handlers ≡ none
    → register handlers name h ≡ some (insert name h handlers)
unfolding register
register_new handlers name h absent = rw (absent, register)

registered_found :
    (handler : String → Handler) (name n : String) (names : List String)
    (handlers : Map String Handler)
    → (if is_among n names
        then some (handler n)
        else lookup n (insert name (handler name) handlers))
      ≡ (if is_among n (name ∷ names) then some (handler n) else lookup n handlers)
unfolding is_among
registered_found handler name n names handlers = elim (Bool-cases (name == n)) [
  | inl e ↦
      let same : handler name ≡ handler n = ap handler (eq_of_test name n e) in
      ground (arith, lookup-insert name n (handler name) handlers, e, same)
  | inr e ↦ ground (arith, lookup-insert name n (handler name) handlers, e)
]

-- Names that are distinct and new are all registered.
register_all-lookup :
    (handler : String → Handler) (names : List String) (handlers : Map String Handler)
    → AllDistinct names
    → ((n : String) → is_among n names ≡ true → lookup n handlers ≡ none)
    → (m : Map String Handler) × ((register_all handler names (some handlers) ≡ some m)
        × ((n : String)
            → lookup n m ≡ (if is_among n names then some (handler n) else lookup n handlers)))
unfolding register_all is_among
register_all-lookup handler [] handlers distinct new = (handlers, (refl, λ n. refl))
register_all-lookup handler (name ∷ names) handlers distinct new =
    let absent : lookup name handlers ≡ none =
      new name (ground (arith, String-eq.test_iff name name)) in
    let fresh : (n : String)
        → is_among n names ≡ true
        → lookup n (insert name (handler name) handlers) ≡ none =
      λ n h. ground (
        arith,
        h,
        distinct.0,
        new n,
        lookup-insert name n (handler name) handlers,
        eq_of_test name n,
      ) in
    let (m, (got, found)) =
      register_all-lookup handler names (insert name (handler name) handlers) distinct.1 fresh in
    (
      m,
      (
        ap (register_all handler names) (register_new handlers name (handler name) absent) ∙ got,
        λ n. found n ∙ registered_found handler name n names handlers,
      ),
    )

method_names-AllDistinct : AllDistinct method_names
unfolding is_among
method_names-AllDistinct = (
  refl,
  (
    refl,
    (
      refl,
      (
        refl,
        (
          refl,
          (
            refl,
            (
              refl,
              (
                refl,
                (
                  refl,
                  (
                    refl,
                    (
                      refl,
                      (
                        refl,
                        (
                          refl,
                          (
                            refl,
                            (
                              refl,
                              (
                                refl,
                                (
                                  refl,
                                  (
                                    refl,
                                    (
                                      refl,
                                      (
                                        refl,
                                        (
                                          refl,
                                          (
                                            refl,
                                            (refl, (refl, (refl, (refl, (refl, (refl, tt)))))),
                                          ),
                                        ),
                                      ),
                                    ),
                                  ),
                                ),
                              ),
                            ),
                          ),
                        ),
                      ),
                    ),
                  ),
                ),
              ),
            ),
          ),
        ),
      ),
    ),
  ),
)

-- Registering the methods does not panic, and leaves the server with the handler of each of their 28
-- names and with no other.
pub register_methods-lookup :
    (handler : String → Handler)
    → (m : Map String Handler) × ((register_methods handler ≡ some m)
        × ((n : String)
            → lookup n m ≡ (if is_among n method_names then some (handler n) else none)))
unfolding register_methods lookup
register_methods-lookup handler =
    register_all-lookup handler method_names [] method_names-AllDistinct (λ n h. refl)
