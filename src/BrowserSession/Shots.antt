-- ===== src/BrowserSession/Shots.antt =====
-- The shots of a session over every sequence of operations.
use vmux.Base.{
  suc, ◌-◌, ◌≡◌, refl, sym, ap, ◌∙◌, Bool, true, false, ◌&&◌, List, [], ◌∷◌, ◌++◌, Option, none,
  some, if◌then◌else◌, ltb, lookup, lookup-insert, lookup-delete, String, String-eq, ◌==◌, Bytes,
  Bytes-eq, length, keep_last, keep_last-append, keep_last-eq-drop, drop, eq_of_test, arith,
  Bool-cases, Option-cases, inl, inr,
}
use vmux.BrowserSession.Screenshots.{
  max_shots, FileName, full, Shot, Picture, ScreenshotStore, Env, shot_of, found_ring, ring_of,
  set_file, thumb, add_where, new_store, evict, enter_shot, add_files, add, clear, list, safe_key,
  remove_shot,
}

pub data Step : Type 0 where
  adds : Env → String → Bytes → Step
  clears : String → Step

unfoldable pub step : (Bytes → Option Picture) → ScreenshotStore → Step → ScreenshotStore
unfolding add clear
step decode s (adds env session_id raw) = (add decode env s session_id raw).0
step decode s (clears session_id) = clear s session_id

unfoldable pub run : (Bytes → Option Picture) → ScreenshotStore → List Step → ScreenshotStore
unfolding step
run decode s [] = s
run decode s (a ∷ steps) = run decode (step decode s a) steps

-- The shot that an Add enters, if it succeeds.
abbrev pub taken_where : Bool → Bool → Shot → Option Shot
taken_where false thumb_written shot = none
taken_where true false shot = none
taken_where true true shot = some shot

abbrev pub taken : (Bytes → Option Picture) → Env → String → Bytes → Option Shot
taken decode env session_id raw = elim (decode raw) [
  | none ↦ none
  | some p ↦
      taken_where (env.can_make && env.can_write) env.can_write_thumb (shot_of env session_id p)
]

abbrev pub with_taken : Option Shot → List Shot → List Shot
with_taken none shots = shots
with_taken (some shot) shots = shots ++ shot ∷ []

-- The shots that were taken for a session since it was last cleared.
abbrev pub taken_for : (Bytes → Option Picture) → String → List Shot → List Step → List Shot
taken_for decode sid before [] = before
taken_for decode sid before (adds env session_id raw ∷ steps) =
    taken_for decode sid
      (if session_id == sid then with_taken (taken decode env session_id raw) before else before)
      steps
taken_for decode sid before (clears session_id ∷ steps) =
    taken_for decode sid (if session_id == sid then [] else before) steps

-- The ring after an eviction is the last shots of the ring before it.
evict-keep_last :
    (key : Bytes) (ring : List Shot) (files : Bytes → FileName → Option Bytes)
    → (evict key ring files).0 ≡ keep_last max_shots ring
unfolding evict
evict-keep_last key [] files = sym (keep_last-eq-drop max_shots [])
evict-keep_last key (shot ∷ ring) files = elim (Bool-cases (ltb max_shots (suc (length ring)))) [
  | inl e ↦
      let next : suc (length ring) - max_shots ≡ suc (length ring - max_shots) = ground arith in
      rw e (
        evict-keep_last key ring (remove_shot key shot files)
        ∙ keep_last-eq-drop max_shots ring
        ∙ ap (λ k. drop k (shot ∷ ring)) (sym next)
        ∙ sym (keep_last-eq-drop max_shots (shot ∷ ring)))
  | inr e ↦
      let all : suc (length ring) - max_shots ≡ 0 = ground arith in
      rw e
        (ap (λ k. drop k (shot ∷ ring)) (sym all) ∙ sym (keep_last-eq-drop max_shots (shot ∷ ring)))
]

if-ring :
    (b : Bool) (new : List Shot) (old : Option (List Shot))
    → found_ring (if b then some new else old) ≡ (if b then new else found_ring old)
unfolding found_ring
if-ring true new old = refl
if-ring false new old = refl

if_none-ring :
    (b : Bool) (old : Option (List Shot))
    → found_ring (if b then none else old) ≡ (if b then [] else found_ring old)
unfolding found_ring
if_none-ring true old = refl
if_none-ring false old = refl

if-both : {A : Type 0} (b : Bool) (a : A) → a ≡ (if b then a else a)
if-both true a = refl
if-both false a = refl

if-keep_last :
    (b : Bool) (r new before : List Shot)
    → r ≡ keep_last max_shots new
    → (if b then r else keep_last max_shots before)
      ≡ keep_last max_shots (if b then new else before)
if-keep_last true r new before h = h
if-keep_last false r new before h = refl

-- The ring of a session, after a ring has been written for one.
if-same :
    (s : ScreenshotStore) (session_id sid : String) (f : List Shot → List Shot) (old : List Shot)
    → (if session_id == sid then f (ring_of s session_id) else old)
      ≡ (if session_id == sid then f (ring_of s sid) else old)
if-same s session_id sid f old = elim (Bool-cases (session_id == sid)) [
  | inl e ↦ rw e (ap (λ k. f (ring_of s k)) (eq_of_test session_id sid e))
  | inr e ↦ rw e refl
]

enter_shot-ring :
    (s : ScreenshotStore) (session_id : String) (shot : Shot)
    (files : Bytes → FileName → Option Bytes) (sid : String)
    → ring_of (enter_shot s session_id shot files) sid ≡ (
        if session_id == sid
        then keep_last max_shots (ring_of s sid ++ shot ∷ [])
        else ring_of s sid)
unfolding enter_shot ring_of
enter_shot-ring s session_id shot files sid =
    let ring : List Shot = ring_of s session_id ++ shot ∷ [] in
    let left : List Shot × (Bytes → FileName → Option Bytes) =
      evict (safe_key session_id) ring files in
    ap found_ring (lookup-insert session_id sid left.0 s.shots)
    ∙ if-ring (session_id == sid) left.0 (lookup sid s.shots)
    ∙ ap (λ r. if session_id == sid then r else ring_of s sid)
        (evict-keep_last (safe_key session_id) ring files)
    ∙ if-same s session_id sid (λ r. keep_last max_shots (r ++ shot ∷ [])) (ring_of s sid)

pub clear-ring :
    (s : ScreenshotStore) (session_id sid : String)
    → ring_of (clear s session_id) sid ≡ (if session_id == sid then [] else ring_of s sid)
unfolding clear ring_of
clear-ring s session_id sid =
    ap found_ring (lookup-delete session_id sid s.shots)
    ∙ if_none-ring (session_id == sid) (lookup sid s.shots)

-- What an Add does to the ring of its session, whether or not it succeeds.
abbrev ring_after : Option Shot → List Shot → List Shot
ring_after none ring = ring
ring_after (some shot) ring = keep_last max_shots (ring ++ shot ∷ [])

add_where-ring :
    (made written : Bool) (env : Env) (s : ScreenshotStore) (session_id : String) (p : Picture)
    (sid : String)
    → ring_of (add_where made written env s session_id p).0 sid ≡ (
        if session_id == sid
        then ring_after (taken_where made written (shot_of env session_id p)) (ring_of s sid)
        else ring_of s sid)
unfolding add_where ring_of
add_where-ring false written env s session_id p sid = if-both (session_id == sid) (ring_of s sid)
add_where-ring true false env s session_id p sid = if-both (session_id == sid) (ring_of s sid)
add_where-ring true true env s session_id p sid =
    enter_shot-ring s session_id (shot_of env session_id p)
      (set_file (safe_key session_id) (thumb env.id) (some p.thumbnail)
        (set_file (safe_key session_id) (full env.id) (some p.png) s.files))
      sid

add-ring :
    (decode : Bytes → Option Picture) (env : Env) (s : ScreenshotStore) (session_id : String)
    (raw : Bytes) (sid : String)
    → ring_of (add decode env s session_id raw).0 sid ≡ (
        if session_id == sid
        then ring_after (taken decode env session_id raw) (ring_of s sid)
        else ring_of s sid)
unfolding add add_files
add-ring decode env s session_id raw sid = elim (Option-cases (decode raw)) [
  | inl e ↦ rw (e, add, taken) (if-both (session_id == sid) (ring_of s sid))
  | inr (p, e) ↦
      rw (e, add, taken)
        (add_where-ring (env.can_make && env.can_write) env.can_write_thumb env s session_id p sid)
]

ring_after-with_taken :
    (o : Option Shot) (before : List Shot)
    → ring_after o (keep_last max_shots before) ≡ keep_last max_shots (with_taken o before)
ring_after-with_taken none before = refl
ring_after-with_taken (some shot) before = keep_last-append max_shots before (shot ∷ [])

run_from-list :
    (decode : Bytes → Option Picture) (s : ScreenshotStore) (steps : List Step) (sid : String)
    (before : List Shot)
    → ring_of s sid ≡ keep_last max_shots before
    → ring_of (run decode s steps) sid ≡ keep_last max_shots (taken_for decode sid before steps)
unfolding run step
run_from-list decode s [] sid before h = h
run_from-list decode s (adds env session_id raw ∷ steps) sid before h =
    let o : Option Shot = taken decode env session_id raw in
    run_from-list decode (add decode env s session_id raw).0 steps sid
      (if session_id == sid then with_taken o before else before)
      (add-ring decode env s session_id raw sid
        ∙ ap (λ r. if session_id == sid then ring_after o r else r) h
        ∙ if-keep_last (session_id == sid) (ring_after o (keep_last max_shots before))
            (with_taken o before) before (ring_after-with_taken o before))
run_from-list decode s (clears session_id ∷ steps) sid before h =
    run_from-list decode (clear s session_id) steps sid (if session_id == sid then [] else before) (
      clear-ring s session_id sid
      ∙ ap (λ r. if session_id == sid then [] else r) h
      ∙ if-keep_last (session_id == sid) [] [] before (sym (keep_last-eq-drop max_shots [])))

-- Over every sequence of captures and clearings, a session lists the last 50 of the shots that were
-- taken for it since it was last cleared, in their order, whatever happens to other sessions and however
-- the captures fail.
pub list-run :
    (decode : Bytes → Option Picture) (steps : List Step) (sid : String)
    → list (run decode new_store steps) sid ≡ keep_last max_shots (taken_for decode sid [] steps)
unfolding list ring_of lookup
list-run decode steps sid =
    run_from-list decode new_store steps sid [] (sym (keep_last-eq-drop max_shots []))
