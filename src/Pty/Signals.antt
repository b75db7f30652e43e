-- ===== src/Pty/Signals.antt =====
-- How often the processes of the sessions are signalled.
use vmux.Base.{
  ◌≡◌, ◌⊎◌, inl, inr, refl, ap, ◌∙◌, Bool, true, false, ◌||◌, List, [], ◌∷◌, ◌++◌, if◌then◌else◌,
  String, String-eq, ◌==◌, Bool-cases, arith, eq_of_test,
}
use vmux.Pty.Manager.{has_session}
use vmux.Pty.Live.{
  Live, new_live, is_among, kill_session, kill, session_ids, take_all, without_id, kill_taken, Step,
  kills, takes_all, kills_taken, moves, live_step, live_run,
}

-- No id stands twice.
abbrev pub Distinct : List String → Type 0
Distinct [] = Unit
Distinct (s ∷ rest) = (is_among s rest ≡ false) × Distinct rest

is_among-append :
    (sid s : String) (rest : List String)
    → is_among sid (rest ++ s ∷ []) ≡ (is_among sid rest || s == sid)
unfolding is_among
is_among-append sid s [] = ground arith
is_among-append sid s (x ∷ rest) = ground (arith, is_among-append sid s rest)

append-Distinct :
    (sid : String) (rest : List String)
    → is_among sid rest ≡ false
    → Distinct rest
    → Distinct (rest ++ sid ∷ [])
unfolding is_among
append-Distinct sid [] new h = (refl, tt)
append-Distinct sid (s ∷ rest) new h =
    let later : is_among sid rest ≡ false = ground (arith, new) in
    let apart : is_among s (rest ++ sid ∷ []) ≡ false = ground (
      arith,
      is_among-append s sid rest,
      h.0,
      new,
      String-eq.test_iff s sid,
      String-eq.test_iff sid s,
    ) in
    (apart, append-Distinct sid rest later h.1)

-- The sessions that were signalled are those whose Once has run, each once.
pub record Signalled (l : Live) : Type 0 where
  pub same : (sid : String) → is_among sid l.signalled ≡ is_among sid l.once
  pub distinct : Distinct l.signalled

kill_session-Signalled : (l : Live) (sid : String) → Signalled l → Signalled (kill_session l sid)
unfolding kill_session
kill_session-Signalled l sid h = elim (Bool-cases (is_among sid l.once)) [
  | inl e ↦ rw e h
  | inr e ↦ rw e (record {
    same = λ s. unfold is_among in ground (arith, is_among-append s sid l.signalled, h.same s);
    distinct = append-Distinct sid l.signalled (h.same sid ∙ e) h.distinct;
  })
]

if-Signalled :
    (b : Bool) (l l' : Live) → Signalled l → Signalled l' → Signalled (if b then l else l')
if-Signalled true l l' h h' = h
if-Signalled false l l' h h' = h'

kill-Signalled : (l : Live) (sid : String) → Signalled l → Signalled (kill l sid).0
unfolding kill
kill-Signalled l sid h = elim (Bool-cases (has_session l.manager sid)) [
  | inl e ↦ rw e (kill_session-Signalled l sid h)
  | inr e ↦ rw e h
]

taken-Signalled : (l : Live) (sid : String) → Signalled l → Signalled (kill_taken l sid)
unfolding kill_taken
taken-Signalled l sid h = elim (Bool-cases (is_among sid l.killing)) [
  | inr e ↦ rw e h
  | inl e ↦
      let l' : Live = record l { killing = without_id sid l.killing } in
      let h' : Signalled l' = record { same = h.same; distinct = h.distinct } in
      rw e (kill_session-Signalled l' sid h')
]

step-Signalled : (l : Live) (a : Step) → Signalled l → Signalled (live_step l a)
unfolding live_step take_all
step-Signalled l (kills sid) h = kill-Signalled l sid h
step-Signalled l takes_all h = record { same = h.same; distinct = h.distinct }
step-Signalled l (kills_taken sid) h = taken-Signalled l sid h
step-Signalled l (moves a) h = record { same = h.same; distinct = h.distinct }

run-Signalled : (l : Live) (steps : List Step) → Signalled l → Signalled (live_run l steps)
unfolding live_run
run-Signalled l [] h = h
run-Signalled l (a ∷ steps) h = run-Signalled (live_step l a) steps (step-Signalled l a h)

kill_session-once :
    (l : Live) (sid k : String)
    → is_among k (kill_session l sid).once ≡ (is_among k l.once || sid == k)
unfolding kill_session is_among
kill_session-once l sid k = elim (Bool-cases (is_among sid l.once)) [
  | inl e ↦ rw e (known (Bool-cases (sid == k)) e)
  | inr e ↦ rw e (ground arith)
]
  where
    known :
        ((sid == k) ≡ true) ⊎ ((sid == k) ≡ false)
        → is_among sid l.once ≡ true
        → is_among k l.once ≡ (is_among k l.once || sid == k)
    known (inl same) e =
        ground (arith, same, ap (λ q. is_among q l.once) (eq_of_test sid k same), e)
    known (inr apart) e = ground (arith, apart)

-- KillAll has killed the session, or is still to kill it.
abbrev IsReached : String → Live → Type 0
IsReached k l = (is_among k l.once || is_among k l.killing) ≡ true

kill_session-killing : (l : Live) (sid : String) → (kill_session l sid).killing ≡ l.killing
unfolding kill_session
kill_session-killing l sid = elim (Bool-cases (is_among sid l.once)) [
  | inl e ↦ rw e refl
  | inr e ↦ rw e refl
]

kill_session-IsReached :
    (l : Live) (sid k : String) → IsReached k l → IsReached k (kill_session l sid)
kill_session-IsReached l sid k h =
    rw (kill_session-once l sid k, kill_session-killing l sid) (ground (arith, h))

kill-IsReached : (l : Live) (sid k : String) → IsReached k l → IsReached k (kill l sid).0
unfolding kill
kill-IsReached l sid k h = elim (Bool-cases (has_session l.manager sid)) [
  | inl e ↦ rw e (kill_session-IsReached l sid k h)
  | inr e ↦ rw e h
]

is_among-join :
    (k : String) (xs ys : List String) → is_among k (xs ++ ys) ≡ (is_among k xs || is_among k ys)
unfolding is_among
is_among-join k [] ys = refl
is_among-join k (x ∷ xs) ys = ground (arith, is_among-join k xs ys)

is_among-without :
    (k sid : String) (xs : List String)
    → is_among k xs ≡ true
    → (is_among k (without_id sid xs) || sid == k) ≡ true
unfolding is_among without_id
is_among-without k sid [] h = cc h
is_among-without k sid (x ∷ xs) h = elim (Bool-cases (x == sid)) [
  | inl e ↦ rw e (ground (arith, h, ap (λ q. q == k) (eq_of_test x sid e)))
  | inr e ↦ elim (Bool-cases (x == k)) [
    | inl f ↦ rw (e, f) refl
    | inr f ↦
        let later : is_among k xs ≡ true = rw f at h in rw (e, f) (is_among-without k sid xs later)
  ]
]

taken-IsReached : (l : Live) (sid k : String) → IsReached k l → IsReached k (kill_taken l sid)
unfolding kill_taken
taken-IsReached l sid k h = elim (Bool-cases (is_among sid l.killing)) [
  | inr e ↦ rw e h
  | inl e ↦
      let l' : Live = record l { killing = without_id sid l.killing } in
      rw (e, kill_session-once l' sid k, kill_session-killing l' sid)
        (ground (arith, h, is_among-without k sid l.killing))
]

step-IsReached : (l : Live) (a : Step) (k : String) → IsReached k l → IsReached k (live_step l a)
unfolding live_step take_all
step-IsReached l (kills sid) k h = kill-IsReached l sid k h
step-IsReached l takes_all k h = ground (arith, h, is_among-join k l.killing (session_ids l))
step-IsReached l (kills_taken sid) k h = taken-IsReached l sid k h
step-IsReached l (moves a) k h = h

run-IsReached :
    (l : Live) (steps : List Step) (k : String) → IsReached k l → IsReached k (live_run l steps)
unfolding live_run
run-IsReached l [] k h = h
run-IsReached l (a ∷ steps) k h = run-IsReached (live_step l a) steps k (step-IsReached l a k h)

-- Over every interleaving of Kill, the steps of KillAll, those of Spawn and those of the readers, no
-- process group is signalled twice. And of the sessions that are in the map when KillAll takes them,
-- each has, after any further steps, been signalled or is still among those that KillAll has taken
-- and not killed yet.
pub live_run-Distinct :
    (before after : List Step) (sid : String)
    → is_among sid (session_ids (live_run new_live before)) ≡ true
    → Distinct (live_run (take_all (live_run new_live before)) after).signalled
      × ((is_among sid (live_run (take_all (live_run new_live before)) after).signalled
            || is_among sid (live_run (take_all (live_run new_live before)) after).killing)
          ≡ true)
unfolding take_all is_among
live_run-Distinct before after sid h =
    let l : Live = live_run new_live before in
    let blank : Signalled new_live = record { same = λ k. refl; distinct = tt } in
    let s : Signalled l = run-Signalled new_live before blank in
    let t : Signalled (take_all l) = record { same = s.same; distinct = s.distinct } in
    let end = run-Signalled (take_all l) after t in
    let reached : IsReached sid (take_all l) =
      ground (arith, h, is_among-join sid l.killing (session_ids l)) in
    (end.distinct, rw (end.same sid) (run-IsReached (take_all l) after sid reached))
