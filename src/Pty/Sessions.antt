-- ===== src/Pty/Sessions.antt =====
-- A process that is over before Spawn has entered its session.
use mathlib.Core.Bool.{false≢true}
use vmux.Base.{
  ◌≡◌, ◌≢◌, inl, inr, refl, sym, ap, ◌∙◌, Bool, true, false, List, [], ◌∷◌, none, some, Bool-cases,
  lookup, insert, delete, lookup-insert, lookup-delete, String, String-eq, ◌==◌, eq_self,
  test_of_ne, if◌then◌else◌, arith,
}
use vmux.Pty.Manager.{
  Manager, Step, starts, enters, ends, has_session, is_running, remove, end_session, step, run,
}

is_running-insert :
    (m : Manager) (k sid : String) (b : Bool)
    → is_running (record m { running = insert k b m.running }) sid
      ≡ (if k == sid then b else is_running m sid)
unfolding is_running
is_running-insert m k sid b =
    let found : lookup sid (insert k b m.running)
        ≡ (if k == sid then some b else lookup sid m.running) =
      lookup-insert k sid b m.running in
    elim (Bool-cases (k == sid)) [
      | inl same ↦ rw (found, same, is_running)
      | inr other ↦ rw (found, other, is_running)
    ]

has_session-insert :
    (m : Manager) (k sid : String)
    → has_session (record m { sessions = insert k true m.sessions }) sid
      ≡ (if k == sid then true else has_session m sid)
unfolding has_session
has_session-insert m k sid =
    let found : lookup sid (insert k true m.sessions)
        ≡ (if k == sid then some true else lookup sid m.sessions) =
      lookup-insert k sid true m.sessions in
    elim (Bool-cases (k == sid)) [
      | inl same ↦ rw (found, same, has_session)
      | inr other ↦ rw (found, other, has_session)
    ]

has_session-remove :
    (m : Manager) (k sid : String)
    → has_session (remove m k) sid ≡ (if k == sid then false else has_session m sid)
unfolding has_session remove
has_session-remove m k sid =
    let found : lookup sid (delete k m.sessions)
        ≡ (if k == sid then none else lookup sid m.sessions) =
      lookup-delete k sid m.sessions in
    elim (Bool-cases (k == sid)) [
      | inl same ↦ rw (found, same, has_session, remove)
      | inr other ↦ rw (found, other, has_session, remove)
    ]

-- The manager has the session, and its process is over.
pub record IsDead (sid : String) (m : Manager) : Type 0 where
  pub entered : has_session m sid ≡ true
  pub over : is_running m sid ≡ false

-- No step starts a session under the id.
abbrev pub StartsNone : String → List Step → Type 0
StartsNone sid [] = Unit
StartsNone sid (starts k ∷ steps) = (k ≢ sid) × StartsNone sid steps
StartsNone sid (enters k ∷ steps) = StartsNone sid steps
StartsNone sid (ends k ∷ steps) = StartsNone sid steps

enters-IsDead : (m : Manager) (sid k : String) → IsDead sid m → IsDead sid (step m (enters k))
unfolding step is_running
enters-IsDead m sid k h = record {
  entered = has_session-insert m k sid ∙ ground (arith, h.entered);
  over = h.over;
}

end_session-IsDead :
    (m : Manager) (sid k : String) → k ≢ sid → IsDead sid m → IsDead sid (end_session m k)
unfolding end_session
end_session-IsDead m sid k other h =
    let m' : Manager = record m { running = insert k false m.running } in
    record {
      entered =
          has_session-remove m' k sid
          ∙ rw (test_of_ne k sid other) (unfold has_session in h.entered);
      over =
          unfold is_running remove in
          is_running-insert m k sid false ∙ rw (test_of_ne k sid other) h.over;
    }

ends-IsDead : (m : Manager) (sid k : String) → IsDead sid m → IsDead sid (step m (ends k))
unfolding step
ends-IsDead m sid k h = elim (Bool-cases (is_running m k)) [
  | inl runs ↦
      rw (runs, step)
        (end_session-IsDead m sid k
          (λ e. false≢true (sym h.over ∙ ap (is_running m) (sym e) ∙ runs)) h)
  | inr stopped ↦ rw (stopped, step) h
]

run-IsDead :
    (m : Manager) (sid : String) (steps : List Step)
    → StartsNone sid steps
    → IsDead sid m
    → IsDead sid (run m steps)
unfolding run
run-IsDead m sid [] spared h = h
run-IsDead m sid (starts k ∷ steps) spared h = run-IsDead (step m (starts k)) sid steps spared.1 (
    unfold step has_session in
    record {
      entered = h.entered;
      over = is_running-insert m k sid true ∙ rw (test_of_ne k sid spared.0) h.over;
    })
run-IsDead m sid (enters k ∷ steps) spared h =
    run-IsDead (step m (enters k)) sid steps spared (enters-IsDead m sid k h)
run-IsDead m sid (ends k ∷ steps) spared h =
    run-IsDead (step m (ends k)) sid steps spared (ends-IsDead m sid k h)

ends-running :
    (m : Manager) (sid : String)
    → is_running m sid ≡ true
    → is_running (step m (ends sid)) sid ≡ false
unfolding step end_session remove is_running
ends-running m sid runs =
    rw (runs, step, end_session, remove) (is_running-insert m sid sid false ∙ rw (eq_self sid) refl)

-- If a process ends before Spawn has entered its session, the manager has the session from then on,
-- with no process: after every sequence of steps that starts no other session under its id.
pub ends-then_enters :
    (m : Manager) (sid : String) (steps : List Step)
    → is_running m sid ≡ true
    → StartsNone sid steps
    → IsDead sid (run m (ends sid ∷ enters sid ∷ steps))
unfolding run step is_running
ends-then_enters m sid steps runs spared =
    run-IsDead (step (step m (ends sid)) (enters sid)) sid steps spared (record {
      entered = has_session-insert (step m (ends sid)) sid sid ∙ rw (eq_self sid) refl;
      over = ends-running m sid runs;
    })
