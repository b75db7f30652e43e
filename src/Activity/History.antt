-- ===== src/Activity/History.antt =====
-- Induction over the interleavings of calls, for what is true of the log.
use mathlib.Core.List.{append_assoc, append-nil}
use vmux.Base.{◌+◌, subst, List, [], ◌∷◌, ◌++◌, Option, ℕ-eq, String, String-eq, Bytes}
use vmux.Activity.Event.{Event}
use vmux.Activity.Store.{
  Store, System, Step, appends, subscribes, unsubscribes, sends_next, reads, closes, close,
  prepared, enter, step, run,
}
use vmux.Activity.Ring.{appended, IsSameLog, quiet_step-IsSameLog}

-- A property of the store and the events appended so far holds of all the events appended when the
-- steps have run, if Append and Close keep it and it is about the log only.
module _ (redact : String → String) (marshal : Event → Option Bytes)
    (P : Store → List Event → Type 0)
    (stays : (s s' : Store) (es : List Event) → IsSameLog s s' → P s es → P s' es)
    (closing : (s : Store) (es : List Event) → P s es → P (close s) es)
    (enters : (s : Store) (e : Event) (es : List Event)
      → P s es
      → P (enter marshal s e) (es ++ e ∷ [])) where
  quiet_holds :
      (y y' : System) (es : List Event) (steps : List Step)
      → IsSameLog y.store y'.store
      → (P y'.store es
          → P (run redact marshal y' steps).store (es ++ appended redact y'.store.seq steps))
      → P y.store es
      → P (run redact marshal y' steps).store (es ++ appended redact y.store.seq steps)
  quiet_holds y y' es steps same rest h =
      subst (λ k. P (run redact marshal y' steps).store (es ++ appended redact k steps)) same.seq
        (rest (stays y.store y'.store es same h))

  pub run_holds :
      (y : System) (es : List Event) (steps : List Step)
      → P y.store es
      → P (run redact marshal y steps).store (es ++ appended redact y.store.seq steps)
  unfolding run step close appended
  run_holds y es [] h = rw (append-nil es) h
  run_holds y es (appends e ∷ steps) h =
      let e' : Event = prepared redact (y.store.seq + 1) e in
      subst (P (run redact marshal (step redact marshal y (appends e)) steps).store)
        (append_assoc es (e' ∷ []) (appended redact (y.store.seq + 1) steps))
        (run_holds (step redact marshal y (appends e)) (es ++ e' ∷ []) steps
          (enters y.store e' es h))
  run_holds y es (subscribes ∷ steps) h =
      let (q, a, b, c) = quiet_step-IsSameLog redact marshal y 0 in
      quiet_holds y _ es steps q (run_holds _ es steps) h
  run_holds y es (unsubscribes id ∷ steps) h =
      let (a, q, b, c) = quiet_step-IsSameLog redact marshal y id in
      quiet_holds y _ es steps q (run_holds _ es steps) h
  run_holds y es (sends_next n ∷ steps) h =
      let (a, b, q, c) = quiet_step-IsSameLog redact marshal y n in
      quiet_holds y _ es steps q (run_holds _ es steps) h
  run_holds y es (reads id ∷ steps) h =
      let (a, b, c, q) = quiet_step-IsSameLog redact marshal y id in
      quiet_holds y _ es steps q (run_holds _ es steps) h
  run_holds y es (closes ∷ steps) h =
      run_holds (record y { store = close y.store }) es steps (closing y.store es h)
