-- ===== src/Activity/Full.antt =====
-- What All returns, over all interleavings of calls.
use mathlib.Core.List.{append-nil}
use vmux.Base.{
  ◌≡◌, subst, Bool, true, List, [], ◌∷◌, ◌++◌, Option, String, Bytes, Bytes-eq, String-eq, lookup,
  sym, Map, Every,
}
use vmux.Activity.Event.{Event}
use vmux.Activity.Log.{all, safe_key, lines_of}
use vmux.Activity.Store.{Store, Step, close, new_store, new_system, enter, run}
use vmux.Activity.Ring.{appended}
use vmux.Activity.History.{run_holds}
use vmux.Activity.Persist.{AreCoded, IsCoded, IsLogOf, of_key, persist-IsLogOf, all-IsLogOf}

module _ (marshal : Event → Option Bytes) (unmarshal : Bytes → Option Event) (line : Event → Bytes)
    (files : Map Bytes (List Bytes)) (can_open : Bytes → Bool) where
  -- The lines that a log file has at the start.
  old : Bytes → List Bytes
  old key = lines_of (new_store files can_open).logs key

  new_store-IsLogOf :
      ((key : Bytes) → can_open key ≡ true)
      → IsLogOf marshal unmarshal line old (new_store files can_open).logs []
  unfolding new_store lines_of lookup of_key old
  new_store-IsLogOf h = record {
    can_open = h;
    keyed = λ sid key e. cc e;
    holds = λ key. sym (append-nil (lines_of (new_store files can_open).logs key));
  }

  close-IsLogOf :
      (s : Store) (es : List Event)
      → IsLogOf marshal unmarshal line old s.logs es
      → IsLogOf marshal unmarshal line old (close s).logs es
  unfolding close lines_of lookup
  close-IsLogOf s es h = record {
    can_open = h.can_open;
    keyed = λ sid key e. cc e;
    holds = h.holds;
  }

  last_written :
      (es : List Event) (e : Event)
      → AreCoded marshal unmarshal line old (es ++ e ∷ [])
      → AreCoded marshal unmarshal line old es × IsCoded marshal unmarshal (line e) e
  last_written [] e w = (tt, w.0)
  last_written (d ∷ es) e w = let (first, last) = last_written es e w.1 in ((w.0, first), last)

  -- After any interleaving of calls from a new store on a directory whose log files can be opened and
  -- consist of whole lines, All returns, without an error, what it returned at the start for the
  -- session, where that was without an error, and then the events that were appended for all the
  -- sessions whose ids have the same safeKey as the session's id, in their order, numbered and
  -- redacted: where each of the events that were appended encodes to a line of less than 8 MiB that
  -- decodes to it.
  pub all-run :
      (redact : String → String) (steps : List Step) (sid : String) (older : List Event)
      → ((key : Bytes) → can_open key ≡ true)
      → all unmarshal (new_store files can_open).logs sid ≡ (older, true)
      → Every (λ e. IsCoded marshal unmarshal (line e) e) (appended redact 0 steps)
      → all unmarshal (run redact marshal (new_system files can_open) steps).store.logs sid
        ≡ (older ++ of_key (safe_key sid) (appended redact 0 steps), true)
  unfolding enter new_store old all
  all-run redact steps sid older h before coded =
      all-IsLogOf marshal unmarshal line old _ older (appended redact 0 steps) sid coded before (
        run_holds redact marshal
          (λ s es.
            AreCoded marshal unmarshal line old es → IsLogOf marshal unmarshal line old s.logs es)
          (λ s s' es same holds w.
            subst (λ l. IsLogOf marshal unmarshal line old l es) (sym same.logs) (holds w))
          (λ s es holds w. close-IsLogOf s es (holds w))
          (λ s e es holds w.
            let (first, last) = last_written es e w in
            persist-IsLogOf marshal unmarshal line old s.logs es e last (holds first))
          (new_system files can_open) [] steps (λ w. new_store-IsLogOf h) coded)
