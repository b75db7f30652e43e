-- ===== src/Activity/Recent.antt =====
-- What Recent returns, over all interleavings of calls.
use vmux.Base.{
  Map, ℕ, ◌≤◌, ◌<◌, ◌≡◌, refl, ap, ◌∙◌, Bool, List, [], Option, arith, lookup, ℕ-eq, String,
  String-eq, Bytes, keep_last, keep_last-keep_last,
}
use vmux.Activity.Event.{Event}
use vmux.Activity.Store.{Store, Step, new_store, new_system, ring_of, ring_size, recent, run}
use vmux.Activity.Ring.{
  appended, of_session, HoldsLast, enter-HoldsLast, keep_HoldsLast, close-HoldsLast,
}
use vmux.Activity.History.{run_holds}

recent-eq-keep_last :
    (s : Store) (sid : String) (n : ℕ) → 0 < n → recent s sid n ≡ keep_last n (ring_of s sid)
unfolding recent keep_last
recent-eq-keep_last s sid n h = ground arith

-- After any interleaving of calls from a new store, Recent with a count from 1 to 5000 returns the
-- last events of that count among all those that were appended for the session, numbered from 1
-- over all sessions in the order of their calls and redacted.
pub recent-run :
    (redact : String → String) (marshal : Event → Option Bytes) (files : Map Bytes (List Bytes))
    (can_open : Bytes → Bool) (steps : List Step) (sid : String) (n : ℕ)
    → 0 < n
    → n ≤ ring_size
    → recent (run redact marshal (new_system files can_open) steps).store sid n
      ≡ keep_last n (of_session sid (appended redact 0 steps))
unfolding new_store of_session ring_of keep_last lookup
recent-run redact marshal files can_open steps sid n positive small =
    let full : HoldsLast sid (run redact marshal (new_system files can_open) steps).store
        (appended redact 0 steps) =
      run_holds redact marshal (HoldsLast sid) (keep_HoldsLast sid)
        (λ s es h. close-HoldsLast s sid es h) (λ s e es h. enter-HoldsLast marshal s e sid es h)
        (new_system files can_open) [] steps refl in
    recent-eq-keep_last _ sid n positive
    ∙ ap (keep_last n) full
    ∙ keep_last-keep_last n ring_size (of_session sid (appended redact 0 steps)) small
