-- ===== src/Approval/Safety.antt =====
-- A held action proceeds only after the user has approved it.
use Prim.Native.String.{◌++◌}
use vmux.Base.{
  ◌+◌, ◌≡◌, ◌≢◌, ◌⊎◌, inl, inr, refl, Bool, true, false, List, [], ◌∷◌, none, some, String,
  String-eq, if◌then◌else◌, lookup, insert, delete, lookup-insert, lookup-insert_cases,
  lookup-delete, arith, Option-cases, eq_self, test_of_ne, Every,
}
use vmux.Approval.Rules.{Rule}
use vmux.Approval.Queue.{Action, Queue, PendingItem}
use vmux.Approval.Queue
use vmux.Approval.Gate.{
  Gate, evaluate, returned, waiting, check_start, System, Event, checks, decides, receives, cancels,
  sets_mode, receive, cancel, step, run,
}
use vmux.Approval.Keys.{
  IsKeyed, step-IsKeyed, check_start-IsResponse, queue-set_mode, receive-gate, cancel-queue,
}

-- No approval stands in the channel of `id`, and its call has not returned with one.
record IsUnapproved (id : String) (s : System) : Type 0 where
  channel : lookup id s.gate.queue.channels ≢ some true
  call : (reason : String) → lookup id s.calls ≢ some (returned true reason)

-- The event neither approves `id` nor is another call of Check under the same id.
abbrev pub Spares : String → Event → Type 0
Spares id (decides k b) = (k ≢ id) ⊎ (b ≡ false)
Spares id (checks k a) = k ≢ id
Spares id _ = Unit

channels-check_start :
    (g : Gate) (id : String) (a : Action) → (check_start g id a).0.queue.channels ≡ g.queue.channels
channels-check_start g id a = elim (check_start-IsResponse g id a) [
  | inl same ↦ rw same.1
  | inr (r, _, e) ↦ rw e (unfold Queue.add in refl)
]

-- Deciding fills the channel of its own item only.
channels-decide :
    (q : Queue) (k id : String) (b : Bool)
    → IsKeyed q
    → (k ≢ id) ⊎ (b ≡ false)
    → lookup id q.channels ≢ some true
    → lookup id (Queue.decide q k b).0.channels ≢ some true
unfolding Queue.decide
channels-decide q k id b keyed p h = elim (Option-cases (lookup k q.items)) [
  | inl e ↦ rw (e, Queue.decide) h
  | inr (it, e) ↦
      rw (e, Queue.decide, keyed k it e)
        (λ f. ground (arith, lookup-insert k id b q.channels, String-eq.test_iff k id))
]

channels-cancel :
    (s : System) (k : String) → (cancel s k).gate.queue.channels ≡ s.gate.queue.channels
channels-cancel s k = elim (cancel-queue s k) [
  | inl e ↦ rw e
  | inr e ↦ rw e (unfold Queue.remove in refl)
]

-- A call returns `true` only on an approval in its channel, or if it had done so before.
calls-receive :
    (s : System) (k id reason : String)
    → lookup id s.gate.queue.channels ≢ some true
    → lookup id (receive s k).calls ≡ some (returned true reason)
    → lookup id s.calls ≡ some (returned true reason)
unfolding receive
calls-receive s k id reason h e = elim (Option-cases (lookup k s.calls)) [
  | inl f ↦ rw (f, receive) at e
  | inr (returned b r, f) ↦ rw (f, receive) at e
  | inr (waiting r, f) ↦ elim (Option-cases (lookup k s.gate.queue.channels)) [
    | inl g ↦ rw (f, g, receive) at e
    | inr (true, g) ↦ elim (lookup-insert_cases k id _ s.calls (rw (f, g, receive) at e)) [
      | inl same ↦ absurd (h (rw (← same.0) g))
      | inr other ↦ other.1
    ]
    | inr (false, g) ↦ elim (lookup-insert_cases k id _ s.calls (rw (f, g, receive) at e)) [
      | inl same ↦ cc (same.1)
      | inr other ↦ other.1
    ]
  ]
]

calls-cancel :
    (s : System) (k id reason : String)
    → lookup id (cancel s k).calls ≡ some (returned true reason)
    → lookup id s.calls ≡ some (returned true reason)
unfolding cancel
calls-cancel s k id reason e = elim (Option-cases (lookup k s.calls)) [
  | inl f ↦ rw (f, cancel) at e
  | inr (returned b r, f) ↦ rw (f, cancel) at e
  | inr (waiting r, f) ↦ elim (lookup-insert_cases k id _ s.calls (rw (f, cancel) at e)) [
    | inl same ↦ cc (same.1)
    | inr other ↦ other.1
  ]
]

step-IsUnapproved :
    (id : String) (s : System) (e : Event)
    → IsKeyed s.gate.queue
    → Spares id e
    → IsUnapproved id s
    → IsUnapproved id (step s e)
unfolding step
step-IsUnapproved id s (checks k a) keyed p h = record {
  channel = rw (channels-check_start s.gate k a) h.channel;
  call = λ reason.
      rw (lookup-insert k id (check_start s.gate k a).1 s.calls, test_of_ne k id p) (h.call reason);
}
step-IsUnapproved id s (decides k b) keyed p h = record {
  channel = channels-decide s.gate.queue k id b keyed p h.channel;
  call = h.call;
}
step-IsUnapproved id s (receives k) keyed p h = record {
  channel = rw (receive-gate s k) h.channel;
  call = λ reason e. h.call reason (calls-receive s k id reason h.channel e);
}
step-IsUnapproved id s (cancels k) keyed p h = record {
  channel = rw (channels-cancel s k) h.channel;
  call = λ reason e. h.call reason (calls-cancel s k id reason e);
}
step-IsUnapproved id s (sets_mode w m) keyed p h = record {
  channel = rw (queue-set_mode s.gate w m) h.channel;
  call = h.call;
}

run-IsUnapproved :
    (id : String) (s : System) (es : List Event)
    → IsKeyed s.gate.queue
    → Every (Spares id) es
    → IsUnapproved id s
    → IsUnapproved id (run s es)
unfolding run
run-IsUnapproved id s [] keyed p h = h
run-IsUnapproved id s (e ∷ es) keyed p h =
    run-IsUnapproved id (step s e) es (step-IsKeyed s e keyed) p.1
      (step-IsUnapproved id s e keyed p.0 h)

calls-check_start :
    (s : System) (id : String) (a : Action) (r : Rule)
    → (evaluate s.gate a).rule ≡ some r
    → lookup id (step s (checks id a)).calls ≡ some (waiting r)
unfolding step
calls-check_start s id a r e = elim (check_start-IsResponse s.gate id a) [
  | inl none_fired ↦ absurd (cc (e, none_fired.0))
  | inr (r', f, out) ↦ rw (out, lookup-insert id id (waiting r') s.calls, eq_self id) (cc (e, f))
]

-- A call of Check on an action that needs approval does not return `true`, whatever happens to the
-- gate, unless the user approves its item: over all sequences of events in which the item's id is
-- not approved and is given to no other call of Check. The queue must hold its items under their
-- own ids, and the channel of the id must not hold an approval at the start.
pub run-needs_approval :
    (s : System) (id : String) (a : Action) (r : Rule) (es : List Event) (reason : String)
    → IsKeyed s.gate.queue
    → (evaluate s.gate a).rule ≡ some r
    → lookup id s.gate.queue.channels ≢ some true
    → Every (Spares id) es
    → lookup id (run (step s (checks id a)) es).calls ≢ some (returned true reason)
run-needs_approval s id a r es reason keyed gated idle spared =
    let held = calls-check_start s id a r gated in
    (run-IsUnapproved id (step s (checks id a)) es (step-IsKeyed s (checks id a) keyed) spared
        (record {
          channel = unfold step in rw (channels-check_start s.gate id a) idle;
          call = λ why e. cc (held, e);
        })).call
      reason

decide-found :
    (q : Queue) (id : String) (b : Bool) (item : PendingItem)
    → IsKeyed q
    → lookup id q.items ≡ some item
    → (Queue.decide q id b).0 ≡ record q {
      items = delete id q.items;
      channels = insert id b q.channels;
      notices = q.notices + 1;
    }
decide-found q id b item keyed e = unfold Queue.decide in rw (e, Queue.decide, keyed id item e)

receive-found :
    (s : System) (id : String) (r : Rule) (b : Bool)
    → lookup id s.calls ≡ some (waiting r)
    → lookup id s.gate.queue.channels ≡ some b
    → receive s id ≡ record s {
      calls =
          insert id
            (if b then returned true "" else returned false ("denied: " ++ r.reason))
            s.calls;
    }
unfolding receive
receive-found s id r b held answered = rw (held, answered, receive)

-- A call that waits for its item returns the user's answer: after the decision and the receipt, it
-- has returned `true` if the user allowed the action, and `false` with the rule's reason if not,
-- and the item is gone from the queue.
pub decide-then_receive :
    (s : System) (id : String) (r : Rule) (item : PendingItem) (b : Bool)
    → IsKeyed s.gate.queue
    → lookup id s.calls ≡ some (waiting r)
    → lookup id s.gate.queue.items ≡ some item
    → (lookup id (run s (decides id b ∷ receives id ∷ [])).calls
        ≡ some (if b then returned true "" else returned false ("denied: " ++ r.reason)))
      × (lookup id (run s (decides id b ∷ receives id ∷ [])).gate.queue.items ≡ none)
unfolding run step
decide-then_receive s id r item b keyed held queued =
    let q : Queue = s.gate.queue in
    let s' : System = record s {
      gate = record (s.gate) {
        queue = record q {
          items = delete id q.items;
          channels = insert id b q.channels;
          notices = q.notices + 1;
        };
      };
    } in
    let answered : lookup id s'.gate.queue.channels ≡ some b =
      rw (lookup-insert id id b q.channels, eq_self id) in
    rw (decide-found q id b item keyed queued, receive-found s' id r b held answered)
      (rw (lookup-insert id id _ s.calls, eq_self id), rw (lookup-delete id id q.items, eq_self id))
