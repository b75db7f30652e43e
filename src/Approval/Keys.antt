-- ===== src/Approval/Keys.antt =====
-- How the gate's calls and events act on the queue.
use vmux.Base.{
  ◌≡◌, ◌⊎◌, inl, inr, refl, Bool, List, [], ◌∷◌, Option, none, some, String, Map, String-eq, ◌==◌,
  lookup, delete, lookup-insert, lookup-delete, arith, Bool-cases, Option-cases, eq_of_test,
}
use vmux.Approval.Rules.{Rule}
use vmux.Approval.Queue.{Action, Queue, PendingItem}
use vmux.Approval.Queue
use vmux.Approval.Gate.{
  Gate, Decision, allow, set_mode, evaluate, Call, waiting, check_start, respond_to, System, Event,
  checks, decides, receives, cancels, sets_mode, receive, cancel, step, run,
}

-- Every pending item stands under its own id.
abbrev pub IsKeyed : Queue → Type 0
IsKeyed q = (k : String) (item : PendingItem) → lookup k q.items ≡ some item → item.id ≡ k

add-IsKeyed :
    (q : Queue) (id : String) (a : Action) (r : Rule) → IsKeyed q → IsKeyed (Queue.add q id a r)
unfolding Queue.add
add-IsKeyed q id a r h k item e = elim (Bool-cases (id == k)) [
  | inl same ↦
      let here =
        rw (lookup-insert id k (record { id = id; action = a; rule = r }) q.items, same) at e in
      cc (eq_of_test id k same, here)
  | inr other ↦
      h k item
        (rw (lookup-insert id k (record { id = id; action = a; rule = r }) q.items, other) at e)
]

delete-IsKeyed :
    (m : Map String PendingItem) (id k : String) (item : PendingItem)
    → lookup k (delete id m) ≡ some item
    → lookup k m ≡ some item
delete-IsKeyed m id k item e = ground (arith, lookup-delete id k m)

decide-IsKeyed : (q : Queue) (id : String) (b : Bool) → IsKeyed q → IsKeyed (Queue.decide q id b).0
unfolding Queue.decide
decide-IsKeyed q id b h = elim (Option-cases (lookup id q.items)) [
  | inl e ↦ rw (e, Queue.decide) (λ k item f. h k item (delete-IsKeyed q.items id k item f))
  | inr (it, e) ↦ rw (e, Queue.decide) (λ k item f. h k item (delete-IsKeyed q.items id k item f))
]

-- Check returns at once and leaves the gate alone, or queues an item and waits.
abbrev pub IsResponse : Gate → String → Action → Option Rule → Gate × Call → Type 0
IsResponse g id a rule out =
    (rule ≡ none) × (out.0 ≡ g)
    ⊎ ((r : Rule) × (rule ≡ some r)
        × (out ≡ (record g { queue = Queue.add g.queue id a r }, waiting r)))

respond_to-IsResponse :
    (rule : Option Rule) (d : Decision) (g : Gate) (id : String) (a : Action) (reason : String)
    → IsResponse g id a rule (respond_to rule d g id a reason)
unfolding respond_to
respond_to-IsResponse (some r) d g id a reason = inr (r, refl, refl)
respond_to-IsResponse none allow g id a reason = inl (refl, refl)
respond_to-IsResponse none d g id a reason = inl (refl, refl)

pub check_start-IsResponse :
    (g : Gate) (id : String) (a : Action)
    → IsResponse g id a (evaluate g a).rule (check_start g id a)
check_start-IsResponse g id a =
    unfold check_start in
    respond_to-IsResponse (evaluate g a).rule (evaluate g a).decision g id a (evaluate g a).reason

pub queue-set_mode : (g : Gate) (w m : String) → (set_mode g w m).0.queue ≡ g.queue
unfolding set_mode
queue-set_mode g w m = ground arith

pub receive-gate : (s : System) (id : String) → (receive s id).gate ≡ s.gate
unfolding receive
receive-gate s id = ground arith

pub cancel-queue :
    (s : System) (id : String)
    → ((cancel s id).gate.queue ≡ s.gate.queue)
      ⊎ ((cancel s id).gate.queue ≡ Queue.remove s.gate.queue id)
unfolding cancel
cancel-queue s id = ground arith

remove-IsKeyed : (q : Queue) (id : String) → IsKeyed q → IsKeyed (Queue.remove q id)
unfolding Queue.remove
remove-IsKeyed q id h k item e = h k item (delete-IsKeyed q.items id k item e)

pub step-IsKeyed : (s : System) (e : Event) → IsKeyed s.gate.queue → IsKeyed (step s e).gate.queue
unfolding step
step-IsKeyed s (checks id a) h = elim (check_start-IsResponse s.gate id a) [
  | inl same ↦ rw same.1 h
  | inr (r, _, e) ↦ rw e (add-IsKeyed s.gate.queue id a r h)
]
step-IsKeyed s (decides id b) h = decide-IsKeyed s.gate.queue id b h
step-IsKeyed s (receives id) h = rw (receive-gate s id) h
step-IsKeyed s (cancels id) h = elim (cancel-queue s id) [
  | inl e ↦ rw e h
  | inr e ↦ rw e (remove-IsKeyed s.gate.queue id h)
]
step-IsKeyed s (sets_mode w m) h = rw (queue-set_mode s.gate w m) h

-- If the queue holds its items under their own ids, it does so in every state that events reach.
pub run-IsKeyed :
    (s : System) (es : List Event) → IsKeyed s.gate.queue → IsKeyed (run s es).gate.queue
unfolding run
run-IsKeyed s [] h = h
run-IsKeyed s (e ∷ es) h = run-IsKeyed (step s e) es (step-IsKeyed s e h)
