-- ===== src/Service/Answered.antt =====
-- Which approvals the methods list, and which of them can be decided.
use vmux.Base.{
  ◌≡◌, ◌+◌, inl, inr, refl, sym, ap, subst, ◌∙◌, Bool, true, false, ◌||◌, List, [], ◌∷◌, Option,
  none, some, if◌then◌else◌, String, String-eq, ◌==◌, Bytes, Map, lookup, insert, delete,
  lookup-delete, lookup-insert_self, Every, Bool-cases, Option-cases, arith, eq_of_test,
}
use vmux.Approval.Rules.{Rule}
use vmux.Approval.Queue.{Action, Queue, PendingItem, PendingView}
use vmux.Approval.Queue
use vmux.Approval.Gate.{
  Gate, new_gate, System, Event, checks, decides, receives, cancels, sets_mode, step, run,
}
use vmux.Approval.Keys.{check_start-IsResponse, queue-set_mode, receive-gate, cancel-queue}
use vmux.Service.Reply.{Reply, returned, invalid_params}
use vmux.Service.Approvals.{redact_pending, decided, approval_decide}

unfoldable pub has_view : String → List PendingView → Bool
has_view id [] = false
has_view id (v ∷ views) = v.id == id || has_view id views

unfoldable pub is_listed : (Bytes → Bytes) → Gate → String → Bool
unfolding has_view redact_pending Queue.list
is_listed redact g id = has_view id (redact_pending redact (Queue.list g.queue))

abbrev Entries : Type 0
Entries = Map String PendingItem

-- Every item stands under its own id.
abbrev AllKeyed : Entries → Type 0
AllKeyed = Every (λ (e : String × PendingItem). e.1.id ≡ e.0)

insert-AllKeyed :
    (id : String) (item : PendingItem) (m : Entries)
    → item.id ≡ id
    → AllKeyed m
    → AllKeyed (insert id item m)
unfolding insert
insert-AllKeyed id item [] is h = (is, tt)
insert-AllKeyed id item (e ∷ m) is h = elim (Bool-cases (id == e.0)) [
  | inl same ↦ rw same (is, h.1)
  | inr other ↦ rw other (h.0, insert-AllKeyed id item m is h.1)
]

delete-AllKeyed : (id : String) (m : Entries) → AllKeyed m → AllKeyed (delete id m)
unfolding delete
delete-AllKeyed id [] h = tt
delete-AllKeyed id (e ∷ m) h = elim (Bool-cases (id == e.0)) [
  | inl same ↦ rw same (delete-AllKeyed id m h.1)
  | inr other ↦ rw other (h.0, delete-AllKeyed id m h.1)
]

decide-items :
    (q : Queue) (id : String) (b : Bool) → (Queue.decide q id b).0.items ≡ delete id q.items
unfolding Queue.decide
decide-items q id b = ground arith

remove-items : (q : Queue) (id : String) → (Queue.remove q id).items ≡ delete id q.items
unfolding Queue.remove
remove-items q id = refl

add-AllKeyed :
    (q : Queue) (id : String) (a : Action) (r : Rule)
    → AllKeyed q.items
    → AllKeyed (Queue.add q id a r).items
unfolding Queue.add
add-AllKeyed q id a r h =
    insert-AllKeyed id (record { id = id; action = a; rule = r }) q.items refl h

step-AllKeyed :
    (s : System) (e : Event) → AllKeyed s.gate.queue.items → AllKeyed (step s e).gate.queue.items
unfolding step
step-AllKeyed s (checks id a) h = elim (check_start-IsResponse s.gate id a) [
  | inl same ↦ rw same.1 h
  | inr (r, _, e) ↦ rw e (add-AllKeyed s.gate.queue id a r h)
]
step-AllKeyed s (decides id b) h =
    rw (decide-items s.gate.queue id b) (delete-AllKeyed id s.gate.queue.items h)
step-AllKeyed s (receives id) h = rw (receive-gate s id) h
step-AllKeyed s (cancels id) h = elim (cancel-queue s id) [
  | inl e ↦ rw e h
  | inr e ↦ rw (e, remove-items s.gate.queue id) (delete-AllKeyed id s.gate.queue.items h)
]
step-AllKeyed s (sets_mode w m) h = rw (queue-set_mode s.gate w m) h

run-AllKeyed :
    (s : System) (es : List Event)
    → AllKeyed s.gate.queue.items
    → AllKeyed (run s es).gate.queue.items
unfolding run
run-AllKeyed s [] h = h
run-AllKeyed s (e ∷ es) h = run-AllKeyed (step s e) es (step-AllKeyed s e h)

unfoldable is_found : Option PendingItem → Bool
is_found none = false
is_found (some item) = true

-- The views are those of the items that a lookup finds.
views-lookup :
    (redact : Bytes → Bytes) (id : String) (q : Queue) (m : Entries)
    → AllKeyed m
    → has_view id (redact_pending redact (Queue.list (record q { items = m })))
      ≡ is_found (lookup id m)
unfolding Queue.list has_view redact_pending lookup is_found
views-lookup redact id q [] h = refl
views-lookup redact id q (e ∷ m) h =
    let there : (e.1.id == id) ≡ (id == e.0) =
      ap (λ k. k == id) h.0
      ∙ ground (arith, String-eq.test_iff e.0 id, String-eq.test_iff id e.0) in
    elim (Bool-cases (id == e.0)) [
      | inl same ↦ rw (there, same)
      | inr other ↦ rw (there, other) (views-lookup redact id q m h.1)
    ]

is_listed-lookup :
    (redact : Bytes → Bytes) (id : String) (g : Gate)
    → AllKeyed g.queue.items
    → is_listed redact g id ≡ is_found (lookup id g.queue.items)
unfolding is_listed
is_listed-lookup redact id g h = views-lookup redact id g.queue g.queue.items h

found-id :
    (id : String) (m : Entries) (item : PendingItem)
    → AllKeyed m
    → lookup id m ≡ some item
    → item.id ≡ id
unfolding lookup
found-id id [] item h got = cc got
found-id id (e ∷ m) item h got = elim (Bool-cases (id == e.0)) [
  | inl same ↦
      let is : some e.1 ≡ some item = rw same at got in
      let eq : e.1 ≡ item = cc is in
      ap (λ (i : PendingItem). i.id) (sym eq) ∙ h.0 ∙ sym (eq_of_test id e.0 same)
  | inr other ↦ found-id id m item h.1 (rw other at got)
]

-- What a decision through the method comes to, whether the action is listed or not.
pub record IsAnswered (redact : Bytes → Bytes) (g : Gate) (id : String) (allow : Bool)
    (out : Gate × Reply Unit) : Type 0 where
  pub reply : out.1 ≡ (if is_listed redact g id then returned tt else invalid_params)
  pub answer :
      lookup id out.0.queue.channels
      ≡ (if is_listed redact g id then some allow else lookup id g.queue.channels)
  pub after :
      (k : String) → is_listed redact out.0 k ≡ (if id == k then false else is_listed redact g k)

decide-found :
    (q : Queue) (id : String) (b : Bool) (item : PendingItem)
    → lookup id q.items ≡ some item
    → Queue.decide q id b ≡ (
      record q {
        items = delete id q.items;
        channels = insert item.id b q.channels;
        notices = q.notices + 1;
      },
      true,
    )
unfolding Queue.decide
decide-found q id b item got = rw (got, Queue.decide)

decide-missing :
    (q : Queue) (id : String) (b : Bool)
    → lookup id q.items ≡ none
    → Queue.decide q id b ≡ (record q { items = delete id q.items }, false)
unfolding Queue.decide
decide-missing q id b got = rw (got, Queue.decide)

decided-queue : (g : Gate) (p : Queue × Bool) → (decided g p).0.queue ≡ p.0
unfolding decided
decided-queue g (queue, true) = refl
decided-queue g (queue, false) = refl

module _ (g : Gate) (id : String) (allow : Bool) where
  approval_decide-items :
      (approval_decide g (some (id, allow))).0.queue.items ≡ delete id g.queue.items
  unfolding approval_decide
  approval_decide-items =
      ap (λ (q : Queue). q.items) (decided-queue g (Queue.decide g.queue id allow))
      ∙ decide-items g.queue id allow

  -- The reply, and what stands in the channel of the id.
  abbrev Answer : Bool → Type 0
  Answer listed =
      ((approval_decide g (some (id, allow))).1 ≡ (if listed then returned tt else invalid_params))
      × (lookup id (approval_decide g (some (id, allow))).0.queue.channels
          ≡ (if listed then some allow else lookup id g.queue.channels))

  approval_decide-found :
      (item : PendingItem) → lookup id g.queue.items ≡ some item → item.id ≡ id → Answer true
  unfolding approval_decide decided
  approval_decide-found item got is =
      let made = ap (decided g) (decide-found g.queue id allow item got) in
      (
        ap (λ (r : Gate × Reply Unit). r.1) made,
        ap (λ (r : Gate × Reply Unit). lookup id r.0.queue.channels) made
            ∙ ap (λ k. lookup id (insert k allow g.queue.channels)) is
            ∙ lookup-insert_self id allow g.queue.channels,
      )

  approval_decide-missing : lookup id g.queue.items ≡ none → Answer false
  unfolding approval_decide decided
  approval_decide-missing got =
      let made = ap (decided g) (decide-missing g.queue id allow got) in
      (
        ap (λ (r : Gate × Reply Unit). r.1) made,
        ap (λ (r : Gate × Reply Unit). lookup id r.0.queue.channels) made,
      )

  approval_decide-Answer : AllKeyed g.queue.items → Answer (is_found (lookup id g.queue.items))
  unfolding is_found
  approval_decide-Answer h = elim (Option-cases (lookup id g.queue.items)) [
    | inl e ↦ subst (λ o. Answer (is_found o)) (sym e) (approval_decide-missing e)
    | inr (item, e) ↦
        subst (λ o. Answer (is_found o)) (sym e)
          (approval_decide-found item e (found-id id g.queue.items item h e))
  ]

  is_found-delete :
      (k : String)
      → is_found (lookup k (delete id g.queue.items))
        ≡ (if id == k then false else is_found (lookup k g.queue.items))
  unfolding is_found
  is_found-delete k = ground (arith, lookup-delete id k g.queue.items)

  keyed_IsAnswered :
      (redact : Bytes → Bytes)
      → AllKeyed g.queue.items
      → IsAnswered redact g id allow (approval_decide g (some (id, allow)))
  unfolding is_found
  keyed_IsAnswered redact h =
      let listed : is_listed redact g id ≡ is_found (lookup id g.queue.items) =
        is_listed-lookup redact id g h in
      let answered : Answer (is_listed redact g id) =
        subst Answer (sym listed) (approval_decide-Answer h) in
      let g' : Gate = (approval_decide g (some (id, allow))).0 in
      let h' : AllKeyed g'.queue.items =
        subst AllKeyed (sym approval_decide-items) (delete-AllKeyed id g.queue.items h) in
      record {
        reply = answered.0;
        answer = answered.1;
        after = λ k.
            is_listed-lookup redact k g' h'
            ∙ ap (λ m. is_found (lookup k m)) approval_decide-items
            ∙ is_found-delete k
            ∙ ap (λ b. if id == k then false else b) (sym (is_listed-lookup redact k g h));
      }

abbrev pub start : System
start = record { gate = new_gate; calls = [] }

-- In every state of the gate that calls, decisions and changes of modes reach, approval.decide on an id
-- that approval.list shows succeeds and leaves the answer for the action that waits; on any other id
-- it returns invalid parameters; and afterwards approval.list shows what it showed before, without
-- that id.
pub approval_decide-IsAnswered :
    (redact : Bytes → Bytes) (es : List Event) (id : String) (allow : Bool)
    → IsAnswered redact
        (run start es).gate
        id
        allow
        (approval_decide (run start es).gate (some (id, allow)))
approval_decide-IsAnswered redact es id allow =
    keyed_IsAnswered (run start es).gate id allow redact (run-AllKeyed start es tt)
