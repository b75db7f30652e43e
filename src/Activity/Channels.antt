-- ===== src/Activity/Channels.antt =====
-- The subscribers' channels: their bound, and what an unsubscription can do to a call of Append
-- that still has sends left.
use vmux.Base.{
  ℕ, ◌≤◌, ◌≡◌, inl, inr, refl, ap, subst, ◌∙◌, true, false, List, [], ◌∷◌, ◌++◌, Option, some, ltb,
  arith, Bool-cases, Option-cases, lookup, insert, ℕ-eq, lookup-insert, lookup-insert_cases, length,
  length-append, Bytes, String, eq_self,
}
use vmux.Activity.Event.{Event}
use vmux.Activity.Store.{
  System, Step, Channel, appends, subscribes, unsubscribes, sends_next, reads, closes, channel_size,
  subscribe, unsubscribe, send, send_to, send_next, pick, read_channel, close_channel, tail_of,
  step, run,
}

unsubscribe-opened :
    (y : System) (id : ℕ) (c : Channel)
    → lookup id y.channels ≡ some c
    → c.closed ≡ false
    → ((unsubscribe y id).channels ≡ insert id (record c { closed = true }) y.channels)
      × ((unsubscribe y id).sends ≡ y.sends)
unfolding unsubscribe
unsubscribe-opened y id c found opened = rw (found, unsubscribe, opened, close_channel) (refl, refl)

send_next-closed :
    (y : System) (id n : ℕ) (c : Channel) (e : Event) (rest : List (Event × ℕ))
    → lookup id y.channels ≡ some c
    → c.closed ≡ true
    → pick n y.sends ≡ some ((e, id), rest)
    → (send_next y n).panicked ≡ true
unfolding send_next send send_to
send_next-closed y id n c e rest found shut left = rw (left, send_next, send, found, send_to, shut)

-- A send that a call of Append has left, to a channel that its subscriber has not closed yet: if
-- the subscriber unsubscribes before the send is made, the send ends the program.
pub unsubscribe-then_send :
    (redact : String → String) (marshal : Event → Option Bytes) (y : System) (id n : ℕ)
    (c : Channel) (e : Event) (rest : List (Event × ℕ))
    → lookup id y.channels ≡ some c
    → c.closed ≡ false
    → pick n y.sends ≡ some ((e, id), rest)
    → (run redact marshal y (unsubscribes id ∷ sends_next n ∷ [])).panicked ≡ true
unfolding run step
unsubscribe-then_send redact marshal y id n c e rest found opened left =
    let (channels, sends) = unsubscribe-opened y id c found opened in
    let closed_one : lookup id (unsubscribe y id).channels ≡ some (record c { closed = true }) =
      ap (lookup id) channels
      ∙ lookup-insert id id (record c { closed = true }) y.channels
      ∙ rw (eq_self id) refl in
    send_next-closed (unsubscribe y id) id n (record c { closed = true }) e rest closed_one refl
      (ap (pick n) sends ∙ left)

-- Every channel holds no more than its capacity.
abbrev pub IsBounded : System → Type 0
IsBounded y =
    (id : ℕ) (c : Channel) → lookup id y.channels ≡ some c → length c.queued ≤ channel_size

put-IsBounded :
    (y : System) (id : ℕ) (c : Channel)
    → IsBounded y
    → length c.queued ≤ channel_size
    → IsBounded (record y { channels = insert id c y.channels })
put-IsBounded y id c h fits q d got = elim (lookup-insert_cases id q c y.channels got) [
  | inl (here, new) ↦
      let same : c ≡ d = cc new in subst (λ x. length x.queued ≤ channel_size) same fits
  | inr (elsewhere, older) ↦ h q d older
]

send-IsBounded : (y : System) (e : Event) (id : ℕ) → IsBounded y → IsBounded (send y e id)
unfolding send send_to
send-IsBounded y e id h = elim (Option-cases (lookup id y.channels)) [
  | inl missing ↦ rw (missing, send) h
  | inr (c, found) ↦ elim (Bool-cases c.closed) [
    | inl shut ↦ rw (found, send, shut, send_to) h
    | inr opened ↦ elim (Bool-cases (ltb (length c.queued) channel_size)) [
      | inl room ↦
          rw (found, send, opened, send_to, room)
            (put-IsBounded y id (record { queued = c.queued ++ e ∷ []; closed = false }) h
              (ground (arith, length-append c.queued (e ∷ []))))
      | inr full ↦ rw (found, send, opened, send_to, full) h
    ]
  ]
]

length-tail_of : (es : List Event) → length (tail_of es) ≤ length es
unfolding tail_of
length-tail_of [] = omega arith
length-tail_of (e ∷ es) = omega arith

read_channel-IsBounded : (y : System) (id : ℕ) → IsBounded y → IsBounded (read_channel y id)
unfolding read_channel
read_channel-IsBounded y id h = elim (Option-cases (lookup id y.channels)) [
  | inl missing ↦ rw (missing, read_channel) h
  | inr (c, found) ↦
      rw (found, read_channel)
        (put-IsBounded y id (record c { queued = tail_of c.queued }) h
          (omega (arith, length-tail_of c.queued, h id c found)))
]

unsubscribe-IsBounded : (y : System) (id : ℕ) → IsBounded y → IsBounded (unsubscribe y id)
unfolding unsubscribe
unsubscribe-IsBounded y id h = elim (Option-cases (lookup id y.channels)) [
  | inl missing ↦ rw (missing, unsubscribe) h
  | inr (c, found) ↦ elim (Bool-cases c.closed) [
    | inl shut ↦ rw (found, unsubscribe, shut, close_channel) h
    | inr opened ↦
        rw (found, unsubscribe, opened, close_channel)
          (put-IsBounded y id (record c { closed = true }) h (h id c found))
  ]
]

send_next-IsBounded : (y : System) (n : ℕ) → IsBounded y → IsBounded (send_next y n)
unfolding send_next
send_next-IsBounded y n h = elim (Option-cases (pick n y.sends)) [
  | inl missing ↦ rw (missing, send_next) h
  | inr (r, found) ↦ rw (found, send_next) (send-IsBounded (record y { sends = r.1 }) r.0.0 r.0.1 h)
]

step-IsBounded :
    (redact : String → String) (marshal : Event → Option Bytes) (y : System) (a : Step)
    → IsBounded y
    → IsBounded (step redact marshal y a)
unfolding step subscribe
step-IsBounded redact marshal y (appends e) h = h
step-IsBounded redact marshal y subscribes h =
    put-IsBounded y y.store.next_sub (record { queued = []; closed = false }) h (omega arith)
step-IsBounded redact marshal y (unsubscribes id) h = unsubscribe-IsBounded y id h
step-IsBounded redact marshal y (sends_next n) h = send_next-IsBounded y n h
step-IsBounded redact marshal y (reads id) h = read_channel-IsBounded y id h
step-IsBounded redact marshal y closes h = h

-- However the calls interleave, no subscriber's channel holds more than 256 events, if none does at
-- the start.
pub run-IsBounded :
    (redact : String → String) (marshal : Event → Option Bytes) (y : System) (steps : List Step)
    → IsBounded y
    → IsBounded (run redact marshal y steps)
unfolding run
run-IsBounded redact marshal y [] h = h
run-IsBounded redact marshal y (a ∷ steps) h =
    run-IsBounded redact marshal (step redact marshal y a) steps
      (step-IsBounded redact marshal y a h)
