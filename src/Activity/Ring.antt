-- ===== src/Activity/Ring.antt =====
-- The ring of recent events against the events that have been appended.
use mathlib.Core.List.{append-nil}
use vmux.Base.{
  ℕ, ◌+◌, ◌≡◌, inl, inr, refl, List, [], ◌∷◌, ◌++◌, Option, some, if◌then◌else◌, ltb, Bool-cases,
  Option-cases, lookup, insert, lookup-insert, ℕ-eq, String, String-eq, ◌==◌, Bytes, length,
  keep_last, keep_last-append, eq_of_test,
}
use vmux.Activity.Event.{Event}
use vmux.Activity.Store.{
  Store, System, Step, Channel, appends, subscribes, unsubscribes, sends_next, reads, closes, close,
  ring_of, ring_size, channel_size, close_channel, prepared, enter, subscribe, unsubscribe, send,
  send_to, send_next, pick, read_channel, step,
}

-- The events that the steps append, numbered from `seq` + 1 and redacted.
unfoldable pub appended : (String → String) → ℕ → List Step → List Event
unfolding prepared
appended redact seq [] = []
appended redact seq (appends e ∷ steps) =
    prepared redact (seq + 1) e ∷ appended redact (seq + 1) steps
appended redact seq (subscribes ∷ steps) = appended redact seq steps
appended redact seq (unsubscribes id ∷ steps) = appended redact seq steps
appended redact seq (sends_next n ∷ steps) = appended redact seq steps
appended redact seq (reads id ∷ steps) = appended redact seq steps
appended redact seq (closes ∷ steps) = appended redact seq steps

-- The events among `es` of one session.
unfoldable pub of_session : String → List Event → List Event
of_session sid [] = []
of_session sid (e ∷ es) = if e.session_id == sid then e ∷ of_session sid es else of_session sid es

pub of_session-append :
    (sid : String) (es fs : List Event)
    → of_session sid (es ++ fs) ≡ of_session sid es ++ of_session sid fs
unfolding of_session
of_session-append sid [] fs = refl
of_session-append sid (e ∷ es) fs = elim (Bool-cases (e.session_id == sid)) [
  | inl t ↦ rw (t, of_session-append sid es fs)
  | inr t ↦ rw (t, of_session-append sid es fs)
]

-- What the events are kept in: a step that appends nothing leaves it alone.
pub record IsSameLog (s s' : Store) : Type 0 where
  pub seq : s'.seq ≡ s.seq
  pub ring : s'.ring ≡ s.ring
  pub logs : s'.logs ≡ s.logs

same_log : (s : Store) → IsSameLog s s
same_log s = record { seq = refl; ring = refl; logs = refl }

send_to-store : (y : System) (e : Event) (id : ℕ) (c : Channel) → (send_to y e id c).store ≡ y.store
unfolding send_to
send_to-store y e id c = elim (Bool-cases c.closed) [
  | inl shut ↦ rw shut
  | inr opened ↦ elim (Bool-cases (ltb (length c.queued) channel_size)) [
    | inl room ↦ rw (opened, room)
    | inr full ↦ rw (opened, full)
  ]
]

send-store : (y : System) (e : Event) (id : ℕ) → (send y e id).store ≡ y.store
unfolding send
send-store y e id = elim (Option-cases (lookup id y.channels)) [
  | inl missing ↦ rw (missing, send) refl
  | inr (c, found) ↦ rw (found, send) (send_to-store y e id c)
]

send_next-store : (y : System) (n : ℕ) → (send_next y n).store ≡ y.store
unfolding send_next
send_next-store y n = elim (Option-cases (pick n y.sends)) [
  | inl missing ↦ rw (missing, send_next) refl
  | inr (r, found) ↦ rw (found, send_next) (send-store (record y { sends = r.1 }) r.0.0 r.0.1)
]

read_channel-store : (y : System) (id : ℕ) → (read_channel y id).store ≡ y.store
unfolding read_channel
read_channel-store y id = elim (Option-cases (lookup id y.channels)) [
  | inl missing ↦ rw (missing, read_channel) refl
  | inr (c, found) ↦ rw (found, read_channel) refl
]

unsubscribe-IsSameLog : (y : System) (id : ℕ) → IsSameLog y.store (unsubscribe y id).store
unfolding unsubscribe
unsubscribe-IsSameLog y id = elim (Option-cases (lookup id y.channels)) [
  | inl missing ↦ rw (missing, unsubscribe) (same_log y.store)
  | inr (c, found) ↦ elim (Bool-cases c.closed) [
    | inl shut ↦
        rw (found, unsubscribe, shut, close_channel)
          (record { seq = refl; ring = refl; logs = refl })
    | inr opened ↦
        rw (found, unsubscribe, opened, close_channel)
          (record { seq = refl; ring = refl; logs = refl })
  ]
]

ring_of-enter :
    (marshal : Event → Option Bytes) (s : Store) (e : Event) (sid : String)
    → ring_of (enter marshal s e) sid ≡ (
        if e.session_id == sid
        then keep_last ring_size (ring_of s sid ++ e ∷ [])
        else ring_of s sid)
unfolding ring_of enter
ring_of-enter marshal s e sid =
    let new : List Event = keep_last ring_size (ring_of s e.session_id ++ e ∷ []) in
    let found : lookup sid (insert e.session_id new s.ring)
        ≡ (if e.session_id == sid then some new else lookup sid s.ring) =
      lookup-insert e.session_id sid new s.ring in
    elim (Bool-cases (e.session_id == sid)) [
      | inl same ↦
          let there : e.session_id ≡ sid = eq_of_test e.session_id sid same in
          rw (found, same, there, ring_of, enter)
      | inr other ↦ rw (found, other, ring_of, enter)
    ]

-- The ring of the session `sid` holds the last of its events among `es`.
abbrev pub HoldsLast : String → Store → List Event → Type 0
HoldsLast sid s es = ring_of s sid ≡ keep_last ring_size (of_session sid es)

pub enter-HoldsLast :
    (marshal : Event → Option Bytes) (s : Store) (e : Event) (sid : String) (es : List Event)
    → HoldsLast sid s es
    → HoldsLast sid (enter marshal s e) (es ++ e ∷ [])
unfolding of_session
enter-HoldsLast marshal s e sid es h = elim (Bool-cases (e.session_id == sid)) [
  | inl same ↦
      rw (ring_of-enter marshal s e sid, of_session-append sid es (e ∷ []), of_session, same, h)
        (keep_last-append ring_size (of_session sid es) (e ∷ []))
  | inr other ↦
      rw
        (
          ring_of-enter marshal s e sid,
          of_session-append sid es (e ∷ []),
          of_session,
          other,
          append-nil (of_session sid es),
        )
        h
]

pub keep_HoldsLast :
    (sid : String) (s s' : Store) (es : List Event)
    → IsSameLog s s'
    → HoldsLast sid s es
    → HoldsLast sid s' es
unfolding ring_of
keep_HoldsLast sid s s' es same h = rw same.ring h

-- The steps that append nothing keep the log.
pub quiet_step-IsSameLog :
    (redact : String → String) (marshal : Event → Option Bytes) (y : System) (n : ℕ)
    → IsSameLog y.store (step redact marshal y subscribes).store
      × IsSameLog y.store (step redact marshal y (unsubscribes n)).store
      × IsSameLog y.store (step redact marshal y (sends_next n)).store
      × IsSameLog y.store (step redact marshal y (reads n)).store
unfolding step subscribe
quiet_step-IsSameLog redact marshal y n = (
  record { seq = refl; ring = refl; logs = refl },
  unsubscribe-IsSameLog y n,
  rw (send_next-store y n) (same_log y.store),
  rw (read_channel-store y n) (same_log y.store),
)

-- Closing the files leaves the ring alone.
pub close-HoldsLast :
    (s : Store) (sid : String) (es : List Event) → HoldsLast sid s es → HoldsLast sid (close s) es
unfolding close ring_of
close-HoldsLast s sid es h = h
