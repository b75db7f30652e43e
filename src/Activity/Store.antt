-- ===== src/Activity/Store.antt =====
-- store.go: appending events, the ring of recent events and the subscribers. Append holds the mutex
-- up to the copy of the subscribers and sends to their channels afterwards, one after the other, so
-- other calls can come between; a list of actions is one such interleaving.
use vmux.Base.{
  ℕ, zero, suc, ◌+◌, Bool, true, false, ◌&&◌, List, [], ◌∷◌, ◌++◌, Option, none, some,
  if◌then◌else◌, ltb, nat_eq, Map, lookup, insert, ℕ-eq, Bytes, String, String-eq, length,
  keep_last,
}
use vmux.Activity.Event.{Event}
use vmux.Activity.Log.{Logs, persist}

-- memRingSize
abbrev pub ring_size : ℕ
ring_size = 5000

-- The capacity of a subscriber's channel
abbrev pub channel_size : ℕ
channel_size = 256

-- A subscriber's channel, which Go does not reopen once it is closed.
pub record Channel : Type 0 where
  pub queued : List Event
  pub closed : Bool

-- `subscribers` holds the ids in the map subs.
pub record Store : Type 0 where
  pub seq : ℕ
  pub ring : Map String (List Event)
  pub logs : Logs
  pub subscribers : List ℕ
  pub next_sub : ℕ

-- NewStore on a directory with these log files, of whole lines
unfoldable pub new_store : Map Bytes (List Bytes) → (Bytes → Bool) → Store
new_store files can_open = record {
  seq = 0;
  ring = [];
  logs = record { open_files = []; lines = files; can_open = can_open };
  subscribers = [];
  next_sub = 0;
}

unfoldable pub ring_of : Store → String → List Event
ring_of s session_id = elim (lookup session_id s.ring) [ none ↦ [] | some es ↦ es ]

-- The event as Append numbers and redacts it.
unfoldable pub prepared : (String → String) → ℕ → Event → Event
prepared redact seq e = record e { seq = seq; summary = redact e.summary; detail = redact e.detail }

-- What Append does under the mutex with the event it has prepared.
unfoldable pub enter : (Event → Option Bytes) → Store → Event → Store
unfolding ring_of
enter marshal s e = record s {
  seq = s.seq + 1;
  ring = insert e.session_id (keep_last ring_size (ring_of s e.session_id ++ e ∷ [])) s.ring;
  logs = persist marshal s.logs e;
}

-- Append up to the unlocking of the mutex: the event that is sent, and to which subscribers.
unfoldable pub append :
    (String → String) → (Event → Option Bytes) → Store → Event → Store × Event × List ℕ
unfolding enter prepared
append redact marshal s e =
    let e' = prepared redact (s.seq + 1) e in (enter marshal s e', e', s.subscribers)

-- Close: the files are opened again by the next event of their session.
unfoldable pub close : Store → Store
close s = record s { logs = record (s.logs) { open_files = [] } }

-- Recent: a count of 0 or less is 0 here, and asks for the whole ring.
unfoldable pub recent : Store → String → ℕ → List Event
unfolding ring_of
recent s session_id n =
    if ltb 0 n && ltb n (length (ring_of s session_id))
    then keep_last n (ring_of s session_id)
    else ring_of s session_id

without : ℕ → List ℕ → List ℕ
without id [] = []
without id (x ∷ xs) = if nat_eq x id then without id xs else x ∷ without id xs

-- The store with the channels, the sends that calls of Append have left, and whether a send on a
-- closed channel, or a second closing of one, has ended the program.
pub record System : Type 0 where
  pub store : Store
  pub channels : Map ℕ Channel
  pub sends : List (Event × ℕ)
  pub panicked : Bool

pub data Step : Type 0 where
  appends : Event → Step
  subscribes : Step
  unsubscribes : ℕ → Step
  -- the n-th of the sends that are left
  sends_next : ℕ → Step
  -- a subscriber reads from its channel
  reads : ℕ → Step
  closes : Step

unfoldable pub subscribe : System → System
subscribe y = record y {
  store = record (y.store) {
    subscribers = y.store.subscribers ++ y.store.next_sub ∷ [];
    next_sub = y.store.next_sub + 1;
  };
  channels = insert y.store.next_sub (record { queued = []; closed = false }) y.channels;
}

pub close_channel : System → ℕ → Channel → System
close_channel y id c =
    if c.closed
    then record y { panicked = true }
    else record y { channels = insert id (record c { closed = true }) y.channels }

-- The function that Subscribe returns for the subscription `id`.
unfoldable pub unsubscribe : System → ℕ → System
unfolding close_channel without
unsubscribe y id = elim (lookup id y.channels) [
  | none ↦ y
  | some c ↦
      close_channel
        (record y { store = record (y.store) { subscribers = without id y.store.subscribers } }) id
        c
]

-- The `select` of Append on one channel: a full one is passed over.
unfoldable pub send_to : System → Event → ℕ → Channel → System
send_to y e id c =
    if c.closed
    then record y { panicked = true }
    else (if ltb (length c.queued) channel_size
        then record y { channels = insert id (record c { queued = c.queued ++ e ∷ [] }) y.channels }
        else y)

unfoldable pub send : System → Event → ℕ → System
unfolding send_to
send y e id = elim (lookup id y.channels) [ none ↦ y | some c ↦ send_to y e id c ]

abbrev pub sends_for : Event → List ℕ → List (Event × ℕ)
sends_for e [] = []
sends_for e (id ∷ ids) = (e, id) ∷ sends_for e ids

-- The n-th element, if there is one, and the others.
unfoldable pub pick : {A : Type 0} → ℕ → List A → Option (A × List A)
pick n [] = none
pick zero (x ∷ xs) = some (x, xs)
pick (suc n) (x ∷ xs) = elim (pick n xs) [ none ↦ none | some r ↦ some (r.0, x ∷ r.1) ]

unfoldable pub send_next : System → ℕ → System
unfolding send pick
send_next y n = elim (pick n y.sends) [
  | none ↦ y
  | some r ↦ send (record y { sends = r.1 }) r.0.0 r.0.1
]

unfoldable pub tail_of : List Event → List Event
tail_of [] = []
tail_of (e ∷ es) = es

unfoldable pub read_channel : System → ℕ → System
unfolding tail_of
read_channel y id = elim (lookup id y.channels) [
  | none ↦ y
  | some c ↦ record y { channels = insert id (record c { queued = tail_of c.queued }) y.channels }
]

unfoldable pub step : (String → String) → (Event → Option Bytes) → System → Step → System
unfolding append subscribe unsubscribe send_next read_channel close
step redact marshal y (appends e) =
    let (s, e', ids) = append redact marshal y.store e in
    record y { store = s; sends = y.sends ++ sends_for e' ids }
step redact marshal y subscribes = subscribe y
step redact marshal y (unsubscribes id) = unsubscribe y id
step redact marshal y (sends_next n) = send_next y n
step redact marshal y (reads id) = read_channel y id
step redact marshal y closes = record y { store = close y.store }

unfoldable pub run : (String → String) → (Event → Option Bytes) → System → List Step → System
unfolding step
run redact marshal y [] = y
run redact marshal y (a ∷ steps) = run redact marshal (step redact marshal y a) steps

-- A new store without subscribers, calls or events.
abbrev pub new_system : Map Bytes (List Bytes) → (Bytes → Bool) → System
new_system files can_open = record {
  store = new_store files can_open;
  channels = [];
  sends = [];
  panicked = false;
}
