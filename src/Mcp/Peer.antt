-- ===== src/Mcp/Peer.antt =====
-- peer.go: a peer over a connection, as a state that the goroutines change step by step. A Call is
-- identified with the id it has drawn.
pub mod Serve
pub mod Steps
pub mod Coherent
pub mod Kept
pub mod Answers
pub mod Ends
pub mod Stopped
mod Tests
use vmux.Base.{
  ℤ, pos, negsuc, ℕ, ◌+◌, ◌%◌, ◌^◌, Bool, true, false, ◌&&◌, ◌||◌, not, List, [], ◌∷◌, ◌++◌, Option,
  none, some, if◌then◌else◌, ltb, nat_eq, String, Bytes, String-eq, ◌==◌, length,
}
use vmux.Mcp.Message.{RpcError, Message}

-- maxMessage
abbrev pub max_message : ℕ
max_message = 33554432

-- What stands in the channel of a call.
pub data Channel : Type 0 where
  quiet : Channel
  holding : Message → Channel
  shut : Channel

-- How a Call has returned. After a message it has the message's error or its result.
pub data Ending : Type 0 where
  answered : Message → Ending
  refused unwritten cancelled disconnected : Ending

-- Where a Call stands: it has drawn its id, its channel is in pending, its request is written, or it
-- has returned.
pub data Phase : Type 0 where
  drawn registered waiting : Phase
  ended : Ending → Phase

pub record Call : Type 0 where
  pub method : String
  pub params : Bytes
  pub phase : Phase
  pub channel : Channel

-- json.Unmarshal of a message and of an id into an int64, here as the 64 bits of its two's
-- complement, and the printing of an id.
pub record Codec : Type 0 where
  pub decode : Bytes → Option Message
  pub read_id : Bytes → Option ℕ
  pub print_id : ℕ → Bytes

-- `calls` has every call that has drawn an id, `pending` says which ids the map of the source has.
-- `reading` is whether Run's loop still runs, `inbound` are the requests that are being served,
-- `notified` the notifications given to the handler and `sent` what was written.
pub record Peer : Type 0 where
  pub has_handler : Bool
  pub next_id : ℕ
  pub calls : ℕ → Option Call
  pub pending : ℕ → Bool
  pub closed : Bool
  pub reading : Bool
  pub inbound : List Message
  pub notified : List Message
  pub sent : List Message

-- NewPeer
abbrev pub new_peer : Bool → Peer
new_peer has_handler = record {
  has_handler = has_handler;
  next_id = 0;
  calls = λ k. none;
  pending = λ k. false;
  closed = false;
  reading = true;
  inbound = [];
  notified = [];
  sent = [];
}

unfoldable pub set_at : {A : Type 0} → ℕ → A → (ℕ → A) → ℕ → A
set_at k v f q = if nat_eq k q then v else f q

-- One step of the call with an id, on whether pending has the id and on the call.
unfoldable pub change_at : Peer → ℕ → (Bool → Call → Bool × Call) → Option Call → Peer
unfolding set_at
change_at p id f none = p
change_at p id f (some c) =
    let (b, c') = f (p.pending id) c in
    record p { pending = set_at id b p.pending; calls = set_at id (some c') p.calls }

-- Call up to its id. `none` are parameters that cannot be marshalled.
unfoldable pub draw : Peer → String → Option Bytes → Peer
unfolding set_at
draw p method none = p
draw p method (some params) =
    let id = (p.next_id + 1) % 2 ^ 64 in
    let c : Call = record { method = method; params = params; phase = drawn; channel = quiet } in
    record p { next_id = id; calls = set_at id (some c) p.calls }

unfoldable pub register_in : Bool → Bool → Call → Phase → Bool × Call
register_in closed b c drawn =
    if closed
    then (b, record c { phase = ended refused })
    else (true, record c { phase = registered; channel = quiet })
register_in closed b c registered = (b, c)
register_in closed b c waiting = (b, c)
register_in closed b c (ended e) = (b, c)

-- The section of Call under the mutex.
unfoldable pub register : Peer → ℕ → Peer
unfolding change_at register_in
register p id = change_at p id (λ b c. register_in p.closed b c c.phase) (p.calls id)

unfoldable pub written : Codec → Bool → ℕ → Call → Phase → List Message
written codec ok id c registered =
    if ok
    then record {
      id = some (codec.print_id id);
      method = c.method;
      params = c.params;
      result = [];
      error = none;
    }
      ∷ []
    else []
written codec ok id c drawn = []
written codec ok id c waiting = []
written codec ok id c (ended e) = []

unfoldable pub write_in : Bool → Bool → Call → Phase → Bool × Call
write_in ok b c registered =
    if ok then (b, record c { phase = waiting }) else (false, record c { phase = ended unwritten })
write_in ok b c drawn = (b, c)
write_in ok b c waiting = (b, c)
write_in ok b c (ended e) = (b, c)

unfoldable pub written_by : Codec → Bool → ℕ → Option Call → List Message
unfolding written
written_by codec ok id none = []
written_by codec ok id (some c) = written codec ok id c c.phase

-- The writing of the request, and dropPending where it fails.
unfoldable pub write : Codec → Peer → ℕ → Bool → Peer
unfolding change_at write_in written_by
write codec p id ok =
    let p' = change_at p id (λ b c. write_in ok b c c.phase) (p.calls id) in
    record p' { sent = p.sent ++ written_by codec ok id (p.calls id) }

unfoldable pub take_in : Bool → Call → Phase → Channel → Bool × Call
take_in b c waiting quiet = (b, c)
take_in b c waiting (holding m) = (b, record c { phase = ended (answered m) })
take_in b c waiting shut = (b, record c { phase = ended disconnected })
take_in b c drawn ch = (b, c)
take_in b c registered ch = (b, c)
take_in b c (ended e) ch = (b, c)

-- The select of Call, at its channel.
unfoldable pub take_reply : Peer → ℕ → Peer
unfolding change_at take_in
take_reply p id = change_at p id (λ b c. take_in b c c.phase c.channel) (p.calls id)

unfoldable pub give_up_in : Bool → Call → Phase → Bool × Call
give_up_in b c waiting = (false, record c { phase = ended cancelled })
give_up_in b c drawn = (b, c)
give_up_in b c registered = (b, c)
give_up_in b c (ended e) = (b, c)

-- The select of Call, at the end of its context.
unfoldable pub give_up : Peer → ℕ → Peer
unfolding change_at give_up_in
give_up p id = change_at p id (λ b c. give_up_in b c c.phase) (p.calls id)

unfoldable pub deliver_in : Message → Bool → Call → Bool × Call
deliver_in m b c = if b then (false, record c { channel = holding m }) else (b, c)

unfoldable pub deliver_to : Peer → Message → Option ℕ → Peer
unfolding change_at deliver_in
deliver_to p m none = p
deliver_to p m (some id) = change_at p id (deliver_in m) (p.calls id)

-- deliver
unfoldable pub deliver : Codec → Peer → Message → Peer
unfolding deliver_to
deliver codec p m = elim m.id [ none ↦ p | some raw ↦ deliver_to p m (codec.read_id raw) ]

unfoldable pub shut_call : Option Call → Option Call
shut_call none = none
shut_call (some c) = some (record c { channel = shut })

-- failPending
unfoldable pub fail_pending : Peer → Peer
unfolding shut_call
fail_pending p = record p {
  pending = λ k. false;
  calls = λ k. if p.pending k then shut_call (p.calls k) else p.calls k;
}

unfoldable pub route_call : Peer → Message → Option Bytes → Peer
route_call p m (some raw) = record p { inbound = p.inbound ++ m ∷ [] }
route_call p m none = if p.has_handler then record p { notified = p.notified ++ m ∷ [] } else p

-- route
unfoldable pub route : Codec → Peer → Message → Peer
unfolding deliver route_call
route codec p m = if m.method == "" then deliver codec p m else route_call p m m.id

-- trim
is_blank : ℕ → Bool
is_blank c = nat_eq c b'\n' || nat_eq c b'\r' || nat_eq c b' '

trim_onto : ℕ → Bytes → Bytes
unfolding is_blank
trim_onto c [] = if is_blank c then [] else c ∷ []
trim_onto c (d ∷ s) = c ∷ d ∷ s

unfoldable pub trim : Bytes → Bytes
unfolding trim_onto
trim [] = []
trim (c ∷ s) = trim_onto c (trim s)

unfoldable pub route_line : Codec → Peer → Bytes → Peer
unfolding route trim
route_line codec p line =
    if ltb 0 (length (trim line))
    then elim (codec.decode line) [ none ↦ p | some m ↦ route codec p m ]
    else p

-- What ReadBytes returns with a line.
pub data ReadEnd : Type 0 where
  more eof broken : ReadEnd

unfoldable pub after_line : Peer → ReadEnd → Peer
unfolding fail_pending
after_line p more = p
after_line p eof = record (fail_pending p) { reading = false }
after_line p broken = record (fail_pending p) { reading = false }

-- The body of Run's loop.
unfoldable pub read_line : Codec → Peer → Bytes → ReadEnd → Peer
unfolding route_line after_line
read_line codec p line end =
    if p.reading
    then (if ltb max_message (length line)
        then record p { reading = false }
        else after_line (route_line codec p line) end)
    else p

-- Close, up to the connection's.
unfoldable pub close : Peer → Peer
close p = record p { closed = true }

-- Notify. `none` are parameters that cannot be marshalled; `ok` is whether the message is written.
unfoldable pub notify : Peer → String → Option Bytes → Bool → Peer
notify p method none ok = p
notify p method (some params) ok =
    let m : Message = record {
      id = none;
      method = method;
      params = params;
      result = [];
      error = none;
    } in
    record p { sent = if ok then p.sent ++ m ∷ [] else p.sent }
