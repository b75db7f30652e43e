-- ===== src/Cli/Client.antt =====
-- client.go: the requests that wait for a reply. A call is identified with the id it has drawn; ids
-- are the 64 bits of an int.
use vmux.Base.{
  ℕ, ◌+◌, ◌%◌, ◌^◌, Bool, true, false, List, [], ◌∷◌, ◌++◌, Option, none, some, if◌then◌else◌,
  String, Bytes, String-eq, ◌==◌,
}
use vmux.Mcp.Peer.{set_at}

-- rpc.Response: the id, the result, and the message of the error
pub record Response : Type 0 where
  pub id : Option Bytes
  pub result : Bytes
  pub error : Option String

-- The struct that a line is probed with.
pub record Probe : Type 0 where
  pub id : Option Bytes
  pub method : String
  pub params : Bytes

-- json.Unmarshal of a line and of an id.
pub record Codec : Type 0 where
  pub probe : Bytes → Option Probe
  pub response : Bytes → Option Response
  pub read_id : Bytes → Option ℕ

pub data Channel : Type 0 where
  quiet shut : Channel
  holding : Response → Channel

-- How a call has returned: not written, after the end of the connection, or with its response.
pub data Ending : Type 0 where
  unwritten disconnected : Ending
  answered : Response → Ending

-- A call is in pending, its request is written, or it has returned.
pub data Phase : Type 0 where
  registered waiting : Phase
  ended : Ending → Phase

pub record Call : Type 0 where
  pub method : String
  pub params : Bytes
  pub phase : Phase
  pub channel : Channel

-- `attached` is whether onNotify is set, `notified` what was given to it. `reading` is whether
-- readLoop still runs.
pub record Client : Type 0 where
  pub next_id : ℕ
  pub calls : ℕ → Option Call
  pub pending : ℕ → Bool
  pub reading : Bool
  pub attached : Bool
  pub notified : List (String × Bytes)

-- dial
abbrev pub dial : Client
dial = record {
  next_id = 0;
  calls = λ k. none;
  pending = λ k. false;
  reading = true;
  attached = false;
  notified = [];
}

unfoldable pub change_call : Client → ℕ → (Call → Call) → Option Call → Client
unfolding set_at
change_call c id f none = c
change_call c id f (some call) = record c { calls = set_at id (some (f call)) c.calls }

-- call up to its write, for parameters that can be marshalled
unfoldable pub begin_call : Client → String → Bytes → Client
unfolding set_at
begin_call c method params =
    let id = (c.next_id + 1) % 2 ^ 64 in
    record c {
      next_id = id;
      calls =
          set_at id
            (some
              (record { method = method; params = params; phase = registered; channel = quiet }))
            c.calls;
      pending = set_at id true c.pending;
    }

unfoldable pub write_in : Bool → Call → Phase → Call
write_in ok call registered =
    if ok then record call { phase = waiting } else record call { phase = ended unwritten }
write_in ok call waiting = call
write_in ok call (ended e) = call

-- The write of call.
unfoldable pub write_call : Client → ℕ → Bool → Client
unfolding change_call write_in
write_call c id ok = change_call c id (λ call. write_in ok call call.phase) (c.calls id)

unfoldable pub take_in : Call → Phase → Channel → Call
take_in call waiting quiet = call
take_in call waiting shut = record call { phase = ended disconnected }
take_in call waiting (holding r) = record call { phase = ended (answered r) }
take_in call registered ch = call
take_in call (ended e) ch = call

-- The receive of call.
unfoldable pub take_reply : Client → ℕ → Client
unfolding change_call take_in
take_reply c id = change_call c id (λ call. take_in call call.phase call.channel) (c.calls id)

unfoldable pub hold : Response → Call → Call
hold r call = record call { channel = holding r }

-- deliver
unfoldable pub deliver : Client → ℕ → Response → Client
unfolding change_call hold set_at
deliver c id r =
    let taken = record c { pending = set_at id false c.pending } in
    if c.pending id then change_call taken id (hold r) (c.calls id) else taken

unfoldable pub deliver_read : Client → Response → Option ℕ → Client
unfolding deliver
deliver_read c r none = c
deliver_read c r (some id) = deliver c id r

unfoldable pub deliver_id : Codec → Client → Response → Option Bytes → Client
unfolding deliver_read
deliver_id codec c r none = c
deliver_id codec c r (some raw) = deliver_read c r (codec.read_id raw)

unfoldable pub respond : Codec → Client → Option Response → Client
unfolding deliver_id
respond codec c none = c
respond codec c (some r) = deliver_id codec c r r.id

unfoldable pub has_id : Option Bytes → Bool
has_id none = false
has_id (some raw) = true

unfoldable pub notify : Client → String → Bytes → Client
notify c method params =
    if c.attached then record c { notified = c.notified ++ (method, params) ∷ [] } else c

unfoldable pub route : Codec → Client → Bytes → Option Probe → Client
unfolding notify respond has_id
route codec c line none = c
route codec c line (some p) =
    if has_id p.id
    then respond codec c (codec.response line)
    else (if p.method == ""
        then respond codec c (codec.response line)
        else notify c p.method p.params)

-- A turn of readLoop with a line.
unfoldable pub read_line : Codec → Client → Bytes → Client
unfolding route
read_line codec c line = if c.reading then route codec c line (codec.probe line) else c

unfoldable pub shut_call : Option Call → Option Call
shut_call none = none
shut_call (some call) = some (record call { channel = shut })

-- failPending
unfoldable pub fail_pending : Client → Client
unfolding shut_call
fail_pending c = record c {
  pending = λ k. false;
  calls = λ k. if c.pending k then shut_call (c.calls k) else c.calls k;
}

-- The turn of readLoop in which reading fails.
unfoldable pub end_reading : Client → Client
unfolding fail_pending
end_reading c = if c.reading then record (fail_pending c) { reading = false } else c

pub data Step : Type 0 where
  calls : String → Bytes → Step
  writes : ℕ → Bool → Step
  takes : ℕ → Step
  reads : Bytes → Step
  reading_ends : Step
  -- attach sets onNotify
  attaches : Step

unfoldable pub step : Codec → Client → Step → Client
unfolding begin_call write_call take_reply read_line end_reading
step codec c (calls method params) = begin_call c method params
step codec c (writes id ok) = write_call c id ok
step codec c (takes id) = take_reply c id
step codec c (reads line) = read_line codec c line
step codec c reading_ends = end_reading c
step codec c attaches = record c { attached = true }

unfoldable pub run : Codec → Client → List Step → Client
unfolding step
run codec c [] = c
run codec c (a ∷ steps) = run codec (step codec c a) steps
