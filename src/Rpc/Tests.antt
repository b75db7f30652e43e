-- ===== src/Rpc/Tests.antt =====
-- Tests of the control socket's server, and its properties at concrete inputs.
use mathlib.Core.Option
use vmux.Base.{
  List, ℕ, ◌+◌, ◌≡◌, refl, [], ◌∷◌, ◌++◌, Option, none, some, Map, map, String, Bytes, codes,
  length, arith, if◌then◌else◌, nat_eq, lookup,
}
use vmux.Rpc.Codec.{Request, Response, code_method_not_found}
use vmux.Rpc.Server.{returned, failed, Handler, register, dispatch}
use vmux.Rpc.Reader.{handle_conn, write_frames}
use vmux.Rpc.Frames.{IsFrame, handle_conn-write_frames}
use vmux.Rpc.Fuel.{handle_conn-fuel}
use vmux.Rpc.Conn.{new_conn, Step, queues, writes, breaks, run}
use vmux.Rpc.Delivery.{IsWritten, accepted, run-IsWritten}
use vmux.Rpc.Replies.{replies, asked, replies-asked}

-- Lines that are the ids of requests for one method, but for "n", a notification, and "x".
abbrev decode_first : Bytes → ℕ → Option Request
decode_first line c =
    if nat_eq c b'x'
    then none
    else (if nat_eq c b'n'
        then some (record { id = none; method = "pty.list"; params = [] })
        else some (record { id = some line; method = "pty.list"; params = [] }))

abbrev decode : Bytes → Option Request
decode [] = none
decode (c ∷ s) = decode_first (c ∷ s) c

abbrev print : Request → Bytes
print req = elim req.id [ none ↦ codes "n" | some id ↦ id ]

abbrev handlers : Map String Handler
handlers = ("pty.list", (λ params. returned (codes "[]"))) ∷ []

abbrev asking : Request
asking = record { id = some (codes "7"); method = "pty.list"; params = [] }

abbrev telling : Request
telling = record { id = none; method = "pty.list"; params = [] }

unknown_method :
    dispatch decode [] (codes "7")
    ≡ some (record {
      id = some (codes "7");
      result = [];
      error =
          some (record { code = code_method_not_found; message = "method not found: pty.list" });
    })
unfolding dispatch lookup
unknown_method = refl

registered_twice : register handlers "pty.list" (λ params. failed "") ≡ none
unfolding register lookup
registered_twice = refl

-- An empty line is passed over, and one that the end of the input cuts off is not dispatched.
lines_dispatched : handle_conn 9 (codes "7\r\n\nn\n8") ≡ some (codes "7" ∷ codes "n" ∷ [])
unfolding handle_conn
lines_dispatched = refl

asking_IsFrame : IsFrame (codes "7")
asking_IsFrame = record {
  plain = ((omega arith, omega arith), tt);
  filled = omega arith;
  fits = omega arith;
}

telling_IsFrame : IsFrame (codes "n")
telling_IsFrame = record {
  plain = ((omega arith, omega arith), tt);
  filled = omega arith;
  fits = omega arith;
}

ids_answered :
    map (λ (r : Response). r.id) (replies decode handlers (codes "7" ∷ codes "x" ∷ codes "n" ∷ []))
    ≡ asked decode (codes "7" ∷ codes "x" ∷ codes "n" ∷ [])
ids_answered = replies-asked decode handlers (codes "7" ∷ codes "x" ∷ codes "n" ∷ [])

handles_frames :
    handle_conn
      (length (codes "7" ∷ codes "n" ∷ []) + 1)
      (write_frames (codes "7" ∷ codes "n" ∷ []) ++ codes "8\n")
    ≡ Option.map (◌++◌ (codes "7" ∷ codes "n" ∷ [])) (handle_conn 1 (codes "8\n"))
handles_frames =
    handle_conn-write_frames (codes "7" ∷ codes "n" ∷ []) 1 (codes "8\n")
      (asking_IsFrame, (telling_IsFrame, tt))

handle_conn-fuel_example :
    (ls : List Bytes) × (handle_conn 5 (codes "7\nn") ≡ some ls)
    × (handle_conn 4 (codes "7\nn") ≡ some ls)
handle_conn-fuel_example = handle_conn-fuel 5 4 (codes "7\nn") (omega arith) (omega arith)

-- A line is queued twice, and the socket breaks in the second frame.
abbrev breaking : List Step
breaking = queues (codes "7") ∷ writes ∷ queues (codes "8") ∷ breaks 1 ∷ queues (codes "9") ∷ []

broken_output : (run new_conn breaking).output ≡ codes "7\n8"
unfolding run
broken_output = refl

run-IsWritten_example : IsWritten (run new_conn breaking) (accepted new_conn breaking)
run-IsWritten_example = run-IsWritten breaking
