-- ===== src/Mcp/Peer/Serve.antt =====
-- peer.go: the serving of an inbound request, with the handler's outcome as an argument.
use vmux.Base.{
  ℤ, negsuc, ℕ, zero, suc, Bool, true, false, List, [], ◌∷◌, ◌++◌, Option, none, some, String,
  Bytes, if◌then◌else◌,
}
use vmux.Mcp.Message.{RpcError, Message}
use vmux.Mcp.Peer.{Peer}

-- How a handler ends: with a result that can be marshalled or that cannot, with an error that is an
-- RPCError or another one, or with a panic.
pub data Handled : Type 0 where
  returned : Bytes → Handled
  unmarshalled : String → Handled
  failed_rpc : RpcError → Handled
  failed : String → Handled
  panicked : Handled

abbrev pub code_no_handler : ℤ
code_no_handler = negsuc 32600

abbrev pub code_internal : ℤ
code_internal = negsuc 32602

abbrev error_reply : Message → RpcError → Message
error_reply req e = record { id = req.id; method = ""; params = []; result = []; error = some e }

-- serveRequest: the message that is written.
unfoldable pub serve_request : Bool → Message → Handled → Message
serve_request false req h =
    error_reply req (record { code = code_no_handler; message = "no handler" })
serve_request true req (returned raw) = record {
  id = req.id;
  method = "";
  params = [];
  result = raw;
  error = none;
}
serve_request true req (unmarshalled reason) =
    error_reply req (record { code = code_internal; message = reason })
serve_request true req (failed_rpc e) = error_reply req e
serve_request true req (failed reason) =
    error_reply req (record { code = code_internal; message = reason })
serve_request true req panicked =
    error_reply req (record { code = code_internal; message = "internal handler error" })

unfoldable pub nth : List Message → ℕ → Option Message
nth [] n = none
nth (m ∷ ms) zero = some m
nth (m ∷ ms) (suc n) = nth ms n

unfoldable pub without : List Message → ℕ → List Message
without [] n = []
without (m ∷ ms) zero = ms
without (m ∷ ms) (suc n) = m ∷ without ms n

-- The n-th of the requests that are being served ends; `ok` is whether its reply is written.
unfoldable pub serve : Peer → ℕ → Handled → Bool → Peer
unfolding nth without serve_request
serve p n h ok = elim (nth p.inbound n) [
  | none ↦ p
  | some req ↦
      let rest = without p.inbound n in
      let reply = serve_request p.has_handler req h in
      if ok
      then record p { inbound = rest; sent = p.sent ++ reply ∷ [] }
      else record p { inbound = rest }
]
