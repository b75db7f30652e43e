-- ===== src/Rpc/Server.antt =====
-- router.go and dispatch of server.go.
use vmux.Base.{[], Option, none, some, Map, lookup, insert, String, String-eq, Bytes}
use Prim.Native.String.{◌++◌}
use vmux.Rpc.Codec.{
  Request, Error, Response, code_parse, code_method_not_found, code_internal, result_response,
  error_response,
}

-- How a handler ends: with a result that can be marshalled or that cannot, for the reason given, or
-- with an error that is an Error or another one.
pub data Handled : Type 0 where
  returned : Bytes → Handled
  unmarshalled : String → Handled
  failed_rpc : Error → Handled
  failed : String → Handled

abbrev pub Handler : Type 0
Handler = Bytes → Handled

-- register; `none` is a panic.
unfoldable pub register : Map String Handler → String → Handler → Option (Map String Handler)
register handlers method h = elim (lookup method handlers) [
  | some old ↦ none
  | none ↦ some (insert method h handlers)
]

unfoldable pub reply_to : Bytes → Handled → Response
unfolding result_response error_response
reply_to id (returned raw) = result_response (some id) raw
reply_to id (unmarshalled reason) =
    error_response (some id) code_internal ("marshal result: " ++ reason)
reply_to id (failed_rpc e) = record { id = some id; result = []; error = some e }
reply_to id (failed reason) = error_response (some id) code_internal reason

-- A handler, where there is one, and the reply to the request, if it is one.
unfoldable pub handle : Option Handler → Request → Option Bytes → Option Response
unfolding reply_to error_response
handle none req none = none
handle none req (some id) =
    some (error_response (some id) code_method_not_found ("method not found: " ++ req.method))
handle (some h) req none = none
handle (some h) req (some id) = some (reply_to id (h req.params))

unfoldable pub answer : Map String Handler → Option Request → Option Response
unfolding handle error_response
answer handlers none = some (error_response none code_parse "parse error")
answer handlers (some req) = handle (lookup req.method handlers) req req.id

-- dispatch: the reply that is sent, if any. `decode` is json.Unmarshal of a request.
unfoldable pub dispatch : (Bytes → Option Request) → Map String Handler → Bytes → Option Response
unfolding answer
dispatch decode handlers line = answer handlers (decode line)
