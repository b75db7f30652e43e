-- ===== src/Mcp/Proxy/Session.antt =====
-- The handler of proxy.go: the methods of a connection's session.
use Prim.Native.String.{◌++◌}
use vmux.Base.{ℤ, negsuc, List, Option, if◌then◌else◌, String, String-eq, ◌==◌, Bytes}
use vmux.Mcp.Message.{RpcError}
use vmux.Mcp.Tool.{Tool, Called}
use vmux.Mcp.Proxy.{Proxy, Record, Caller, CallToolParams, all_tools, call_tool}

-- The result of a method; `initialized` and `pong` are the fixed results of two of them.
pub data Answer : Type 0 where
  initialized accepted pong : Answer
  listed : List Tool → Answer
  called : Called → Answer
  not_found : RpcError → Answer

abbrev pub code_method_not_found : ℤ
code_method_not_found = negsuc 32600

unfoldable pub call_answer : Record × Called → Record × Answer
call_answer (r, res) = (r, called res)

-- `params` are those of tools/call, `none` where they cannot be decoded.
unfoldable pub handle :
    (Bytes → Option Bytes)
    → Proxy
    → Caller
    → String
    → Option CallToolParams
    → Record
    → Record × Answer
unfolding call_answer
handle decode64 p who method params r =
    if method == "initialize"
    then (r, initialized)
    else (if method == "notifications/initialized"
        then (r, accepted)
        else (if method == "ping"
            then (r, pong)
            else (if method == "tools/list"
                then (r, listed (all_tools p))
                else (if method == "tools/call"
                    then call_answer (call_tool decode64 p who params r)
                    else (
                      r,
                      not_found (record {
                        code = code_method_not_found;
                        message = "method not found: " ++ method;
                      }),
                    )))))
