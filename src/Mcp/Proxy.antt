-- ===== src/Mcp/Proxy.antt =====
-- proxy.go and proxy_route.go: the tools that are listed and the calls of them. The upstream servers
-- and the handlers are arguments.
pub mod Listing
pub mod Logged
pub mod Session
mod Tests
use vmux.Base.{
  ℕ, ℤ, pos, negsuc, ◌-◌, ◌/◌, Bool, true, false, not, ◌&&◌, ◌||◌, List, [], ◌∷◌, ◌++◌, Option,
  none, some, if◌then◌else◌, Map, lookup, insert, String, String-eq, ◌==◌, Bytes, Bytes-eq, codes,
}
use vmux.Mcp.Message.{RpcError, unknown_tool}
use vmux.Mcp.Tool.{
  Tool, Content, CallToolResult, ToolCallRecord, Failure, rpc_failure, other_failure, Called,
  succeeded, failed, ToolHandler, summarize,
}

-- `call` is the tools/call of the upstream server.
pub record Upstream : Type 0 where
  pub name : String
  pub tools : List Tool
  pub call : String → Bytes → Called

pub record Proxy : Type 0 where
  pub native_by_name : Map String ToolHandler
  pub native_tools : List Tool
  pub upstreams : Map String Upstream
  -- whether OnScreenshot is set
  pub captures : Bool

-- What the calls have given to the activity logger and to OnScreenshot.
pub record Record : Type 0 where
  pub calls : List ToolCallRecord
  pub shots : List (String × Bytes)

abbrev pub bare_proxy : Proxy
bare_proxy = record { native_by_name = []; native_tools = []; upstreams = []; captures = false }

unfoldable pub add_native : Proxy → List (Tool × ToolHandler) → Proxy
add_native p [] = p
add_native p (rt ∷ rts) =
    add_native
      (record p {
        native_by_name = insert rt.0.name rt.1 p.native_by_name;
        native_tools = p.native_tools ++ rt.0 ∷ [];
      })
      rts

-- NewProxy
unfoldable pub new_proxy : List (Tool × ToolHandler) → Proxy
unfolding add_native
new_proxy rts = add_native bare_proxy rts

-- AddUpstream
unfoldable pub add_upstream : Proxy → Upstream → Proxy
add_upstream p u = record p { upstreams = insert u.name u p.upstreams }

-- CloseUpstreams, but for the closing of each.
unfoldable pub close_upstreams : Proxy → Proxy
close_upstreams p = record p { upstreams = [] }

unfoldable pub upstream_tools : Map String Upstream → List Tool
upstream_tools [] = []
upstream_tools (u ∷ us) = u.1.tools ++ upstream_tools us

-- allTools
unfoldable pub all_tools : Proxy → List Tool
unfolding upstream_tools
all_tools p = p.native_tools ++ upstream_tools p.upstreams

unfoldable pub has_tool : String → List Tool → Bool
has_tool name [] = false
has_tool name (t ∷ ts) = t.name == name || has_tool name ts

-- ownerOf
unfoldable pub owner_of : String → Map String Upstream → Option Upstream
unfolding has_tool
owner_of name [] = none
owner_of name (u ∷ us) =
    let later = owner_of name us in if has_tool name u.1.tools then some u.1 else later

unfoldable pub failure_text : Failure → Bytes
failure_text (rpc_failure e) = codes e.message
failure_text (other_failure text) = text

-- finishLog: the record as it is logged at the time `now`.
unfoldable pub finish_log : ToolCallRecord → Called → ℕ → ToolCallRecord
unfolding failure_text
finish_log rec (succeeded res) now = record rec {
  duration = (now - rec.time) / 1000000;
  is_error = res.is_error;
  summary = summarize res;
}
finish_log rec (failed e) now = record rec {
  duration = (now - rec.time) / 1000000;
  is_error = true;
  summary = failure_text e;
}

-- captureScreenshots, with the decoding of base64 as an argument.
unfoldable pub images : (Bytes → Option Bytes) → String → List Content → List (String × Bytes)
images decode64 upstream [] = []
images decode64 upstream (c ∷ cs) =
    let rest = images decode64 upstream cs in
    if c.kind == "image" && not (c.data_base64 == [])
    then elim (decode64 c.data_base64) [ none ↦ rest | some raw ↦ (upstream, raw) ∷ rest ]
    else rest

unfoldable pub capture_screenshots :
    (Bytes → Option Bytes) → Proxy → String → Called → List (String × Bytes)
unfolding images
capture_screenshots decode64 p upstream (failed e) = []
capture_screenshots decode64 p upstream (succeeded res) =
    if p.captures then images decode64 upstream res.content else []

pub record CallToolParams : Type 0 where
  pub name : String
  pub arguments : Bytes

-- A call of a tool: whose session it is, when it starts and when it is logged.
pub record Caller : Type 0 where
  pub session_id : String
  pub started : ℕ
  pub finished : ℕ

abbrev pub code_invalid_params : ℤ
code_invalid_params = negsuc 32601

unfoldable pub record_of : Caller → CallToolParams → String → ToolCallRecord
record_of who call upstream = record {
  time = who.started;
  session_id = who.session_id;
  tool = call.name;
  upstream = upstream;
  args = call.arguments;
  summary = [];
  duration = 0;
  is_error = false;
}

unfoldable pub call_native : Caller → CallToolParams → ToolHandler → Record → Record × Called
unfolding record_of finish_log
call_native who call handler r =
    let (own, res) = handler call.arguments in
    (
      record r {
        calls = r.calls ++ own ++ finish_log (record_of who call "") res who.finished ∷ [];
      },
      res,
    )

unfoldable pub call_upstream :
    (Bytes → Option Bytes) → Proxy → Caller → CallToolParams → Upstream → Record → Record × Called
unfolding record_of finish_log capture_screenshots
call_upstream decode64 p who call u r =
    let res = u.call call.name call.arguments in
    (
      record {
        calls = r.calls ++ finish_log (record_of who call u.name) res who.finished ∷ [];
        shots = r.shots ++ capture_screenshots decode64 p u.name res;
      },
      res,
    )

unfoldable pub call_known :
    (Bytes → Option Bytes)
    → Proxy
    → Caller
    → CallToolParams
    → Option ToolHandler
    → Option Upstream
    → Record
    → Record × Called
unfolding call_native call_upstream
call_known decode64 p who call (some handler) u r = call_native who call handler r
call_known decode64 p who call none (some u) r = call_upstream decode64 p who call u r
call_known decode64 p who call none none r = (
  r,
  failed (rpc_failure (record { code = code_invalid_params; message = unknown_tool call.name })),
)

-- callTool; `none` are parameters that cannot be decoded.
unfoldable pub call_tool :
    (Bytes → Option Bytes) → Proxy → Caller → Option CallToolParams → Record → Record × Called
unfolding call_known
call_tool decode64 p who none r = (
  r,
  failed
      (rpc_failure (record { code = code_invalid_params; message = "invalid tools/call params" })),
)
call_tool decode64 p who (some call) r =
    call_known decode64 p who call (lookup call.name p.native_by_name)
      (owner_of call.name p.upstreams) r

-- The proxy with the upstream servers added in this order.
unfoldable pub add_upstreams : Proxy → List Upstream → Proxy
unfolding add_upstream
add_upstreams p [] = p
add_upstreams p (u ∷ us) = add_upstreams (add_upstream p u) us
