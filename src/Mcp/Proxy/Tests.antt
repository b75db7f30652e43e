-- ===== src/Mcp/Proxy/Tests.antt =====
-- Tests of the proxy, and its properties at concrete inputs.
use vmux.Base.{
  String-eq, ℕ, ◌≡◌, refl, Bool, true, false, List, [], ◌∷◌, ◌++◌, Option, none, some, String,
  Bytes, codes, lookup,
}
use vmux.Mcp.Message.{unknown_tool}
use vmux.Mcp.Tool.{Tool, ToolHandler, succeeded, failed, rpc_failure, text_result, summarize}
use vmux.Mcp.Proxy.{
  Upstream, Proxy, Record, Caller, CallToolParams, call_tool, all_tools, has_tool, owner_of,
  code_invalid_params, images,
}
use vmux.Mcp.Proxy.Session.{handle, not_found, code_method_not_found}
use vmux.Mcp.Proxy.Listing.{serving}
use vmux.Mcp.Proxy.Logged.{IsLogged, call_tool-IsLogged, call_tool-unlisted}

abbrev named : String → Tool
named name = record { name = name; description = ""; input_schema = [] }

abbrev greet : Tool × ToolHandler
greet = (named "greet", (λ args. ([], succeeded (text_result (codes "hello")))))

abbrev chrome : Upstream
chrome = record {
  name = "chrome";
  tools = named "navigate" ∷ [];
  call = λ name args.
      failed (rpc_failure (record { code = code_invalid_params; message = "no page" }));
}

abbrev who : Caller
who = record { session_id = "s1"; started = 1000000; finished = 3500000 }

abbrev nothing : Record
nothing = record { calls = []; shots = [] }

abbrev calling : String → CallToolParams
calling name = record { name = name; arguments = codes "{}" }

-- A failed call of an upstream's tool is logged with the error's message.
logged_failure :
    (call_tool
      (λ s. none)
      (serving (greet ∷ []) (chrome ∷ []))
      who
      (some (calling "navigate"))
      nothing).0.calls
    ≡ record {
      time = 1000000;
      session_id = "s1";
      tool = "navigate";
      upstream = "chrome";
      args = codes "{}";
      summary = codes "no page";
      duration = 2;
      is_error = true;
    }
      ∷ []
unfolding call_tool owner_of lookup vmux.Mcp.Proxy.add_upstreams vmux.Mcp.Proxy.new_proxy
    vmux.Base.insert
logged_failure = refl

-- The summary is cut at 200 bytes but keeps its line breaks.
summary_of_lines : summarize (text_result (codes "a\nb")) ≡ codes "a\nb"
unfolding summarize text_result vmux.Base.bytes_eq
summary_of_lines = refl

call_tool-IsLogged_example :
    IsLogged who
      (calling "greet")
      (lookup "greet" (serving (greet ∷ []) (chrome ∷ [])).native_by_name)
      (owner_of "greet" (serving (greet ∷ []) (chrome ∷ [])).upstreams)
      nothing
      (call_tool
        (λ s. none)
        (serving (greet ∷ []) (chrome ∷ []))
        who
        (some (calling "greet"))
        nothing)
unfolding has_tool all_tools vmux.Mcp.Proxy.add_upstreams vmux.Mcp.Proxy.new_proxy vmux.Base.insert
call_tool-IsLogged_example =
    call_tool-IsLogged (λ s. none) (greet ∷ []) (chrome ∷ []) who (calling "greet") nothing refl

refuses_unlisted :
    call_tool
      (λ s. none)
      (serving (greet ∷ []) (chrome ∷ []))
      who
      (some (calling "greeting"))
      nothing
    ≡ (
      nothing,
      failed
          (rpc_failure (record { code = code_invalid_params; message = unknown_tool "greeting" })),
    )
unfolding has_tool all_tools vmux.Mcp.Proxy.add_upstreams vmux.Mcp.Proxy.new_proxy vmux.Base.insert
refuses_unlisted =
    call_tool-unlisted (λ s. none) (greet ∷ []) (chrome ∷ []) who (calling "greeting") nothing refl

unknown_method :
    (handle (λ s. none) (serving (greet ∷ []) (chrome ∷ [])) who "resources/list" none nothing).1
    ≡ not_found
        (record { code = code_method_not_found; message = "method not found: resources/list" })
unfolding handle
unknown_method = refl
