-- ===== src/Mcp/Proxy/Logged.antt =====
-- What a call of a tool gives to the activity logger.
use mathlib.Core.List.{append-nil}
use vmux.Base.{
  ◌≡◌, refl, sym, ap, ◌∙◌, Bool, true, false, ◌||◌, List, [], ◌∷◌, ◌++◌, Option, none, some, lookup,
  String, String-eq, Bytes,
}
use vmux.Mcp.Message.{unknown_tool}
use vmux.Mcp.Tool.{
  Tool, ToolHandler, ToolCallRecord, rpc_failure, Called, succeeded, failed, summarize,
}
use vmux.Mcp.Proxy.{
  Upstream, Proxy, Record, Caller, CallToolParams, call_tool, call_known, call_native,
  call_upstream, all_tools, has_tool, owner_of, finish_log, record_of, code_invalid_params,
  failure_text,
}
use vmux.Mcp.Proxy.Listing.{is_some, serving, all_tools-known}

abbrev pub is_failure : Called → Bool
is_failure (succeeded res) = res.is_error
is_failure (failed e) = true

abbrev pub summary_of : Called → Bytes
summary_of (succeeded res) = summarize res
summary_of (failed e) = failure_text e

-- The record is that of the call: its session, tool and arguments, and whether and how it failed.
pub record IsRecord (who : Caller) (call : CallToolParams) (out : Called) (rec : ToolCallRecord)
    : Type 0 where
  pub session : rec.session_id ≡ who.session_id
  pub tool : rec.tool ≡ call.name
  pub args : rec.args ≡ call.arguments
  pub error : rec.is_error ≡ is_failure out
  pub summary : rec.summary ≡ summary_of out

finish_log-IsRecord :
    (who : Caller) (call : CallToolParams) (upstream : String) (out : Called)
    → IsRecord who call out (finish_log (record_of who call upstream) out who.finished)
unfolding finish_log record_of
finish_log-IsRecord who call upstream (succeeded res) = record {
  session = refl;
  tool = refl;
  args = refl;
  error = refl;
  summary = refl;
}
finish_log-IsRecord who call upstream (failed e) = record {
  session = refl;
  tool = refl;
  args = refl;
  error = refl;
  summary = refl;
}

-- What the handler of a native tool logs itself, and what the call ends with: the native tool of the
-- name, else the server that has it.
abbrev pub logs_itself : Option ToolHandler → Bytes → List ToolCallRecord
logs_itself none args = []
logs_itself (some handler) args = (handler args).0

abbrev pub EndsWith : Option ToolHandler → Option Upstream → CallToolParams → Called → Type 0
EndsWith none none call out = ⊥
EndsWith none (some u) call out = out ≡ u.call call.name call.arguments
EndsWith (some handler) u call out = out ≡ (handler call.arguments).1

-- The call ends as the tool's handler does, and has added what that handler logs itself and then one
-- record of its own, nothing else.
pub record IsLogged (who : Caller) (call : CallToolParams) (h : Option ToolHandler)
    (u : Option Upstream) (r : Record) (out : Record × Called) : Type 0 where
  pub own : ToolCallRecord
  pub added : out.0.calls ≡ r.calls ++ logs_itself h call.arguments ++ own ∷ []
  pub of_call : IsRecord who call out.1 own
  pub ends : EndsWith h u call out.1

call_known-IsLogged :
    (decode64 : Bytes → Option Bytes) (p : Proxy) (who : Caller) (call : CallToolParams)
    (h : Option ToolHandler) (u : Option Upstream) (r : Record)
    → (is_some h || is_some u) ≡ true
    → IsLogged who call h u r (call_known decode64 p who call h u r)
unfolding call_known call_native call_upstream
call_known-IsLogged decode64 p who call (some handler) u r k = record {
  own = finish_log (record_of who call "") (handler call.arguments).1 who.finished;
  added = refl;
  of_call = finish_log-IsRecord who call "" (handler call.arguments).1;
  ends = refl;
}
call_known-IsLogged decode64 p who call none (some u) r k = record {
  own = finish_log (record_of who call u.name) (u.call call.name call.arguments) who.finished;
  added =
      ap
        (λ l.
          l
          ++ finish_log (record_of who call u.name) (u.call call.name call.arguments) who.finished
            ∷ [])
        (sym (append-nil r.calls));
  of_call = finish_log-IsRecord who call u.name (u.call call.name call.arguments);
  ends = refl;
}
call_known-IsLogged decode64 p who call none none r k = cc k

call_known-unknown :
    (decode64 : Bytes → Option Bytes) (p : Proxy) (who : Caller) (call : CallToolParams)
    (h : Option ToolHandler) (u : Option Upstream) (r : Record)
    → (is_some h || is_some u) ≡ false
    → call_known decode64 p who call h u r ≡ (
      r,
      failed
          (rpc_failure (record { code = code_invalid_params; message = unknown_tool call.name })),
    )
unfolding call_known
call_known-unknown decode64 p who call none none r k = refl
call_known-unknown decode64 p who call (some handler) u r k = cc k
call_known-unknown decode64 p who call none (some u) r k = cc k

-- A call of a tool that is listed ends as the native handler of that name does, else as the upstream
-- server that has the tool. The log has grown by the records that the native handler adds itself, if
-- there is one, and then by one record, and by nothing else: with the call's session, tool and
-- arguments, and the error or the summary of what is returned to the agent.
pub call_tool-IsLogged :
    (decode64 : Bytes → Option Bytes) (rts : List (Tool × ToolHandler)) (us : List Upstream)
    (who : Caller) (call : CallToolParams) (r : Record)
    → has_tool call.name (all_tools (serving rts us)) ≡ true
    → IsLogged who call
        (lookup call.name (serving rts us).native_by_name)
        (owner_of call.name (serving rts us).upstreams)
        r
        (call_tool decode64 (serving rts us) who (some call) r)
unfolding call_tool
call_tool-IsLogged decode64 rts us who call r listed =
    let p : Proxy = serving rts us in
    call_known-IsLogged decode64 p who call (lookup call.name p.native_by_name)
      (owner_of call.name p.upstreams) r (sym (all_tools-known rts us call.name) ∙ listed)

-- A call of a tool that is not listed reaches no handler: it is refused as unknown, with nothing logged
-- and no screenshot taken.
pub call_tool-unlisted :
    (decode64 : Bytes → Option Bytes) (rts : List (Tool × ToolHandler)) (us : List Upstream)
    (who : Caller) (call : CallToolParams) (r : Record)
    → has_tool call.name (all_tools (serving rts us)) ≡ false
    → call_tool decode64 (serving rts us) who (some call) r ≡ (
      r,
      failed
          (rpc_failure (record { code = code_invalid_params; message = unknown_tool call.name })),
    )
unfolding call_tool
call_tool-unlisted decode64 rts us who call r unlisted =
    let p : Proxy = serving rts us in
    call_known-unknown decode64 p who call (lookup call.name p.native_by_name)
      (owner_of call.name p.upstreams) r (sym (all_tools-known rts us call.name) ∙ unlisted)
