-- ===== src/Mcp/Tool.antt =====
-- tool.go, with the tools and results of protocol.go. Texts whose length counts are lists of bytes.
use vmux.Base.{
  ℕ, Bool, true, false, not, ◌&&◌, List, [], ◌∷◌, ◌++◌, if◌then◌else◌, ltb, String, String-eq, ◌==◌,
  Bytes, Bytes-eq, codes, length, take,
}
use vmux.Mcp.Message.{RpcError}

pub record Tool : Type 0 where
  pub name : String
  pub description : String
  pub input_schema : Bytes

pub record Content : Type 0 where
  pub kind : String
  pub text : Bytes
  pub data_base64 : Bytes
  pub mime : String

pub record CallToolResult : Type 0 where
  pub content : List Content
  pub is_error : Bool

-- TextResult and ErrorResult
unfoldable pub text_result : Bytes → CallToolResult
text_result text = record {
  content = record { kind = "text"; text = text; data_base64 = []; mime = "" } ∷ [];
  is_error = false;
}

unfoldable pub error_result : Bytes → CallToolResult
error_result text = record {
  content = record { kind = "text"; text = text; data_base64 = []; mime = "" } ∷ [];
  is_error = true;
}

-- `upstream` is empty for a native tool.
pub record ToolCallRecord : Type 0 where
  pub time : ℕ
  pub session_id : String
  pub tool : String
  pub upstream : String
  pub args : Bytes
  pub summary : Bytes
  pub duration : ℕ
  pub is_error : Bool

-- An error that a handler returns: an RPCError or another one.
pub data Failure : Type 0 where
  rpc_failure : RpcError → Failure
  other_failure : Bytes → Failure

pub data Called : Type 0 where
  succeeded : CallToolResult → Called
  failed : Failure → Called

-- ToolHandler: what it logs itself, and what it returns.
abbrev pub ToolHandler : Type 0
ToolHandler = Bytes → List ToolCallRecord × Called

-- The first 200 bytes, with an ellipsis, of a text that is longer.
unfoldable pub shortened : Bytes → Bytes
shortened s = if ltb 200 (length s) then take 200 s ++ 226 ∷ 128 ∷ 166 ∷ [] else s

unfoldable pub first_text : List Content → Bytes → Bytes
unfolding shortened
first_text [] other = other
first_text (c ∷ cs) other =
    let rest = first_text cs other in
    if c.kind == "text" && not (c.text == []) then shortened c.text else rest

unfoldable pub first_kind : List Content → Bytes
first_kind [] = []
first_kind (c ∷ cs) = codes c.kind

unfoldable pub summarize : CallToolResult → Bytes
unfolding first_text first_kind
summarize res = first_text res.content (first_kind res.content)
