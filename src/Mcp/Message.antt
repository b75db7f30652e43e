-- ===== src/Mcp/Message.antt =====
-- protocol.go: the envelope of a message. Raw JSON is a list of bytes, empty where it is absent.
use Prim.Native.String.{◌++◌}
use vmux.Base.{ℤ, String, Bytes, Option}

pub record RpcError : Type 0 where
  pub code : ℤ
  pub message : String

pub record Message : Type 0 where
  pub id : Option Bytes
  pub method : String
  pub params : Bytes
  pub result : Bytes
  pub error : Option RpcError

abbrev pub unknown_tool : String → String
unknown_tool name = "unknown tool: " ++ name
