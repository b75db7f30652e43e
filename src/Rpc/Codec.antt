-- ===== src/Rpc/Codec.antt =====
-- codec.go: requests, replies and errors. Raw JSON is a list of bytes, empty where it is absent.
use vmux.Base.{ℤ, negsuc, String, Bytes, Option, none, some, []}

-- `none` marks a notification.
pub record Request : Type 0 where
  pub id : Option Bytes
  pub method : String
  pub params : Bytes

pub record Error : Type 0 where
  pub code : ℤ
  pub message : String

pub record Response : Type 0 where
  pub id : Option Bytes
  pub result : Bytes
  pub error : Option Error

abbrev pub code_parse : ℤ
code_parse = negsuc 32699

abbrev pub code_method_not_found : ℤ
code_method_not_found = negsuc 32600

abbrev pub code_internal : ℤ
code_internal = negsuc 32602

unfoldable pub result_response : Option Bytes → Bytes → Response
result_response id result = record { id = id; result = result; error = none }

unfoldable pub error_response : Option Bytes → ℤ → String → Response
error_response id code message = record {
  id = id;
  result = [];
  error = some (record { code = code; message = message });
}
