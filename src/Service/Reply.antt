-- ===== src/Service/Reply.antt =====
-- server.go: what a method returns, and the decoding of its parameters.
use vmux.Base.{ℤ, [], ◌∷◌, Option, none, some, Bytes}
use vmux.Rpc.Codec.{code_internal}
use vmux.Mcp.Proxy.{code_invalid_params}

-- A method returns a value, an rpc.Error with one of two codes, or another error.
pub data Reply (V : Type 0) : Type 0 where
  returned : V → Reply V
  invalid_params internal_error failed : Reply V

-- The code that the client is sent; dispatch gives another error the internal one.
unfoldable pub reply_code : {V : Type 0} → Reply V → Option ℤ
reply_code (returned v) = none
reply_code invalid_params = some code_invalid_params
reply_code internal_error = some code_internal
reply_code failed = some code_internal

-- decode, with json.Unmarshal into the zero parameters as an argument; `none` is the error, which
-- every method returns as it is.
unfoldable pub decode : {P : Type 0} → P → (Bytes → Option P) → Bytes → Option P
decode zero unmarshal [] = some zero
decode zero unmarshal (c ∷ raw) = unmarshal (c ∷ raw)
