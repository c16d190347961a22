-- ===== src/Mcp.antt =====
-- The MCP server: crates/cca-mcp/src/types.rs, and the JSON values that its files share. serde_json is
-- a parameter, the record `Json`.
pub mod Client
pub mod Tools
pub mod Server
use cca.Common.{ℕ, List, Option, none, some, String, ℤ}

-- The operations on JSON values that are used: `N` are the numbers of type i32, `F` those of type f64.
-- `field` indexes an object, with null where there is no such field; `as_i32` is `as_i64` and the cast.
pub record Json (J N F : Type 0) : Type 0 where
  pub field : J → String → J
  pub as_str : J → Option String
  pub as_i32 : J → Option N
  pub as_f64 : J → Option F
  pub as_array : J → Option (List J)
  pub null : J
  pub str : String → J
  pub bool_true : J
  pub int : N → J
  pub nat : ℕ → J
  pub float : F → J
  pub array : List J → J
  pub object : List (String × J) → J
  pub ten : N
  pub one : F
  pub nought : F
  pub to_string_pretty : J → Option String

pub record McpTool : Type 0 where
  pub name : String
  -- Of the schema, the names of the properties and of the required ones.
  pub properties : List String
  pub required : List String

pub record JsonRpcRequest (J : Type 0) : Type 0 where
  pub jsonrpc : String
  pub id : J
  pub method : String
  pub params : J

pub record JsonRpcError (J : Type 0) : Type 0 where
  pub code : ℤ
  pub message : String
  pub payload : Option J

pub record JsonRpcResponse (J : Type 0) : Type 0 where
  pub jsonrpc : String
  pub id : J
  pub result : Option J
  pub error : Option (JsonRpcError J)

unfoldable pub success : {J : Type 0} → J → J → JsonRpcResponse J
success id result = record { jsonrpc = "2.0"; id = id; result = some result; error = none }

unfoldable pub error_response : {J : Type 0} → J → ℤ → String → JsonRpcResponse J
error_response id code message = record {
  jsonrpc = "2.0";
  id = id;
  result = none;
  error = some (record { code = code; message = message; payload = none });
}

-- A value that may be absent, which is null.
abbrev pub or_null : {A J N F : Type 0} → Json J N F → (A → J) → Option A → J
or_null js f none = js.null
or_null js f (some a) = f a
