-- ===== src/Acp/Message.antt =====
-- `AcpMessage` and `AcpError` of crates/cca-core/src/communication.rs (JSON-RPC 2.0). A JSON value
-- is kept as its text.
use cca.Common.{Option, none, some, String, ℤ, negsuc}

pub record AcpError : Type 0 where
  pub code : ℤ
  pub message : String
  pub payload : Option String

pub record AcpMessage : Type 0 where
  pub jsonrpc : String
  pub id : Option String
  pub method : Option String
  pub params : Option String
  pub result : Option String
  pub error : Option AcpError

unfoldable pub request : String → String → String → AcpMessage
request id method params = record {
  jsonrpc = "2.0";
  id = some id;
  method = some method;
  params = some params;
  result = none;
  error = none;
}

unfoldable pub notification : String → String → AcpMessage
notification method params = record {
  jsonrpc = "2.0";
  id = none;
  method = some method;
  params = some params;
  result = none;
  error = none;
}

unfoldable pub response : String → String → AcpMessage
response id result = record {
  jsonrpc = "2.0";
  id = some id;
  method = none;
  params = none;
  result = some result;
  error = none;
}

unfoldable pub error_response : String → AcpError → AcpMessage
error_response id error = record {
  jsonrpc = "2.0";
  id = some id;
  method = none;
  params = none;
  result = none;
  error = some error;
}

unfoldable pub custom : ℤ → String → AcpError
custom code message = record { code = code; message = message; payload = none }

-- -32600
abbrev pub invalid_request : AcpError
invalid_request = record { code = negsuc 32599; message = "Invalid Request"; payload = none }

-- -32601
abbrev pub method_not_found : AcpError
method_not_found = record { code = negsuc 32600; message = "Method not found"; payload = none }

-- -32603
abbrev pub internal_error : String → AcpError
internal_error message = record { code = negsuc 32602; message = message; payload = none }
