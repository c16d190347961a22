-- ===== src/Mcp/Server.antt =====
-- `McpServer` of crates/cca-mcp/src/server.rs.
pub mod Answers
use cca.Common.{
  ℕ, Bool, true, false, List, [], ◌∷◌, ◌++◌, Option, none, some, String, str_eq, if◌then◌else◌, map,
  negsuc,
}
use cca.Mcp.{Json, McpTool, JsonRpcRequest, JsonRpcResponse, success, error_response}
use cca.Mcp.Client.{HttpRequest, Reply}
use cca.Mcp.Tools.{Decoding, ToolError, ToolResult, text, tool_error, tools}
use cca.Mcp.Tools.Calls.{call}

-- A line of the input: nothing, a request, a text that is none, or an error of the input.
pub data Line (J : Type 0) : Type 0 where
  blank : Line J
  request : JsonRpcRequest J → Line J
  malformed : Line J
  unreadable : Line J

abbrev name_of : Option String → String
name_of none = ""
name_of (some s) = s

-- `error_text` is the text of an error after "Error: ", `method_text` of a method after "Method not
-- found: ", `tool_value` a tool with its schema, `version` that of the package.
pub record Texts (J : Type 0) : Type 0 where
  pub error_text : ToolError → String
  pub method_text : String → String
  pub tool_value : McpTool → J
  pub version : String

module _ {J N F : Type 0} (js : Json J N F) (dc : Decoding J F) (tx : Texts J)
    (http : HttpRequest J → Reply J) where
  abbrev content_value : String → J
  content_value s = js.array (js.object (("type", js.str "text") ∷ ("text", js.str s) ∷ []) ∷ [])

  abbrev pub tool_answer : J → ToolResult → JsonRpcResponse J
  tool_answer id (text s) = success id (js.object (("content", content_value s) ∷ []))
  tool_answer id (tool_error e) =
      success id
        (js.object (("content", content_value (tx.error_text e)) ∷ ("isError", js.bool_true) ∷ []))

  unfoldable pub handle_initialize : J → JsonRpcResponse J
  unfolding success
  handle_initialize id = success id (
      js.object (
        ("protocolVersion", js.str "2024-11-05")
        ∷ (
          "capabilities",
          js.object (("tools", js.object (("listChanged", js.bool_true) ∷ [])) ∷ []),
        )
        ∷ ("serverInfo", js.object (("name", js.str "cca") ∷ ("version", js.str tx.version) ∷ []))
        ∷ []))

  unfoldable pub handle_tools_list : J → JsonRpcResponse J
  unfolding success
  handle_tools_list id = success id (js.object (("tools", js.array (map tx.tool_value tools)) ∷ []))

  unfoldable pub handle_tools_call : J → J → List (HttpRequest J) × JsonRpcResponse J
  unfolding call success
  handle_tools_call id params =
      let (asked, result) =
        call js dc http (name_of (js.as_str (js.field params "name")))
          (js.field params "arguments") in
      (asked, tool_answer id result)

  unfoldable pub handle_resources_list : J → JsonRpcResponse J
  unfolding success
  handle_resources_list id = success id (js.object (("resources", js.array []) ∷ []))

  -- -32602
  unfoldable pub handle_resources_read : J → J → JsonRpcResponse J
  unfolding error_response
  handle_resources_read id params = error_response id (negsuc 32601) "Resource not found"

  -- The last code is -32601.
  unfoldable pub handle_request : JsonRpcRequest J → List (HttpRequest J) × JsonRpcResponse J
  unfolding handle_initialize handle_tools_list handle_tools_call handle_resources_list
      handle_resources_read error_response
  handle_request r =
      if str_eq r.method "initialize"
      then ([], handle_initialize r.id)
      else if str_eq r.method "tools/list"
      then ([], handle_tools_list r.id)
      else if str_eq r.method "tools/call"
      then handle_tools_call r.id r.params
      else if str_eq r.method "resources/list"
      then ([], handle_resources_list r.id)
      else if str_eq r.method "resources/read"
      then ([], handle_resources_read r.id r.params)
      else ([], error_response r.id (negsuc 32600) (tx.method_text r.method))

  -- -32700
  abbrev pub parse_error : JsonRpcResponse J
  parse_error = error_response js.null (negsuc 32699) "Parse error"

  abbrev pub written :
      JsonRpcResponse J
      → Option String
      → List (JsonRpcResponse J) × Bool
      → List (JsonRpcResponse J) × Bool
  written response none rest = ([], false)
  written response (some s) (later, ended) = (response ∷ later, ended)

  -- The responses that are written, and whether the input came to its end; `to_string` serializes a
  -- response.
  unfoldable pub run_stdio :
      (JsonRpcResponse J → Option String) → List (Line J) → List (JsonRpcResponse J) × Bool
  unfolding handle_request error_response
  run_stdio to_string [] = ([], true)
  run_stdio to_string (blank ∷ lines) = run_stdio to_string lines
  run_stdio to_string (unreadable ∷ lines) = ([], false)
  run_stdio to_string (malformed ∷ lines) =
      written parse_error (to_string parse_error) (run_stdio to_string lines)
  run_stdio to_string (request r ∷ lines) =
      let response = (handle_request r).1 in
      written response (to_string response) (run_stdio to_string lines)
