-- ===== src/Tests/Mcp.antt =====
-- The MCP server on values that are strings, without a daemon.
use cca.Common.{
  ℕ, ◌≡◌, refl, inl, inr, false, List, [], ◌∷◌, none, some, String, Has, str_eq, if◌then◌else◌,
}
use cca.Mcp.{Json, JsonRpcRequest}
use cca.Mcp.Client.{HttpRequest, Reply, unsent, health_of, health_request}
use cca.Mcp.Tools.{Decoding, tool_error, missing, match_name}
use cca.Mcp.Tools.Calls.{call, call_activity, forwarded, checked}
use cca.Mcp.Tools.Dispatch.{call-missing, call-OnlyHealth}
use cca.Mcp.Server.{Line, blank, request, malformed, Texts}

-- A value is its text; an argument under "query" is missing, every other one is a string.
abbrev json : Json String ℕ ℕ
json = record {
  field = λ j key. key;
  as_str = λ s. if str_eq s "query" then none else some s;
  as_i32 = λ s. none;
  as_f64 = λ s. none;
  as_array = λ s. none;
  null = "null";
  str = λ s. s;
  bool_true = "true";
  int = λ n. "n";
  nat = λ n. "n";
  float = λ x. "x";
  array = λ js. "[]";
  object = λ fields. "{}";
  ten = 10;
  one = 1;
  nought = 0;
  to_string_pretty = λ s. some s;
}

abbrev decoding : Decoding String ℕ
decoding = record {
  reformat = λ r j. some j;
  decode_status = λ j. none;
  decode_acp_status = λ j. none;
  decode_patterns = λ j. none;
  status_value = λ s. "status";
  acp_status_value = λ s. "acp";
  failure = λ prefix e. prefix;
}

abbrev no_daemon : HttpRequest String → Reply String
no_daemon r = unsent "connection refused"

call-missing_example :
    call json decoding no_daemon "cca_memory" "{}" ≡ ([], tool_error (missing "query"))
call-missing_example =
    call-missing json decoding no_daemon
      (record { name = "cca_memory"; properties = "query" ∷ "limit" ∷ []; required = "query" ∷ [] })
      "query" "{}" (inr (inr (inr (inr (inl refl))))) (inl refl) refl

not_healthy : health_of (no_daemon (health_request json)) ≡ false
unfolding health_of
not_healthy = refl

health_asked : Has (health_request json) (call json decoding no_daemon "cca_activity" "{}").0
unfolding call match_name call_activity forwarded checked health_of
health_asked = inl refl

call-OnlyHealth_example : health_request json ≡ health_request json
call-OnlyHealth_example =
    call-OnlyHealth json decoding no_daemon not_healthy "cca_activity" "{}" (health_request json)
      health_asked

abbrev texts : Texts String
texts = record {
  error_text = λ e. "Error";
  method_text = λ m. m;
  tool_value = λ t. t.name;
  version = "0.1.0";
}

abbrev named : String → String → JsonRpcRequest String
named id method = record { jsonrpc = "2.0"; id = id; method = method; params = "{}" }

abbrev input : List (Line String)
input = request (named "1" "initialize") ∷ blank ∷ malformed ∷ request (named "2" "no/such") ∷ []
