-- ===== src/Mcp/Tools.antt =====
-- `ToolRegistry` of crates/cca-mcp/src/tools.rs. A call yields the requests that it makes, in order, and
-- its result; the HTTP client is an argument.
pub mod Calls
pub mod Dispatch
use cca.Common.{
  ℕ, Bool, true, false, List, [], ◌∷◌, ◌++◌, Option, none, some, String, str_eq, if◌then◌else◌, map,
}
use cca.Mcp.{Json, McpTool}
use cca.Mcp.Client.{
  HttpRequest, Reply, Result, ok, err, ClientError, DaemonStatus, AcpWorker, AcpStatusResponse,
  PatternResult, receive, health_of, health_request, status_request, activity_request,
  acp_status_request, workloads_request, rl_stats_request, rl_train_request, tokens_metrics_request,
  tokens_recommendations_request, create_task_request, get_task_request, broadcast_request,
  search_memory_request, set_rl_algorithm_request, tokens_analyze_request, tokens_compress_request,
  start_indexing_request, search_code_request,
}

pub data Tool : Type 0 where
  task status activity agents memory acp_status broadcast workloads : Tool
  rl_status rl_train rl_algorithm tokens_analyze tokens_compress : Tool
  tokens_metrics tokens_recommendations index_codebase search_code : Tool

-- The text of the last one is that of a value that cannot be serialized.
pub data ToolError : Type 0 where
  unknown_tool : String → ToolError
  missing : String → ToolError
  unserializable : ToolError

pub data ToolResult : Type 0 where
  text : String → ToolResult
  tool_error : ToolError → ToolResult

abbrev entry : String → List String → List String → McpTool
entry name properties required = record {
  name = name;
  properties = properties;
  required = required;
}

abbrev pub tools : List McpTool
tools =
    entry "cca_task" ("description" ∷ "priority" ∷ []) ("description" ∷ [])
    ∷ entry "cca_status" ("task_id" ∷ []) []
    ∷ entry "cca_activity" [] []
    ∷ entry "cca_agents" [] []
    ∷ entry "cca_memory" ("query" ∷ "limit" ∷ []) ("query" ∷ [])
    ∷ entry "cca_acp_status" [] []
    ∷ entry "cca_broadcast" ("message" ∷ []) ("message" ∷ [])
    ∷ entry "cca_workloads" [] []
    ∷ entry "cca_rl_status" [] []
    ∷ entry "cca_rl_train" [] []
    ∷ entry "cca_rl_algorithm" ("algorithm" ∷ []) ("algorithm" ∷ [])
    ∷ entry "cca_tokens_analyze" ("content" ∷ "agent_id" ∷ []) ("content" ∷ [])
    ∷ entry "cca_tokens_compress" ("content" ∷ "strategies" ∷ "target_reduction" ∷ "agent_id" ∷ [])
        ("content" ∷ [])
    ∷ entry "cca_tokens_metrics" [] []
    ∷ entry "cca_tokens_recommendations" [] []
    ∷ entry "cca_index_codebase" ("path" ∷ "extensions" ∷ "exclude_patterns" ∷ []) ("path" ∷ [])
    ∷ entry "cca_search_code" ("query" ∷ "limit" ∷ "language" ∷ []) ("query" ∷ [])
    ∷ []

-- The arms of the match of `call`.
abbrev pub arms : List (String × Tool)
arms =
    ("cca_task", task)
    ∷ ("cca_status", status)
    ∷ ("cca_activity", activity)
    ∷ ("cca_agents", agents)
    ∷ ("cca_memory", memory)
    ∷ ("cca_acp_status", acp_status)
    ∷ ("cca_broadcast", broadcast)
    ∷ ("cca_workloads", workloads)
    ∷ ("cca_rl_status", rl_status)
    ∷ ("cca_rl_train", rl_train)
    ∷ ("cca_rl_algorithm", rl_algorithm)
    ∷ ("cca_tokens_analyze", tokens_analyze)
    ∷ ("cca_tokens_compress", tokens_compress)
    ∷ ("cca_tokens_metrics", tokens_metrics)
    ∷ ("cca_tokens_recommendations", tokens_recommendations)
    ∷ ("cca_index_codebase", index_codebase)
    ∷ ("cca_search_code", search_code)
    ∷ []

unfoldable pub match_name : String → List (String × Tool) → Option Tool
match_name name [] = none
match_name name (a ∷ rest_arms) =
    let rest = match_name name rest_arms in if str_eq name a.0 then some a.1 else rest

-- What deserializes the replies, and the values that the typed ones are printed as. `reformat` is the
-- value that the struct expected of a reply is printed as, where the reply has its fields; `failure` is
-- the text of an error after a prefix.
pub record Decoding (J F : Type 0) : Type 0 where
  pub reformat : HttpRequest J → J → Option J
  pub decode_status : J → Option DaemonStatus
  pub decode_acp_status : J → Option AcpStatusResponse
  pub decode_patterns : J → Option (List (PatternResult F))
  pub status_value : DaemonStatus → J
  pub acp_status_value : AcpStatusResponse → J
  pub failure : String → ClientError → String
