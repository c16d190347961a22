-- ===== src/Mcp/Tools/Calls.antt =====
-- The tools of crates/cca-mcp/src/tools.rs: what each asks of the daemon, and their dispatch.
use cca.Common.{List, [], ◌∷◌, Option, none, some, String, if◌then◌else◌, map}
use cca.Mcp.{Json}
use cca.Mcp.Client.{
  HttpRequest, Reply, Result, ok, err, DaemonStatus, AcpWorker, AcpStatusResponse, PatternResult,
  receive, health_of, health_request, status_request, activity_request, acp_status_request,
  workloads_request, rl_stats_request, rl_train_request, tokens_metrics_request,
  tokens_recommendations_request, create_task_request, get_task_request, broadcast_request,
  search_memory_request, set_rl_algorithm_request, tokens_analyze_request, tokens_compress_request,
  start_indexing_request, search_code_request,
}
use cca.Mcp.Tools.{
  Tool, ToolResult, arms, match_name, Decoding, task, status, activity, agents, memory, acp_status,
  broadcast, workloads, rl_status, rl_train, rl_algorithm, tokens_analyze, tokens_compress,
  tokens_metrics, tokens_recommendations, index_codebase, search_code, unknown_tool, missing,
  unserializable, text, tool_error,
}

module _ {J N F : Type 0} (js : Json J N F) (dc : Decoding J F)
    (http : HttpRequest J → Reply J) where
  abbrev pub printed : Option String → ToolResult
  printed none = tool_error unserializable
  printed (some s) = text s

  abbrev pub show : J → ToolResult
  show j = printed (js.to_string_pretty j)

  abbrev pub error_value : String → J
  error_value message = js.object (("error", js.str message) ∷ [])

  -- The check of the daemon's health, and what follows where it runs.
  unfoldable pub checked : List (HttpRequest J) × ToolResult → List (HttpRequest J) × ToolResult
  unfolding health_of
  checked (asked, result) =
      if health_of (http (health_request js)) then (health_request js ∷ asked, result) else (
        health_request js ∷ [],
        show (error_value "CCA daemon is not running. Start it with: cca daemon start"),
      )

  abbrev pub shown : {A : Type 0} → String → (A → J) → Result A → ToolResult
  shown prefix f (ok a) = show (f a)
  shown prefix f (err e) = show (error_value (dc.failure prefix e))

  -- A tool that prints the reply to one request.
  unfoldable pub forwarded : String → HttpRequest J → List (HttpRequest J) × ToolResult
  unfolding receive checked
  forwarded prefix r = checked (r ∷ [], shown prefix (λ j. j) (receive (dc.reformat r) (http r)))

  abbrev pub with_argument :
      String
      → Option String
      → (String → List (HttpRequest J) × ToolResult)
      → List (HttpRequest J) × ToolResult
  with_argument key none f = ([], tool_error (missing key))
  with_argument key (some s) f = f s

  -- An argument that has to be there, as a string.
  abbrev pub needing :
      String → J → (String → List (HttpRequest J) × ToolResult) → List (HttpRequest J) × ToolResult
  needing key arguments f = with_argument key (js.as_str (js.field arguments key)) f

  abbrev strings : List J → List String
  strings [] = []
  strings (j ∷ js') = elim (js.as_str j) [ none ↦ strings js' | some s ↦ s ∷ strings js' ]

  -- `as_array` and the strings in it.
  abbrev pub strings_at : String → J → Option (List String)
  strings_at key arguments = elim (js.as_array (js.field arguments key)) [
    | none ↦ none
    | some values ↦ some (strings values)
  ]

  unfoldable pub call_task : J → List (HttpRequest J) × ToolResult
  unfolding forwarded create_task_request
  call_task arguments = needing "description" arguments (λ description.
      forwarded "Failed to create task: "
        (create_task_request js description (js.as_str (js.field arguments "priority"))))

  -- The number of agents is that of the connected ones, where it is known.
  abbrev with_connected : Result AcpStatusResponse → DaemonStatus → DaemonStatus
  with_connected (err e) s = s
  with_connected (ok acp) s = record s { agents_count = acp.connected_agents }

  abbrev overall_by : Result DaemonStatus → List (HttpRequest J) × ToolResult
  overall_by (err e) =
      (status_request js ∷ [], show (error_value (dc.failure "Failed to get status: " e)))
  overall_by (ok s) = (
    status_request js ∷ acp_status_request js ∷ [],
    show (
        dc.status_value
          (with_connected (receive dc.decode_acp_status (http (acp_status_request js))) s)),
  )

  abbrev pub status_by : Option String → List (HttpRequest J) × ToolResult
  status_by (some task_id) = forwarded "Failed to get task: " (get_task_request js task_id)
  status_by none = checked (overall_by (receive dc.decode_status (http (status_request js))))

  unfoldable pub call_status : J → List (HttpRequest J) × ToolResult
  unfolding forwarded get_task_request checked receive
  call_status arguments = status_by (js.as_str (js.field arguments "task_id"))

  abbrev worker_value : AcpWorker → J
  worker_value w = js.object (
      ("agent_id", js.str w.agent_id)
      ∷ ("role", js.str w.role)
      ∷ ("status", js.str "connected")
      ∷ [])

  abbrev agents_value : AcpStatusResponse → J
  agents_value acp = js.object (
      ("agents", js.array (map worker_value acp.workers))
      ∷ ("connected_count", js.nat acp.connected_agents)
      ∷ [])

  unfoldable pub call_agents : List (HttpRequest J) × ToolResult
  unfolding checked receive
  call_agents = checked (
    acp_status_request js ∷ [],
    shown "Failed to list agents: " agents_value
        (receive dc.decode_acp_status (http (acp_status_request js))),
  )

  abbrev rate_or_zero : Option F → F
  rate_or_zero none = js.nought
  rate_or_zero (some x) = x

  abbrev pattern_value : PatternResult F → J
  pattern_value p = js.object (
      ("id", js.str p.id)
      ∷ ("pattern_type", js.str p.pattern_type)
      ∷ ("content", js.str p.content)
      ∷ ("score", js.float js.one)
      ∷ ("success_rate", js.float (rate_or_zero p.success_rate))
      ∷ [])

  abbrev limit_or_ten : Option N → N
  limit_or_ten none = js.ten
  limit_or_ten (some n) = n

  unfoldable pub call_memory : J → List (HttpRequest J) × ToolResult
  unfolding checked receive search_memory_request
  call_memory arguments = needing "query" arguments (λ query.
      let r =
        search_memory_request js query (limit_or_ten (js.as_i32 (js.field arguments "limit"))) in
      checked (
        r ∷ [],
        shown "Failed to search memory: "
            (λ (ps : List (PatternResult F)).
              js.object (("patterns", js.array (map pattern_value ps)) ∷ []))
            (receive dc.decode_patterns (http r)),
      ))

  unfoldable pub call_broadcast : J → List (HttpRequest J) × ToolResult
  unfolding forwarded broadcast_request
  call_broadcast arguments =
      needing "message" arguments
        (λ message. forwarded "Failed to broadcast: " (broadcast_request js message))

  unfoldable pub call_rl_algorithm : J → List (HttpRequest J) × ToolResult
  unfolding forwarded set_rl_algorithm_request
  call_rl_algorithm arguments =
      needing "algorithm" arguments
        (λ algorithm. forwarded "Failed to set algorithm: " (set_rl_algorithm_request js algorithm))

  unfoldable pub call_tokens_analyze : J → List (HttpRequest J) × ToolResult
  unfolding forwarded tokens_analyze_request
  call_tokens_analyze arguments = needing "content" arguments (λ content.
      forwarded "Failed to analyze tokens: "
        (tokens_analyze_request js content (js.as_str (js.field arguments "agent_id"))))

  unfoldable pub call_tokens_compress : J → List (HttpRequest J) × ToolResult
  unfolding forwarded tokens_compress_request
  call_tokens_compress arguments = needing "content" arguments (λ content.
      forwarded "Failed to compress: " (
        tokens_compress_request js content (strings_at "strategies" arguments)
          (js.as_f64 (js.field arguments "target_reduction"))
          (js.as_str (js.field arguments "agent_id"))))

  unfoldable pub call_index_codebase : J → List (HttpRequest J) × ToolResult
  unfolding forwarded start_indexing_request
  call_index_codebase arguments = needing "path" arguments (λ path.
      forwarded "Failed to start indexing: " (
        start_indexing_request js path (strings_at "extensions" arguments)
          (strings_at "exclude_patterns" arguments)))

  unfoldable pub call_search_code : J → List (HttpRequest J) × ToolResult
  unfolding forwarded search_code_request
  call_search_code arguments = needing "query" arguments (λ query.
      forwarded "Failed to search code: " (
        search_code_request js query (js.as_i32 (js.field arguments "limit"))
          (js.as_str (js.field arguments "language"))))

  unfoldable pub call_activity : List (HttpRequest J) × ToolResult
  unfolding forwarded
  call_activity = forwarded "Failed to get activity: " (activity_request js)

  unfoldable pub call_acp_status : List (HttpRequest J) × ToolResult
  unfolding forwarded
  call_acp_status = forwarded "Failed to get ACP status: " (acp_status_request js)

  unfoldable pub call_workloads : List (HttpRequest J) × ToolResult
  unfolding forwarded
  call_workloads = forwarded "Failed to get workloads: " (workloads_request js)

  unfoldable pub call_rl_status : List (HttpRequest J) × ToolResult
  unfolding forwarded
  call_rl_status = forwarded "Failed to get RL stats: " (rl_stats_request js)

  unfoldable pub call_rl_train : List (HttpRequest J) × ToolResult
  unfolding forwarded
  call_rl_train = forwarded "Failed to train: " (rl_train_request js)

  unfoldable pub call_tokens_metrics : List (HttpRequest J) × ToolResult
  unfolding forwarded
  call_tokens_metrics = forwarded "Failed to get metrics: " (tokens_metrics_request js)

  unfoldable pub call_tokens_recommendations : List (HttpRequest J) × ToolResult
  unfolding forwarded
  call_tokens_recommendations =
      forwarded "Failed to get recommendations: " (tokens_recommendations_request js)

  abbrev pub run_tool : Tool → J → List (HttpRequest J) × ToolResult
  run_tool task arguments = call_task arguments
  run_tool status arguments = call_status arguments
  run_tool activity arguments = call_activity
  run_tool agents arguments = call_agents
  run_tool memory arguments = call_memory arguments
  run_tool acp_status arguments = call_acp_status
  run_tool broadcast arguments = call_broadcast arguments
  run_tool workloads arguments = call_workloads
  run_tool rl_status arguments = call_rl_status
  run_tool rl_train arguments = call_rl_train
  run_tool rl_algorithm arguments = call_rl_algorithm arguments
  run_tool tokens_analyze arguments = call_tokens_analyze arguments
  run_tool tokens_compress arguments = call_tokens_compress arguments
  run_tool tokens_metrics arguments = call_tokens_metrics
  run_tool tokens_recommendations arguments = call_tokens_recommendations
  run_tool index_codebase arguments = call_index_codebase arguments
  run_tool search_code arguments = call_search_code arguments

  abbrev pub run_found : String → Option Tool → J → List (HttpRequest J) × ToolResult
  run_found name none arguments = ([], tool_error (unknown_tool name))
  run_found name (some t) arguments = run_tool t arguments

  unfoldable pub call : String → J → List (HttpRequest J) × ToolResult
  unfolding match_name call_task call_status call_agents call_memory call_broadcast
      call_rl_algorithm call_tokens_analyze call_tokens_compress call_index_codebase
      call_search_code forwarded call_activity call_acp_status call_workloads call_rl_status
      call_rl_train call_tokens_metrics call_tokens_recommendations
  call name arguments = run_found name (match_name name arms) arguments
