-- ===== src/Mcp/Tools/Dispatch.antt =====
-- What a call of a tool needs and asks (crates/cca-mcp/src/tools.rs).
use cca.Common.{◌≡◌, refl, subst, inl, inr, false, List, [], ◌∷◌, Option, none, some, String, Has}
use cca.Mcp.{Json, McpTool}
use cca.Mcp.Client.{HttpRequest, Reply, health_of, health_request}
use cca.Mcp.Tools.{
  Decoding, ToolResult, tool_error, missing, Tool, task, status, activity, agents, memory,
  acp_status, broadcast, workloads, rl_status, rl_train, rl_algorithm, tokens_analyze,
  tokens_compress, tokens_metrics, tokens_recommendations, index_codebase, search_code, tools, arms,
  match_name,
}
use cca.Mcp.Tools.Calls.{
  checked, forwarded, needing, with_argument, run_tool, run_found, call, call_task, call_status,
  status_by, call_agents, call_memory, call_broadcast, call_rl_algorithm, call_tokens_analyze,
  call_tokens_compress, call_index_codebase, call_search_code, call_activity, call_acp_status,
  call_workloads, call_rl_status, call_rl_train, call_tokens_metrics, call_tokens_recommendations,
}

module _ {J N F : Type 0} (js : Json J N F) (dc : Decoding J F)
    (http : HttpRequest J → Reply J) where
  needing-missing :
      (key p : String) (arguments : J) (f : String → List (HttpRequest J) × ToolResult)
      → Has p (key ∷ [])
      → js.as_str (js.field arguments p) ≡ none
      → needing js dc http key arguments f ≡ ([], tool_error (missing p))
  needing-missing key p arguments f (inl q) e =
      subst
        (λ k.
          js.as_str (js.field arguments k) ≡ none
          → needing js dc http key arguments f ≡ ([], tool_error (missing k)))
        q (λ e'. rw e' refl) e
  needing-missing key p arguments f (inr h) e = absurd h

  -- A tool refuses arguments without a required one.
  abbrev Refuses : J → McpTool → Type 0
  Refuses arguments t =
      (p : String)
      → Has p t.required
      → js.as_str (js.field arguments p) ≡ none
      → call js dc http t.name arguments ≡ ([], tool_error (missing p))

  abbrev AllRefuse : J → List McpTool → Type 0
  AllRefuse arguments [] = Unit {0}
  AllRefuse arguments (t ∷ ts) = Refuses arguments t × AllRefuse arguments ts

  AllRefuse-Has :
      (arguments : J) (t : McpTool) (ts : List McpTool)
      → AllRefuse arguments ts
      → Has t ts
      → Refuses arguments t
  AllRefuse-Has arguments t [] a h = absurd h
  AllRefuse-Has arguments t (u ∷ ts) a (inl e) = subst (Refuses arguments) e a.0
  AllRefuse-Has arguments t (u ∷ ts) a (inr h) = AllRefuse-Has arguments t ts a.1 h

  tools-AllRefuse : (arguments : J) → AllRefuse arguments tools
  unfolding call match_name call_task call_memory call_broadcast call_rl_algorithm
      call_tokens_analyze call_tokens_compress call_index_codebase call_search_code
  tools-AllRefuse arguments = (
    (λ p h e. needing-missing "description" p arguments _ h e),
    (
      (λ p h e. absurd h),
      (
        (λ p h e. absurd h),
        (
          (λ p h e. absurd h),
          (
            (λ p h e. needing-missing "query" p arguments _ h e),
            (
              (λ p h e. absurd h),
              (
                (λ p h e. needing-missing "message" p arguments _ h e),
                (
                  (λ p h e. absurd h),
                  (
                    (λ p h e. absurd h),
                    (
                      (λ p h e. absurd h),
                      (
                        (λ p h e. needing-missing "algorithm" p arguments _ h e),
                        (
                          (λ p h e. needing-missing "content" p arguments _ h e),
                          (
                            (λ p h e. needing-missing "content" p arguments _ h e),
                            (
                              (λ p h e. absurd h),
                              (
                                (λ p h e. absurd h),
                                (
                                  (λ p h e. needing-missing "path" p arguments _ h e),
                                  ((λ p h e. needing-missing "query" p arguments _ h e), tt),
                                ),
                              ),
                            ),
                          ),
                        ),
                      ),
                    ),
                  ),
                ),
              ),
            ),
          ),
        ),
      ),
    ),
  )

  -- A call of a registered tool without one of the arguments that its schema requires, as a string,
  -- fails with the name of that argument, and asks nothing of the daemon.
  pub call-missing :
      (t : McpTool) (p : String) (arguments : J)
      → Has t tools
      → Has p t.required
      → js.as_str (js.field arguments p) ≡ none
      → call js dc http t.name arguments ≡ ([], tool_error (missing p))
  call-missing t p arguments registered required e =
      AllRefuse-Has arguments t tools (tools-AllRefuse arguments) registered p required e

  -- Only the health of the daemon was asked for.
  abbrev pub OnlyHealth : List (HttpRequest J) → Type 0
  OnlyHealth asked = (r : HttpRequest J) → Has r asked → health_request js ≡ r

  module _ (down : health_of (http (health_request js)) ≡ false) where
    checked-OnlyHealth :
        (x : List (HttpRequest J) × ToolResult) → OnlyHealth (checked js dc http x).0
    unfolding checked
    checked-OnlyHealth (asked, result) r h = elim (rw down at h) [ inl e ↦ e | inr n ↦ absurd n ]

    forwarded-OnlyHealth :
        (prefix : String) (q : HttpRequest J) → OnlyHealth (forwarded js dc http prefix q).0
    unfolding forwarded
    forwarded-OnlyHealth prefix q = checked-OnlyHealth _

    needing-OnlyHealth :
        (key : String) (arguments : J) (f : String → List (HttpRequest J) × ToolResult)
        → ((s : String) → OnlyHealth (f s).0)
        → OnlyHealth (needing js dc http key arguments f).0
    needing-OnlyHealth key arguments f all =
        elim (js.as_str (js.field arguments key))
          as (λ o. OnlyHealth (with_argument js dc http key o f).0) [
            | none ↦ λ r h. absurd h
            | some s ↦ all s
          ]

    status_by-OnlyHealth : (o : Option String) → OnlyHealth (status_by js dc http o).0
    status_by-OnlyHealth none = checked-OnlyHealth _
    status_by-OnlyHealth (some s) = forwarded-OnlyHealth "Failed to get task: " _

    run_tool-OnlyHealth :
        (t : Tool) (arguments : J) → OnlyHealth (run_tool js dc http t arguments).0
    unfolding call_task call_status call_agents call_memory call_broadcast call_rl_algorithm
        call_tokens_analyze call_tokens_compress call_index_codebase call_search_code call_activity
        call_acp_status call_workloads call_rl_status call_rl_train call_tokens_metrics
        call_tokens_recommendations
    run_tool-OnlyHealth task a = needing-OnlyHealth _ a _ (λ s. forwarded-OnlyHealth _ _)
    run_tool-OnlyHealth status a = status_by-OnlyHealth _
    run_tool-OnlyHealth activity a = forwarded-OnlyHealth _ _
    run_tool-OnlyHealth agents a = checked-OnlyHealth _
    run_tool-OnlyHealth memory a = needing-OnlyHealth _ a _ (λ s. checked-OnlyHealth _)
    run_tool-OnlyHealth acp_status a = forwarded-OnlyHealth _ _
    run_tool-OnlyHealth broadcast a = needing-OnlyHealth _ a _ (λ s. forwarded-OnlyHealth _ _)
    run_tool-OnlyHealth workloads a = forwarded-OnlyHealth _ _
    run_tool-OnlyHealth rl_status a = forwarded-OnlyHealth _ _
    run_tool-OnlyHealth rl_train a = forwarded-OnlyHealth _ _
    run_tool-OnlyHealth rl_algorithm a = needing-OnlyHealth _ a _ (λ s. forwarded-OnlyHealth _ _)
    run_tool-OnlyHealth tokens_analyze a = needing-OnlyHealth _ a _ (λ s. forwarded-OnlyHealth _ _)
    run_tool-OnlyHealth tokens_compress a = needing-OnlyHealth _ a _ (λ s. forwarded-OnlyHealth _ _)
    run_tool-OnlyHealth tokens_metrics a = forwarded-OnlyHealth _ _
    run_tool-OnlyHealth tokens_recommendations a = forwarded-OnlyHealth _ _
    run_tool-OnlyHealth index_codebase a = needing-OnlyHealth _ a _ (λ s. forwarded-OnlyHealth _ _)
    run_tool-OnlyHealth search_code a = needing-OnlyHealth _ a _ (λ s. forwarded-OnlyHealth _ _)

    run_found-OnlyHealth :
        (name : String) (o : Option Tool) (arguments : J)
        → OnlyHealth (run_found js dc http name o arguments).0
    run_found-OnlyHealth name none a = λ r h. absurd h
    run_found-OnlyHealth name (some t) a = run_tool-OnlyHealth t a

    -- Where the daemon does not answer that it is healthy, no call of a tool, by whatever name and with
    -- whatever arguments, makes any request but the one for its health.
    pub call-OnlyHealth :
        (name : String) (arguments : J) (r : HttpRequest J)
        → Has r (call js dc http name arguments).0
        → health_request js ≡ r
    unfolding call
    call-OnlyHealth name arguments r h =
        run_found-OnlyHealth name (match_name name arms) arguments r h
