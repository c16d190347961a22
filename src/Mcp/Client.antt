-- ===== src/Mcp/Client.antt =====
-- `DaemonClient` of crates/cca-mcp/src/client.rs: the requests of its methods, and what becomes of the
-- replies. The HTTP client is a function from requests to replies.
use cca.Common.{ℕ, Bool, true, false, List, [], ◌∷◌, Option, none, some, String, map}
use cca.Mcp.{Json, or_null}

-- A path that is fixed, or one with an identifier at its end.
pub data Address : Type 0 where
  fixed : String → Address
  under : String → String → Address

pub data HttpRequest (J : Type 0) : Type 0 where
  get : Address → HttpRequest J
  post : Address → J → HttpRequest J

-- No reply, one whose status is not a success, or one with a value where its body is JSON.
pub data Reply (J : Type 0) : Type 0 where
  unsent : String → Reply J
  failed : ℕ → String → Reply J
  answered : Option J → Reply J

pub data ClientError : Type 0 where
  send_failed : String → ClientError
  request_failed : ℕ → String → ClientError
  parse_failed : ClientError

pub data Result (A : Type 0) : Type 0 where
  ok : A → Result A
  err : ClientError → Result A

pub record DaemonStatus : Type 0 where
  pub status : String
  pub version : String
  pub agents_count : ℕ
  pub tasks_pending : ℕ
  pub tasks_completed : ℕ

pub record AcpWorker : Type 0 where
  pub agent_id : String
  pub role : String

pub record AcpStatusResponse : Type 0 where
  pub running : Bool
  pub port : ℕ
  pub connected_agents : ℕ
  pub workers : List AcpWorker

-- Of a pattern, the fields that are used.
pub record PatternResult (F : Type 0) : Type 0 where
  pub id : String
  pub pattern_type : String
  pub content : String
  pub success_rate : Option F

abbrev parsed : {A : Type 0} → Option A → Result A
parsed none = err parse_failed
parsed (some a) = ok a

abbrev parsed_body : {J A : Type 0} → (J → Option A) → Option J → Result A
parsed_body decode none = err parse_failed
parsed_body decode (some j) = parsed (decode j)

-- What `get` and `post` make of a reply; `decode` is the deserializer of the type that is expected.
unfoldable pub receive : {J A : Type 0} → (J → Option A) → Reply J → Result A
receive decode (unsent e) = err (send_failed e)
receive decode (failed status body) = err (request_failed status body)
receive decode (answered body) = parsed_body decode body

-- `health` of the reply.
unfoldable pub health_of : {J : Type 0} → Reply J → Bool
health_of (unsent e) = false
health_of (failed status body) = false
health_of (answered body) = true

module _ {J N F : Type 0} (js : Json J N F) where
  abbrev pub health_request : HttpRequest J
  health_request = get (fixed "/health")

  abbrev pub status_request : HttpRequest J
  status_request = get (fixed "/api/v1/status")

  abbrev pub activity_request : HttpRequest J
  activity_request = get (fixed "/api/v1/activity")

  abbrev pub acp_status_request : HttpRequest J
  acp_status_request = get (fixed "/api/v1/acp/status")

  abbrev pub workloads_request : HttpRequest J
  workloads_request = get (fixed "/api/v1/workloads")

  abbrev pub rl_stats_request : HttpRequest J
  rl_stats_request = get (fixed "/api/v1/rl/stats")

  abbrev pub rl_train_request : HttpRequest J
  rl_train_request = post (fixed "/api/v1/rl/train") (js.object [])

  abbrev pub tokens_metrics_request : HttpRequest J
  tokens_metrics_request = get (fixed "/api/v1/tokens/metrics")

  abbrev pub tokens_recommendations_request : HttpRequest J
  tokens_recommendations_request = get (fixed "/api/v1/tokens/recommendations")

  unfoldable pub create_task_request : String → Option String → HttpRequest J
  create_task_request description priority = post (fixed "/api/v1/tasks") (
      js.object (
        ("description", js.str description)
        ∷ ("priority", or_null js js.str priority)
        ∷ ("metadata", js.null)
        ∷ []))

  unfoldable pub get_task_request : String → HttpRequest J
  get_task_request task_id = get (under "/api/v1/tasks/" task_id)

  unfoldable pub broadcast_request : String → HttpRequest J
  broadcast_request message =
      post (fixed "/api/v1/broadcast") (js.object (("message", js.str message) ∷ []))

  unfoldable pub search_memory_request : String → N → HttpRequest J
  search_memory_request query limit =
      post (fixed "/api/v1/memory/search")
        (js.object (("query", js.str query) ∷ ("limit", js.int limit) ∷ []))

  unfoldable pub set_rl_algorithm_request : String → HttpRequest J
  set_rl_algorithm_request algorithm =
      post (fixed "/api/v1/rl/algorithm") (js.object (("algorithm", js.str algorithm) ∷ []))

  unfoldable pub tokens_analyze_request : String → Option String → HttpRequest J
  tokens_analyze_request content agent_id =
      post (fixed "/api/v1/tokens/analyze")
        (js.object (("content", js.str content) ∷ ("agent_id", or_null js js.str agent_id) ∷ []))

  abbrev texts : List String → J
  texts ts = js.array (map js.str ts)

  unfoldable pub tokens_compress_request :
      String → Option (List String) → Option F → Option String → HttpRequest J
  tokens_compress_request content strategies target_reduction agent_id =
      post (fixed "/api/v1/tokens/compress") (
        js.object (
          ("content", js.str content)
          ∷ ("strategies", or_null js texts strategies)
          ∷ ("target_reduction", or_null js js.float target_reduction)
          ∷ ("agent_id", or_null js js.str agent_id)
          ∷ []))

  -- The tool gives no size of a batch, which then is 10.
  unfoldable pub start_indexing_request :
      String → Option (List String) → Option (List String) → HttpRequest J
  start_indexing_request path extensions exclude_patterns = post (fixed "/api/v1/memory/index") (
      js.object (
        ("path", js.str path)
        ∷ ("extensions", or_null js texts extensions)
        ∷ ("exclude_patterns", or_null js texts exclude_patterns)
        ∷ ("batch_size", js.nat 10)
        ∷ []))

  abbrev or_ten : Option N → N
  or_ten none = js.ten
  or_ten (some n) = n

  unfoldable pub search_code_request : String → Option N → Option String → HttpRequest J
  search_code_request query limit language = post (fixed "/api/v1/code/search") (
      js.object (
        ("query", js.str query)
        ∷ ("limit", js.int (or_ten limit))
        ∷ ("language", or_null js js.str language)
        ∷ []))
