-- ===== src/Tests/Access.antt =====
-- The middlewares, the pruning of a conversation and the usage table on concrete data.
use cca.Common.{
  ℕ, ◌+◌, ◌*◌, ◌≤◌, ◌<◌, ◌≡◌, refl, ◌↔◌, Bool, true, false, ◌&&◌, List, [], ◌∷◌, Option, none, some,
  String, arith, max, zero, suc,
}
use cca.Gate.{
  Request, Parsing, absent, text, DynamicAuthConfig, passes, Checked, within, wait, Limiters,
  RateLimiterState, extract_api_key, extract_client_ip, or_localhost, dynamic_auth_middleware,
  rate_limit_middleware,
}
use cca.Gate.Keys.{Allowed, dynamic_auth_middleware-passes}
use cca.Gate.Limits.{
  is_passed, global_allows, key_allows, address_allows, rate_limit_middleware-passes,
}
use cca.Tokens.{ConversationMessage, TokenUsage, system, count, opening, prune_history, new}
use cca.Tokens
use cca.Tokens.Pruning.{tokens_of, prune_history-fits}
use cca.Tokens.Usage.{inputs}
use cca.Tests.Fixtures.{env}

abbrev parsing : Parsing
parsing = record {
  strip_bearer = λ s. none;
  first_piece = λ s. s;
  trim = λ s. s;
  parse_ip = λ s. none;
  localhost = 127;
}

abbrev with_key : Request
with_key = record {
  path = "/api/v1/tasks";
  x_api_key = text "key";
  authorization = absent;
  x_forwarded_for = absent;
  x_real_ip = absent;
  connect_info = some 5;
}

abbrev auth : DynamicAuthConfig
auth = record { api_keys = "key" ∷ []; required = true }

dynamic_auth_middleware-passes_example :
    (dynamic_auth_middleware env parsing auth with_key ≡ passes) ↔ Allowed env parsing auth with_key
dynamic_auth_middleware-passes_example = dynamic_auth_middleware-passes env parsing auth with_key

-- Each limiter is the number of requests that it still allows.
abbrev take_one : ℕ → ℕ × Checked
take_one zero = (0, wait 3)
take_one (suc n) = (n, within)

abbrev limiters : Limiters ℕ ℕ ℕ
limiters = record {
  check = λ now g. take_one g;
  check_key = λ now key k. take_one k;
  check_ip = λ now ip i. take_one i;
}

-- The limits of all requests and of the key have room, that of the address has none.
abbrev limits : RateLimiterState ℕ ℕ ℕ
limits = record { per_ip = 0; per_api_key = some 4; global = some 9; trust_proxy = false }

rate_limit_middleware-passes_example :
    is_passed (rate_limit_middleware limiters parsing 1 with_key limits).1 ≡ (
      global_allows limiters 1 limits.global
      && (key_allows limiters 1 (extract_api_key parsing with_key) limits.per_api_key
          && address_allows limiters 1
              (or_localhost parsing (extract_client_ip parsing false with_key))
              limits.per_ip))
rate_limit_middleware-passes_example =
    rate_limit_middleware-passes limiters parsing 1 with_key limits

abbrev said : List ℕ → List ℕ → ConversationMessage
said role content = record { role = role; content = content; timestamp = none }

-- A system message and two of a user, of which there is room for the last one.
abbrev conversation : List ConversationMessage
conversation =
    said system (104 ∷ 105 ∷ []) ∷ said (117 ∷ []) (104 ∷ 105 ∷ []) ∷ said (117 ∷ []) (98 ∷ []) ∷ []

few_tokens : 2 * tokens_of conversation < 4294967296
unfolding Tokens.count_message count Tokens.words Tokens.words_from Tokens.is_whitespace
    Tokens.bytes
few_tokens = omega arith

prune_history-fits_example :
    tokens_of (prune_history conversation 12 2) ≤ max 12 (opening conversation).1
prune_history-fits_example = prune_history-fits conversation 12 2 few_tokens

abbrev usage : ℕ → ℕ → TokenUsage
usage id tokens = record {
  agent_id = id;
  input_tokens = tokens;
  output_tokens = 1;
  total_tokens = tokens + 1;
  context_tokens = 2;
  timestamp = 0;
}

few_inputs : inputs 1 (usage 1 5 ∷ usage 2 7 ∷ usage 1 6 ∷ []) < 18446744073709551616
unfolding cca.Common.ℕ_discrete
few_inputs = omega arith
