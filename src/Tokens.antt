-- ===== src/Tokens.antt =====
-- crates/cca-daemon/src/tokens.rs: the estimate of tokens, the pruning of a conversation, and the
-- table of usage. A text is the list of its code points.
pub mod Pruning
pub mod Lines
pub mod Compressor
pub mod Measures
pub mod Smaller
pub mod Shared
pub mod Analyzer
pub mod Similarity
pub mod Service
pub mod Reports
pub mod Summary
pub mod Usage
use cca.Common.{
  ℕ, zero, suc, ◌+◌, ◌-◌, ◌*◌, ◌/◌, min, max, Bool, true, false, ◌&&◌, ◌||◌, List, [], ◌∷◌, ◌++◌,
  Option, none, some, F64, codes, if◌then◌else◌, ltb, leb, ◌==◌, add_u32, add_u64, u32_mod,
  ℕ_discrete, length, drop, any,
}
use cca.Common.Map
use cca.Common.Map.{Map}

abbrev pub Text : Type 0
Text = List ℕ

-- `char::is_whitespace`.
unfoldable pub is_whitespace : ℕ → Bool
is_whitespace c =
    (leb 9 c && leb c 13)
    || (c == 32)
    || (c == 133)
    || (c == 160)
    || (c == 5760)
    || (leb 8192 c && leb c 8202)
    || (c == 8232)
    || (c == 8233)
    || (c == 8239)
    || (c == 8287)
    || (c == 12288)

-- How many words start in a text, when the character before it is of a word or not.
unfoldable pub words_from : Bool → Text → ℕ
unfolding is_whitespace
words_from in_word [] = 0
words_from in_word (c ∷ cs) =
    let after_space = words_from false cs in
    let after_word = words_from true cs in
    if is_whitespace c then after_space else if in_word then after_word else suc after_word

-- `split_whitespace().count()`.
unfoldable pub words : Text → ℕ
unfolding words_from
words = words_from false

-- `len` in bytes of UTF-8.
unfoldable pub bytes : Text → ℕ
bytes [] = 0
bytes (c ∷ cs) =
    (if ltb c 128 then 1 else if ltb c 2048 then 2 else if ltb c 65536 then 3 else 4) + bytes cs

-- The casts to u32 saturate; the products are exact enough for their floors.
unfoldable pub count : Text → ℕ
unfolding words bytes
count [] = 0
count (c ∷ cs) =
    max
      (max (min (words (c ∷ cs) * 13 / 10) (u32_mod - 1)) (min (bytes (c ∷ cs) / 4) (u32_mod - 1)))
      1

pub record ConversationMessage : Type 0 where
  pub role : Text
  pub content : Text
  pub timestamp : Option ℕ

unfoldable pub count_message : ConversationMessage → ℕ
unfolding count
count_message m = add_u32 (add_u32 (count m.content) (count m.role)) 4

unfoldable pub count_conversation : List ConversationMessage → ℕ
unfolding count_message
count_conversation [] = 0
count_conversation (m ∷ ms) = add_u32 (count_message m) (count_conversation ms)

unfoldable pub same_text : Text → Text → Bool
same_text [] [] = true
same_text [] (d ∷ ds) = false
same_text (c ∷ cs) [] = false
same_text (c ∷ cs) (d ∷ ds) = (c == d) && same_text cs ds

abbrev pub system : Text
system = codes "system"

unfoldable pub is_system : ConversationMessage → Bool
unfolding same_text
is_system m = same_text m.role system

-- One round of the loop over the recent messages: what is kept so far, and its tokens.
unfoldable pub prune_one :
    ℕ → ConversationMessage → List ConversationMessage × ℕ → List ConversationMessage × ℕ
unfolding is_system count_message
prune_one max_tokens m (kept, current) =
    if is_system m && any is_system kept
    then (kept, current)
    else if leb (add_u32 current (count_message m)) max_tokens
    then (kept ++ m ∷ [], add_u32 current (count_message m))
    else (kept, current)

unfoldable pub prune_from :
    ℕ → List ConversationMessage → List ConversationMessage × ℕ → List ConversationMessage × ℕ
unfolding prune_one
prune_from max_tokens [] s = s
prune_from max_tokens (m ∷ ms) s = prune_from max_tokens ms (prune_one max_tokens m s)

-- The system message at the start of a conversation, whatever its size.
unfoldable pub opening : List ConversationMessage → List ConversationMessage × ℕ
unfolding is_system count_message
opening [] = ([], 0)
opening (m ∷ ms) = if is_system m then (m ∷ [], add_u32 0 (count_message m)) else ([], 0)

unfoldable pub prune_history : List ConversationMessage → ℕ → ℕ → List ConversationMessage
unfolding opening prune_from
prune_history messages max_tokens keep_recent =
    (prune_from max_tokens (drop (length messages - keep_recent) messages) (opening messages)).0

pub record TokenUsage : Type 0 where
  pub agent_id : ℕ
  pub input_tokens : ℕ
  pub output_tokens : ℕ
  pub total_tokens : ℕ
  pub context_tokens : ℕ
  pub timestamp : ℕ

pub record AgentTokenMetrics (F : Type 0) : Type 0 where
  pub total_input : ℕ
  pub total_output : ℕ
  pub total_context : ℕ
  pub message_count : ℕ
  pub avg_input_per_message : F
  pub avg_output_per_message : F
  pub peak_context_size : ℕ
  pub compression_savings : ℕ

pub record GlobalTokenMetrics (F : Type 0) : Type 0 where
  pub total_tokens_used : ℕ
  pub total_tokens_saved : ℕ
  pub compression_ratio : F
  pub agents_tracked : ℕ

pub record TokenMetrics (F : Type 0) : Type 0 where
  pub agent_metrics : Map ℕ (AgentTokenMetrics F)
  pub global_metrics : GlobalTokenMetrics F

module _ {F : Type 0} (fl : F64 F) where
  abbrev pub no_agent_metrics : AgentTokenMetrics F
  no_agent_metrics = record {
    total_input = 0;
    total_output = 0;
    total_context = 0;
    message_count = 0;
    avg_input_per_message = fl.decimal 0 0;
    avg_output_per_message = fl.decimal 0 0;
    peak_context_size = 0;
    compression_savings = 0;
  }

  unfoldable pub new : TokenMetrics F
  new = record {
    agent_metrics = [];
    global_metrics = record {
      total_tokens_used = 0;
      total_tokens_saved = 0;
      compression_ratio = fl.decimal 0 0;
      agents_tracked = 0;
    };
  }

  abbrev pub or_default : Option (AgentTokenMetrics F) → AgentTokenMetrics F
  or_default none = no_agent_metrics
  or_default (some a) = a

  unfoldable pub add_usage : TokenUsage → AgentTokenMetrics F → AgentTokenMetrics F
  add_usage u a =
      let total_in = add_u64 a.total_input u.input_tokens in
      let total_out = add_u64 a.total_output u.output_tokens in
      let n = add_u64 a.message_count 1 in
      record a {
        total_input = total_in;
        total_output = total_out;
        total_context = add_u64 a.total_context u.context_tokens;
        message_count = n;
        avg_input_per_message = fl.div (fl.of_nat total_in) (fl.of_nat n);
        avg_output_per_message = fl.div (fl.of_nat total_out) (fl.of_nat n);
        peak_context_size = max a.peak_context_size u.context_tokens;
      }

  -- `record`, whose name is a keyword here.
  unfoldable pub record_usage : TokenUsage → TokenMetrics F → TokenMetrics F
  unfolding add_usage
  record_usage u t =
      let old = or_default (Map.get ℕ_discrete u.agent_id t.agent_metrics) in
      let metrics = Map.insert ℕ_discrete u.agent_id (add_usage u old) t.agent_metrics in
      record {
        agent_metrics = metrics;
        global_metrics = record t.global_metrics {
          total_tokens_used = add_u64 t.global_metrics.total_tokens_used u.total_tokens;
          agents_tracked = length metrics;
        };
      }

  unfoldable pub save_globally : ℕ → GlobalTokenMetrics F → GlobalTokenMetrics F
  save_globally saved g =
      let total = add_u64 g.total_tokens_saved saved in
      let counted = record g { total_tokens_saved = total } in
      if ltb 0 g.total_tokens_used
      then record counted {
        compression_ratio =
            fl.div (fl.of_nat total) (fl.of_nat (add_u64 g.total_tokens_used total));
      }
      else counted

  unfoldable pub record_savings : ℕ → ℕ → TokenMetrics F → TokenMetrics F
  unfolding save_globally
  record_savings agent_id saved t = record {
    agent_metrics =
        Map.update ℕ_discrete agent_id
          (λ a. record a { compression_savings = add_u64 a.compression_savings saved })
          t.agent_metrics;
    global_metrics = save_globally saved t.global_metrics;
  }

  unfoldable pub get_agent_metrics : ℕ → TokenMetrics F → Option (AgentTokenMetrics F)
  get_agent_metrics agent_id t = Map.get ℕ_discrete agent_id t.agent_metrics
