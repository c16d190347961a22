-- ===== src/Tests/Contexts.antt =====
-- Contexts of agents, messages, paths and chunks of code: concrete texts.
use cca.Common.{
  ℕ, ◌+◌, ◌≤◌, ◌<◌, ◌≡◌, ◌↔◌, true, false, List, [], ◌∷◌, Option, none, some, arith, codes, Has,
  u64_mod,
}
use cca.Tokens.{Text, TokenMetrics, bytes, count, new}
use cca.Tokens
use cca.Tokens.Compressor.{compress_code}
use cca.Tokens.Analyzer.{compare}
use cca.Tokens.Service.{process_context}
use cca.Tokens.Smaller.{compress_code-count-le}
use cca.Tokens.Reports.{process_context-accounts}
use cca.Tokens.Similarity.{compare-similarity_comm}
use cca.Daemon.Sanitizer.{is_allowed, sanitize_broadcast_message}
use cca.Daemon.Sanitizer.Safety.{longest_run, sanitize_broadcast_message-safe}
use cca.Validation.{ok, validate_path}
use cca.Validation.Paths.{StandsIn, validate_path_iff}
use cca.Indexing.{CodeChunk, Indexer}
use cca.Tests.Fixtures.{fl}

abbrev code : Text
code = codes "fn f() {\n  // nothing\n\n}\n"

compress_code-count-le_example : count (compress_code code) ≤ count code
compress_code-count-le_example = compress_code-count-le code

abbrev same_case : Text → Text
same_case t = t

no_savings : (new fl).global_metrics.total_tokens_saved + count (codes "fn f") < u64_mod
unfolding new count Tokens.words Tokens.words_from Tokens.is_whitespace bytes
no_savings = omega arith

process_context-accounts_example :
    let (p, t) = process_context fl same_case 1 (codes "fn f") true (new fl) in
    (p.original_tokens ≡ count (codes "fn f"))
    × (p.final_tokens ≡ count p.content)
    × (p.final_tokens + p.tokens_saved ≡ p.original_tokens)
    × (t.global_metrics.total_tokens_saved
        ≡ (new fl).global_metrics.total_tokens_saved + p.tokens_saved)
process_context-accounts_example =
    process_context-accounts fl same_case 1 (codes "fn f") true (new fl) no_savings

abbrev shared : Text
shared = codes "use std\nfn g"

compare-similarity_comm_example :
    (compare fl 2 code shared).similarity ≡ (compare fl 2 shared code).similarity
compare-similarity_comm_example = compare-similarity_comm fl 2 code shared

abbrev spoken : Text
spoken = codes "hello\n\n\n\nworld\n"

sanitize_broadcast_message-safe_example :
    ((c : ℕ) → Has c (sanitize_broadcast_message spoken) → is_allowed c ≡ true)
    × (longest_run 0 (sanitize_broadcast_message spoken) ≤ 2)
sanitize_broadcast_message-safe_example = sanitize_broadcast_message-safe spoken

validate_path_iff_example :
    (validate_path (codes "/a..b") ≡ ok)
    ↔ ((¬ StandsIn (codes "..") (codes "/a..b")) × ((rest : Text) × (codes "/a..b" ≡ b'/' ∷ rest)))
validate_path_iff_example = validate_path_iff (codes "/a..b")

-- Each file has one chunk, whose content is the text of its path; a file without a name does not parse.
abbrev chunk : Text → CodeChunk
chunk file = record {
  file_path = file;
  chunk_type = codes "function";
  name = codes "f";
  signature = none;
  content = codes "fn f";
}

abbrev parse : Text → Option (List CodeChunk)
parse [] = none
parse (c ∷ cs) = some (chunk (c ∷ cs) ∷ [])

abbrev indexer : Indexer ℕ
indexer = record {
  parse_file = parse;
  embed_batch = λ ts. none;
  upsert = λ c v. true;
  is_cancelled = λ n. false;
  update_progress = λ a b c d. true;
  complete = λ success errors. true;
}
