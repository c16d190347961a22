-- ===== src/Tokens/Analyzer.antt =====
-- `ContextAnalyzer` of crates/cca-daemon/src/tokens.rs. A hash set is the list of its elements, each
-- once.
use cca.Common.{
  ℕ, zero, suc, ◌+◌, ◌-◌, ◌*◌, ◌/◌, ◌%◌, max, Bool, true, false, not, ◌||◌, List, [], ◌∷◌, ◌++◌,
  map, Option, none, some, F64, codes, if◌then◌else◌, ltb, leb, ◌==◌, add_u32, u32_mod, length,
  keep_if, any, Bool-cases, inl, inr, refl, ◌≡◌, sym, ap,
}
use cca.Common.Map
use cca.Common.Map.{Map}
use cca.Tokens.{Text, count, bytes}
use cca.Tokens.Lines.{lines, trim, is_empty, matches, contains_text, join, split_whitespace}
use cca.Tokens.Compressor.{fence, trimmed_lines}
use cca.Tokens.Shared.{Text_discrete}

pub record RedundancyResult (F : Type 0) : Type 0 where
  pub similarity : F
  pub common_content : List Text
  pub potential_savings : ℕ

pub record CompressibilityFactors (F : Type 0) : Type 0 where
  pub repetition_ratio : F
  pub verbosity_score : F
  pub structural_overhead : F

pub record ContextAnalysis (F : Type 0) : Type 0 where
  pub total_tokens : ℕ
  pub repeated_tokens : ℕ
  pub repeated_lines : List (Text × ℕ)
  pub code_block_count : ℕ
  pub long_line_count : ℕ
  pub compression_potential : F

-- `collect` into a hash set.
unfoldable pub as_set : List Text → List Text
unfolding contains_text
as_set [] = []
as_set (t ∷ ts) = let rest = as_set ts in if contains_text t ts then rest else t ∷ rest

-- The lines of a text that are not blank, with how often each stands there.
abbrev pub or_zero : Option ℕ → ℕ
or_zero none = 0
or_zero (some n) = n

unfoldable pub count_lines : List Text → Map Text ℕ → Map Text ℕ
unfolding trim is_empty Text_discrete
count_lines [] m = m
count_lines (l ∷ ls) m =
    let k = trim l in
    count_lines ls (
      if is_empty k
      then m
      else Map.insert Text_discrete k (or_zero (Map.get Text_discrete k m) + 1) m)

-- The tokens of the repetitions of a line.
unfoldable pub repetitions : List (Text × ℕ) → ℕ
unfolding count
repetitions [] = 0
repetitions ((line, n) ∷ rest) =
    add_u32 (count line * ((n % u32_mod + u32_mod - 1) % u32_mod) % u32_mod) (repetitions rest)

-- How many of these lines are seen for the first time.
unfoldable pub unique_lines : List Text → List Text → ℕ
unfolding trim contains_text
unique_lines seen [] = 0
unique_lines seen (l ∷ ls) =
    let again = unique_lines seen ls in
    let first = suc (unique_lines (trim l ∷ seen) ls) in
    if contains_text (trim l) seen then again else first

abbrev pub filler_words : List Text
filler_words = map codes (
    "basically" ∷ "essentially" ∷ "actually" ∷ "just" ∷ "simply" ∷ "obviously" ∷ "clearly"
    ∷ "of course" ∷ "as you can see" ∷ [])

unfoldable pub filler_count : Text → List Text → ℕ
unfolding matches
filler_count lowercase [] = 0
filler_count lowercase (w ∷ ws) = matches w lowercase + filler_count lowercase ws

unfoldable pub is_structural : ℕ → Bool
is_structural c = (c == b'#') || (c == b'-') || (c == b'=') || (c == b'*') || (c == b'|')

-- `windows(n)`.
unfoldable pub windows : ℕ → List Text → List (List Text)
windows n [] = []
windows n (t ∷ ts) =
    let rest = windows n ts in
    if leb n (length (t ∷ ts)) then cca.Common.take n (t ∷ ts) ∷ rest else rest

unfoldable pub extract_ngrams : ℕ → Text → List Text
unfolding split_whitespace windows join as_set
extract_ngrams ngram_size text =
    let ws = split_whitespace text in
    if leb ngram_size (length ws)
    then as_set (map (join (codes " ")) (windows ngram_size ws))
    else []

unfoldable pub intersection : List Text → List Text → List Text
unfolding keep_if contains_text
intersection a b = keep_if (λ t. contains_text t b) a

unfoldable pub tokens_of_all : List Text → ℕ
unfolding count
tokens_of_all [] = 0
tokens_of_all (t ∷ ts) = add_u32 (count t) (tokens_of_all ts)

-- `to_lowercase` is a parameter: the tables of Unicode are not written out.
module _ {F : Type 0} (fl : F64 F) (to_lowercase : Text → Text) where
  unfoldable pub analyze_compressibility : Text → CompressibilityFactors F
  unfolding lines unique_lines filler_count bytes is_structural keep_if
  analyze_compressibility content =
      let ls = lines content in
      let total_lines = max (length ls) 1 in
      let size = fl.of_nat (bytes content) in
      let fillers = filler_count (to_lowercase content) filler_words in
      let structural_chars = length (keep_if is_structural content) in
      record {
        repetition_ratio =
            fl.sub (fl.decimal 1 0)
              (fl.div (fl.of_nat (unique_lines [] ls)) (fl.of_nat total_lines));
        verbosity_score =
            fl.fmin (fl.div (fl.of_nat fillers) (fl.div size (fl.decimal 100 0))) (fl.decimal 1 0);
        structural_overhead = fl.fmin (fl.div (fl.of_nat structural_chars) size) (fl.decimal 3 1);
      }

  unfoldable pub estimate_compression_potential : Text → F
  unfolding count analyze_compressibility
  estimate_compression_potential content =
      if fl.eq (fl.of_nat (count content)) (fl.decimal 0 0)
      then fl.decimal 0 0
      else (let analysis = analyze_compressibility content in
          fl.fmin
            (fl.add
              (fl.add (fl.mul analysis.repetition_ratio (fl.decimal 4 1))
                (fl.mul analysis.verbosity_score (fl.decimal 3 1)))
              (fl.mul analysis.structural_overhead (fl.decimal 3 1)))
            (fl.decimal 5 1))

  unfoldable pub analyze : Text → ContextAnalysis F
  unfolding count lines count_lines keep_if repetitions matches bytes estimate_compression_potential
  analyze content =
      let ls = lines content in
      let repeated = keep_if (λ e. ltb 1 e.1) (count_lines ls []) in
      record {
        total_tokens = count content;
        repeated_tokens = repetitions repeated;
        repeated_lines = repeated;
        code_block_count = matches fence content / 2;
        long_line_count = length (keep_if (λ l. ltb 200 (bytes l)) ls);
        compression_potential = estimate_compression_potential content;
      }

unfoldable pub compare : {F : Type 0} → F64 F → ℕ → Text → Text → RedundancyResult F
unfolding extract_ngrams intersection as_set trimmed_lines tokens_of_all
compare fl ngram_size context_a context_b =
    let ngrams_a = extract_ngrams ngram_size context_a in
    let ngrams_b = extract_ngrams ngram_size context_b in
    let common = length (intersection ngrams_a ngrams_b) in
    let union = length ngrams_a + length ngrams_b - common in
    let content =
      intersection (as_set (trimmed_lines context_a)) (as_set (trimmed_lines context_b)) in
    record {
      similarity =
          if ltb 0 union then fl.div (fl.of_nat common) (fl.of_nat union) else fl.decimal 0 0;
      common_content = content;
      potential_savings = tokens_of_all content;
    }
