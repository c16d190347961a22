-- ===== src/Tokens/Compressor.antt =====
-- `ContextCompressor` of crates/cca-daemon/src/tokens.rs: `summarize`, `deduplicate` and
-- `compress_code`.
use cca.Common.{
  ℕ, ◌-◌, ◌/◌, Bool, true, false, not, ◌&&◌, ◌||◌, List, [], ◌∷◌, ◌++◌, map, F64, codes,
  if◌then◌else◌, leb, ◌==◌, length, take, keep_if,
}
use mathlib.Core.List.{reverse}
use cca.Tokens.{Text}
use cca.Tokens.Lines.{newline, is_empty, lines, trim_end, trim, starts_with, contains_text, join}

-- How many lines are kept: `(lines.len() as f64 * (1.0 - target_reduction)) as usize`.
unfoldable pub keep_lines : {F : Type 0} → F64 F → F → ℕ → ℕ
keep_lines fl target_reduction n =
    fl.to_nat (fl.mul (fl.of_nat n) (fl.sub (fl.decimal 1 0) target_reduction))

abbrev pub marker : Text
marker = codes "... [content summarized] ..."

unfoldable pub summary_of : ℕ → List Text → List Text
summary_of kept ls =
    let keep_start = kept / 2 in
    take keep_start ls ++ marker ∷ reverse (take (kept - keep_start) (reverse ls))

unfoldable pub summarize : {F : Type 0} → F64 F → Text → F → Text
unfolding keep_lines summary_of lines join
summarize fl content target_reduction =
    let ls = lines content in
    if leb (length ls) 5
    then content
    else join (newline ∷ []) (summary_of (keep_lines fl target_reduction (length ls)) ls)

-- The set of the trimmed lines of a context, as a list.
unfoldable pub trimmed_lines : Text → List Text
unfolding lines trim is_empty keep_if
trimmed_lines ctx = keep_if (λ l. not (is_empty l)) (map trim (lines ctx))

unfoldable pub intersect_all : List Text → List Text → List Text
unfolding trimmed_lines contains_text keep_if
intersect_all common [] = common
intersect_all common (ctx ∷ rest) =
    intersect_all (keep_if (λ l. contains_text l (trimmed_lines ctx)) common) rest

-- The lines of a context that are not common.
unfoldable pub own_lines : List Text → Text → List Text
unfolding lines trim contains_text keep_if
own_lines common ctx = keep_if (λ line. not (contains_text (trim line) common)) (lines ctx)

abbrev pub see_above : Text
see_above = codes "[See shared context above]"

unfoldable pub without_common : List Text → Text → Text
unfolding own_lines is_empty join
without_common common ctx =
    let deduped = own_lines common ctx in
    if is_empty deduped then see_above else join (newline ∷ []) deduped

unfoldable pub deduplicate : List Text → List Text
unfolding intersect_all without_common trimmed_lines
deduplicate [] = []
deduplicate (ctx ∷ []) = ctx ∷ []
deduplicate (ctx ∷ next ∷ rest) =
    let common = intersect_all (trimmed_lines ctx) (next ∷ rest) in
    ctx ∷ map (without_common common) (next ∷ rest)

abbrev pub fence : Text
fence = codes "```"

-- `trim_start_matches("```")`.
unfoldable pub trim_fences : Text → Text
trim_fences [] = []
trim_fences (a ∷ []) = a ∷ []
trim_fences (a ∷ b ∷ []) = a ∷ b ∷ []
trim_fences (a ∷ b ∷ c ∷ cs) =
    let rest = trim_fences cs in
    if (a == b'`') && (b == b'`') && (c == b'`') then rest else a ∷ b ∷ c ∷ cs

abbrev pub slash_languages : List Text
slash_languages =
    map codes ("rust" ∷ "javascript" ∷ "typescript" ∷ "java" ∷ "c" ∷ "cpp" ∷ "go" ∷ [])

abbrev pub hash_languages : List Text
hash_languages = map codes ("python" ∷ "ruby" ∷ "shell" ∷ "bash" ∷ [])

unfoldable pub is_comment : Text → Text → Bool
unfolding contains_text starts_with
is_comment code_lang trimmed =
    if contains_text code_lang slash_languages
    then starts_with (codes "//") trimmed
    else if contains_text code_lang hash_languages
    then starts_with (codes "#") trimmed && not (starts_with (codes "#!") trimmed)
    else false

-- The lines that are pushed, from a line on that stands in a code block or not.
unfoldable pub compress_lines : Bool → Text → List Text → List Text
unfolding is_comment trim is_empty starts_with trim_fences
compress_lines in_code_block code_lang [] = []
compress_lines in_code_block code_lang (line ∷ ls) =
    let opened = compress_lines true (trim_fences (trim line)) ls in
    let closed = compress_lines false code_lang ls in
    let same = compress_lines in_code_block code_lang ls in
    if starts_with fence (trim line)
    then line ∷ (if in_code_block then closed else opened)
    else if in_code_block && (is_comment code_lang (trim line) || is_empty (trim line))
    then same
    else line ∷ same

-- Each line with the newline that is pushed after it.
unfoldable pub with_newlines : List Text → Text
with_newlines [] = []
with_newlines (l ∷ ls) = l ++ newline ∷ with_newlines ls

unfoldable pub compress_code : Text → Text
unfolding compress_lines with_newlines trim_end lines
compress_code content = trim_end (with_newlines (compress_lines false [] (lines content)))
