-- ===== src/Tokens/Lines.antt =====
-- What crates/cca-daemon/src/tokens.rs uses of `str`: lines, trimming, prefixes and matches.
use cca.Common.{
  ℕ, zero, suc, ◌-◌, Bool, true, false, ◌&&◌, List, [], ◌∷◌, ◌++◌, if◌then◌else◌, ◌==◌, length, any,
}
use cca.Tokens.{Text, is_whitespace, same_text}

abbrev pub newline : ℕ
newline = 10

unfoldable pub is_empty {ℓ} : {A : Type ℓ} → List A → Bool
is_empty [] = true
is_empty (x ∷ xs) = false

-- A character in front of the first line.
unfoldable pub push_char : ℕ → List Text → List Text
push_char c [] = (c ∷ []) ∷ []
push_char c (l ∷ ls) = (c ∷ l) ∷ ls

unfoldable pub ends_line : Text → Bool
ends_line [] = false
ends_line (c ∷ cs) = c == newline

-- `lines`: a line ends with a newline, which a carriage return may precede, or with the text.
unfoldable pub lines : Text → List Text
unfolding push_char ends_line
lines [] = []
lines (c ∷ cs) =
    let rest = lines cs in
    if c == newline then [] ∷ rest else if (c == 13) && ends_line cs then rest else push_char c rest

unfoldable pub trim_start : Text → Text
unfolding is_whitespace
trim_start [] = []
trim_start (c ∷ cs) = let rest = trim_start cs in if is_whitespace c then rest else c ∷ cs

-- A character in front of a text whose end is trimmed.
unfoldable pub trim_cons : ℕ → Text → Text
unfolding is_whitespace is_empty
trim_cons c cs = if is_whitespace c && is_empty cs then [] else c ∷ cs

unfoldable pub trim_end : Text → Text
unfolding trim_cons
trim_end [] = []
trim_end (c ∷ cs) = trim_cons c (trim_end cs)

unfoldable pub trim : Text → Text
unfolding trim_start trim_end
trim t = trim_start (trim_end t)

unfoldable pub starts_with : Text → Text → Bool
starts_with [] t = true
starts_with (p ∷ ps) [] = false
starts_with (p ∷ ps) (c ∷ cs) = (p == c) && starts_with ps cs

-- `matches(p).count()` of a pattern that is not empty: the matches do not overlap, and the number is
-- how many characters of the last one are still to pass.
unfoldable pub matches_after : ℕ → Text → Text → ℕ
unfolding starts_with
matches_after n p [] = 0
matches_after (suc n) p (c ∷ cs) = matches_after n p cs
matches_after zero p (c ∷ cs) =
    let found = suc (matches_after (length p - 1) p cs) in
    let next = matches_after 0 p cs in if starts_with p (c ∷ cs) then found else next

unfoldable pub matches : Text → Text → ℕ
unfolding matches_after
matches = matches_after 0

unfoldable pub contains_text : Text → List Text → Bool
unfolding same_text any
contains_text t = any (same_text t)

-- `join`.
unfoldable pub join : Text → List Text → Text
join sep [] = []
join sep (l ∷ []) = l
join sep (l ∷ k ∷ ls) = l ++ sep ++ join sep (k ∷ ls)

-- The words of a text, and what is read of the word that is going on.
unfoldable pub split_from : Text → Text → List Text
unfolding is_whitespace is_empty
split_from word [] = if is_empty word then [] else word ∷ []
split_from word (c ∷ cs) =
    let after = split_from [] cs in
    let longer = split_from (word ++ c ∷ []) cs in
    if is_whitespace c then if is_empty word then after else word ∷ after else longer

-- `split_whitespace`.
unfoldable pub split_whitespace : Text → List Text
unfolding split_from
split_whitespace = split_from []
