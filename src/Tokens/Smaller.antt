-- ===== src/Tokens/Smaller.antt =====
-- The compression of code never raises the estimate of tokens (crates/cca-daemon/src/tokens.rs).
use cca.Common.{
  ℕ, suc, ◌+◌, ◌≤◌, ◌≡◌, refl, sym, ap, subst, ◌∙◌, inl, inr, Bool, true, false, ◌&&◌, ◌||◌, List,
  [], ◌∷◌, ◌++◌, if◌then◌else◌, if-elim, Bool-cases, arith, ◌==◌, ==_iff,
}
use cca.Tokens.{Text, is_whitespace, words_from, words, bytes, count}
use cca.Tokens.Lines.{
  newline, push_char, ends_line, lines, trim, trim_cons, trim_end, is_empty, starts_with,
}
use cca.Tokens.Compressor.{
  with_newlines, compress_lines, compress_code, fence, is_comment, trim_fences,
}
use cca.Tokens.Measures.{total, line_bytes, lines-bytes, with_newlines-bytes, bytes_pos, bytes-nil}

-- What is kept of some lines measures no more than all of them.
compress_lines-total :
    (f : Text → ℕ) (b : Bool) (lang : Text) (ls : List Text)
    → total f (compress_lines b lang ls) ≤ total f ls
unfolding compress_lines
compress_lines-total f b lang [] = omega arith
compress_lines-total f b lang (l ∷ ls) =
    let P = λ (r : List Text). total f r ≤ total f (l ∷ ls) in
    let Q = λ (r : List Text). total f (l ∷ r) ≤ total f (l ∷ ls) in
    let same = compress_lines-total f b lang ls in
    if-elim P (starts_with fence (trim l))
      (λ _.
        if-elim Q b (λ _. omega (arith, compress_lines-total f false lang ls))
          (λ _. omega (arith, compress_lines-total f true (trim_fences (trim l)) ls)))
      λ _.
        if-elim P (b && (is_comment lang (trim l) || is_empty (trim l))) (λ _. omega (arith, same))
          (λ _. omega (arith, same))

-- The words of a character and the text after it.
word_of : ℕ → Bool → (Bool → ℕ) → ℕ
unfolding is_whitespace
word_of c b rest = if is_whitespace c then rest false else if b then rest true else suc (rest true)

words_from-cons :
    (b : Bool) (c : ℕ) (cs : Text) → words_from b (c ∷ cs) ≡ word_of c b (λ k. words_from k cs)
unfolding words_from word_of
words_from-cons b c cs = refl

words_from-nil : (b : Bool) → words_from b [] ≡ 0
unfolding words_from
words_from-nil b = refl

word_of-space :
    (b : Bool) (c : ℕ) (rest : Bool → ℕ) → is_whitespace c ≡ true → word_of c b rest ≡ rest false
unfolding word_of
word_of-space b c rest e = rw e refl

trim_cons-words :
    (b : Bool) (c : ℕ) (cs : Text) → words_from b (trim_cons c cs) ≡ words_from b (c ∷ cs)
unfolding trim_cons is_empty
trim_cons-words b c [] = elim (Bool-cases (is_whitespace c)) [
  | inl e ↦ rw e (
      words_from-nil b
      ∙ sym (
          words_from-cons b c []
          ∙ word_of-space b c (λ k. words_from k []) e
          ∙ words_from-nil false))
  | inr e ↦ rw e refl
]
trim_cons-words b c (d ∷ ds) =
    if-elim (λ r. words_from b r ≡ words_from b (c ∷ d ∷ ds)) (is_whitespace c && false)
      (λ e. absurd (ground arith)) (λ e. refl)

word_of-eq :
    (b : Bool) (c : ℕ) (f g : Bool → ℕ)
    → f true ≡ g true
    → f false ≡ g false
    → word_of c b f ≡ word_of c b g
unfolding word_of
word_of-eq b c f g p q = rw (p, q) refl

trim_end-words : (b : Bool) (t : Text) → words_from b (trim_end t) ≡ words_from b t
unfolding trim_end
trim_end-words b [] = refl
trim_end-words b (c ∷ cs) =
    trim_cons-words b c (trim_end cs)
    ∙ words_from-cons b c (trim_end cs)
    ∙ word_of-eq b c (λ k. words_from k (trim_end cs)) (λ k. words_from k cs)
        (trim_end-words true cs) (trim_end-words false cs)
    ∙ sym (words_from-cons b c cs)

word_of-add :
    (b : Bool) (c : ℕ) (f : Bool → ℕ) (n : ℕ) → word_of c b (λ k. f k + n) ≡ word_of c b f + n
unfolding word_of
word_of-add true c f n = elim (Bool-cases (is_whitespace c)) [
  | inl e ↦ rw e refl
  | inr e ↦ rw e refl
]
word_of-add false c f n = elim (Bool-cases (is_whitespace c)) [
  | inl e ↦ rw e refl
  | inr e ↦ rw e (omega arith)
]

-- A newline ends a word.
newline-words : (b : Bool) (cs : Text) → words_from b (newline ∷ cs) ≡ words_from false cs
unfolding words_from
newline-words b cs = refl

append-words :
    (b : Bool) (l cs : Text)
    → words_from b (l ++ newline ∷ cs) ≡ words_from b l + words_from false cs
append-words b [] cs = newline-words b cs ∙ omega (arith, words_from-nil b)
append-words b (c ∷ l) cs =
    words_from-cons b c (l ++ newline ∷ cs)
    ∙ word_of-eq b c _ _ (append-words true l cs) (append-words false l cs)
    ∙ word_of-add b c (λ k. words_from k l) (words_from false cs)
    ∙ ap (λ n. n + words_from false cs) (sym (words_from-cons b c l))

with_newlines-words : (ls : List Text) → words_from false (with_newlines ls) ≡ total words ls
unfolding with_newlines words
with_newlines-words [] = words_from-nil false
with_newlines-words (l ∷ ls) =
    append-words false l (with_newlines ls)
    ∙ ap (λ n. words_from false l + n) (with_newlines-words ls)

-- The words of lines, where the first line starts inside a word or not.
abbrev lines_words : Bool → List Text → ℕ
lines_words b [] = 0
lines_words b (l ∷ ls) = words_from b l + total words ls

lines_words-false : (ls : List Text) → lines_words false ls ≡ total words ls
unfolding words
lines_words-false [] = refl
lines_words-false (l ∷ ls) = refl

push_char-words :
    (b : Bool) (c : ℕ) (ls : List Text)
    → lines_words b (push_char c ls) ≡ word_of c b (λ k. lines_words k ls)
unfolding push_char word_of
push_char-words b c [] =
    let e : words_from b (c ∷ []) ≡ word_of c b (λ k. lines_words k []) =
      words_from-cons b c []
      ∙ word_of-eq b c (λ k. words_from k []) (λ k. lines_words k []) (words_from-nil true)
          (words_from-nil false) in
    omega (arith, e)
push_char-words b c (l ∷ ls) =
    ap (λ n. n + total words ls) (words_from-cons b c l)
    ∙ sym (word_of-add b c (λ k. words_from k l) (total words ls))

return-words : (b : Bool) (cs : Text) → words_from b (13 ∷ cs) ≡ words_from false cs
unfolding words_from
return-words b cs = refl

ends_line-words :
    (b : Bool) (cs : Text) → ends_line cs ≡ true → words_from b cs ≡ words_from false cs
unfolding ends_line
ends_line-words b [] e = absurd (ground arith)
ends_line-words b (c ∷ cs) e =
    let at : newline ≡ c = ground (arith, (==_iff c newline).0) in
    subst (λ d. words_from b (d ∷ cs) ≡ words_from false (d ∷ cs)) at
      (newline-words b cs ∙ sym (newline-words false cs))

lines-words : (b : Bool) (cs : Text) → lines_words b (lines cs) ≡ words_from b cs
unfolding lines
lines-words b [] = sym (words_from-nil b)
lines-words b (c ∷ cs) =
    let P = λ (r : List Text). lines_words b r ≡ words_from b (c ∷ cs) in
    if-elim P (c == newline)
      (λ e.
        let at : newline ≡ c = ground (arith, (==_iff c newline).0) in
        let ended : words_from b (c ∷ cs) ≡ words_from false cs =
          subst (λ d. words_from b (d ∷ cs) ≡ words_from false cs) at (newline-words b cs) in
        omega (arith, ended, words_from-nil b, lines-words false cs, lines_words-false (lines cs)))
      λ e.
        if-elim P ((c == 13) && ends_line cs)
          (λ e'.
            let at : 13 ≡ c = ground (arith, (==_iff c 13).0) in
            let ended : ends_line cs ≡ true = ground arith in
            lines-words b cs
            ∙ ends_line-words b cs ended
            ∙ subst (λ d. words_from false cs ≡ words_from b (d ∷ cs)) at (sym (return-words b cs)))
          (λ e'.
            push_char-words b c (lines cs)
            ∙ word_of-eq b c _ _ (lines-words true cs) (lines-words false cs)
            ∙ sym (words_from-cons b c cs))

compress_code-words : (content : Text) → words (compress_code content) ≤ words content
unfolding compress_code words
compress_code-words content =
    let kept = compress_lines false [] (lines content) in
    omega (
      arith,
      trim_end-words false (with_newlines kept),
      with_newlines-words kept,
      compress_lines-total words false [] (lines content),
      lines_words-false (lines content),
      lines-words false content,
    )

compress_code-bytes : (content : Text) → bytes (compress_code content) ≤ bytes content
unfolding compress_code
compress_code-bytes content =
    let kept = compress_lines false [] (lines content) in
    omega (
      arith,
      with_newlines-bytes kept,
      compress_lines-total line_bytes false [] (lines content),
      lines-bytes content,
    )

count_mono : (a b : Text) → words a ≤ words b → bytes a ≤ bytes b → count a ≤ count b
unfolding count
count_mono [] b w h = omega arith
count_mono (c ∷ cs) [] w h = absurd (omega (arith, bytes_pos c cs, bytes-nil))
count_mono (c ∷ cs) (d ∷ ds) w h = omega arith

-- Compressed code is never estimated at more tokens than the text it was made from.
pub compress_code-count-le : (content : Text) → count (compress_code content) ≤ count content
compress_code-count-le content =
    count_mono (compress_code content) content (compress_code-words content)
      (compress_code-bytes content)
