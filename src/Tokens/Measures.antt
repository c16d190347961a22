-- ===== src/Tokens/Measures.antt =====
-- The words and bytes of a text and of its lines (crates/cca-daemon/src/tokens.rs).
use cca.Common.{ℕ, ◌+◌, ◌-◌, ◌≤◌, ◌<◌, ◌≡◌, refl, ◌&&◌, List, [], ◌∷◌, ◌++◌, if-elim, arith, ◌==◌}
use cca.Tokens.{Text, is_whitespace, bytes}
use cca.Tokens.Lines.{newline, push_char, ends_line, lines, trim_cons, trim_end, is_empty}
use cca.Tokens.Compressor.{with_newlines}

-- The sum of a measure over lines.
abbrev pub total : (Text → ℕ) → List Text → ℕ
total f [] = 0
total f (l ∷ ls) = f l + total f ls

pub bytes_pos : (c : ℕ) (cs : Text) → 0 < bytes (c ∷ cs)
unfolding bytes
bytes_pos c cs = ground arith

pub bytes-cons : (c : ℕ) (cs : Text) → bytes (c ∷ cs) ≡ bytes (c ∷ []) + bytes cs
unfolding bytes
bytes-cons c cs = omega arith

-- A line with the newline that ends it.
abbrev pub line_bytes : Text → ℕ
line_bytes l = bytes l + 1

push_char-bytes :
    (c : ℕ) (cs : Text) (ls : List Text)
    → total line_bytes ls ≤ bytes cs + 1
    → total line_bytes (push_char c ls) ≤ bytes (c ∷ cs) + 1
unfolding push_char
push_char-bytes c cs [] h = omega (arith, bytes-cons c cs)
push_char-bytes c cs (l ∷ ls) h = omega (arith, h, bytes-cons c cs, bytes-cons c l)

pub bytes-nil : bytes [] ≡ 0
unfolding bytes
bytes-nil = refl

pub lines-bytes : (cs : Text) → total line_bytes (lines cs) ≤ bytes cs + 1
unfolding lines
lines-bytes [] = omega arith
lines-bytes (c ∷ cs) =
    let P = λ (r : List Text). total line_bytes r ≤ bytes (c ∷ cs) + 1 in
    let ih = lines-bytes cs in
    if-elim P (c == newline) (λ e. omega (arith, ih, bytes_pos c [], bytes-cons c cs, bytes-nil))
      λ e.
        if-elim P ((c == 13) && ends_line cs) (λ e'. omega (arith, ih, bytes-cons c cs))
          (λ e'. push_char-bytes c cs (lines cs) ih)

trim_cons-bytes : (c : ℕ) (cs : Text) → bytes (trim_cons c cs) ≤ bytes (c ∷ []) + bytes cs
unfolding trim_cons
trim_cons-bytes c cs =
    if-elim (λ r. bytes r ≤ bytes (c ∷ []) + bytes cs) (is_whitespace c && is_empty cs)
      (λ e. omega (arith, bytes-nil)) (λ e. omega (arith, bytes-cons c cs))

trim_end-append : (l t : Text) → bytes (trim_end (l ++ t)) ≤ bytes l + bytes (trim_end t)
unfolding trim_end
trim_end-append [] t = omega arith
trim_end-append (c ∷ l) t =
    omega (arith, trim_cons-bytes c (trim_end (l ++ t)), trim_end-append l t, bytes-cons c l)

newline-bytes : (t : Text) (n : ℕ) → bytes t ≤ n - 1 → bytes (trim_cons newline t) ≤ n
unfolding trim_cons bytes
newline-bytes [] n h = omega arith
newline-bytes (c ∷ cs) n h = ground (arith, bytes_pos c cs)

pub with_newlines-bytes :
    (ls : List Text) → bytes (trim_end (with_newlines ls)) ≤ total line_bytes ls - 1
unfolding with_newlines trim_end
with_newlines-bytes [] = omega (arith, bytes-nil)
with_newlines-bytes (l ∷ ls) = omega (
  arith,
  trim_end-append l (newline ∷ with_newlines ls),
  newline-bytes (trim_end (with_newlines ls)) (total line_bytes ls) (with_newlines-bytes ls),
)
