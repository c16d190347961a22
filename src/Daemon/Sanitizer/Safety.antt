-- ===== src/Daemon/Sanitizer/Safety.antt =====
-- What a sanitized message contains (crates/cca-daemon/src/daemon.rs).
use cca.Common.{
  ℕ, ◌+◌, ◌≤◌, ◌≡◌, inl, inr, true, ◌&&◌, [], ◌∷◌, if◌then◌else◌, if-elim, leb, leb→le, ◌==◌, min,
  max, arith, keep_if, Has, Has-keep_if,
}
use cca.Tokens.{Text, is_whitespace}
use cca.Tokens.Lines.{newline, trim, trim_start, trim_end, trim_cons, is_empty}
use cca.Daemon.Sanitizer.{is_allowed, collapse, sanitize_broadcast_message}

Has-trim_cons : (a c : ℕ) (cs : Text) → Has a (trim_cons c cs) → Has a (c ∷ cs)
unfolding trim_cons
Has-trim_cons a c cs =
    if-elim (λ r. Has a r → Has a (c ∷ cs)) (is_whitespace c && is_empty cs) (λ _ h. absurd h)
      (λ _ h. h)

pub Has-trim_end : (a : ℕ) (t : Text) → Has a (trim_end t) → Has a t
unfolding trim_end
Has-trim_end a [] h = h
Has-trim_end a (c ∷ cs) h = elim (Has-trim_cons a c (trim_end cs) h) [
  | inl e ↦ inl e
  | inr h' ↦ inr (Has-trim_end a cs h')
]

pub Has-trim_start : (a : ℕ) (t : Text) → Has a (trim_start t) → Has a t
unfolding trim_start
Has-trim_start a [] = λ h. h
Has-trim_start a (c ∷ cs) =
    if-elim (λ r. Has a r → Has a (c ∷ cs)) (is_whitespace c) (λ _ h. inr (Has-trim_start a cs h))
      (λ _ h. h)

Has-collapse : (a n : ℕ) (t : Text) → Has a (collapse n t) → Has a t
unfolding collapse
Has-collapse a n [] = λ h. h
Has-collapse a n (c ∷ cs) =
    let Q = λ (r : Text). Has a r → Has a (c ∷ cs) in
    let keep = λ (k : ℕ) (h : Has a (c ∷ collapse k cs)).
      let all : Has a (c ∷ cs) = elim h [ inl e ↦ inl e | inr h' ↦ inr (Has-collapse a k cs h') ] in
      all in
    if-elim Q (c == newline)
      (λ _.
        if-elim Q (leb (n + 1) 2) (λ _. keep (n + 1)) (λ _ h. inr (Has-collapse a (n + 1) cs h)))
      (λ _. keep 0)

-- The longest run of newlines, where a text follows this many.
abbrev pub longest_run : ℕ → Text → ℕ
longest_run n [] = 0
longest_run n (c ∷ cs) =
    let more = max (n + 1) (longest_run (n + 1) cs) in
    let other = longest_run 0 cs in if c == newline then more else other

collapse-run : (n : ℕ) (t : Text) → longest_run (min n 2) (collapse n t) ≤ 2
unfolding collapse
collapse-run n [] = omega arith
collapse-run n (c ∷ cs) =
    let P = λ (r : Text). longest_run (min n 2) r ≤ 2 in
    if-elim P (c == newline)
      (λ at.
        if-elim P (leb (n + 1) 2)
          (λ few.
            let next : min n 2 + 1 ≡ min (n + 1) 2 = omega (arith, leb→le (n + 1) 2 few) in
            rw (at, next) (omega (arith, leb→le (n + 1) 2 few, collapse-run (n + 1) cs)))
          (λ many.
            let next : min n 2 ≡ min (n + 1) 2 = ground arith in rw next (collapse-run (n + 1) cs)))
      (λ other. rw other (collapse-run 0 cs))

-- No character of a sanitized message is a control character but newlines, tabs and carriage returns,
-- and there are never more than two newlines in a row.
pub sanitize_broadcast_message-safe :
    (message : Text)
    → ((c : ℕ) → Has c (sanitize_broadcast_message message) → is_allowed c ≡ true)
      × (longest_run 0 (sanitize_broadcast_message message) ≤ 2)
unfolding sanitize_broadcast_message trim
sanitize_broadcast_message-safe message = (
  λ c h.
      (Has-keep_if is_allowed c message
        (Has-trim_end c _ (Has-trim_start c _ (Has-collapse c 0 _ h)))).1,
  collapse-run 0 (trim (keep_if is_allowed message)),
)
