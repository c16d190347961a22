-- ===== src/Tokens/Summary.antt =====
-- What `summarize` keeps (crates/cca-daemon/src/tokens.rs).
use mathlib.Core.List.{reverse, reverse-cons, reverse-reverse}
use cca.Common.{
  ℕ, zero, suc, ◌-◌, ◌/◌, ◌≤◌, ◌<◌, ◌≡◌, refl, sym, ap, ◌∙◌, List, [], ◌∷◌, ◌++◌, F64, arith,
  length, take, drop, length-append, if-elim, leb, leb→le, dec_lt,
}
use cca.Tokens.{Text}
use cca.Tokens.Lines.{lines, join, newline}
use cca.Tokens.Compressor.{summarize, summary_of, keep_lines, marker}

module _ {A : Type 0} where
  take-append_le : (n : ℕ) (xs ys : List A) → n ≤ length xs → take n (xs ++ ys) ≡ take n xs
  take-append_le zero xs ys h = refl
  take-append_le (suc n) [] ys h = absurd (omega arith)
  take-append_le (suc n) (x ∷ xs) ys h = ap (λ r. x ∷ r) (take-append_le n xs ys (omega arith))

  take_all : (n : ℕ) (xs : List A) → length xs ≤ n → take n xs ≡ xs
  take_all zero [] h = refl
  take_all zero (x ∷ xs) h = absurd (omega arith)
  take_all (suc n) [] h = refl
  take_all (suc n) (x ∷ xs) h = ap (λ r. x ∷ r) (take_all n xs (omega arith))

  length-reverse : (xs : List A) → length (reverse xs) ≡ length xs
  length-reverse [] = refl
  length-reverse (x ∷ xs) =
      ap length (reverse-cons x xs)
      ∙ length-append (reverse xs) (x ∷ [])
      ∙ omega (arith, length-reverse xs)

  drop_at : (n : ℕ) (xs : List A) (k : ℕ) → k ≡ suc n → (x : A) → drop k (x ∷ xs) ≡ drop n xs
  drop_at n xs k e x = rw e refl

  drop_none : (k : ℕ) (xs : List A) → k ≡ 0 → drop k xs ≡ xs
  drop_none k xs e = rw e refl

  -- `rev().take(n).rev()` are the last n.
  last_lem : (n : ℕ) (xs : List A) → reverse (take n (reverse xs)) ≡ drop (length xs - n) xs
  last_lem zero [] = refl
  last_lem (suc n) [] = sym (drop_none (0 - suc n) [] (omega arith))
  last_lem n (x ∷ xs) = elim (dec_lt (length xs) n) [
    | yes more ↦
        ap reverse (take_all n (reverse (x ∷ xs)) (omega (arith, length-reverse (x ∷ xs))))
        ∙ reverse-reverse (x ∷ xs)
        ∙ sym (drop_none (suc (length xs) - n) (x ∷ xs) (omega arith))
    | no few ↦
        ap (λ r. reverse (take n r)) (reverse-cons x xs)
        ∙ ap reverse (take-append_le n (reverse xs) (x ∷ []) (omega (arith, length-reverse xs)))
        ∙ last_lem n xs
        ∙ sym (drop_at (length xs - n) xs (suc (length xs) - n) (omega arith) x)
  ]

-- A content of at most five lines is left as it is. Of a longer one, where `keep_lines` lines are to
-- be kept, there remain the first half of that number, a marker, and as many of the last lines as
-- the rest of it.
pub summarize-keeps :
    {F : Type 0} (fl : F64 F) (content : Text) (target_reduction : F)
    → let ls = lines content in
      let kept = keep_lines fl target_reduction (length ls) in
      (length ls ≤ 5 → summarize fl content target_reduction ≡ content)
      × (5 < length ls
          → summarize fl content target_reduction
            ≡ join
                (newline ∷ [])
                (take (kept / 2) ls ++ marker ∷ drop (length ls - (kept - kept / 2)) ls))
unfolding summarize summary_of
summarize-keeps fl content target_reduction =
    let ls = lines content in
    let kept = keep_lines fl target_reduction (length ls) in
    (
      (λ few. ground arith),
      λ many.
          if-elim
            (λ r.
              r
              ≡ join (newline ∷ [])
                  (take (kept / 2) ls ++ marker ∷ drop (length ls - (kept - kept / 2)) ls))
            (leb (length ls) 5) (λ e. absurd (omega (arith, leb→le (length ls) 5 e)))
            (λ e.
              ap (λ r. join (newline ∷ []) (take (kept / 2) ls ++ marker ∷ r))
                (last_lem (kept - kept / 2) ls)),
    )
