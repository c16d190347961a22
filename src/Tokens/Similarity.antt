-- ===== src/Tokens/Similarity.antt =====
-- The similarity of two contexts does not depend on their order (crates/cca-daemon/src/tokens.rs).
use cca.Common.{
  ℕ, ◌+◌, ◌-◌, ◌≡◌, refl, sym, ap, subst, ◌∙◌, inl, inr, Bool, true, false, List, [], ◌∷◌, map,
  arith, any, Bool-cases, length, F64, if-elim, leb, codes,
}
use cca.Tokens.{Text, same_text}
use cca.Tokens.Lines.{contains_text, split_whitespace, join}
use cca.Tokens.Shared.{same_text_refl, same_text_sound}
use cca.Tokens.Analyzer.{as_set, windows, extract_ngrams, intersection, compare}

-- No text twice.
abbrev IsSetList : List Text → Type 0
IsSetList [] = Unit {0}
IsSetList (t ∷ ts) = (contains_text t ts ≡ false) × IsSetList ts

contains_text-as_set :
    (t : Text) (ts : List Text) → contains_text t (as_set ts) ≡ contains_text t ts
unfolding as_set contains_text
contains_text-as_set t [] = refl
contains_text-as_set t (x ∷ xs) =
    let ih : any (same_text t) (as_set xs) ≡ any (same_text t) xs = contains_text-as_set t xs in
    elim (Bool-cases (any (same_text x) xs)) [
      | inl e ↦ rw e (elim (Bool-cases (same_text t x)) [
        | inl p ↦
            let here : any (same_text t) xs ≡ true = rw (same_text_sound t x p) e in rw (p, ih) here
        | inr p ↦ rw (p, ih) refl
      ])
      | inr e ↦ rw (e, ih) refl
    ]

as_set-IsSetList : (ts : List Text) → IsSetList (as_set ts)
unfolding as_set
as_set-IsSetList [] = tt
as_set-IsSetList (t ∷ ts) =
    if-elim IsSetList (contains_text t ts) (λ _. as_set-IsSetList ts)
      (λ e. (contains_text-as_set t ts ∙ e, as_set-IsSetList ts))

extract_ngrams-IsSetList : (n : ℕ) (t : Text) → IsSetList (extract_ngrams n t)
unfolding extract_ngrams
extract_ngrams-IsSetList n t =
    if-elim IsSetList (leb n (length (split_whitespace t)))
      (λ _. as_set-IsSetList (map (join (codes " ")) (windows n (split_whitespace t)))) (λ _. tt)

abbrev one_if : Bool → ℕ
one_if true = 1
one_if false = 0

-- An element that is put in front of a set meets another set once at most.
intersection-cons :
    (x : Text) (a b : List Text)
    → contains_text x a ≡ false
    → IsSetList b
    → length (intersection b (x ∷ a)) ≡ one_if (contains_text x b) + length (intersection b a)
unfolding intersection contains_text
intersection-cons x a [] out d = refl
intersection-cons x a (y ∷ b) out d =
    let ih = intersection-cons x a b out d.1 in
    elim (Bool-cases (same_text y x)) [
      | inl e ↦
          let at = same_text_sound y x e in
          let gone : any (same_text x) b ≡ false =
            subst (λ z. any (same_text z) b ≡ false) at d.0 in
          let absent : any (same_text y) a ≡ false =
            subst (λ z. any (same_text z) a ≡ false) (sym at) out in
          let here : same_text x y ≡ true =
            subst (λ z. same_text x z ≡ true) (sym at) (same_text_refl x) in
          rw (e, absent, here) (omega (arith, ih, ap one_if gone))
      | inr e ↦
          let there : same_text x y ≡ false = elim (Bool-cases (same_text x y)) [
            | inl p ↦ absurd (
                cc
                  (e, subst (λ z. same_text z x ≡ true) (same_text_sound x y p) (same_text_refl x)))
            | inr p ↦ p
          ] in
          rw (e, there)
            (elim (Bool-cases (any (same_text y) a)) [
              | inl p ↦ rw p (omega (arith, ih))
              | inr p ↦ rw p (omega (arith, ih))
            ])
    ]

intersection_nil : (b : List Text) → length (intersection b []) ≡ 0
unfolding intersection contains_text
intersection_nil [] = refl
intersection_nil (y ∷ b) = intersection_nil b

intersection_comm :
    (a b : List Text)
    → IsSetList a
    → IsSetList b
    → length (intersection a b) ≡ length (intersection b a)
unfolding intersection contains_text
intersection_comm [] b da db = sym (intersection_nil b)
intersection_comm (x ∷ a) b da db =
    let step = intersection-cons x a b da.0 db in
    let ih = intersection_comm a b da.1 db in
    elim (Bool-cases (any (same_text x) b)) [
      | inl e ↦ rw e (omega (arith, step, ih, ap one_if e))
      | inr e ↦ rw e (omega (arith, step, ih, ap one_if e))
    ]

-- The similarity of two contexts is that of the two in the other order.
pub compare-similarity_comm :
    {F : Type 0} (fl : F64 F) (ngram_size : ℕ) (context_a context_b : Text)
    → (compare fl ngram_size context_a context_b).similarity
      ≡ (compare fl ngram_size context_b context_a).similarity
unfolding compare
compare-similarity_comm fl n a b =
    let A = extract_ngrams n a in
    let B = extract_ngrams n b in
    let same =
      intersection_comm A B (extract_ngrams-IsSetList n a) (extract_ngrams-IsSetList n b) in
    let union : length A + length B - length (intersection A B)
        ≡ length B + length A - length (intersection B A) =
      omega (arith, same) in
    rw (union, same) refl
