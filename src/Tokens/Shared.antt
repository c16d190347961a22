-- ===== src/Tokens/Shared.antt =====
-- Texts as elements of sets, and what `deduplicate` removes (crates/cca-daemon/src/tokens.rs).
use cca.Common.{
  ◌≡◌, refl, sym, subst, inl, inr, true, List, [], ◌∷◌, arith, ==_iff, Has, any_sound, any_complete,
  Bool-cases,
}
use cca.Tokens.{Text, same_text}
use cca.Tokens.Lines.{contains_text}

pub same_text_refl : (t : Text) → same_text t t ≡ true
unfolding same_text
same_text_refl [] = refl
same_text_refl (c ∷ cs) = ground (arith, same_text_refl cs)

pub same_text_sound : (s t : Text) → same_text s t ≡ true → s ≡ t
unfolding same_text
same_text_sound [] [] e = refl
same_text_sound [] (d ∷ ds) e = absurd (ground arith)
same_text_sound (c ∷ cs) [] e = absurd (ground arith)
same_text_sound (c ∷ cs) (d ∷ ds) e = ground (arith, same_text_sound cs ds, ==_iff c d)

unfoldable pub Text_discrete : Discrete Text
unfolding same_text
Text_discrete s t = elim (Bool-cases (same_text s t)) [
  | inl e ↦ yes (same_text_sound s t e)
  | inr e ↦ no (λ p. cc (e, same_text_refl s, p))
]

pub contains_text_sound : (t : Text) (ts : List Text) → contains_text t ts ≡ true → Has t ts
unfolding contains_text
contains_text_sound t ts e =
    let (a, m, p) = any_sound (same_text t) ts e in
    subst (λ x. Has x ts) (sym (same_text_sound t a p)) m

pub contains_text_complete : (t : Text) (ts : List Text) → Has t ts → contains_text t ts ≡ true
unfolding contains_text
contains_text_complete t ts m = any_complete (same_text t) t ts m (same_text_refl t)
