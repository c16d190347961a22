-- ===== src/Daemon/Sanitizer/Stability.antt =====
-- Sanitizing a message twice (crates/cca-daemon/src/daemon.rs).
use cca.Common.{
  ℕ, ◌+◌, ◌≤◌, ◌≡◌, ◌⊎◌, refl, ap, ◌∙◌, inl, inr, Bool, true, false, [], ◌∷◌, if-elim, leb, ◌==◌,
  ==_iff, arith, keep_if, Has, Bool-cases,
}
use cca.Tokens.{Text, is_whitespace}
use cca.Tokens.Lines.{newline, trim, trim_start, trim_end, trim_cons, is_empty}
use cca.Daemon.Sanitizer.{is_allowed, collapse, sanitize_broadcast_message}
use cca.Daemon.Sanitizer.Safety.{longest_run, sanitize_broadcast_message-safe}

keep_if_all : (p : ℕ → Bool) (t : Text) → ((c : ℕ) → Has c t → p c ≡ true) → keep_if p t ≡ t
unfolding keep_if
keep_if_all p [] all = refl
keep_if_all p (c ∷ cs) all =
    rw (all c (inl refl)) (ap (λ r. c ∷ r) (keep_if_all p cs (λ d h. all d (inr h))))

-- A text that ends with a character that is no whitespace, and one that starts so.
abbrev pub EndsSolid : Text → Type 0
EndsSolid [] = ⊥
EndsSolid (c ∷ []) = is_whitespace c ≡ false
EndsSolid (c ∷ d ∷ cs) = EndsSolid (d ∷ cs)

abbrev pub StartsSolid : Text → Type 0
StartsSolid [] = ⊥
StartsSolid (c ∷ cs) = is_whitespace c ≡ false

pub EndsSolid-cons : (c : ℕ) (t : Text) → EndsSolid t → EndsSolid (c ∷ t)
EndsSolid-cons c [] e = absurd e
EndsSolid-cons c (d ∷ ds) e = e

pub trim_cons-solid : (c : ℕ) (t : Text) → EndsSolid t → trim_cons c t ≡ c ∷ t
unfolding trim_cons is_empty
trim_cons-solid c [] e = absurd e
trim_cons-solid c (d ∷ ds) e = elim (Bool-cases (is_whitespace c)) [
  | inl w ↦ rw w refl
  | inr w ↦ rw w refl
]

trim_end-solid : (t : Text) → EndsSolid t → trim_end t ≡ t
unfolding trim_end trim_cons
trim_end-solid [] e = refl
trim_end-solid (c ∷ []) e = rw e refl
trim_end-solid (c ∷ d ∷ ds) e =
    ap (trim_cons c) (trim_end-solid (d ∷ ds) e) ∙ trim_cons-solid c (d ∷ ds) e

trim_start-solid : (t : Text) → StartsSolid t → trim_start t ≡ t
unfolding trim_start
trim_start-solid [] e = refl
trim_start-solid (c ∷ cs) e = rw e refl

trim_cons-ends :
    (c : ℕ) (t : Text) → (t ≡ []) ⊎ EndsSolid t → (trim_cons c t ≡ []) ⊎ EndsSolid (trim_cons c t)
unfolding trim_cons is_empty
trim_cons-ends c [] h = elim (Bool-cases (is_whitespace c)) [
  | inl w ↦ inl (rw w refl)
  | inr w ↦ inr (rw w w)
]
trim_cons-ends c (d ∷ ds) (inl p) = absurd (cc p)
trim_cons-ends c (d ∷ ds) (inr e) = inr (rw (trim_cons-solid c (d ∷ ds) e) e)

trim_end-ends : (t : Text) → (trim_end t ≡ []) ⊎ EndsSolid (trim_end t)
unfolding trim_end
trim_end-ends [] = inl refl
trim_end-ends (c ∷ cs) = trim_cons-ends c (trim_end cs) (trim_end-ends cs)

-- A trimmed text that is not empty is solid at both ends.
trim_start-both : (t : Text) → EndsSolid t → StartsSolid (trim_start t) × EndsSolid (trim_start t)
unfolding trim_start
trim_start-both [] e = absurd e
trim_start-both (c ∷ []) e = rw e (e, e)
trim_start-both (c ∷ d ∷ ds) e = elim (Bool-cases (is_whitespace c)) [
  | inl w ↦ rw w (trim_start-both (d ∷ ds) e)
  | inr w ↦ rw w (w, e)
]

-- What is solid is no newline.
solid-newline : (c : ℕ) → is_whitespace c ≡ false → (c == newline) ≡ false
unfolding is_whitespace
solid-newline c e = elim (Bool-cases (c == newline)) [
  | inl p ↦ absurd (cc (e, ap is_whitespace ((==_iff c newline).0 p)))
  | inr p ↦ p
]

collapse-ends : (n : ℕ) (t : Text) → EndsSolid t → EndsSolid (collapse n t)
unfolding collapse
collapse-ends n [] e = absurd e
collapse-ends n (c ∷ []) e = rw (solid-newline c e) e
collapse-ends n (c ∷ d ∷ ds) e =
    if-elim EndsSolid (c == newline)
      (λ _.
        if-elim EndsSolid (leb (n + 1) 2)
          (λ _. EndsSolid-cons c (collapse (n + 1) (d ∷ ds)) (collapse-ends (n + 1) (d ∷ ds) e))
          (λ _. collapse-ends (n + 1) (d ∷ ds) e))
      (λ _. EndsSolid-cons c (collapse 0 (d ∷ ds)) (collapse-ends 0 (d ∷ ds) e))

collapse-starts : (n : ℕ) (t : Text) → StartsSolid t → StartsSolid (collapse n t)
unfolding collapse
collapse-starts n [] e = absurd e
collapse-starts n (c ∷ cs) e = rw (solid-newline c e) e

collapse-short : (n : ℕ) (t : Text) → longest_run n t ≤ 2 → collapse n t ≡ t
unfolding collapse
collapse-short n [] h = refl
collapse-short n (c ∷ cs) h = elim (Bool-cases (c == newline)) [
  | inl e ↦
      let run = rw e at h in
      let few : leb (n + 1) 2 ≡ true = ground (arith, run) in
      rw (e, few) (ap (λ r. c ∷ r) (collapse-short (n + 1) cs (omega (arith, run))))
  | inr e ↦ rw e (ap (λ r. c ∷ r) (collapse-short 0 cs (rw e at h)))
]

collapse-nil : collapse 0 [] ≡ []
unfolding collapse
collapse-nil = refl

trim-collapse : (t : Text) → trim (collapse 0 (trim t)) ≡ collapse 0 (trim t)
unfolding trim trim_end trim_start
trim-collapse t = elim (trim_end-ends t) [
  | inl e ↦ rw (e, collapse-nil) refl
  | inr e ↦
      let (first, last) = trim_start-both (trim_end t) e in
      let solid = collapse 0 (trim_start (trim_end t)) in
      ap trim_start (trim_end-solid solid (collapse-ends 0 _ last))
      ∙ trim_start-solid solid (collapse-starts 0 _ first)
]

-- Sanitizing what is sanitized changes nothing.
pub sanitize_broadcast_message-idempotent :
    (message : Text)
    → sanitize_broadcast_message (sanitize_broadcast_message message)
      ≡ sanitize_broadcast_message message
unfolding sanitize_broadcast_message
sanitize_broadcast_message-idempotent message =
    let clean = sanitize_broadcast_message message in
    let (allowed, short) = sanitize_broadcast_message-safe message in
    ap (λ r. collapse 0 (trim r)) (keep_if_all is_allowed clean allowed)
    ∙ ap (collapse 0) (trim-collapse (keep_if is_allowed message))
    ∙ collapse-short 0 clean short
