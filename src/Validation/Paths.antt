-- ===== src/Validation/Paths.antt =====
-- Which paths are accepted (crates/cca-daemon/src/validation.rs).
use cca.Common.{
  ◌≡◌, refl, ap, ◌↔◌, true, false, [], ◌∷◌, ◌++◌, codes, ==_iff, Bool-cases, inl, inr, arith,
}
use cca.Tokens.{Text}
use cca.Tokens.Lines.{starts_with}
use cca.Validation.{ok, contains, validate_path}

-- A pattern stands somewhere in a text.
abbrev pub StandsIn : Text → Text → Type 0
StandsIn p t = (a : Text) × (b : Text) × (t ≡ a ++ (p ++ b))

starts_with_sound : (p t : Text) → starts_with p t ≡ true → (b : Text) × (t ≡ p ++ b)
unfolding starts_with
starts_with_sound [] t e = (t, refl)
starts_with_sound (x ∷ p) [] e = absurd (ground arith)
starts_with_sound (x ∷ p) (c ∷ cs) e =
    let same : x ≡ c = ground (arith, e, ==_iff x c) in
    let (b, rest) = starts_with_sound p cs (ground (arith, e)) in (b, cc (same, rest))

starts_with-append : (p b : Text) → starts_with p (p ++ b) ≡ true
unfolding starts_with
starts_with-append [] b = refl
starts_with-append (x ∷ p) b = ground (arith, starts_with-append p b)

contains_sound : (p t : Text) → contains p t ≡ true → StandsIn p t
unfolding contains
contains_sound p [] e = let (b, q) = starts_with_sound p [] e in ([], b, q)
contains_sound p (c ∷ cs) e = elim (Bool-cases (starts_with p (c ∷ cs))) [
  | inl s ↦ let (b, q) = starts_with_sound p (c ∷ cs) s in ([], b, q)
  | inr s ↦
      let (a, b, q) = contains_sound p cs (ground (arith, e, s)) in (c ∷ a, b, ap (λ r. c ∷ r) q)
]

contains-start : (p t : Text) → starts_with p t ≡ true → contains p t ≡ true
unfolding contains
contains-start p [] e = e
contains-start p (c ∷ cs) e = rw e refl

contains-append : (p a b : Text) → contains p (a ++ (p ++ b)) ≡ true
unfolding contains
contains-append p [] b = contains-start p (p ++ b) (starts_with-append p b)
contains-append p (c ∷ a) b = ground (arith, contains-append p a b)

traversal_refused :
    (value : Text) → contains (codes "..") value ≡ true → ¬ (validate_path value ≡ ok)
unfolding validate_path
traversal_refused value c e = absurd (cc (rw c at e))

relative_refused :
    (value : Text)
    → contains (codes "..") value ≡ false
    → starts_with (codes "/") value ≡ false
    → ¬ (validate_path value ≡ ok)
unfolding validate_path
relative_refused value c s e = absurd (cc (rw (c, s) at e))

-- A path is accepted exactly where it starts with a slash and has no two dots in a row.
pub validate_path_iff :
    (value : Text)
    → (validate_path value ≡ ok)
      ↔ ((¬ StandsIn (codes "..") value) × ((rest : Text) × (value ≡ b'/' ∷ rest)))
unfolding validate_path
validate_path_iff value = (
  λ e. elim (Bool-cases (contains (codes "..") value)) [
    | inl c ↦ absurd (traversal_refused value c e)
    | inr c ↦ elim (Bool-cases (starts_with (codes "/") value)) [
      | inl s ↦ (
        (λ (a, b, q). cc (c, contains-append (codes "..") a b, q)),
        starts_with_sound (codes "/") value s,
      )
      | inr s ↦ absurd (relative_refused value c s e)
    ]
  ],
  λ (out, (rest, q)).
      let no_dots : contains (codes "..") value ≡ false =
        elim (Bool-cases (contains (codes "..") value)) [
          | inl c ↦ absurd (out (contains_sound (codes "..") value c))
          | inr c ↦ c
        ] in
      let rooted : starts_with (codes "/") value ≡ true =
        rw q (starts_with-append (codes "/") rest) in
      rw (no_dots, rooted) refl,
)
