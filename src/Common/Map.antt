-- ===== src/Common/Map.antt =====
-- `std::collections::HashMap` as an association list. The order of the list stands for the order
-- in which the iterators of the map visit the entries, which Rust leaves open.
use mathlib.Core.Path.{◌≡◌, refl, ◌∙◌, sym, subst}
use mathlib.Core.Logic.{◌⊎◌, inl, inr, ite, if_pos, if_neg}
use mathlib.Core.List.{List, [], ◌∷◌, map}
use mathlib.Core.Option
use mathlib.Core.Option.{Option, none, some}
use native.Mathlib.Omega.{arith}
use cca.Common.Lists.{Has}

abbrev pub Map : Type 0 → Type 0 → Type 0
Map K V = List (K × V)

module _ {K V : Type 0} where
  abbrev pub keys : Map K V → List K
  keys = map (λ e. e.0)

  abbrev pub values : Map K V → List V
  values = map (λ e. e.1)

  -- No key twice: what a hash map guarantees.
  abbrev pub Distinct : Map K V → Type 0
  Distinct [] = Unit {0}
  Distinct (e ∷ m) = (¬ Has e.0 (keys m)) × Distinct m

module _ {K V : Type 0} (dec : Discrete K) where
  unfoldable pub get : K → Map K V → Option V
  get k [] = none
  get k (e ∷ m) = ite (dec e.0 k) (some e.1) (get k m)

  -- `insert`, and the `or_default` of an `entry`: an old value is replaced.
  unfoldable pub insert : K → V → Map K V → Map K V
  insert k v [] = (k, v) ∷ []
  insert k v (e ∷ m) = ite (dec e.0 k) ((k, v) ∷ m) (e ∷ insert k v m)

  unfoldable pub remove : K → Map K V → Map K V
  remove k [] = []
  remove k (e ∷ m) = ite (dec e.0 k) (remove k m) (e ∷ remove k m)

  -- A change made through `get_mut`: nothing happens where the key is missing.
  unfoldable pub update : K → (V → V) → Map K V → Map K V
  update k f [] = []
  update k f (e ∷ m) = ite (dec e.0 k) ((e.0, f e.1) ∷ update k f m) (e ∷ update k f m)

  pub get-insert :
      (j k : K) (v : V) (m : Map K V) → get j (insert k v m) ≡ ite (dec k j) (some v) (get j m)
  unfolding get insert
  get-insert j k v [] = refl
  get-insert j k v (e ∷ m) = ground (arith, get-insert j k v m)

  pub get-remove : (j k : K) (m : Map K V) → get j (remove k m) ≡ ite (dec k j) none (get j m)
  unfolding get remove
  get-remove j k [] = ground arith
  get-remove j k (e ∷ m) = ground (arith, get-remove j k m)

  pub get-update :
      (j k : K) (f : V → V) (m : Map K V)
      → get j (update k f m) ≡ ite (dec k j) (Option.map f (get j m)) (get j m)
  unfolding get update
  get-update j k f [] = ground arith
  get-update j k f (e ∷ m) = ground (arith, get-update j k f m)

  pub keys-update : (k : K) (f : V → V) (m : Map K V) → keys (update k f m) ≡ keys m
  unfolding update
  keys-update k f [] = refl
  keys-update k f (e ∷ m) = ground (arith, keys-update k f m)

  pub Has-get : (k : K) (v : V) (m : Map K V) → get k m ≡ some v → Has (k, v) m
  unfolding get
  Has-get k v [] h = ground arith
  Has-get k v (e ∷ m) h = ground (arith, Has-get k v m)

  pub get-insert_self : (k : K) (v : V) (m : Map K V) → get k (insert k v m) ≡ some v
  get-insert_self k v m = get-insert k k v m ∙ if_pos (dec k k) refl _ _

  pub Has-keys : (k : K) (v : V) (m : Map K V) → get k m ≡ some v → Has k (keys m)
  unfolding get
  Has-keys k v [] h = ground arith
  Has-keys k v (e ∷ m) h = ground (arith, Has-keys k v m)

  pub get_of_not-Has : (k : K) (m : Map K V) → ¬ Has k (keys m) → get k m ≡ none
  unfolding get
  get_of_not-Has k [] h = refl
  get_of_not-Has k (e ∷ m) h = elim (dec e.0 k) [
    | yes p ↦ absurd (h (inl p))
    | no p ↦ rw (if_neg _ p) (get_of_not-Has k m (λ q. h (inr q)))
  ]

  not-Has-update :
      (k j : K) (f : V → V) (m : Map K V) → ¬ Has j (keys m) → ¬ Has j (keys (update k f m))
  not-Has-update k j f m h = rw (keys-update k f m) h

  -- Each change keeps the keys distinct.
  pub update-Distinct : (k : K) (f : V → V) (m : Map K V) → Distinct m → Distinct (update k f m)
  unfolding update
  update-Distinct k f [] d = tt
  update-Distinct k f (e ∷ m) d = elim (dec e.0 k) [
    | yes p ↦ rw (if_pos _ p) (not-Has-update k e.0 f m d.0, update-Distinct k f m d.1)
    | no p ↦ rw (if_neg _ p) (not-Has-update k e.0 f m d.0, update-Distinct k f m d.1)
  ]

  Has-remove : (k j : K) (m : Map K V) → Has j (keys (remove k m)) → Has j (keys m)
  unfolding remove
  Has-remove k j [] h = h
  Has-remove k j (e ∷ m) h = ground (arith, Has-remove k j m)

  pub remove-Distinct : (k : K) (m : Map K V) → Distinct m → Distinct (remove k m)
  unfolding remove
  remove-Distinct k [] d = tt
  remove-Distinct k (e ∷ m) d = elim (dec e.0 k) [
    | yes p ↦ rw (if_pos _ p) (remove-Distinct k m d.1)
    | no p ↦ rw (if_neg _ p) ((λ h. d.0 (Has-remove k e.0 m h)), remove-Distinct k m d.1)
  ]

  Has-insert :
      (k j : K) (v : V) (m : Map K V) → Has j (keys (insert k v m)) → (k ≡ j) ⊎ Has j (keys m)
  unfolding insert
  Has-insert k j v [] h = h
  Has-insert k j v (e ∷ m) h = ground (arith, Has-insert k j v m)

  not-Has-insert :
      (k j : K) (v : V) (m : Map K V) → ¬ (j ≡ k) → ¬ Has j (keys m) → ¬ Has j (keys (insert k v m))
  not-Has-insert k j v m ne out =
      λ h. elim (Has-insert k j v m h) [ inl q ↦ ne (sym q) | inr q ↦ out q ]

  pub insert-Distinct : (k : K) (v : V) (m : Map K V) → Distinct m → Distinct (insert k v m)
  unfolding insert
  insert-Distinct k v [] d = ((λ h. absurd h), tt)
  insert-Distinct k v (e ∷ m) d = elim (dec e.0 k) [
    | yes p ↦ rw (if_pos _ p) ((λ h. d.0 (rw p h)), d.1)
    | no p ↦ rw (if_neg _ p) (not-Has-insert k e.0 v m p d.0, insert-Distinct k v m d.1)
  ]

module _ {K V : Type 0} (dec : Discrete K) (P : V → Type 0) where
  abbrev pub AllValues : Map K V → Type 0
  AllValues [] = Unit {0}
  AllValues (e ∷ m) = P e.1 × AllValues m

  pub AllValues-get : (k : K) (v : V) (m : Map K V) → AllValues m → get dec k m ≡ some v → P v
  unfolding get
  AllValues-get k v [] h e = absurd (ground arith)
  AllValues-get k v (x ∷ m) h e = elim (dec x.0 k) [
    | yes p ↦ let same : x.1 ≡ v = ground arith in subst P same h.0
    | no p ↦ AllValues-get k v m h.1 (ground arith)
  ]

  pub update-AllValues :
      (k : K) (f : V → V) (m : Map K V)
      → ((v : V) → P v → P (f v))
      → AllValues m
      → AllValues (update dec k f m)
  unfolding update
  update-AllValues k f [] keep h = tt
  update-AllValues k f (x ∷ m) keep h = elim (dec x.0 k) [
    | yes p ↦ rw (if_pos _ p) (keep x.1 h.0, update-AllValues k f m keep h.1)
    | no p ↦ rw (if_neg _ p) (h.0, update-AllValues k f m keep h.1)
  ]

  pub insert-AllValues :
      (k : K) (v : V) (m : Map K V) → P v → AllValues m → AllValues (insert dec k v m)
  unfolding insert
  insert-AllValues k v [] p h = (p, tt)
  insert-AllValues k v (x ∷ m) p h = elim (dec x.0 k) [
    | yes q ↦ rw (if_pos _ q) (p, h.1)
    | no q ↦ rw (if_neg _ q) (h.0, insert-AllValues k v m p h.1)
  ]

  pub remove-AllValues : (k : K) (m : Map K V) → AllValues m → AllValues (remove dec k m)
  unfolding remove
  remove-AllValues k [] h = tt
  remove-AllValues k (x ∷ m) h = elim (dec x.0 k) [
    | yes q ↦ rw (if_pos _ q) (remove-AllValues k m h.1)
    | no q ↦ rw (if_neg _ q) (h.0, remove-AllValues k m h.1)
  ]
