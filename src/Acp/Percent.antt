-- ===== src/Acp/Percent.antt =====
-- `percent_decode` of crates/cca-acp/src/server.rs, over the code points of a text.
pub mod Escapes
use cca.Common.{
  ℕ, ◌+◌, ◌-◌, ◌*◌, Bool, true, false, ◌&&◌, List, [], ◌∷◌, Option, none, some, leb, ◌==◌,
  if◌then◌else◌,
}

-- A hexadecimal digit, as `from_str_radix(_, 16)` reads it.
unfoldable pub hex_digit : ℕ → Option ℕ
hex_digit c =
    if leb b'0' c && leb c b'9'
    then some (c - 48)
    else if leb b'a' c && leb c b'f'
    then some (c - 87)
    else if leb b'A' c && leb c b'F'
    then some (c - 55)
    else none

abbrev pub two_digits : Option ℕ → Option ℕ → Option ℕ
two_digits (some hi) (some lo) = some (16 * hi + lo)
two_digits (some hi) none = none
two_digits none lo = none

-- `u8::from_str_radix` on two characters: a leading `+` is a sign.
unfoldable pub from_hex : ℕ → ℕ → Option ℕ
unfolding hex_digit
from_hex a b = if a == b'+' then hex_digit b else two_digits (hex_digit a) (hex_digit b)

abbrev pub push {ℓ} : {A : Type ℓ} → A → Option (List A) → Option (List A)
push c none = none
push c (some cs) = some (c ∷ cs)

abbrev unplus : ℕ → ℕ
unplus c = if c == b'+' then 32 else c

-- The byte of an escape is pushed as a character, and an escape that is cut short or has a digit
-- that is none fails.
abbrev decoded : Option ℕ → Option (List ℕ) → Option (List ℕ)
decoded none rest = none
decoded (some byte) rest = push byte rest

unfoldable pub percent_decode : List ℕ → Option (List ℕ)
unfolding from_hex
percent_decode [] = some []
percent_decode (c ∷ []) = if c == b'%' then none else some (unplus c ∷ [])
percent_decode (c ∷ a ∷ []) =
    let rest = percent_decode (a ∷ []) in if c == b'%' then none else push (unplus c) rest
percent_decode (c ∷ a ∷ b ∷ cs) =
    let escaped = decoded (from_hex a b) (percent_decode cs) in
    let plain = push (unplus c) (percent_decode (a ∷ b ∷ cs)) in
    if c == b'%' then escaped else plain
