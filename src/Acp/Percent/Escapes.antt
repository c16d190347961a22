-- ===== src/Acp/Percent/Escapes.antt =====
-- The reading of escapes against the encoder that a client uses (crates/cca-acp/src/server.rs).
use cca.Common.{
  ℕ, ◌+◌, ◌/◌, ◌%◌, ◌<◌, ◌≡◌, refl, ◌≢◌, List, [], ◌∷◌, some, ltb, if◌then◌else◌, arith,
}
use cca.Acp.Percent.{hex_digit, from_hex, percent_decode}

-- The upper-case digit of a number below 16.
digit : ℕ → ℕ
digit n = if ltb n 10 then n + 48 else n + 55

-- `%XX` for every byte.
pub escape_all : List ℕ → List ℕ
unfolding digit
escape_all [] = []
escape_all (n ∷ ns) = b'%' ∷ digit (n / 16) ∷ digit (n % 16) ∷ escape_all ns

abbrev pub AreBytes : List ℕ → Type 0
AreBytes [] = Unit {0}
AreBytes (n ∷ ns) = (n < 256) × AreBytes ns

hex_digit-digit : (n : ℕ) → n < 16 → hex_digit (digit n) ≡ some n
unfolding hex_digit digit
hex_digit-digit n h = ground arith

digit-ne-plus : (n : ℕ) → n < 16 → digit n ≢ b'+'
unfolding digit
digit-ne-plus n h = ground arith

from_hex-digit : (n : ℕ) → n < 256 → from_hex (digit (n / 16)) (digit (n % 16)) ≡ some n
unfolding from_hex
from_hex-digit n h = ground (
  arith,
  hex_digit-digit (n / 16) (omega arith),
  hex_digit-digit (n % 16) (omega arith),
  digit-ne-plus (n / 16) (omega arith),
)

-- Every list of bytes, written as escapes, is read back byte for byte.
pub percent_decode-escape_all :
    (ns : List ℕ) → AreBytes ns → percent_decode (escape_all ns) ≡ some ns
unfolding percent_decode escape_all
percent_decode-escape_all [] h = refl
percent_decode-escape_all (n ∷ ns) h = rw (from_hex-digit n h.0, percent_decode-escape_all ns h.1)
