-- ===== src/Daemon/Sanitizer.antt =====
-- `sanitize_broadcast_message` of crates/cca-daemon/src/daemon.rs.
pub mod Safety
pub mod Stability
use cca.Common.{
  ℕ, zero, suc, ◌+◌, Bool, true, false, not, ◌&&◌, ◌||◌, List, [], ◌∷◌, if◌then◌else◌, leb, ◌==◌,
  keep_if,
}
use cca.Tokens.{Text}
use cca.Tokens.Lines.{newline, trim}

-- `char::is_control`.
unfoldable pub is_control : ℕ → Bool
is_control c = leb c 31 || (leb 127 c && leb c 159)

unfoldable pub is_allowed : ℕ → Bool
unfolding is_control
is_allowed c = (c == newline) || (c == 9) || (c == 13) || not (is_control c)

-- The second loop, after this many newlines.
unfoldable pub collapse : ℕ → Text → Text
collapse n [] = []
collapse n (c ∷ cs) =
    let more = collapse (n + 1) cs in
    let other = collapse 0 cs in
    if c == newline then if leb (n + 1) 2 then c ∷ more else more else c ∷ other

unfoldable pub sanitize_broadcast_message : Text → Text
unfolding is_allowed keep_if trim collapse
sanitize_broadcast_message message = collapse 0 (trim (keep_if is_allowed message))
