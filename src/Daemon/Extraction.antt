-- ===== src/Daemon/Extraction.antt =====
-- `extract_json_from_output` of crates/cca-daemon/src/daemon.rs.
pub mod Found
use cca.Common.{
  ℕ, ◌+◌, ◌-◌, Bool, true, false, List, [], ◌∷◌, ◌++◌, Option, none, some, codes, map,
  if◌then◌else◌, ◌==◌, length, drop,
}
use mathlib.Core.Option
use cca.Tokens.{Text}
use cca.Tokens.Lines.{starts_with, trim}

abbrev pub push : ℕ → Option Text → Option Text
push c none = none
push c (some cs) = some (c ∷ cs)

abbrev pub or_else : Option Text → Option Text → Option Text
or_else none o = o
or_else (some t) o = some t

-- The text up to the brace that closes the first one. The depth is at least 1 behind that brace, and
-- the loop ends where it is 0 again.
unfoldable pub balanced : ℕ → Text → Option Text
balanced depth [] = none
balanced depth (c ∷ cs) =
    let opened = balanced (depth + 1) cs in
    let closed = balanced (depth - 1) cs in
    let same = balanced depth cs in
    if c == b'{'
    then push c opened
    else if c == b'}'
    then if depth - 1 == 0 then some (c ∷ []) else push c closed
    else push c same

-- What follows the start of the first match of a pattern, that start included.
unfoldable pub find_from : Text → Text → Option Text
unfolding starts_with
find_from p [] = none
find_from p (c ∷ cs) =
    let later = find_from p cs in if starts_with p (c ∷ cs) then some (c ∷ cs) else later

-- What stands before the first match.
unfoldable pub find_before : Text → Text → Option Text
unfolding starts_with
find_before p [] = none
find_before p (c ∷ cs) =
    let later = push c (find_before p cs) in if starts_with p (c ∷ cs) then some [] else later

abbrev pub fence : Text
fence = codes "```"

-- The text between the first match of an opening, of which some characters are skipped, and the next
-- fence.
abbrev pub enclosed : ℕ → Option Text → Option Text
enclosed skipped none = none
enclosed skipped (some t) = Option.map trim (find_before fence (drop skipped t))

abbrev pub from_brace : Option Text → Option Text
from_brace none = none
from_brace (some t) = balanced 0 t

unfoldable pub extract_json_from_output : Text → Option Text
unfolding starts_with trim balanced find_from find_before
extract_json_from_output output =
    let trimmed = trim output in
    or_else (if starts_with (codes "{") trimmed then balanced 0 trimmed else none) (
      or_else (enclosed 7 (find_from (codes "```json") trimmed)) (
        or_else (enclosed 4 (find_from (codes "```\n{") trimmed))
          (from_brace (find_from (codes "{") trimmed))))
