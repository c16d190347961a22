-- ===== src/Validation.antt =====
-- The validators of crates/cca-daemon/src/validation.rs.
pub mod Paths
use cca.Common.{
  ℕ, suc, Bool, true, false, not, ◌||◌, List, [], ◌∷◌, Option, none, some, map, codes,
  if◌then◌else◌, ltb,
}
use cca.Tokens.{Text}
use cca.Tokens.Lines.{starts_with, contains_text}

-- The codes of the errors of the crate validator.
pub data ValidationError : Type 0 where
  invalid_uuid invalid_priority invalid_algorithm path_traversal relative_path : ValidationError
  timeout_too_small timeout_too_large : ValidationError

pub data Validity : Type 0 where
  ok : Validity
  err : ValidationError → Validity

-- `str::contains`.
unfoldable pub contains : Text → Text → Bool
unfolding starts_with
contains p [] = starts_with p []
contains p (c ∷ cs) = starts_with p (c ∷ cs) || contains p cs

-- `parses` is `Uuid::parse_str`.
unfoldable pub validate_uuid : (Text → Bool) → Text → Validity
validate_uuid parses value = if parses value then ok else err invalid_uuid

abbrev pub valid_priorities : List Text
valid_priorities = map codes ("low" ∷ "normal" ∷ "high" ∷ "critical" ∷ [])

abbrev pub valid_rl_algorithms : List Text
valid_rl_algorithms = map codes ("q_learning" ∷ "dqn" ∷ "ppo" ∷ [])

unfoldable pub validate_priority : (Text → Text) → Text → Validity
unfolding contains_text
validate_priority to_lowercase value =
    if contains_text (to_lowercase value) valid_priorities then ok else err invalid_priority

unfoldable pub validate_algorithm : (Text → Text) → Text → Validity
unfolding contains_text
validate_algorithm to_lowercase value =
    if contains_text (to_lowercase value) valid_rl_algorithms then ok else err invalid_algorithm

unfoldable pub validate_path : Text → Validity
unfolding contains starts_with
validate_path value =
    if contains (codes "..") value
    then err path_traversal
    else if not (starts_with (codes "/") value)
    then err relative_path
    else ok

abbrev pub max_timeout_seconds : ℕ
max_timeout_seconds = 3600

abbrev pub min_timeout_seconds : ℕ
min_timeout_seconds = 1

unfoldable pub validate_timeout : ℕ → Validity
validate_timeout value =
    if ltb value min_timeout_seconds
    then err timeout_too_small
    else if ltb max_timeout_seconds value
    then err timeout_too_large
    else ok

-- `ValidatedJson::from_request`: what the body parses to, and the validation of that value.
pub data Extracted (T E : Type 0) : Type 0 where
  extracted : T → Extracted T E
  invalid_json : Extracted T E
  validation_failed : E → Extracted T E

abbrev validated : {T E : Type 0} → T → Option E → Extracted T E
validated value none = extracted value
validated value (some e) = validation_failed e

unfoldable pub from_request : {T E : Type 0} → (T → Option E) → Option T → Extracted T E
from_request validate none = invalid_json
from_request validate (some value) = validated value (validate value)
