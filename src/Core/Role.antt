-- ===== src/Core/Role.antt =====
-- `AgentRole` of crates/cca-core/src/agent.rs: its names, and reading one. `str::to_lowercase` is
-- the argument `lower`.
use text.Mathlib.TextEquality.{eq_iff}
use cca.Common.{◌≡◌, sym, ◌∙◌, ap, ◌↔◌, String, arith, if◌then◌else◌, str_eq}

pub data AgentRole : Type 0 where
  coordinator : AgentRole
  frontend : AgentRole
  backend : AgentRole
  dba : AgentRole
  devops : AgentRole
  security : AgentRole
  qa : AgentRole
  custom : String → AgentRole

-- `Display for AgentRole`.
unfoldable pub to_string : AgentRole → String
to_string coordinator = "coordinator"
to_string frontend = "frontend"
to_string backend = "backend"
to_string dba = "dba"
to_string devops = "devops"
to_string security = "security"
to_string qa = "qa"
to_string (custom name) = name

-- The match of `From<&str>` on the lower-case text.
unfoldable pub match_name : String → AgentRole
match_name s =
    if str_eq s "coordinator"
    then coordinator
    else if str_eq s "frontend"
    then frontend
    else if str_eq s "backend"
    then backend
    else if str_eq s "dba"
    then dba
    else if str_eq s "devops"
    then devops
    else if str_eq s "security"
    then security
    else if str_eq s "qa"
    then qa
    else custom s

unfoldable pub from_str : (String → String) → String → AgentRole
unfolding match_name
from_str lower s = match_name (lower s)

to_string-match_name : (s : String) → to_string (match_name s) ≡ s
unfolding to_string match_name
to_string-match_name s = ground (
  arith,
  eq_iff s "coordinator",
  eq_iff s "frontend",
  eq_iff s "backend",
  eq_iff s "dba",
  eq_iff s "devops",
  eq_iff s "security",
  eq_iff s "qa",
)

module _ (lower : String → String) where
  -- Reading a role and printing it gives the text in lower case, whether or not the role is one of
  -- the seven known ones.
  pub to_string-from_str : (s : String) → to_string (from_str lower s) ≡ lower s
  unfolding from_str
  to_string-from_str s = to_string-match_name (lower s)

  -- Two texts are read as the same role exactly when their lower case is the same.
  pub from_str-eq_iff : (s t : String) → (from_str lower s ≡ from_str lower t) ↔ (lower s ≡ lower t)
  unfolding from_str
  from_str-eq_iff s t = (
    λ e. sym (to_string-from_str s) ∙ ap to_string e ∙ to_string-from_str t,
    λ e. ap match_name e,
  )
