-- ===== src/Acp/Env.antt =====
-- What the ACP server takes from code outside the repository: tokio's bounded channels, serde_json,
-- uuid and the byte comparison of the crate subtle.
use cca.Common.{ℕ, ◌≡◌, ◌↔◌, Bool, true, Option, String, List, len}
use cca.Acp.Message.{AcpMessage}

-- `mpsc::Sender::try_send`: the channel with the message in it, or why it took none.
pub data TrySend (C : Type 0) : Type 0 where
  accepted : C → TrySend C
  full : TrySend C
  closed : TrySend C

pub record Env (C : Type 0) : Type 0 where
  pub try_send : C → String → TrySend C
  -- `mpsc::channel(capacity)`, seen from its sender.
  pub channel : ℕ → C
  -- `serde_json::to_string` of a message, and `to_value` of a struct with these fields.
  pub to_json : AcpMessage → Option String
  pub to_value : List (String × String) → Option String
  -- The macro `json!` on an object, and the JSON text of a string.
  pub object : List (String × String) → String
  pub quote : String → String
  -- `params.get(key).and_then(as_str)`.
  pub get_str : String → String → Option String
  -- The field `timestamp` of heartbeat parameters that parse.
  pub heartbeat_timestamp : String → Option String
  -- The text with these code points.
  pub of_codes : List ℕ → String
  -- `Display` of a UUID and of a number.
  pub uuid_text : ℕ → String
  pub nat_text : ℕ → String
  -- `ConstantTimeEq::ct_eq`, which compares slices of one length byte by byte.
  pub ct_eq : String → String → Bool
  pub ct_eq_lem : (a b : String) → len a ≡ len b → (ct_eq a b ≡ true) ↔ (a ≡ b)
