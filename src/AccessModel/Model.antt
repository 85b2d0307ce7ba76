-- ===== src/AccessModel/Model.antt =====
-- internal/accessmodel/model.go: the access policy and the states of a connection.
use overseas.Base.{ℕ, ℤ, String, Bool, true, false, List}

pub record Node : Type 0 where
  pub id : String
  pub transport : String
  pub address : String
  pub port : ℕ  -- uint16
  pub priority : ℤ

pub record CredentialRef : Type 0 where
  pub kind : String
  pub path : String

pub record Policy : Type 0 where
  pub schema_version : ℕ
  pub mode : String
  pub nodes : List Node
  pub corporate_cidrs : List String
  pub corporate_dns : List String
  pub internal_suffixes : List String
  pub block_udp : Bool
  pub block_quic : Bool
  pub credential : CredentialRef

pub data ConnectionState : Type 0 where
  preparing prepared disconnected connecting connected restoring failed_safe failed :
      ConnectionState

-- The text of a state, as `string(state)` gives it.
unfoldable pub state_text : ConnectionState → String
state_text preparing = "preparing"
state_text prepared = "prepared"
state_text disconnected = "disconnected"
state_text connecting = "connecting"
state_text connected = "connected"
state_text restoring = "restoring"
state_text failed_safe = "failed_safe"
state_text failed = "failed"

-- The test `c.status.State == accessmodel.StateConnected`.
abbrev pub is_connected : ConnectionState → Bool
is_connected connected = true
is_connected _ = false

abbrev pub is_failed_safe : ConnectionState → Bool
is_failed_safe failed_safe = true
is_failed_safe _ = false

abbrev pub is_connecting : ConnectionState → Bool
is_connecting connecting = true
is_connecting _ = false
