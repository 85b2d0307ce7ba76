-- ===== src/Inventory.antt =====
-- internal/inventory/inventory.go: the snapshot of the network's state. A slice that may be nil is an
-- `Option`.
pub mod Validate
pub mod Ready
pub mod Accepts
mod Tests
use overseas.Base.{ℕ, ℤ, String, Bool, Option, List}

pub record Interface : Type 0 where
  pub alias : String
  pub index : ℤ
  pub address_family : String
  pub status : String
  pub forwarding : String
  pub mtu : ℤ

pub record Route : Type 0 where
  pub alias : String
  pub index : ℤ
  pub destination_prefix : String
  pub next_hop : String
  pub metric : ℤ
  pub state : String

pub record Nat : Type 0 where
  pub name : String
  pub internal_prefix : String
  pub external_prefix : String
  pub active : Bool
  pub store : String
  pub tcp_filtering_behavior : String
  pub udp_filtering_behavior : String
  pub udp_inbound_refresh : Bool
  pub icmp_query_timeout : ℤ
  pub tcp_established_connection_timeout : ℤ
  pub tcp_transient_connection_timeout : ℤ
  pub udp_idle_session_timeout : ℤ

pub record FirewallRule : Type 0 where
  pub name : String
  pub display_name : String
  pub description : String
  pub group : String
  pub enabled : String
  pub profile : String
  pub direction : String
  pub action : String
  pub edge_traversal_policy : String
  pub loose_source_mapping : Bool
  pub local_only_mapping : Bool
  pub owner : String
  pub policy_store_source : String
  pub policy_store_source_type : String
  pub platforms : Option (List String)
  pub interface_aliases : Option (List String)
  pub interface_types : Option (List String)
  pub local_addresses : Option (List String)
  pub remote_addresses : Option (List String)
  pub remote_dynamic_keyword_addresses : Option (List String)
  pub protocols : Option (List String)
  pub local_ports : Option (List String)
  pub remote_ports : Option (List String)
  pub icmp_types : Option (List String)
  pub dynamic_targets : Option (List String)
  pub programs : Option (List String)
  pub packages : Option (List String)
  pub services : Option (List String)
  pub authentications : Option (List String)
  pub encryptions : Option (List String)
  pub override_block_rules : Option (List Bool)
  pub local_users : Option (List String)
  pub remote_users : Option (List String)
  pub remote_machines : Option (List String)

pub record State : Type 0 where
  pub interfaces : List Interface
  pub routes : List Route
  pub nat : Option (List Nat)
  pub firewall_rules : List FirewallRule

pub record Artifact : Type 0 where
  pub schema_version : ℤ
  pub run_id : String
  pub config_digest : String
  pub captured_at : ℕ
  pub state : State
