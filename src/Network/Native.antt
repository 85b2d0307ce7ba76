-- ===== src/Network/Native.antt =====
-- internal/agent/network_native.go: the network that the IP Helper API reports, normalised. The parsers
-- of net/netip are parameters; integers are unbounded, since the API's metrics have 32 bits.
pub mod Parse
pub mod Normalize
pub mod Routes
pub mod Baselines
mod Tests
use overseas.Base.{
  ℕ, ℤ, pos, leb_int, eq_int, ◌+ℤ◌, ◌+◌, String, Bool, true, false, Option, none, some, List, [],
  ◌∷◌, ◌++◌, ◌&&◌, ◌||◌, not, str_eq, ltb, ◌==◌, if◌then◌else◌, is_empty, any, is_after,
  sort_strings,
}
use overseas.AccessModel.Validate.{is_member_of}

pub record HelperAdapter : Type 0 where
  pub interface_index : ℤ
  pub luid : ℕ
  pub interface_guid : String
  pub interface_alias : String
  pub status : String
  pub dns_servers : List String
  pub dns_automatic : Bool

pub record HelperInterface : Type 0 where
  pub interface_index : ℤ
  pub luid : ℕ
  pub automatic_metric : Bool
  pub metric : ℤ
  pub disable_default_route : Bool

pub record HelperRoute : Type 0 where
  pub destination_prefix : String
  pub interface_index : ℤ
  pub luid : ℕ
  pub next_hop : String
  pub metric : ℤ
  pub protocol : ℤ

-- A `netip.Addr` and a `netip.Prefix`, by their canonical texts.
pub record NetAddress : Type 0 where
  pub text : String
  pub is_4 : Bool

pub record RoutePrefix : Type 0 where
  pub text : String
  pub bits : ℕ
  pub is_4 : Bool
  pub is_masked : Bool

pub record NetEnv : Type 0 where
  pub parse_address : String → Option NetAddress
  pub parse_prefix : String → Option RoutePrefix
  pub contains : RoutePrefix → String → Bool  -- an address by its canonical text
  pub trim_space : String → String

pub record NativeAdapter : Type 0 where
  pub interface_index : ℤ
  pub interface_luid : ℕ
  pub interface_guid : String
  pub interface_alias : String
  pub status : String
  pub dns_servers : List String
  pub dns_automatic : Bool

pub record NativeRoute : Type 0 where
  pub destination_prefix : String
  pub interface_index : ℤ
  pub interface_luid : ℕ
  pub next_hop : String
  pub route_metric : ℤ
  pub protocol : ℤ

pub record NodeRoute : Type 0 where
  pub node_address : String
  pub destination_prefix : String
  pub interface_index : ℤ
  pub next_hop : String
  pub route_metric : ℤ
  pub interface_metric : ℤ
  pub effective_metric : ℤ
  pub is_bypass_required : Bool

-- `WindowsNetworkBaseline`; its interfaces have the fields of those that were read.
pub record Baseline : Type 0 where
  pub adapters : List NativeAdapter
  pub interfaces : List HelperInterface
  pub routes : List NativeRoute
  pub node_routes : List NodeRoute

-- An element of `parsedRoutes`, with the metric of its interface.
pub record Candidate : Type 0 where
  pub value : HelperRoute
  pub prefix : RoutePrefix
  pub next_hop : String  -- in canonical text
  pub interface_metric : ℤ
  pub effective : ℤ

pub data NativeError : Type 0 where
  incomplete invalid_adapter invalid_dns invalid_interface conflicting_interfaces : NativeError
  invalid_route invalid_next_hop no_default_route invalid_node : NativeError
  unreachable_node : String → NativeError

pub data Native (A : Type 0) : Type 0 where
  normal : A → Native A
  broken : NativeError → Native A

abbrev pub and_then : {A B : Type 0} → Native A → (A → Native B) → Native B
and_then (normal a) f = f a
and_then (broken e) f = broken e
