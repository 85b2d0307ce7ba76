-- ===== src/Inventory/Tests.antt =====
-- internal/inventory/inventory.go on one snapshot.
use overseas.Base.{if◌then◌else◌, pos, String, some, none, [], ◌∷◌, str_eq, ◌≡◌, refl}
use overseas.AccessModel.Validate.{check_unique}
use overseas.Config.{
  validate, check_interface, check_parsed_route, check_cidr, check_cidrs, check_target,
  check_networks,
}
use overseas.Config.Demo.{demo_env, demo_config}
use overseas.Inventory.{Interface, Route, State}
use overseas.Inventory.Validate.{
  InventoryEnv, find_matching, count_active_ipv4_default_routes, check_default, find_subnet,
  check_subnet, check_interfaces, check_employee, check_telecom, check_wireguard, check_state,
  validate_state,
}
use overseas.Inventory.Ready.{IsReady}
use overseas.Inventory.Accepts.{validate_state-IsReady}

abbrev inventory_env : InventoryEnv
inventory_env = record { config = demo_env; same_masked = λ p q. str_eq p.text q.text }

abbrev adapter : String → Interface
adapter alias = record {
  alias = alias;
  index = pos (if str_eq alias "wg0" then 7 else if str_eq alias "ppp0" then 8 else 9);
  address_family = "IPv4";
  status = "Connected";
  forwarding = "Disabled";
  mtu = pos 1500;
}

abbrev route_to : String → Interface → Route
route_to prefix i = record {
  alias = i.alias;
  index = i.index;
  destination_prefix = prefix;
  next_hop = "192.0.2.1";
  metric = pos 25;
  state = "Alive";
}

abbrev demo_state : State
demo_state = record {
  interfaces = adapter "wg0" ∷ adapter "ppp0" ∷ adapter "eth0" ∷ adapter "eth0" ∷ [];
  routes = route_to "203.0.113.0/24" (adapter "wg0") ∷ route_to "0.0.0.0/0" (adapter "eth0") ∷ [];
  nat = some [];
  firewall_rules = [];
}

state_accepted : validate_state inventory_env demo_state demo_config ≡ none
unfolding validate_state check_state check_wireguard check_telecom check_employee check_interfaces
    check_subnet find_subnet check_default count_active_ipv4_default_routes find_matching validate
    check_interface check_networks check_unique check_parsed_route check_cidrs check_cidr
    check_target
state_accepted = refl

validate_state-IsReady_example : IsReady inventory_env demo_state demo_config
validate_state-IsReady_example =
    validate_state-IsReady inventory_env demo_state demo_config state_accepted
