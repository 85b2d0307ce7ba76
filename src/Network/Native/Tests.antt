-- ===== src/Network/Native/Tests.antt =====
-- internal/agent/network_native.go on an adapter with a default route and a nearer one.
use mathlib.Core.List.{Memᴰ}
use overseas.Base.{
  pos, String, true, false, some, List, [], ◌∷◌, any, ◌==◌, str_eq, if◌then◌else◌, ◌≡◌, refl,
  is_after, insert_string, sort_strings,
}
use overseas.Network.Native.{
  HelperAdapter, HelperInterface, HelperRoute, NetEnv, NodeRoute, Baseline, Candidate, normal,
}
use overseas.Network.Native.Parse.{
  route_candidate_less, find_metric, normalize_interfaces, candidate_of, place_route, check_route,
  collect_addresses, normalize_adapters, parse_routes, choose_route, route_nodes, reach_nodes,
}
use overseas.Network.Native.Normalize.{insert_by, sort_by, canonicalize, finish, normalize}
use overseas.Network.Native.Baselines.{IsNodeRoute, normalize-IsNodeRoute}

abbrev net_env : NetEnv
net_env = record {
  parse_address = λ text. some (record { text = text; is_4 = true });
  parse_prefix = λ text. some (record {
    text = text;
    bits = if str_eq text "0.0.0.0/0" then 0 else 24;
    is_4 = true;
    is_masked = true;
  });
  contains = λ p node. true;
  trim_space = λ text. text;
}

abbrev one_adapter : HelperAdapter
one_adapter = record {
  interface_index = pos 9;
  luid = 77;
  interface_guid = "{A}";
  interface_alias = "eth0";
  status = "Up";
  dns_servers = "192.0.2.53" ∷ [];
  dns_automatic = true;
}

abbrev one_interface : HelperInterface
one_interface = record {
  interface_index = pos 9;
  luid = 77;
  automatic_metric = true;
  metric = pos 25;
  disable_default_route = false;
}

abbrev helper_route : String → HelperRoute
helper_route prefix = record {
  destination_prefix = prefix;
  interface_index = pos 9;
  luid = 77;
  next_hop = "192.0.2.1";
  metric = pos 0;
  protocol = pos 3;
}

abbrev two_routes : List HelperRoute
two_routes = helper_route "0.0.0.0/0" ∷ helper_route "198.51.100.0/24" ∷ []

abbrev demo_baseline : Baseline
demo_baseline = record {
  adapters =
      record {
        interface_index = pos 9;
        interface_luid = 77;
        interface_guid = "{A}";
        interface_alias = "eth0";
        status = "Up";
        dns_servers = "192.0.2.53" ∷ [];
        dns_automatic = true;
      }
      ∷ [];
  interfaces = one_interface ∷ [];
  routes =
      record {
        destination_prefix = "0.0.0.0/0";
        interface_index = pos 9;
        interface_luid = 77;
        next_hop = "192.0.2.1";
        route_metric = pos 0;
        protocol = pos 3;
      }
      ∷ record {
        destination_prefix = "198.51.100.0/24";
        interface_index = pos 9;
        interface_luid = 77;
        next_hop = "192.0.2.1";
        route_metric = pos 0;
        protocol = pos 3;
      }
      ∷ [];
  node_routes =
      record {
        node_address = "198.51.100.7";
        destination_prefix = "198.51.100.0/24";
        interface_index = pos 9;
        next_hop = "192.0.2.1";
        route_metric = pos 0;
        interface_metric = pos 25;
        effective_metric = pos 25;
        is_bypass_required = false;
      }
      ∷ [];
}

normalized :
    normalize net_env (one_adapter ∷ []) (one_interface ∷ []) two_routes ("198.51.100.7" ∷ [])
    ≡ normal demo_baseline
unfolding normalize finish canonicalize sort_by insert_by normalize_adapters normalize_interfaces
    parse_routes check_route place_route candidate_of find_metric reach_nodes route_nodes
    choose_route route_candidate_less collect_addresses sort_strings insert_string is_after
normalized = refl

normalize-IsNodeRoute_example :
    (kept : List HelperInterface) × (cs : List Candidate) × (parse_routes net_env kept two_routes
      ≡ normal cs)
    × (any (λ (c : Candidate). c.prefix.bits == 0) cs ≡ true)
    × ((r : NodeRoute) → Memᴰ r demo_baseline.node_routes → IsNodeRoute net_env cs r)
normalize-IsNodeRoute_example =
    normalize-IsNodeRoute net_env (one_adapter ∷ []) (one_interface ∷ []) two_routes
      ("198.51.100.7" ∷ []) normalized
