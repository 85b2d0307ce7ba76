-- ===== src/Network/Native/Parse.antt =====
-- internal/agent/network_native.go: the loops of `normalizeNativeNetwork`.
use overseas.Base.{
  ℕ, ℤ, pos, leb_int, eq_int, ◌+ℤ◌, String, Bool, true, false, Option, none, some, List, [], ◌∷◌,
  ◌++◌, ◌&&◌, ◌||◌, not, str_eq, ltb, ◌==◌, if◌then◌else◌, is_empty, any, is_after, sort_strings,
}
use overseas.AccessModel.Validate.{is_member_of}
use overseas.Network.Native.{
  HelperAdapter, HelperInterface, HelperRoute, NetAddress, RoutePrefix, NetEnv, NativeAdapter,
  NativeRoute, NodeRoute, Candidate, invalid_adapter, invalid_dns, invalid_interface,
  conflicting_interfaces, invalid_route, invalid_next_hop, no_default_route, invalid_node,
  unreachable_node, Native, normal, broken, and_then,
}

-- The keys of the map `set`.
abbrev pub insert_key : String → List String → List String
insert_key key keys = if is_member_of key keys then keys else key ∷ keys

-- `routeCandidateLess`
unfoldable pub route_candidate_less : Candidate → Candidate → Bool
route_candidate_less left right =
    if not (left.prefix.bits == right.prefix.bits)
    then ltb right.prefix.bits left.prefix.bits
    else if not (eq_int left.effective right.effective)
    then not (leb_int right.effective left.effective)
    else if not (eq_int left.value.metric right.value.metric)
    then not (leb_int right.value.metric left.value.metric)
    else if not (eq_int left.value.interface_index right.value.interface_index)
    then not (leb_int right.value.interface_index left.value.interface_index)
    else is_after right.value.next_hop left.value.next_hop

-- Whether the LUID of an interface is that of no adapter with its index, though there are some.
abbrev pub luids_of : ℤ → List HelperAdapter → List ℕ
luids_of index [] = []
luids_of index (a ∷ later) =
    let rest = luids_of index later in
    if eq_int a.interface_index index then a.luid ∷ rest else rest

abbrev pub is_foreign : List ℕ → HelperInterface → Bool
is_foreign known i =
    not (i.luid == 0) && (not (is_empty known) && not (any (λ n. n == i.luid) known))

-- `interfaceMetrics[index]`
unfoldable pub find_metric : ℤ → List HelperInterface → Option HelperInterface
find_metric index [] = none
find_metric index (i ∷ later) =
    if eq_int i.interface_index index then some i else find_metric index later

abbrev pub same_interface : HelperInterface → HelperInterface → Bool
same_interface i j =
    eq_int i.interface_index j.interface_index
    && (i.luid == j.luid
        && (same_bool i.automatic_metric j.automatic_metric
            && (eq_int i.metric j.metric
                && same_bool i.disable_default_route j.disable_default_route)))
  where
    same_bool : Bool → Bool → Bool
    same_bool true b = b
    same_bool false b = not b

abbrev pub add_interface :
    (List HelperInterface → Native (List HelperInterface))
    → HelperInterface
    → List HelperInterface
    → Option HelperInterface
    → Native (List HelperInterface)
add_interface continue i kept none = continue (kept ++ (i ∷ []))
add_interface continue i kept (some existing) =
    if not (same_interface existing i) then broken conflicting_interfaces else continue kept

-- The loop over the interfaces.
unfoldable pub normalize_interfaces :
    List HelperAdapter → List HelperInterface → List HelperInterface → Native (List HelperInterface)
normalize_interfaces adapters [] kept = normal kept
normalize_interfaces adapters (i ∷ later) kept =
    if not (leb_int (pos 1) i.interface_index) || not (leb_int (pos 0) i.metric)
    then broken invalid_interface
    else if is_foreign (luids_of i.interface_index adapters) i
    then normalize_interfaces adapters later kept
    else add_interface (normalize_interfaces adapters later) i kept
        (find_metric i.interface_index kept)

abbrev pub is_route_prefix : Option RoutePrefix → HelperRoute → Bool
is_route_prefix none r = false
is_route_prefix (some p) r =
    p.is_4 && (p.is_masked && (leb_int (pos 1) r.interface_index && leb_int (pos 0) r.metric))

-- A route on an interface that was kept.
unfoldable pub candidate_of :
    HelperRoute → RoutePrefix → HelperInterface → Option NetAddress → Native (Option Candidate)
candidate_of r p i none = broken invalid_next_hop
candidate_of r p i (some hop) =
    if not hop.is_4
    then broken invalid_next_hop
    else normal (
        some (record {
          value = r;
          prefix = p;
          next_hop = hop.text;
          interface_metric = i.metric;
          effective = r.metric +ℤ i.metric;
        }))

-- The LUIDs of a route and its interface are known and differ.
abbrev pub is_elsewhere : HelperRoute → HelperInterface → Bool
is_elsewhere r i = not (r.luid == 0) && (not (i.luid == 0) && not (r.luid == i.luid))

abbrev pub canonical_route : Candidate → NativeRoute
canonical_route c = record {
  destination_prefix = c.prefix.text;
  interface_index = c.value.interface_index;
  interface_luid = c.value.luid;
  next_hop = c.next_hop;
  route_metric = c.value.metric;
  protocol = c.value.protocol;
}

abbrev pub prepend : Option Candidate → Native (List Candidate) → Native (List Candidate)
prepend none cs = cs
prepend (some c) (normal cs) = normal (c ∷ cs)
prepend (some c) (broken e) = broken e

-- A route before its place is chosen: skipped, refused, or a candidate.
unfoldable pub place_route :
    HelperRoute
    → RoutePrefix
    → Option HelperInterface
    → Option NetAddress
    → Native (Option Candidate)
place_route r p none hop = normal none
place_route r p (some i) hop = if is_elsewhere r i then normal none else candidate_of r p i hop

unfoldable pub check_route :
    NetEnv → List HelperInterface → HelperRoute → Option RoutePrefix → Native (Option Candidate)
check_route d kept r none = broken invalid_route
check_route d kept r (some p) =
    if not (is_route_prefix (some p) r)
    then broken invalid_route
    else place_route r p (find_metric r.interface_index kept) (d.parse_address r.next_hop)

module _ (d : NetEnv) where
  -- `canonicalIPv4Addresses`
  abbrev pub address_text : Option NetAddress → Option String
  address_text none = none
  address_text (some a) = if a.is_4 then some a.text else none

  abbrev pub add_address : Option String → Option (List String) → Option (List String)
  add_address none keys = none
  add_address (some text) none = none
  add_address (some text) (some keys) = some (insert_key text keys)

  unfoldable pub collect_addresses : List String → Option (List String)
  collect_addresses [] = some []
  collect_addresses (value ∷ later) =
      add_address (address_text (d.parse_address (d.trim_space value))) (collect_addresses later)

  abbrev pub sort_keys : Option (List String) → Option (List String)
  sort_keys none = none
  sort_keys (some keys) = some (sort_strings keys)

  abbrev pub canonical_ipv4_addresses : List String → Option (List String)
  canonical_ipv4_addresses values = sort_keys (collect_addresses values)

  abbrev pub adapter_with : HelperAdapter → Option (List String) → Native NativeAdapter
  adapter_with a none = broken invalid_dns
  adapter_with a (some dns) = normal (record {
    interface_index = a.interface_index;
    interface_luid = a.luid;
    interface_guid = a.interface_guid;
    interface_alias = a.interface_alias;
    status = a.status;
    dns_servers = dns;
    dns_automatic = a.dns_automatic;
  })

  abbrev pub normalize_adapter : HelperAdapter → Native NativeAdapter
  normalize_adapter a =
      if not (leb_int (pos 1) a.interface_index)
        || (str_eq (d.trim_space a.interface_guid) "" || str_eq (d.trim_space a.interface_alias) "")
      then broken invalid_adapter
      else adapter_with a (canonical_ipv4_addresses a.dns_servers)

  -- The loop over the adapters.
  unfoldable pub normalize_adapters : List HelperAdapter → Native (List NativeAdapter)
  normalize_adapters [] = normal []
  normalize_adapters (a ∷ later) =
      and_then (normalize_adapter a)
        (λ n. and_then (normalize_adapters later) (λ ns. normal (n ∷ ns)))

  -- The loop over the routes.
  unfoldable pub parse_routes : List HelperInterface → List HelperRoute → Native (List Candidate)
  parse_routes kept [] = normal []
  parse_routes kept (r ∷ later) =
      and_then (check_route d kept r (d.parse_prefix r.destination_prefix))
        (λ c. prepend c (parse_routes kept later))

  -- The loop over the candidates, with its `best`.
  unfoldable pub choose_route : String → List Candidate → Option Candidate → Option Candidate
  choose_route node [] best = best
  choose_route node (c ∷ cs) none =
      let taken = choose_route node cs (some c) in
      let skipped = choose_route node cs none in
      if not (d.contains c.prefix node) then skipped else taken
  choose_route node (c ∷ cs) (some best) =
      let taken = choose_route node cs (some c) in
      let skipped = choose_route node cs (some best) in
      if not (d.contains c.prefix node)
      then skipped
      else if route_candidate_less c best
      then taken
      else skipped

  abbrev pub node_route : String → Option Candidate → Native NodeRoute
  node_route node none = broken (unreachable_node node)
  node_route node (some best) = normal (record {
    node_address = node;
    destination_prefix = best.prefix.text;
    interface_index = best.value.interface_index;
    next_hop = best.value.next_hop;
    route_metric = best.value.metric;
    interface_metric = best.interface_metric;
    effective_metric = best.effective;
    is_bypass_required = best.prefix.bits == 0;
  })

  -- The loop over the nodes.
  unfoldable pub route_nodes : List Candidate → List String → Native (List NodeRoute)
  route_nodes cs [] = normal []
  route_nodes cs (node ∷ later) =
      and_then (node_route node (choose_route node cs none))
        (λ n. and_then (route_nodes cs later) (λ ns. normal (n ∷ ns)))

  abbrev pub check_nodes_of : Option (List String) → List Candidate → Native (List NodeRoute)
  check_nodes_of none cs = broken invalid_node
  check_nodes_of (some nodes) cs = route_nodes cs nodes

  -- The nodes, once there is a default route.
  unfoldable pub reach_nodes : List Candidate → List String → Native (List NodeRoute)
  reach_nodes cs nodes =
      if not (any (λ (c : Candidate). c.prefix.bits == 0) cs)
      then broken no_default_route
      else check_nodes_of (canonical_ipv4_addresses nodes) cs
