-- ===== src/Network/Native/Normalize.antt =====
-- internal/agent/network_native.go: `normalizeNativeNetwork` and its canonical order. Of elements that
-- compare as equal, which `sort.Slice` may order either way, the sort keeps the order.
use overseas.Base.{
  ℤ, leb_int, eq_int, String, Bool, List, [], ◌∷◌, ◌||◌, not, str_eq, if◌then◌else◌, is_empty, map,
  is_after,
}
use overseas.Network.Native.{
  HelperAdapter, HelperInterface, HelperRoute, NetEnv, NativeAdapter, NativeRoute, NodeRoute,
  Baseline, Candidate, incomplete, Native, normal, broken, and_then,
}
use overseas.Network.Native.Parse.{
  normalize_adapters, normalize_interfaces, parse_routes, canonical_route, reach_nodes,
}

-- `sort.Slice`
unfoldable pub insert_by : {A : Type 0} → (A → A → Bool) → A → List A → List A
insert_by less x [] = x ∷ []
insert_by less x (y ∷ ys) =
    let later = insert_by less x ys in if less y x then y ∷ later else x ∷ y ∷ ys

unfoldable pub sort_by : {A : Type 0} → (A → A → Bool) → List A → List A
sort_by less [] = []
sort_by less (x ∷ xs) = insert_by less x (sort_by less xs)

abbrev pub before : String → String → Bool
before x y = is_after y x

abbrev pub below : ℤ → ℤ → Bool
below a b = not (leb_int b a)

abbrev pub adapter_less : NativeAdapter → NativeAdapter → Bool
adapter_less a b =
    if not (str_eq a.interface_guid b.interface_guid)
    then before a.interface_guid b.interface_guid
    else below a.interface_index b.interface_index

abbrev pub interface_less : HelperInterface → HelperInterface → Bool
interface_less a b = below a.interface_index b.interface_index

abbrev pub route_less : NativeRoute → NativeRoute → Bool
route_less a b =
    if not (str_eq a.destination_prefix b.destination_prefix)
    then before a.destination_prefix b.destination_prefix
    else if not (eq_int a.interface_index b.interface_index)
    then below a.interface_index b.interface_index
    else if not (str_eq a.next_hop b.next_hop)
    then before a.next_hop b.next_hop
    else below a.route_metric b.route_metric

abbrev pub node_less : NodeRoute → NodeRoute → Bool
node_less a b = before a.node_address b.node_address

-- `canonicalizeNativeBaseline`
unfoldable pub canonicalize : Baseline → Baseline
canonicalize b = record {
  adapters = sort_by adapter_less b.adapters;
  interfaces = sort_by interface_less b.interfaces;
  routes = sort_by route_less b.routes;
  node_routes = sort_by node_less b.node_routes;
}

module _ (d : NetEnv) where
  unfoldable pub finish :
      List NativeAdapter → List HelperInterface → List Candidate → List NodeRoute → Native Baseline
  finish adapters kept cs nodes = normal (
      canonicalize (record {
        adapters = adapters;
        interfaces = kept;
        routes = map canonical_route cs;
        node_routes = nodes;
      }))

  -- `normalizeNativeNetwork`
  unfoldable pub normalize :
      List HelperAdapter → List HelperInterface → List HelperRoute → List String → Native Baseline
  normalize adapters interfaces routes nodes =
      if is_empty adapters || (is_empty interfaces || is_empty routes)
      then broken incomplete
      else and_then (normalize_adapters d adapters) (λ native.
        and_then (normalize_interfaces adapters interfaces []) (λ kept.
          and_then (parse_routes d kept routes)
            (λ cs. and_then (reach_nodes d cs nodes) (finish native kept cs))))
