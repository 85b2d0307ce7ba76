-- ===== src/Inventory/Validate.antt =====
-- internal/inventory/inventory.go: `Validate`, the roles of the configured interfaces in a snapshot. A
-- `netip.Prefix` is as in Config, and the equality of two masked ones is a parameter.
use overseas.Base.{
  ℕ, ℤ, leb_int, ◌+◌, String, Bool, false, Option, none, some, List, [], ◌∷◌, ◌&&◌, ◌||◌, not,
  str_eq, ◌==◌, if◌then◌else◌,
}
use overseas.Config.{Config, ConfigEnv, NetPrefix, validate}
use overseas.Inventory.{Interface, Route, State}

pub record InventoryEnv : Type 0 where
  pub config : ConfigEnv
  pub same_masked : NetPrefix → NetPrefix → Bool

pub data Role : Type 0 where
  wireguard_role telecom_role employee_role : Role

-- What the errors of `Validate` and `findInterface` say.
pub data InventoryError : Type 0 where
  invalid_config : String → InventoryError
  telecom_is_employee wireguard_is_shared : InventoryError
  conflicting_indices absent_alias : Role → InventoryError
  same_indices no_single_default foreign_default invalid_subnet absent_subnet : InventoryError

pub data Found : Type 0 where
  found : Interface → Found
  conflict absent : Found

abbrev pub same_int : ℤ → ℤ → Bool
same_int a b = leb_int a b && leb_int b a

-- The loop of `findInterface`, with its `match`.
unfoldable pub find_matching : String → Option Interface → List Interface → Found
find_matching alias none [] = absent
find_matching alias (some m) [] = found m
find_matching alias none (i ∷ later) =
    let taken = find_matching alias (some i) later in
    let skipped = find_matching alias none later in
    if not (str_eq i.alias alias) then skipped else taken
find_matching alias (some m) (i ∷ later) =
    let rest = find_matching alias (some m) later in
    if not (str_eq i.alias alias)
    then rest
    else if not (same_int m.index i.index)
    then conflict
    else rest

-- `findInterface`
abbrev pub find_interface : List Interface → String → Found
find_interface interfaces alias = find_matching alias none interfaces

abbrev pub is_active_default : Route → Bool
is_active_default r = str_eq r.destination_prefix "0.0.0.0/0" && str_eq r.state "Alive"

-- `countActiveIPv4DefaultRoutes`
unfoldable pub count_active_ipv4_default_routes : List Route → ℕ
count_active_ipv4_default_routes [] = 0
count_active_ipv4_default_routes (r ∷ rs) =
    let later = count_active_ipv4_default_routes rs in
    if is_active_default r then later + 1 else later

-- Whether a route is on an interface.
abbrev pub is_route_of : Interface → Route → Bool
is_route_of i r = str_eq r.alias i.alias && same_int r.index i.index

-- The loop that looks at the first active default route.
unfoldable pub check_default : Interface → List Route → Option InventoryError
check_default employee [] = none
check_default employee (r ∷ rs) =
    let later = check_default employee rs in
    if is_active_default r
    then if not (is_route_of employee r) then some foreign_default else none
    else later

abbrev pub or_else : Option InventoryError → Option InventoryError → Option InventoryError
or_else none next = next
or_else (some e) next = some e

module _ (d : InventoryEnv) where
  abbrev pub is_subnet : NetPrefix → Option NetPrefix → Bool
  is_subnet subnet none = false
  is_subnet subnet (some p) = d.same_masked p subnet

  -- The loop that looks for the WireGuard subnet.
  unfoldable pub find_subnet : Interface → NetPrefix → List Route → Option InventoryError
  find_subnet wireguard subnet [] = some absent_subnet
  find_subnet wireguard subnet (r ∷ rs) =
      let later = find_subnet wireguard subnet rs in
      if is_route_of wireguard r && is_subnet subnet (d.config.parse_prefix r.destination_prefix)
      then none
      else later

  unfoldable pub check_subnet : Interface → List Route → Option NetPrefix → Option InventoryError
  check_subnet wireguard routes none = some invalid_subnet
  check_subnet wireguard routes (some subnet) = find_subnet wireguard subnet routes

  -- From the comparison of the indices on.
  unfoldable pub check_interfaces :
      State → Config → Interface → Interface → Interface → Option InventoryError
  check_interfaces state c w t e =
      if same_int w.index t.index || (same_int w.index e.index || same_int t.index e.index)
      then some same_indices
      else if not (count_active_ipv4_default_routes state.routes == 1)
      then some no_single_default
      else or_else (check_default e state.routes)
          (check_subnet w state.routes (d.config.parse_prefix c.wireguard_subnet))

  unfoldable pub check_employee :
      State → Config → Interface → Interface → Found → Option InventoryError
  check_employee state c w t (found e) = check_interfaces state c w t e
  check_employee state c w t conflict = some (conflicting_indices employee_role)
  check_employee state c w t absent = some (absent_alias employee_role)

  unfoldable pub check_telecom : State → Config → Interface → Found → Option InventoryError
  check_telecom state c w (found t) =
      check_employee state c w t (find_interface state.interfaces c.employee_interface)
  check_telecom state c w conflict = some (conflicting_indices telecom_role)
  check_telecom state c w absent = some (absent_alias telecom_role)

  unfoldable pub check_wireguard : State → Config → Found → Option InventoryError
  check_wireguard state c (found w) =
      check_telecom state c w (find_interface state.interfaces c.telecom_interface)
  check_wireguard state c conflict = some (conflicting_indices wireguard_role)
  check_wireguard state c absent = some (absent_alias wireguard_role)

  unfoldable pub check_state : State → Config → Option String → Option InventoryError
  check_state state c (some e) = some (invalid_config e)
  check_state state c none =
      if str_eq c.telecom_interface c.employee_interface
      then some telecom_is_employee
      else if str_eq c.wireguard_interface c.telecom_interface
          || str_eq c.wireguard_interface c.employee_interface
      then some wireguard_is_shared
      else check_wireguard state c (find_interface state.interfaces c.wireguard_interface)

  -- `Validate`
  unfoldable pub validate_state : State → Config → Option InventoryError
  validate_state state c = check_state state c (validate d.config c)
