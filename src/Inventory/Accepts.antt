-- ===== src/Inventory/Accepts.antt =====
-- internal/inventory/inventory.go: what `Validate` accepts is ready for the proof.
use overseas.Base.{
  String, Bool, true, false, Option, none, some, List, [], ◌∷◌, ◌&&◌, ◌||◌, not, str_eq, ◌==◌,
  if◌then◌else◌, any, ◌≡◌, refl, arith, inl, inr, Bool-cases,
}
use overseas.Config.{Config, NetPrefix, validate}
use overseas.Inventory.{Interface, Route, State}
use overseas.Inventory.Validate.{
  InventoryEnv, InventoryError, Found, found, conflict, absent, find_interface,
  count_active_ipv4_default_routes, is_route_of, check_default, is_subnet, find_subnet,
  check_subnet, or_else, check_interfaces, check_employee, check_telecom, check_wireguard,
  check_state, validate_state,
}
use overseas.Inventory.Ready.{IsInterface, IsReady, found-IsInterface, default-employee}

or_else-none : (o next : Option InventoryError) → or_else o next ≡ none → (o ≡ none) × (next ≡ none)
or_else-none none next h = (refl, h)
or_else-none (some e) next h = cc

kept :
    (b : Bool) (e : InventoryError) (o : Option InventoryError)
    → (if b then some e else o) ≡ none
    → (b ≡ false) × (o ≡ none)
kept true e o h = cc
kept false e o h = (refl, h)

module _ (d : InventoryEnv) where
  find_subnet-any :
      (w : Interface) (subnet : NetPrefix) (l : List Route)
      → find_subnet d w subnet l ≡ none
      → any
          (λ (r : Route).
            is_route_of w r && is_subnet d subnet (d.config.parse_prefix r.destination_prefix))
          l
        ≡ true
  unfolding find_subnet
  find_subnet-any w subnet [] h = cc
  find_subnet-any w subnet (r ∷ rs) h =
      elim (Bool-cases
        (is_route_of w r && is_subnet d subnet (d.config.parse_prefix r.destination_prefix))) [
          | inl here ↦ rw here refl
          | inr later ↦ rw (later, find_subnet-any w subnet rs (passes later h)) refl
        ]
    where
      passes :
          {b : Bool} {o : Option InventoryError}
          → b ≡ false
          → (if b then none else o) ≡ none
          → o ≡ none
      passes {b = false} e h = h
      passes {b = true} e h = cc

  check_subnet-parsed :
      (w : Interface) (l : List Route) (o : Option NetPrefix)
      → check_subnet d w l o ≡ none
      → (subnet : NetPrefix) × (o ≡ some subnet) × (find_subnet d w subnet l ≡ none)
  unfolding check_subnet
  check_subnet-parsed w l none h = cc
  check_subnet-parsed w l (some subnet) h = (subnet, refl, h)

module _ (d : InventoryEnv) (state : State) (c : Config) (config : validate d.config c ≡ none) where
  interfaces-IsReady :
      (w t e : Interface)
      → IsInterface state.interfaces c.wireguard_interface w
      → IsInterface state.interfaces c.telecom_interface t
      → IsInterface state.interfaces c.employee_interface e
      → check_interfaces d state c w t e ≡ none
      → IsReady d state c
  unfolding check_interfaces
  interfaces-IsReady w t e p q r h =
      let (apart, h₁) = kept _ _ _ h in
      let (single, h₂) = kept (not (count_active_ipv4_default_routes state.routes == 1)) _ _ h₁ in
      let (default_ok, h₃) = or_else-none (check_default e state.routes) _ h₂ in
      let (subnet, parsed, search) = check_subnet-parsed d w state.routes _ h₃ in
      let one : count_active_ipv4_default_routes state.routes ≡ 1 = ground (arith, single) in
      record {
        wireguard = w;
        telecom = t;
        employee = e;
        config = config;
        is_wireguard = p;
        is_telecom = q;
        is_employee = r;
        apart = apart;
        single = one;
        default_route = default-employee e state.routes one default_ok;
        subnet = subnet;
        parsed = parsed;
        present = find_subnet-any d w subnet state.routes search;
      }

  employee-IsReady :
      (w t : Interface) (f : Found)
      → IsInterface state.interfaces c.wireguard_interface w
      → IsInterface state.interfaces c.telecom_interface t
      → find_interface state.interfaces c.employee_interface ≡ f
      → check_employee d state c w t f ≡ none
      → IsReady d state c
  unfolding check_employee
  employee-IsReady w t (found e) p q r h =
      interfaces-IsReady w t e p q (found-IsInterface _ e state.interfaces r) h
  employee-IsReady w t conflict p q r h = cc
  employee-IsReady w t absent p q r h = cc

  telecom-IsReady :
      (w : Interface) (f : Found)
      → IsInterface state.interfaces c.wireguard_interface w
      → find_interface state.interfaces c.telecom_interface ≡ f
      → check_telecom d state c w f ≡ none
      → IsReady d state c
  unfolding check_telecom
  telecom-IsReady w (found t) p q h =
      employee-IsReady w t _ p (found-IsInterface _ t state.interfaces q) refl h
  telecom-IsReady w conflict p q h = cc
  telecom-IsReady w absent p q h = cc

  wireguard-IsReady :
      (f : Found)
      → find_interface state.interfaces c.wireguard_interface ≡ f
      → check_wireguard d state c f ≡ none
      → IsReady d state c
  unfolding check_wireguard
  wireguard-IsReady (found w) p h =
      telecom-IsReady w _ (found-IsInterface _ w state.interfaces p) refl h
  wireguard-IsReady conflict p h = cc
  wireguard-IsReady absent p h = cc

module _ (d : InventoryEnv) (state : State) (c : Config) where
  state-IsReady :
      (o : Option String)
      → validate d.config c ≡ o
      → check_state d state c o ≡ none
      → IsReady d state c
  unfolding check_state
  state-IsReady (some e) config h = cc
  state-IsReady none config h =
      let (apart, h₁) = kept (str_eq c.telecom_interface c.employee_interface) _ _ h in
      let (own, h₂) =
        kept
          (str_eq c.wireguard_interface c.telecom_interface
            || str_eq c.wireguard_interface c.employee_interface)
          _ _ h₁ in
      wireguard-IsReady d state c config _ refl h₂

-- In a snapshot that `Validate` accepts, each configured role has an interface in the snapshot, all of
-- whose entries have one index, and the three indices differ; there is exactly one active IPv4 default route, which
-- is the employees' interface's; and a route of the WireGuard interface carries the subnet.
pub validate_state-IsReady :
    (d : InventoryEnv) (state : State) (c : Config)
    → validate_state d state c ≡ none
    → IsReady d state c
unfolding validate_state
validate_state-IsReady d state c h = state-IsReady d state c (validate d.config c) refl h
