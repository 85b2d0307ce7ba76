-- ===== src/Inventory/Ready.antt =====
-- internal/inventory/inventory.go: a snapshot that the proof can start from.
use mathlib.Core.List.{Memᴰ}
use overseas.Base.{
  ℤ, pos, negsuc, String, Bool, true, false, none, some, List, [], ◌∷◌, ◌&&◌, ◌||◌, not, str_eq,
  all, any, ◌≡◌, refl, sym, ap, ◌∙◌, arith, inl, inr, eq_iff, Bool-cases,
}
use overseas.Config.{Config, NetPrefix, validate}
use overseas.Inventory.{Interface, Route, State}
use overseas.Inventory.Validate.{
  InventoryEnv, found, same_int, find_matching, find_interface, is_active_default,
  count_active_ipv4_default_routes, is_route_of, check_default, is_subnet,
}

-- The interface of an alias: it is in the list, and every entry of the alias has its index.
pub record IsInterface (l : List Interface) (alias : String) (i : Interface) : Type 0 where
  pub listed : Memᴰ i l
  pub named : i.alias ≡ alias
  pub unique :
      all (λ (j : Interface). not (str_eq j.alias alias) || same_int i.index j.index) l ≡ true

-- The roles of a snapshot that the proof can start from.
pub record IsReady (d : InventoryEnv) (state : State) (c : Config) : Type 0 where
  pub wireguard : Interface
  pub telecom : Interface
  pub employee : Interface
  pub config : validate d.config c ≡ none
  pub is_wireguard : IsInterface state.interfaces c.wireguard_interface wireguard
  pub is_telecom : IsInterface state.interfaces c.telecom_interface telecom
  pub is_employee : IsInterface state.interfaces c.employee_interface employee
  pub apart :
      (same_int wireguard.index telecom.index
        || (same_int wireguard.index employee.index || same_int telecom.index employee.index))
      ≡ false
  pub single : count_active_ipv4_default_routes state.routes ≡ 1
  pub default_route :
      all (λ r. not (is_active_default r) || is_route_of employee r) state.routes ≡ true
  pub subnet : NetPrefix
  pub parsed : d.config.parse_prefix c.wireguard_subnet ≡ some subnet
  pub present :
      any
        (λ (r : Route).
          is_route_of wireguard r
          && is_subnet d subnet (d.config.parse_prefix r.destination_prefix))
        state.routes
      ≡ true

same_int_refl : (n : ℤ) → same_int n n ≡ true
same_int_refl (pos n) = ground arith
same_int_refl (negsuc n) = ground arith

-- Whether an entry of the alias has the interface's index.
abbrev is_entry_of : String → Interface → Interface → Bool
is_entry_of alias i j = not (str_eq j.alias alias) || same_int i.index j.index

matched-found :
    (alias : String) (m i : Interface) (l : List Interface)
    → find_matching alias (some m) l ≡ found i
    → (all (is_entry_of alias i) l ≡ true) × (m ≡ i)
unfolding find_matching
matched-found alias m i [] h = (refl, cc)
matched-found alias m i (j ∷ js) h = elim (Bool-cases (str_eq j.alias alias)) [
  | inl same ↦ elim (Bool-cases (same_int m.index j.index)) [
    | inl close ↦
        let later : find_matching alias (some m) js ≡ found i = ground (arith, h, same, close) in
        let (p, q) = matched-found alias m i js later in
        let near : same_int i.index j.index ≡ true =
          ap (λ (k : Interface). same_int k.index j.index) (sym q) ∙ close in
        (ground (arith, same, p, near), q)
    | inr far ↦ ground (arith, h, same, far)
  ]
  | inr other ↦
      let later : find_matching alias (some m) js ≡ found i = ground (arith, h, other) in
      let (p, q) = matched-found alias m i js later in (ground (arith, other, p), q)
]

pub found-IsInterface :
    (alias : String) (i : Interface) (l : List Interface)
    → find_interface l alias ≡ found i
    → IsInterface l alias i
unfolding find_matching
found-IsInterface alias i [] h = cc
found-IsInterface alias i (j ∷ js) h = elim (Bool-cases (str_eq j.alias alias)) [
  | inl same ↦
      let later : find_matching alias (some j) js ≡ found i = ground (arith, h, same) in
      let (p, q) = matched-found alias j i js later in
      let near : same_int i.index j.index ≡ true =
        ap (λ (k : Interface). same_int k.index j.index) (sym q) ∙ same_int_refl j.index in
      record {
        listed = Memᴰ.head (sym q);
        named = ap (λ (k : Interface). k.alias) (sym q) ∙ (eq_iff j.alias alias).0 same;
        unique = ground (arith, same, p, near);
      }
  | inr other ↦
      let later : find_interface js alias ≡ found i = ground (arith, h, other) in
      let p = found-IsInterface alias i js later in
      record {
        listed = Memᴰ.tail p.listed;
        named = p.named;
        unique = ground (arith, other, p.unique);
      }
]

none_active :
    (e : Interface) (l : List Route)
    → count_active_ipv4_default_routes l ≡ 0
    → all (λ r. not (is_active_default r) || is_route_of e r) l ≡ true
unfolding count_active_ipv4_default_routes
none_active e [] h = refl
none_active e (r ∷ rs) h = elim (Bool-cases (is_active_default r)) [
  | inl active ↦ ground (arith, active, h)
  | inr inactive ↦
      let later : count_active_ipv4_default_routes rs ≡ 0 = ground (arith, h, inactive) in
      rw (inactive, none_active e rs later) refl
]

-- One active default route, the first, is the employees' interface's: so are all.
pub default-employee :
    (e : Interface) (l : List Route)
    → count_active_ipv4_default_routes l ≡ 1
    → check_default e l ≡ none
    → all (λ r. not (is_active_default r) || is_route_of e r) l ≡ true
unfolding count_active_ipv4_default_routes check_default
default-employee e [] h k = refl
default-employee e (r ∷ rs) h k = elim (Bool-cases (is_active_default r)) [
  | inl active ↦
      let later : count_active_ipv4_default_routes rs ≡ 0 = ground (arith, h, active) in
      let own : is_route_of e r ≡ true = ground (arith, k, active) in
      rw (active, own, none_active e rs later) refl
  | inr inactive ↦
      let count : count_active_ipv4_default_routes rs ≡ 1 = ground (arith, h, inactive) in
      let rest : check_default e rs ≡ none = ground (arith, k, inactive) in
      rw (inactive, default-employee e rs count rest) refl
]
