-- ===== src/Verdict/SameState.antt =====
-- internal/verdict/verdict.go: `sameState`, the comparison of two inventories without their order.
pub mod Counts
use Prim.Native.Nat.{Ordering}
use Prim.Native.String.{compare}
use overseas.Base.{
  ℕ, ◌+◌, String, Bool, true, false, Option, none, some, List, [], ◌∷◌, ◌&&◌, ◌||◌, not, str_eq,
  ◌==◌, if◌then◌else◌, length, map, ◌≡◌, refl, sym, ap, ◌∙◌, arith, eq_iff, sort_strings,
}
use overseas.Inventory.{State, FirewallRule}
use overseas.Verdict.Evidence.{VerdictEnv}

-- `reflect.DeepEqual` on two slices of strings.
unfoldable pub same_strings : List String → List String → Bool
same_strings [] [] = true
same_strings [] (y ∷ ys) = false
same_strings (x ∷ xs) [] = false
same_strings (x ∷ xs) (y ∷ ys) = str_eq x y && same_strings xs ys

-- `sameJSONMultiset`
unfoldable pub same_multiset : {A : Type 0} → (A → String) → List A → List A → Bool
same_multiset encode left right =
    if not (length left == length right)
    then false
    else same_strings (sort_strings (map encode left)) (sort_strings (map encode right))

-- `sortedCopy`: a copy of no values is nil.
unfoldable pub sorted_copy : Option (List String) → Option (List String)
sorted_copy none = none
sorted_copy (some []) = none
sorted_copy (some (x ∷ xs)) = some (sort_strings (x ∷ xs))

abbrev pub insert_bool : Bool → List Bool → List Bool
insert_bool false ys = false ∷ ys
insert_bool true [] = true ∷ []
insert_bool true (false ∷ ys) = false ∷ insert_bool true ys
insert_bool true (true ∷ ys) = true ∷ true ∷ ys

abbrev pub sort_bools : List Bool → List Bool
sort_bools [] = []
sort_bools (x ∷ xs) = insert_bool x (sort_bools xs)

unfoldable pub sorted_bool_copy : Option (List Bool) → Option (List Bool)
sorted_bool_copy none = none
sorted_bool_copy (some []) = none
sorted_bool_copy (some (x ∷ xs)) = some (sort_bools (x ∷ xs))

-- A rule as `normalize` leaves it.
unfoldable pub normalize_rule : FirewallRule → FirewallRule
normalize_rule r = record r {
  platforms = sorted_copy r.platforms;
  interface_aliases = sorted_copy r.interface_aliases;
  interface_types = sorted_copy r.interface_types;
  local_addresses = sorted_copy r.local_addresses;
  remote_addresses = sorted_copy r.remote_addresses;
  remote_dynamic_keyword_addresses = sorted_copy r.remote_dynamic_keyword_addresses;
  protocols = sorted_copy r.protocols;
  local_ports = sorted_copy r.local_ports;
  remote_ports = sorted_copy r.remote_ports;
  icmp_types = sorted_copy r.icmp_types;
  dynamic_targets = sorted_copy r.dynamic_targets;
  programs = sorted_copy r.programs;
  packages = sorted_copy r.packages;
  services = sorted_copy r.services;
  authentications = sorted_copy r.authentications;
  encryptions = sorted_copy r.encryptions;
  override_block_rules = sorted_bool_copy r.override_block_rules;
  local_users = sorted_copy r.local_users;
  remote_users = sorted_copy r.remote_users;
  remote_machines = sorted_copy r.remote_machines;
}

abbrev pub items_of : {A : Type 0} → Option (List A) → List A
items_of none = []
items_of (some l) = l

module _ (d : VerdictEnv) where
  unfoldable pub same_firewall_rules : List FirewallRule → List FirewallRule → Bool
  same_firewall_rules left right =
      same_multiset d.encode_rule (map normalize_rule left) (map normalize_rule right)

  -- `sameState`
  unfoldable pub same_state : State → State → Bool
  same_state left right =
      same_multiset d.encode_interface left.interfaces right.interfaces
      && (same_multiset d.encode_route left.routes right.routes
          && (same_multiset d.encode_nat (items_of left.nat) (items_of right.nat)
              && same_firewall_rules left.firewall_rules right.firewall_rules))
