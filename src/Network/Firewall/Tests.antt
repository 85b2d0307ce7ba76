-- ===== src/Network/Firewall/Tests.antt =====
-- internal/agent/firewall_pool.go on two adapters, one of them the loopback.
use mathlib.Core.List.{Memᴰ}
use overseas.Base.{
  pos, ℤ, String, true, false, none, some, List, [], ◌∷◌, str_eq, ◌≡◌, refl, is_after,
  insert_string, sort_strings,
}
use overseas.Network.Native.{NativeAdapter}
use overseas.Network.Firewall.{
  PreparedRule, PoolEnv, built, collect_prefixes, hash_canonical_prefixes, is_exempt,
  protect_adapters, pool_rules, build_prepared_firewall_rules,
}
use overseas.Verdict.SameState.{same_strings}
use overseas.Network.Native.Normalize.{insert_by, sort_by}
use overseas.Network.Firewall.Ownership.{
  canonical_prepared_rules, check_ledger, same_rule, same_rules,
  validate_prepared_firewall_ownership, IsOwned, validate_prepared_firewall_ownership-IsOwned,
}
use overseas.Network.Firewall.Covers.{IsCovered, build_prepared_firewall_rules-IsCovered}

abbrev pool_env : PoolEnv
pool_env = record {
  parse_prefix = λ text. some (record { text = text; bits = 8; is_4 = true; is_masked = true });
  trim_space = λ text. text;
  trim_braces = λ text. text;
  to_upper = λ text. text;
  equal_fold = λ a b. str_eq a b;
  is_guid = λ text. true;
  sha256_json = λ keys. some "h1";
}

abbrev adapter_at : ℤ → String → NativeAdapter
adapter_at index alias = record {
  interface_index = index;
  interface_luid = 5;
  interface_guid = alias;
  interface_alias = alias;
  status = "Up";
  dns_servers = [];
  dns_automatic = true;
}

abbrev pool_adapters : List NativeAdapter
pool_adapters = adapter_at (pos 1) "lo" ∷ adapter_at (pos 9) "eth0" ∷ []

abbrev demo_rules : List PreparedRule
demo_rules =
    pool_rules pool_env "h1" "h1"
      (record (adapter_at (pos 9) "eth0") { interface_guid = "{eth0}" } ∷ [])

rules_built :
    build_prepared_firewall_rules pool_env pool_adapters
      ("198.51.100.0/24" ∷ [])
      ("203.0.113.0/24" ∷ [])
    ≡ built demo_rules
unfolding build_prepared_firewall_rules hash_canonical_prefixes collect_prefixes protect_adapters
    sort_strings insert_string is_after
rules_built = refl

build_prepared_firewall_rules-IsCovered_example :
    (blocked : String) × (hash_canonical_prefixes pool_env ("198.51.100.0/24" ∷ []) ≡ some blocked)
    × ((a : NativeAdapter)
        → Memᴰ a pool_adapters
        → is_exempt pool_env a ≡ false
        → IsCovered pool_env blocked demo_rules a)
build_prepared_firewall_rules-IsCovered_example =
    build_prepared_firewall_rules-IsCovered pool_env pool_adapters ("198.51.100.0/24" ∷ [])
      ("203.0.113.0/24" ∷ []) rules_built

-- What is found, in another order and with the aliases turned round.
abbrev ledger_rule : String → List String → PreparedRule
ledger_rule name aliases = record {
  name = name;
  interface_guid = "";
  interface_alias = "";
  interface_aliases = aliases;
  protocol = "Any";
  remote_ports = [];
  remote_addresses_sha = "h1";
  is_emergency = true;
  is_expected_enabled = false;
}

abbrev ledger_rules : List PreparedRule
ledger_rules = ledger_rule "a" ("eth0" ∷ "ppp0" ∷ []) ∷ ledger_rule "b" [] ∷ []

abbrev found_rules : List PreparedRule
found_rules = ledger_rule "b" [] ∷ ledger_rule "a" ("ppp0" ∷ "eth0" ∷ []) ∷ []

rules_owned : validate_prepared_firewall_ownership ledger_rules found_rules ≡ none
unfolding validate_prepared_firewall_ownership canonical_prepared_rules check_ledger same_rules
    same_rule same_strings sort_by insert_by sort_strings insert_string is_after
rules_owned = refl

validate_prepared_firewall_ownership-IsOwned_example : IsOwned ledger_rules found_rules
validate_prepared_firewall_ownership-IsOwned_example =
    validate_prepared_firewall_ownership-IsOwned ledger_rules found_rules rules_owned
