-- ===== src/Network/Firewall.antt =====
-- internal/agent/firewall_pool.go: the rules prepared for the adapters. The parser of net/netip, the text
-- functions, the pattern of a GUID and the hash of a JSON are parameters.
pub mod Covers
pub mod Ownership
mod Tests
use Prim.Native.String.{◌++◌ as ◌then◌}
use overseas.Base.{
  ℤ, pos, leb_int, eq_int, String, Bool, true, false, Option, none, some, List, [], ◌∷◌, ◌++◌, ◌&&◌,
  ◌||◌, not, str_eq, if◌then◌else◌, is_empty, map, any, sort_strings,
}
use overseas.AccessModel.Validate.{is_member_of}
use overseas.Network.Native.{NativeAdapter, RoutePrefix}
use overseas.Network.Native.Normalize.{sort_by, before}
use overseas.Network.Native.Parse.{insert_key}

-- `WindowsPreparedRule`
pub record PreparedRule : Type 0 where
  pub name : String
  pub interface_guid : String
  pub interface_alias : String
  pub interface_aliases : List String
  pub protocol : String
  pub remote_ports : List String
  pub remote_addresses_sha : String
  pub is_emergency : Bool
  pub is_expected_enabled : Bool

pub record PoolEnv : Type 0 where
  pub parse_prefix : String → Option RoutePrefix
  pub trim_space : String → String
  pub trim_braces : String → String  -- `strings.Trim(s, "{}")`
  pub to_upper : String → String
  pub equal_fold : String → String → Bool
  pub is_guid : String → Bool  -- `firewallAdapterGUIDPattern`
  pub sha256_json : List String → Option String

pub data PoolError : Type 0 where
  invalid_blocked_prefixes invalid_dns_prefixes invalid_identity duplicated_identity : PoolError
  no_adapters : PoolError

pub data Pool (A : Type 0) : Type 0 where
  built : A → Pool A
  refused_pool : PoolError → Pool A

abbrev pub pool_then : {A B : Type 0} → Pool A → (A → Pool B) → Pool B
pool_then (built a) f = f a
pool_then (refused_pool e) f = refused_pool e

abbrev pub or_refuse : {A : Type 0} → PoolError → Option A → Pool A
or_refuse e none = refused_pool e
or_refuse e (some a) = built a

abbrev pub guid_less : NativeAdapter → NativeAdapter → Bool
guid_less a b = before a.interface_guid b.interface_guid

abbrev pub name_less : PreparedRule → PreparedRule → Bool
name_less a b = before a.name b.name

module _ (d : PoolEnv) where
  abbrev pub prefix_text : Option RoutePrefix → Option String
  prefix_text none = none
  prefix_text (some p) = if not p.is_masked then none else some p.text

  abbrev pub add_prefix : Option String → Option (List String) → Option (List String)
  add_prefix none keys = none
  add_prefix (some text) none = none
  add_prefix (some text) (some keys) = some (insert_key text keys)

  unfoldable pub collect_prefixes : List String → Option (List String)
  collect_prefixes [] = some []
  collect_prefixes (value ∷ later) =
      add_prefix (prefix_text (d.parse_prefix (d.trim_space value))) (collect_prefixes later)

  abbrev pub hash_keys : Option (List String) → Option String
  hash_keys none = none
  hash_keys (some keys) = d.sha256_json (sort_strings keys)

  -- `hashCanonicalPrefixes`
  unfoldable pub hash_canonical_prefixes : List String → Option String
  hash_canonical_prefixes values =
      if is_empty values then none else hash_keys (collect_prefixes values)

  abbrev pub is_identified : NativeAdapter → Bool
  is_identified a =
      leb_int (pos 1) a.interface_index
      && (not (str_eq (d.trim_space a.interface_alias) "") && d.is_guid a.interface_guid)

  -- The loopback, the tunnel itself, and adapters that are not there.
  abbrev pub is_exempt : NativeAdapter → Bool
  is_exempt a =
      eq_int a.interface_index (pos 1)
      || (d.equal_fold a.interface_alias "RegenBioOverseasAccess"
          || d.equal_fold a.status "NotPresent")

  abbrev pub guid_of : NativeAdapter → String
  guid_of a = d.to_upper (d.trim_braces (d.trim_space a.interface_guid))

  -- An adapter with its GUID in canonical text.
  abbrev pub canonical_adapter : NativeAdapter → NativeAdapter
  canonical_adapter a = record a { interface_guid = "{" then (guid_of a then "}") }

  -- The loop over the adapters, with its maps of GUIDs and indices.
  unfoldable pub protect_adapters :
      List NativeAdapter → List String → List ℤ → Pool (List NativeAdapter)
  protect_adapters [] guids indices = built []
  protect_adapters (a ∷ later) guids indices =
      if not (is_identified a)
      then refused_pool invalid_identity
      else if is_exempt a
      then protect_adapters later guids indices
      else if is_member_of (guid_of a) guids || any (λ i. eq_int i a.interface_index) indices
      then refused_pool duplicated_identity
      else pool_then (protect_adapters later (guid_of a ∷ guids) (a.interface_index ∷ indices))
          (λ rest. built (canonical_adapter a ∷ rest))

  abbrev pub aliases_of_adapters : List NativeAdapter → List String
  aliases_of_adapters l = map (λ (a : NativeAdapter). a.interface_alias) l

  abbrev pub adapter_rule : String → NativeAdapter → PreparedRule
  adapter_rule blocked a = record {
    name = "RegenBioOverseasAccess.BlockPublicAny." then d.trim_braces a.interface_guid;
    interface_guid = a.interface_guid;
    interface_alias = a.interface_alias;
    interface_aliases = [];
    protocol = "Any";
    remote_ports = [];
    remote_addresses_sha = blocked;
    is_emergency = false;
    is_expected_enabled = false;
  }

  abbrev pub shared_rule :
      String → List String → String → List String → String → Bool → PreparedRule
  shared_rule name aliases protocol ports hash emergency = record {
    name = name;
    interface_guid = "";
    interface_alias = "";
    interface_aliases = aliases;
    protocol = protocol;
    remote_ports = ports;
    remote_addresses_sha = hash;
    is_emergency = emergency;
    is_expected_enabled = false;
  }

  abbrev pub shared_rules : List String → String → String → List PreparedRule
  shared_rules aliases blocked dns =
      shared_rule "RegenBioOverseasAccess.BlockUnapprovedDNSUDP" aliases "UDP" ("53" ∷ []) dns false
      ∷ shared_rule "RegenBioOverseasAccess.BlockUnapprovedDNSTCP" aliases "TCP" ("53" ∷ []) dns
          false
      ∷ shared_rule "RegenBioOverseasAccess.BlockPublicEmergency" aliases "Any" [] blocked true
      ∷ []

  -- The rules of the adapters that are protected.
  unfoldable pub pool_rules : String → String → List NativeAdapter → List PreparedRule
  pool_rules blocked dns adapters =
      let sorted = sort_by guid_less adapters in
      sort_by name_less (
        map (adapter_rule blocked) sorted
        ++ shared_rules (sort_strings (aliases_of_adapters sorted)) blocked dns)

  abbrev pub rules_for : String → String → List NativeAdapter → Pool (List PreparedRule)
  rules_for blocked dns adapters =
      if is_empty adapters
      then refused_pool no_adapters
      else built (pool_rules blocked dns adapters)

  -- `buildPreparedFirewallRules`
  unfoldable pub build_prepared_firewall_rules :
      List NativeAdapter → List String → List String → Pool (List PreparedRule)
  build_prepared_firewall_rules adapters blocked_prefixes dns_prefixes =
      pool_then (or_refuse invalid_blocked_prefixes (hash_canonical_prefixes blocked_prefixes))
        (λ blocked.
          pool_then (or_refuse invalid_dns_prefixes (hash_canonical_prefixes dns_prefixes))
            (λ dns. pool_then (protect_adapters adapters [] []) (rules_for blocked dns)))
