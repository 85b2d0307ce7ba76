-- ===== src/AccessModel/Safe.antt =====
-- internal/accessmodel/validate.go: an accepted policy protects the machine.
use overseas.Base.{
  String, Bool, true, false, Option, none, some, ◌&&◌, not, str_eq, leb, ◌==◌, map, is_empty, ◌≡◌,
  all,
}
use overseas.AccessModel.Model.{Node, Policy}
use overseas.AccessModel.Validate.{
  Address, Prefix, PolicyEnv, is_special, check_prefix, check_dns, check_suffix, check_endpoint,
}
use overseas.AccessModel.Accepted.{is_distinct, keys}

module _ (d : PolicyEnv) where
  -- An address that is not loopback, multicast or unspecified.
  abbrev pub is_usable : Option Address → Bool
  is_usable none = false
  is_usable (some a) = not (is_special a)

  -- A prefix in canonical text that is no default route.
  abbrev pub is_narrow : Option Prefix → String → Bool
  is_narrow none value = false
  is_narrow (some p) value = str_eq p.text value && not (p.bits == 0)

  -- A node whose address and port are acceptable.
  abbrev pub is_usable_node : Node → Bool
  is_usable_node n = is_usable (d.parse_address n.address) && leb 1024 n.port

  -- What a policy must promise before a connection is made under it.
  pub record IsSafePolicy (p : Policy) : Type 0 where
    pub no_udp : p.block_udp ≡ true
    pub no_quic : p.block_quic ≡ true
    pub has_node : is_empty p.nodes ≡ false
    pub usable_nodes : all is_usable_node p.nodes ≡ true
    pub distinct_ids : is_distinct (map (λ (n : Node). n.id) p.nodes) ≡ true
    pub distinct_endpoints : is_distinct (keys (check_endpoint d p.schema_version) p.nodes) ≡ true
    pub narrow_cidrs : all (λ v. is_narrow (d.parse_prefix v) v) p.corporate_cidrs ≡ true
    pub usable_dns : all (λ v. is_usable (d.parse_address v)) p.corporate_dns ≡ true
    pub distinct_cidrs : is_distinct (keys (check_prefix d) p.corporate_cidrs) ≡ true
    pub distinct_dns : is_distinct (keys (check_dns d) p.corporate_dns) ≡ true
    pub distinct_suffixes : is_distinct (keys (check_suffix d) p.internal_suffixes) ≡ true
