-- ===== src/Config/Accepts.antt =====
-- internal/config/config.go: what holds of a configuration that `Validate` accepts.
use overseas.Base.{
  pos, leb_int, String, Bool, true, false, Option, none, some, ◌&&◌, ◌||◌, not, str_eq, is_empty,
  all, ◌≡◌,
}
use overseas.AccessModel.Accepted.{is_distinct, keys}
use overseas.Config.{
  Target, Config, NetPrefix, ConfigEnv, is_internal, check_route, is_https, check_target,
  one_second,
}

module _ (d : ConfigEnv) where
  abbrev is_named : String → Bool
  is_named value = not (str_eq (d.trim_space value) "")

  -- An IPv4 prefix in canonical text, either as short as a default route or of external addresses.
  abbrev is_route : Option NetPrefix → String → Bool
  is_route none value = false
  is_route (some p) value =
      p.is_4 && (str_eq p.text value && (leb_int p.bits (pos 1) || not (is_internal p)))

  abbrev is_apart : Option NetPrefix → Option NetPrefix → Bool
  is_apart none other = false
  is_apart (some subnet) none = false
  is_apart (some subnet) (some p) = not (d.overlaps subnet p)

  abbrev is_target : Target → Bool
  is_target t = is_named t.name && is_https d (d.parse_url t.url)

  -- What the proof's commands rely on.
  pub record IsUsable (c : Config) : Type 0 where
    pub wireguard : is_named c.wireguard_interface ≡ true
    pub telecom : is_named c.telecom_interface ≡ true
    pub employee : is_named c.employee_interface ≡ true
    pub has_cidr : is_empty c.internal_cidrs ≡ false
    pub has_route : is_empty c.telecom_route_prefixes ≡ false
    pub has_target : is_empty c.approved_targets ≡ false
    pub routes : all (λ v. is_route (d.parse_prefix v) v) c.telecom_route_prefixes ≡ true
    pub distinct_routes : is_distinct (keys (check_route d) c.telecom_route_prefixes) ≡ true
    pub apart :
        all (λ v. is_apart (d.parse_prefix c.wireguard_subnet) (d.parse_prefix v)) c.internal_cidrs
        ≡ true
    pub targets : all is_target c.approved_targets ≡ true
    pub distinct_targets : is_distinct (keys (check_target d) c.approved_targets) ≡ true
    pub patient :
        (leb_int (pos one_second) c.probe_timeout && leb_int c.probe_timeout (pos 30000000000))
        ≡ true

  -- What is left of the promise once the interfaces are named and the lists are there.
  record IsNetwork (c : Config) (subnet : Option NetPrefix) : Type 0 where
    routes : all (λ v. is_route (d.parse_prefix v) v) c.telecom_route_prefixes ≡ true
    distinct_routes : is_distinct (keys (check_route d) c.telecom_route_prefixes) ≡ true
    apart : all (λ v. is_apart subnet (d.parse_prefix v)) c.internal_cidrs ≡ true
    targets : all is_target c.approved_targets ≡ true
    distinct_targets : is_distinct (keys (check_target d) c.approved_targets) ≡ true
    patient :
        (leb_int (pos one_second) c.probe_timeout && leb_int c.probe_timeout (pos 30000000000))
        ≡ true
