-- ===== src/Config.antt =====
-- internal/config/config.go: the configuration of the forwarding proof and its `Validate`. The parsers
-- of net/netip and net/url, the text functions, and the digest of the JSON are parameters.
pub mod Accepts
pub mod Demo
mod Tests
use overseas.Base.{
  ℕ, ℤ, pos, leb_int, String, Bool, true, false, Option, none, some, List, [], ◌∷◌, ◌&&◌, ◌||◌, not,
  str_eq, ltb, leb, if◌then◌else◌, is_empty,
}
use overseas.AccessModel.Validate.{Checked, refused, keyed, check_unique, first_error}

pub record Target : Type 0 where
  pub name : String
  pub url : String

pub record Config : Type 0 where
  pub wireguard_subnet : String
  pub wireguard_interface : String
  pub telecom_interface : String
  pub telecom_route_prefixes : List String
  pub employee_interface : String
  pub internal_cidrs : List String
  pub approved_targets : List Target
  pub probe_timeout : ℤ  -- nanoseconds

-- A `netip.Prefix`, by its canonical text, its length and the tests of its address.
pub record NetPrefix : Type 0 where
  pub text : String
  pub bits : ℤ
  pub is_4 : Bool
  pub is_global_unicast : Bool
  pub is_private : Bool
  pub is_loopback : Bool
  pub is_link_local_unicast : Bool
  pub is_multicast : Bool
  pub is_unspecified : Bool

-- A `url.URL`
pub record Url : Type 0 where
  pub scheme : String
  pub host : String

pub record ConfigEnv : Type 0 where
  pub parse_prefix : String → Option NetPrefix
  pub overlaps : NetPrefix → NetPrefix → Bool
  pub parse_url : String → Option Url
  pub trim_space : String → String
  pub sha256_json : Config → Option String  -- the digest in hexadecimal, if the JSON can be made

-- An address that is no external one.
abbrev pub is_internal : NetPrefix → Bool
is_internal p =
    not p.is_global_unicast
    || (p.is_private
        || (p.is_loopback || (p.is_link_local_unicast || (p.is_multicast || p.is_unspecified))))

abbrev pub one_second : ℕ
one_second = 1000000000

module _ (d : ConfigEnv) where
  unfoldable pub check_interface : String → String → Option String
  check_interface error value = if str_eq (d.trim_space value) "" then some error else none

  unfoldable pub check_parsed_route : String → Option NetPrefix → Checked
  check_parsed_route value none = refused "telecom_route_prefixes must contain canonical IPv4 CIDRs"
  check_parsed_route value (some p) =
      if not p.is_4 || not (str_eq p.text value)
      then refused "telecom_route_prefixes must contain canonical IPv4 CIDRs"
      else if not (leb_int p.bits (pos 1)) && is_internal p
      then refused "telecom_route_prefixes must describe external or default IPv4 routes"
      else keyed value

  abbrev pub check_route : String → Checked
  check_route value = check_parsed_route value (d.parse_prefix value)

  -- The loop over `InternalCIDRs`.
  unfoldable pub check_cidr : NetPrefix → Option NetPrefix → Option String
  check_cidr subnet none = some "internal_cidrs must contain valid CIDRs"
  check_cidr subnet (some p) =
      if d.overlaps subnet p then some "wireguard_subnet must not overlap internal_cidrs" else none

  unfoldable pub check_cidrs : NetPrefix → List String → Option String
  check_cidrs subnet [] = none
  check_cidrs subnet (cidr ∷ later) =
      first_error (check_cidr subnet (d.parse_prefix cidr)) (check_cidrs subnet later)

  abbrev pub is_https : Option Url → Bool
  is_https none = false
  is_https (some u) = str_eq u.scheme "https" && not (str_eq u.host "")

  unfoldable pub check_target : Target → Checked
  check_target t =
      if str_eq (d.trim_space t.name) "" || not (str_eq (d.trim_space t.name) t.name)
      then refused "approved_targets names must be non-empty without surrounding whitespace"
      else if not (is_https (d.parse_url t.url))
      then refused "approved_targets must contain HTTPS URLs"
      else keyed t.name

  -- The checks from the loop over `TelecomRoutePrefixes` on.
  unfoldable pub check_networks : Config → Option NetPrefix → Option String
  check_networks c none = some "wireguard_subnet must be a valid CIDR"
  check_networks c (some subnet) =
      first_error
        (check_unique check_route "telecom_route_prefixes must not contain duplicates" []
          c.telecom_route_prefixes)
        (first_error (check_cidrs subnet c.internal_cidrs) (
          first_error
            (check_unique check_target "approved_targets must have unique names" []
              c.approved_targets)
            (if not (leb_int (pos one_second) c.probe_timeout)
                || not (leb_int c.probe_timeout (pos 30000000000))
              then some "probe_timeout must be between 1s and 30s"
              else none)))

  -- `Validate`
  unfoldable pub validate : Config → Option String
  validate c =
      first_error (check_interface "wireguard_interface must not be empty" c.wireguard_interface) (
        first_error (check_interface "telecom_interface must not be empty" c.telecom_interface) (
          first_error (check_interface "employee_interface must not be empty" c.employee_interface)
            (if is_empty c.internal_cidrs
              then some "internal_cidrs must not be empty"
              else if is_empty c.telecom_route_prefixes
              then some "telecom_route_prefixes must not be empty"
              else if is_empty c.approved_targets
              then some "approved_targets must not be empty"
              else check_networks c (d.parse_prefix c.wireguard_subnet))))

  unfoldable pub digest_of : Config → Option String → Option String
  digest_of c none = d.sha256_json c
  digest_of c (some e) = none

  -- `Digest`; `none` is an error.
  abbrev pub digest : Config → Option String
  digest c = digest_of c (validate c)
