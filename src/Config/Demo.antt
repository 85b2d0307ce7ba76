-- ===== src/Config/Demo.antt =====
-- internal/config/config.go: one configuration that is accepted, for the tests.
use overseas.Base.{pos, String, true, false, none, some, [], ◌∷◌, str_eq, ◌≡◌, refl}
use overseas.AccessModel.Validate.{check_unique}
use overseas.Config.{
  Target, Config, NetPrefix, ConfigEnv, check_interface, check_parsed_route, check_cidr,
  check_cidrs, check_target, check_networks, validate,
}

abbrev prefix_of : String → NetPrefix
prefix_of text = record {
  text = text;
  bits = pos 24;
  is_4 = true;
  is_global_unicast = true;
  is_private = false;
  is_loopback = false;
  is_link_local_unicast = false;
  is_multicast = false;
  is_unspecified = false;
}

abbrev pub demo_env : ConfigEnv
demo_env = record {
  parse_prefix = λ text. some (prefix_of text);
  overlaps = λ p q. str_eq p.text q.text;
  parse_url = λ text. some (record { scheme = "https"; host = "example.org" });
  trim_space = λ text. text;
  sha256_json = λ c. some "d1";
}

abbrev pub demo_target : Target
demo_target = record { name = "one"; url = "https://example.org/" }

abbrev pub demo_config : Config
demo_config = record {
  wireguard_subnet = "203.0.113.0/24";
  wireguard_interface = "wg0";
  telecom_interface = "ppp0";
  telecom_route_prefixes = "198.51.100.0/24" ∷ [];
  employee_interface = "eth0";
  internal_cidrs = "192.0.2.0/24" ∷ [];
  approved_targets = demo_target ∷ [];
  probe_timeout = pos 5000000000;
}

pub config_accepted : validate demo_env demo_config ≡ none
unfolding validate check_interface check_networks check_unique check_parsed_route check_cidrs
    check_cidr check_target
config_accepted = refl
