-- ===== src/Verdict/Demo.antt =====
-- internal/verdict/verdict.go: one evidence that passes, and the same with a leak, for the tests.
use overseas.Base.{
  ℕ, pos, String, Bool, true, false, none, some, List, [], ◌∷◌, ◌≡◌, refl, is_after, insert_string,
  sort_strings,
}
use overseas.AccessModel.Validate.{check_unique}
use overseas.Config.{
  check_interface, check_parsed_route, check_cidr, check_cidrs, check_target, check_networks,
  validate, digest_of,
}
use overseas.Config.Demo.{demo_env, demo_config}
use overseas.Inventory.{Interface, Route, FirewallRule, Artifact}
use overseas.Verdict.Evidence.{
  ProbeEvidence, DownMonitorEvidence, Evidence, Artifacts, pass, VerdictEnv,
}
use overseas.Verdict.SameState.{
  same_strings, same_multiset, sorted_copy, sorted_bool_copy, normalize_rule, same_firewall_rules,
  same_state,
}
use overseas.Verdict.Checks.{
  fresh_time, valid_interval, context_of, valid_target_result, valid_envelope, valid_interface,
  valid_route, valid_nat, present_firewall_collections, valid_rule, valid_inventory,
  valid_monitor_route, valid_monitor, valid_chronology, exact_configured_target, check_targets,
  same_configured_targets,
}
use overseas.Verdict.Evaluate.{
  find_leak, leak_of, failed_names, judge_failed, is_bound_evidence, judge_artifacts,
  judge_complete, judge_leak, judge_expected, evaluate,
}

abbrev pub verdict_env : VerdictEnv
verdict_env = record {
  config = demo_env;
  encode_interface = λ i. i.alias;
  encode_route = λ r. r.destination_prefix;
  encode_nat = λ n. n.name;
  encode_rule = λ r. r.name;
  quote = λ s. s;
}

abbrev interface_of : String → Interface
interface_of alias = record {
  alias = alias;
  index = pos 4;
  address_family = "IPv4";
  status = "Connected";
  forwarding = "Disabled";
  mtu = pos 1500;
}

abbrev demo_rule : FirewallRule
demo_rule = record {
  name = "rule";
  display_name = "rule";
  description = "";
  group = "";
  enabled = "True";
  profile = "Any";
  direction = "Outbound";
  action = "Block";
  edge_traversal_policy = "Block";
  loose_source_mapping = false;
  local_only_mapping = false;
  owner = "";
  policy_store_source = "";
  policy_store_source_type = "";
  platforms = some [];
  interface_aliases = some ("ppp0" ∷ "eth0" ∷ []);
  interface_types = some [];
  local_addresses = some [];
  remote_addresses = some [];
  remote_dynamic_keyword_addresses = some [];
  protocols = some [];
  local_ports = some [];
  remote_ports = some [];
  icmp_types = some [];
  dynamic_targets = some [];
  programs = some [];
  packages = some [];
  services = some [];
  authentications = some [];
  encryptions = some [];
  override_block_rules = some (true ∷ false ∷ []);
  local_users = some [];
  remote_users = some [];
  remote_machines = some [];
}

abbrev demo_route : Route
demo_route = record {
  alias = "eth0";
  index = pos 4;
  destination_prefix = "0.0.0.0/0";
  next_hop = "192.0.2.1";
  metric = pos 25;
  state = "Alive";
}

-- The inventory taken at a time, its interfaces in the order given.
abbrev inventory_at : ℕ → List Interface → Artifact
inventory_at time interfaces = record {
  schema_version = pos 1;
  run_id = "run-0001";
  config_digest = "d1";
  captured_at = time;
  state = record {
    interfaces = interfaces;
    routes = demo_route ∷ [];
    nat = some [];
    firewall_rules = demo_rule ∷ [];
  };
}

abbrev probe_at : ℕ → ℕ → Bool → ProbeEvidence
probe_at start finish reachable = record {
  schema_version = pos 1;
  run_id = "run-0001";
  config_digest = "d1";
  started_at = start;
  finished_at = finish;
  results =
      record {
        target_name = "one";
        target_url = "https://example.org/";
        is_reachable = reachable;
        is_healthy = reachable;
        started_at = start;
        finished_at = finish;
      }
      ∷ [];
  invalid_records = pos 0;
}

abbrev demo_monitor : DownMonitorEvidence
demo_monitor = record {
  schema_version = pos 1;
  run_id = "run-0001";
  config_digest = "d1";
  started_at = 300;
  finished_at = 600;
  sample_count = pos 9;
  telecom_route_prefixes = "198.51.100.0/24" ∷ [];
  has_reconnected = false;
  reconnect_at = 0;
  is_interface_up = false;
  reconnect_routes = [];
}

abbrev pub demo_artifacts : Bool → Artifacts
demo_artifacts reached = record {
  before = inventory_at 100 (interface_of "wg0" ∷ interface_of "ppp0" ∷ interface_of "eth0" ∷ []);
  up = probe_at 200 250 true;
  down = probe_at 400 500 reached;
  monitor = demo_monitor;
  after = inventory_at 700 (interface_of "eth0" ∷ interface_of "wg0" ∷ interface_of "ppp0" ∷ []);
}

abbrev evidence_of : Artifacts → Evidence
evidence_of a = record {
  run_id = "run-0001";
  config = some demo_config;
  evaluated_at = 1000;
  inventory_before = some a.before;
  telecom_up = some a.up;
  telecom_down = some a.down;
  down_monitor = some a.monitor;
  inventory_after = some a.after;
  artifact_errors = [];
}

abbrev pub demo_evidence : Evidence
demo_evidence = evidence_of (demo_artifacts false)

-- A leak, in evidence that lacks the rest.
abbrev pub leaking_evidence : Evidence
leaking_evidence = record (evidence_of (demo_artifacts true)) {
  inventory_after = none;
  artifact_errors = "telecom-up.json" ∷ [];
}

pub demo_passes : (evaluate verdict_env demo_evidence).status ≡ pass
unfolding evaluate judge_expected context_of digest_of validate check_interface check_networks
    check_unique check_parsed_route check_cidrs check_cidr check_target judge_leak leak_of find_leak
    valid_envelope valid_target_result valid_interval fresh_time exact_configured_target
    judge_complete judge_artifacts is_bound_evidence valid_inventory valid_interface valid_route
    valid_nat valid_rule present_firewall_collections valid_monitor valid_monitor_route same_strings
    valid_chronology same_configured_targets check_targets same_state same_multiset
    same_firewall_rules normalize_rule sorted_copy sorted_bool_copy sort_strings insert_string
    is_after failed_names judge_failed
demo_passes = refl
