-- ===== src/Verdict/Checks.antt =====
-- internal/verdict/verdict.go: the tests of each artifact of the evidence.
use Prim.Native.String.{len, ◌++◌ as ◌then◌}
use overseas.Base.{
  ℕ, ℤ, pos, is_negative, leb_int, ◌+◌, String, Bool, true, false, Option, none, some, List, [],
  ◌∷◌, ◌&&◌, ◌||◌, not, str_eq, ltb, leb, ◌==◌, if◌then◌else◌, length, is_empty, all, is_some,
}
use overseas.AccessModel.Validate.{is_member_of}
use overseas.Config.{Config, Target, digest}
use overseas.Inventory.{Interface, Route, Nat, FirewallRule, Artifact}
use overseas.Verdict.Evidence.{
  TargetResult, ProbeEvidence, MonitorRoute, DownMonitorEvidence, Evidence, Artifacts, VerdictEnv,
}
use overseas.Verdict.SameState.{same_strings}

-- `MaxEvidenceAge` and `MaxClockSkew`, in nanoseconds.
abbrev pub max_evidence_age : ℕ
max_evidence_age = 14400000000000

abbrev pub max_clock_skew : ℕ
max_clock_skew = 120000000000

abbrev pub is_schema : ℤ → Bool
is_schema version = leb_int (pos 1) version && leb_int version (pos 1)

abbrev pub is_positive : ℤ → Bool
is_positive n = leb_int (pos 1) n

-- `freshTime`
unfoldable pub fresh_time : ℕ → ℕ → Bool
fresh_time value evaluated_at =
    not (value == 0)
    && (leb evaluated_at (value + max_evidence_age) && leb value (evaluated_at + max_clock_skew))

-- `validInterval`
unfoldable pub valid_interval : ℕ → ℕ → ℕ → Bool
valid_interval start finish evaluated_at =
    not (start == 0)
    && (leb start finish && (fresh_time start evaluated_at && fresh_time finish evaluated_at))

-- The last test of `expectedContext`.
abbrev pub with_digest : Config → Option String → Option (Config × String)
with_digest c none = none
with_digest c (some digest) = some (c, digest)

-- `expectedContext`: the configuration with its digest.
unfoldable pub context_of : VerdictEnv → Option Config → Evidence → Option (Config × String)
context_of d none e = none
context_of d (some c) e =
    if not (str_eq (d.config.trim_space e.run_id) e.run_id)
      || (ltb (len e.run_id) 8 || e.evaluated_at == 0)
    then none
    else with_digest c (digest d.config c)

abbrev pub expected_context : VerdictEnv → Evidence → Option (Config × String)
expected_context d e = context_of d e.config e

-- `validNormalizedResult`
unfoldable pub valid_target_result : VerdictEnv → ProbeEvidence → TargetResult → Bool
valid_target_result d envelope r =
    str_eq (d.config.trim_space r.target_name) r.target_name
    && (not (str_eq r.target_name "")
        && (not (str_eq r.target_url "")
            && (not (r.started_at == 0)
                && (leb r.started_at r.finished_at
                    && (leb envelope.started_at r.started_at
                        && (leb r.finished_at envelope.finished_at
                            && (not r.is_healthy || r.is_reachable)))))))

-- What binds an artifact to the run.
abbrev pub is_bound : Evidence → String → ℤ → String → String → Bool
is_bound e digest version run_id config_digest =
    is_schema version && (str_eq run_id e.run_id && str_eq config_digest digest)

-- `validProbeEnvelope`, of an envelope that is there.
unfoldable pub valid_envelope : VerdictEnv → Evidence → String → ProbeEvidence → Bool
valid_envelope d e digest probe =
    is_bound e digest probe.schema_version probe.run_id probe.config_digest
    && (not (is_empty probe.results)
        && (valid_interval probe.started_at probe.finished_at e.evaluated_at
            && all (valid_target_result d probe) probe.results))

unfoldable pub valid_interface : Interface → Bool
valid_interface i =
    not (str_eq i.alias "")
    && (is_positive i.index
        && (not (str_eq i.address_family "")
            && (not (str_eq i.status "") && (not (str_eq i.forwarding "") && is_positive i.mtu))))

unfoldable pub valid_route : Route → Bool
valid_route r =
    not (str_eq r.alias "")
    && (is_positive r.index
        && (not (str_eq r.destination_prefix "")
            && (not (str_eq r.next_hop "") && not (str_eq r.state ""))))

unfoldable pub valid_nat : Nat → Bool
valid_nat n =
    not (str_eq n.name "")
    && (not (str_eq n.internal_prefix "")
        && (not (str_eq n.store "")
            && (not (str_eq n.tcp_filtering_behavior "")
                && (not (str_eq n.udp_filtering_behavior "")
                    && (not (is_negative n.icmp_query_timeout)
                        && (not (is_negative n.tcp_established_connection_timeout)
                            && (not (is_negative n.tcp_transient_connection_timeout)
                                && not (is_negative n.udp_idle_session_timeout))))))))

-- `presentFirewallCollections`
unfoldable pub present_firewall_collections : FirewallRule → Bool
present_firewall_collections r =
    is_some r.platforms
    && (is_some r.interface_aliases
        && (is_some r.interface_types
            && (is_some r.local_addresses
                && (is_some r.remote_addresses
                    && (is_some r.remote_dynamic_keyword_addresses
                        && (is_some r.protocols
                            && (is_some r.local_ports
                                && (is_some r.remote_ports
                                    && (is_some r.icmp_types && present_programs r)))))))))
  where
    present_programs : FirewallRule → Bool
    present_programs r =
        is_some r.dynamic_targets
        && (is_some r.programs
            && (is_some r.packages
                && (is_some r.services
                    && (is_some r.authentications
                        && (is_some r.encryptions
                            && (is_some r.override_block_rules
                                && (is_some r.local_users
                                    && (is_some r.remote_users && is_some r.remote_machines))))))))

unfoldable pub valid_rule : FirewallRule → Bool
valid_rule r =
    not (str_eq r.name "")
    && (not (str_eq r.display_name "")
        && (not (str_eq r.enabled "")
            && (not (str_eq r.profile "")
                && (not (str_eq r.direction "")
                    && (not (str_eq r.action "")
                        && (not (str_eq r.edge_traversal_policy "")
                            && present_firewall_collections r))))))

abbrev pub aliases_of : List Interface → List String
aliases_of [] = []
aliases_of (i ∷ later) = i.alias ∷ aliases_of later

abbrev pub valid_nats : Option (List Nat) → Bool
valid_nats none = false
valid_nats (some l) = all valid_nat l

-- `validInventoryArtifact`
unfoldable pub valid_inventory : Evidence → Config → String → Artifact → Bool
valid_inventory e c digest a =
    is_bound e digest a.schema_version a.run_id a.config_digest
    && (fresh_time a.captured_at e.evaluated_at
        && (not (is_empty a.state.interfaces)
            && (not (is_empty a.state.routes)
                && (not (is_empty a.state.firewall_rules)
                    && (all valid_interface a.state.interfaces
                        && (is_member_of c.wireguard_interface (aliases_of a.state.interfaces)
                            && (is_member_of c.telecom_interface (aliases_of a.state.interfaces)
                                && (is_member_of c.employee_interface
                                      (aliases_of a.state.interfaces)
                                    && (all valid_route a.state.routes
                                        && (valid_nats a.state.nat
                                            && all valid_rule a.state.firewall_rules))))))))))

unfoldable pub valid_monitor_route : MonitorRoute → Bool
valid_monitor_route r =
    not (str_eq r.destination_prefix "") && (not (str_eq r.next_hop "") && not (str_eq r.state ""))

-- `validMonitor`
unfoldable pub valid_monitor : Evidence → Config → String → DownMonitorEvidence → Bool
valid_monitor e c digest m =
    is_bound e digest m.schema_version m.run_id m.config_digest
    && (is_positive m.sample_count
        && (valid_interval m.started_at m.finished_at e.evaluated_at
            && (same_strings m.telecom_route_prefixes c.telecom_route_prefixes
                && (if m.has_reconnected
                    then not (m.reconnect_at == 0)
                      && (leb m.started_at m.reconnect_at
                          && (leb m.reconnect_at m.finished_at
                              && ((m.is_interface_up || not (is_empty m.reconnect_routes))
                                  && all valid_monitor_route m.reconnect_routes)))
                    else m.reconnect_at == 0
                      && (not m.is_interface_up && is_empty m.reconnect_routes)))))

-- `validChronology`
unfoldable pub valid_chronology : Artifacts → Bool
valid_chronology a =
    leb a.before.captured_at a.up.started_at
    && (leb a.up.finished_at a.monitor.started_at
        && (leb a.monitor.started_at a.down.started_at
            && (leb a.down.finished_at a.monitor.finished_at
                && leb a.monitor.finished_at a.after.captured_at)))

-- Whether a result is that of a target.
abbrev pub is_result_of : Target → TargetResult → Bool
is_result_of t r = str_eq r.target_name t.name && str_eq r.target_url t.url

-- `exactConfiguredTarget`
unfoldable pub exact_configured_target : TargetResult → List Target → Bool
exact_configured_target r [] = false
exact_configured_target r (t ∷ ts) = is_result_of t r || exact_configured_target r ts

-- The key of the map `seen`.
abbrev pub result_key : TargetResult → String
result_key r = r.target_name then ("\0" then r.target_url)

unfoldable pub check_targets : List Target → List String → List TargetResult → Bool
check_targets expected seen [] = true
check_targets expected seen (r ∷ rs) =
    let later = check_targets expected (result_key r ∷ seen) rs in
    if not (exact_configured_target r expected)
    then false
    else if is_member_of (result_key r) seen
    then false
    else later

-- `sameConfiguredTargets`
unfoldable pub same_configured_targets : List TargetResult → List Target → Bool
same_configured_targets results expected =
    if not (length results == length expected) || is_empty expected
    then false
    else check_targets expected [] results
