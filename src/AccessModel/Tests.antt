-- ===== src/AccessModel/Tests.antt =====
-- internal/accessmodel/validate.go on a policy.
use overseas.Base.{pos, true, false, some, [], ◌∷◌}
use overseas.AccessModel.Model.{Policy}
use overseas.AccessModel.Validate.{PolicyEnv}

-- Every text is an address and a prefix of 8 bits.
abbrev demo_env : PolicyEnv
demo_env = record {
  parse_address = λ v.
      some (record { text = v; is_loopback = false; is_multicast = false; is_unspecified = false });
  parse_prefix = λ v. some (record { text = v; bits = 8 });
  trim_space = λ v. v;
  to_lower = λ v. v;
  endpoint_text = λ v port. v;
  is_absolute_path = λ v. true;
}

abbrev accepted_policy : Policy
accepted_policy = record {
  schema_version = 2;
  mode = "poc";
  nodes =
      record {
        id = "n";
        transport = "http-connect";
        address = "172.20.9.15";
        port = 8080;
        priority = pos 1;
      }
      ∷ [];
  corporate_cidrs = "10.0.0.0/8" ∷ [];
  corporate_dns = "10.1.1.1" ∷ "10.1.1.2" ∷ [];
  internal_suffixes = "corp" ∷ [];
  block_udp = true;
  block_quic = true;
  credential = record { kind = ""; path = "" };
}
