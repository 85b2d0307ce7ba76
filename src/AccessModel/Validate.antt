-- ===== src/AccessModel/Validate.antt =====
-- internal/accessmodel/validate.go: `Validate`. The address parser of net/netip, the text functions of
-- strings and fmt, and the Windows path test are parameters.
use overseas.Base.{
  ℕ, String, Bool, false, Option, none, some, List, [], ◌∷◌, ◌&&◌, ◌||◌, not, str_eq, ltb, ◌==◌,
  if◌then◌else◌, is_empty,
}
use overseas.AccessModel.Model.{Node, CredentialRef, Policy}

-- A `netip.Addr`, by its canonical text and its tests.
pub record Address : Type 0 where
  pub text : String
  pub is_loopback : Bool
  pub is_multicast : Bool
  pub is_unspecified : Bool

-- A `netip.Prefix`
pub record Prefix : Type 0 where
  pub text : String
  pub bits : ℕ

pub record PolicyEnv : Type 0 where
  pub parse_address : String → Option Address
  pub parse_prefix : String → Option Prefix
  pub trim_space : String → String
  pub to_lower : String → String
  pub endpoint_text : String → ℕ → String  -- the address, a colon and the port in decimal
  pub is_absolute_path : String → Bool  -- `windowsCredentialPathIsAbs`

abbrev pub is_member_of : String → List String → Bool
is_member_of x [] = false
is_member_of x (y ∷ ys) = str_eq x y || is_member_of x ys

abbrev pub is_special : Address → Bool
is_special a = a.is_loopback || (a.is_multicast || a.is_unspecified)

-- A check of one item: why it is refused, or the keys that have to be new.
pub data Checked : Type 0 where
  refused : String → Checked
  keyed : String → Checked

-- The loop over a list with its map of seen keys.
unfoldable pub check_unique :
    {A : Type 0} → (A → Checked) → String → List String → List A → Option String
check_unique check duplicate seen [] = none
check_unique check duplicate seen (x ∷ xs) = elim (check x) [
  | refused e ↦ some e
  | keyed k ↦
      let rest = check_unique check duplicate (k ∷ seen) xs in
      if is_member_of k seen then some duplicate else rest
]

-- The first check that refuses decides.
abbrev pub first_error : Option String → Option String → Option String
first_error none next = next
first_error (some e) next = some e

module _ (d : PolicyEnv) where
  unfoldable pub check_prefix : String → Checked
  check_prefix value = elim (d.parse_prefix value) [
    | none ↦ refused "corporate_cidrs must contain canonical CIDRs"
    | some p ↦
        if not (str_eq p.text value)
        then refused "corporate_cidrs must contain canonical CIDRs"
        else if p.bits == 0
        then refused "corporate_cidrs must not include a default route"
        else keyed value
  ]

  unfoldable pub validate_corporate_cidrs : List String → Option String
  validate_corporate_cidrs values =
      if is_empty values
      then some "corporate_cidrs must not be empty"
      else check_unique check_prefix "corporate_cidrs must not contain duplicates" [] values

  unfoldable pub check_dns : String → Checked
  check_dns value = elim (d.parse_address value) [
    | none ↦ refused "corporate_dns must contain valid IP addresses"
    | some a ↦
        if is_special a
        then refused "corporate_dns must not contain loopback, multicast, or unspecified addresses"
        else keyed a.text
  ]

  unfoldable pub validate_corporate_dns : List String → Option String
  validate_corporate_dns values =
      check_unique check_dns "corporate_dns must not contain duplicates" [] values

  unfoldable pub check_suffix : String → Checked
  check_suffix value =
      if str_eq (d.trim_space value) ""
      then refused "internal_suffixes must not contain empty values"
      else keyed (d.to_lower value)

  unfoldable pub validate_internal_suffixes : List String → Option String
  validate_internal_suffixes values =
      check_unique check_suffix "internal_suffixes must not contain duplicates" [] values

  -- The part of `validateNodes`'s loop from the address on: a refusal, or the endpoint.
  unfoldable pub check_endpoint : ℕ → Node → Checked
  check_endpoint version node = elim (d.parse_address node.address) [
    | none ↦ refused "nodes.address must contain valid IP addresses"
    | some a ↦
        if is_special a
        then refused "nodes.address must not contain loopback, multicast, or unspecified addresses"
        else if ltb node.port 1024
        then refused "nodes.port must be 1024 or higher"
        else if version == 2
            && (not (str_eq node.transport "http-connect")
                || (not (str_eq a.text "172.20.9.15") || not (node.port == 8080)))
        then refused "schema_version 2 requires the approved http-connect endpoint"
        else keyed (d.endpoint_text a.text node.port)
  ]

  unfoldable pub check_nodes : ℕ → List String → List String → List Node → Option String
  check_nodes version ids endpoints [] = none
  check_nodes version ids endpoints (node ∷ nodes) =
      if str_eq (d.trim_space node.id) ""
      then some "nodes.id must not be empty"
      else if is_member_of node.id ids
      then some "nodes.id must be unique"
      else elim (check_endpoint version node) [
        | refused e ↦ some e
        | keyed endpoint ↦
            let rest = check_nodes version (node.id ∷ ids) (endpoint ∷ endpoints) nodes in
            if is_member_of endpoint endpoints then some "nodes endpoint must be unique" else rest
      ]

  unfoldable pub validate_nodes : ℕ → List Node → Option String
  validate_nodes version nodes =
      if is_empty nodes then some "nodes must not be empty" else check_nodes version [] [] nodes

  unfoldable pub validate_credential : CredentialRef → Option String
  validate_credential c =
      if not (str_eq c.kind "dpapi-file")
      then some "credential.kind must be \"dpapi-file\""
      else if not (d.is_absolute_path c.path)
      then some "credential.path must be an absolute path"
      else none

  unfoldable pub validate_access : Policy → Option String
  validate_access p =
      if p.schema_version == 1
      then validate_credential p.credential
      else if not (str_eq p.credential.kind "" && str_eq p.credential.path "")
      then some "credential must be empty for schema_version 2"
      else none

  -- `Validate`; `none` is the nil error.
  unfoldable pub validate : Policy → Option String
  validate p =
      if not (p.schema_version == 1) && not (p.schema_version == 2)
      then some "schema_version must be 1 or 2"
      else if not (str_eq p.mode "poc")
      then some "mode must be \"poc\""
      else if not p.block_udp
      then some "block_udp must be true"
      else if not p.block_quic
      then some "block_quic must be true"
      else first_error (validate_access p) (
          first_error (validate_nodes p.schema_version p.nodes) (
            first_error (validate_corporate_cidrs p.corporate_cidrs) (
              first_error (validate_corporate_dns p.corporate_dns)
                (validate_internal_suffixes p.internal_suffixes))))
