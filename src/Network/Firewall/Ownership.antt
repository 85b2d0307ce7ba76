-- ===== src/Network/Firewall/Ownership.antt =====
-- internal/agent/firewall_pool.go: the rules found are those of the ledger.
use mathlib.Core.Path.{subst}
use mathlib.Core.List.{Memᴰ}
use mathlib.Core.List.Memᴰ
use overseas.Base.{
  String, Bool, true, false, Option, none, some, List, [], ◌∷◌, ◌&&◌, ◌||◌, not, str_eq, ◌==◌,
  if◌then◌else◌, is_empty, length, map, all, ◌≡◌, inl, inr, refl, sym, ap, ◌∙◌, arith, eq_iff,
  Bool-cases, sort_strings,
}
use overseas.AccessModel.Validate.{is_member_of, first_error}
use overseas.AccessModel.Accepted.{is_distinct, passed, first_none}
use overseas.Verdict.SameState.{same_strings}
use overseas.Verdict.SameState.Counts.{same_strings-eq}
use overseas.Network.Native.Normalize.{sort_by}
use overseas.Network.Native.Baselines.{sort_by-member}
use overseas.Network.Firewall.{PreparedRule, name_less}
use overseas.Network.Firewall.Covers.{sort_by-keeps, map-keeps}

abbrev pub canonical_rule : PreparedRule → PreparedRule
canonical_rule r = record r {
  remote_ports = sort_strings r.remote_ports;
  interface_aliases = sort_strings r.interface_aliases;
}

-- `canonicalPreparedRules`
unfoldable pub canonical_prepared_rules : List PreparedRule → List PreparedRule
canonical_prepared_rules values = sort_by name_less (map canonical_rule values)

-- The loop over the ledger, with its map of names.
unfoldable pub check_ledger : List PreparedRule → List String → Option String
check_ledger [] seen = none
check_ledger (r ∷ later) seen =
    let rest = check_ledger later (r.name ∷ seen) in
    if str_eq r.name "" || (is_member_of r.name seen || r.is_expected_enabled)
    then some "prepared firewall ledger is invalid"
    else rest

abbrev pub same_bool : Bool → Bool → Bool
same_bool true b = b
same_bool false b = not b

-- `reflect.DeepEqual` on two rules whose slices are nil if they are empty.
unfoldable pub same_rule : PreparedRule → PreparedRule → Bool
same_rule a b =
    str_eq a.name b.name
    && (str_eq a.interface_guid b.interface_guid
        && (str_eq a.interface_alias b.interface_alias
            && (same_strings a.interface_aliases b.interface_aliases
                && (str_eq a.protocol b.protocol
                    && (same_strings a.remote_ports b.remote_ports
                        && (str_eq a.remote_addresses_sha b.remote_addresses_sha
                            && (same_bool a.is_emergency b.is_emergency
                                && same_bool a.is_expected_enabled b.is_expected_enabled)))))))

unfoldable pub same_rules : List PreparedRule → List PreparedRule → Bool
same_rules [] [] = true
same_rules [] (b ∷ bs) = false
same_rules (a ∷ later) [] = false
same_rules (a ∷ later) (b ∷ bs) = same_rule a b && same_rules later bs

-- `validatePreparedFirewallOwnership`
unfoldable pub validate_prepared_firewall_ownership :
    List PreparedRule → List PreparedRule → Option String
validate_prepared_firewall_ownership expected actual =
    let want = canonical_prepared_rules expected in
    if is_empty expected || not (length expected == length actual)
    then some "prepared firewall rule count does not match ownership ledger"
    else first_error (check_ledger want []) (
        if not (same_rules want (canonical_prepared_rules actual))
        then some "prepared firewall rule definition drifted"
        else none)

same_bool-eq : (a b : Bool) → same_bool a b ≡ true → a ≡ b
same_bool-eq true b h = sym h
same_bool-eq false true h = cc
same_bool-eq false false h = refl

same_rule-eq : (a b : PreparedRule) → same_rule a b ≡ true → a ≡ b
unfolding same_rule
same_rule-eq a b h =
    let n : a.name ≡ b.name = ground (arith, h, eq_iff a.name b.name) in
    let g : a.interface_guid ≡ b.interface_guid =
      ground (arith, h, eq_iff a.interface_guid b.interface_guid) in
    let i : a.interface_alias ≡ b.interface_alias =
      ground (arith, h, eq_iff a.interface_alias b.interface_alias) in
    let l = same_strings-eq a.interface_aliases b.interface_aliases (ground (arith, h)) in
    let p : a.protocol ≡ b.protocol = ground (arith, h, eq_iff a.protocol b.protocol) in
    let r = same_strings-eq a.remote_ports b.remote_ports (ground (arith, h)) in
    let s : a.remote_addresses_sha ≡ b.remote_addresses_sha =
      ground (arith, h, eq_iff a.remote_addresses_sha b.remote_addresses_sha) in
    let e = same_bool-eq a.is_emergency b.is_emergency (ground (arith, h)) in
    let x = same_bool-eq a.is_expected_enabled b.is_expected_enabled (ground (arith, h)) in
    cc (n, g, i, l, p, r, s, e, x)

same_rules-eq : (l m : List PreparedRule) → same_rules l m ≡ true → l ≡ m
unfolding same_rules
same_rules-eq [] [] h = refl
same_rules-eq [] (b ∷ bs) h = cc
same_rules-eq (a ∷ later) [] h = cc
same_rules-eq (a ∷ later) (b ∷ bs) h =
    let this : same_rule a b ≡ true = ground (arith, h) in
    let rest : same_rules later bs ≡ true = ground (arith, h) in
    cc (same_rule-eq a b this, same_rules-eq later bs rest)

-- A ledger that may own rules: each has a name that no other has, and is not enabled.
pub record IsLedger (l : List PreparedRule) : Type 0 where
  pub named : all (λ (r : PreparedRule). not (str_eq r.name "")) l ≡ true
  pub distinct : is_distinct (map (λ (r : PreparedRule). r.name) l) ≡ true
  pub idle : all (λ (r : PreparedRule). not r.is_expected_enabled) l ≡ true

-- A name that was seen is that of no later rule.
unseen_name :
    (k : String) (l : List PreparedRule) (seen : List String)
    → is_member_of k seen ≡ true
    → check_ledger l seen ≡ none
    → is_member_of k (map (λ (r : PreparedRule). r.name) l) ≡ false
unfolding check_ledger
unseen_name k [] seen m h = refl
unseen_name k (r ∷ later) seen m h =
    let (p, q) =
      passed {b = str_eq r.name "" || (is_member_of r.name seen || r.is_expected_enabled)} _ _ h in
    let rest = unseen_name k later (r.name ∷ seen) (ground (arith, m)) q in
    elim (Bool-cases (str_eq k r.name)) [
      | inl same ↦
          let e = ap (λ x. is_member_of x seen) (sym ((eq_iff k r.name).0 same)) ∙ m in
          ground (arith, p, e)
      | inr other ↦ rw (other, rest) refl
    ]

check_ledger-IsLedger :
    (l : List PreparedRule) (seen : List String) → check_ledger l seen ≡ none → IsLedger l
unfolding check_ledger
check_ledger-IsLedger [] seen h = record { named = refl; distinct = refl; idle = refl }
check_ledger-IsLedger (r ∷ later) seen h =
    let (p, q) =
      passed {b = str_eq r.name "" || (is_member_of r.name seen || r.is_expected_enabled)} _ _ h in
    let rest = check_ledger-IsLedger later (r.name ∷ seen) q in
    let self = (eq_iff r.name r.name).1 refl in
    let fresh = unseen_name r.name later (r.name ∷ seen) (rw self refl) q in
    record {
      named = ground (arith, p, rest.named);
      distinct = rw (fresh, rest.distinct) refl;
      idle = ground (arith, p, rest.idle);
    }

map-member :
    {A B : Type 0} (f : A → B) (l : List A) {y : B}
    → Memᴰ y (map f l)
    → (x : A) × Memᴰ x l × (y ≡ f x)
map-member f [] m = absurd (Memᴰ.not-nil m)
map-member f (a ∷ l) m = elim (Memᴰ.cases_cons m) [
  | inl e ↦ (a, Memᴰ.head refl, e)
  | inr n ↦ let (x, p, q) = map-member f l n in (x, Memᴰ.tail p, q)
]

-- Every rule of one list is, but for the order of its ports and aliases, one of the other.
abbrev pub Within : List PreparedRule → List PreparedRule → Type 0
Within l m =
    (r : PreparedRule)
    → Memᴰ r l
    → (s : PreparedRule) × Memᴰ s m × (canonical_rule r ≡ canonical_rule s)

same-Within :
    (l m : List PreparedRule) → canonical_prepared_rules l ≡ canonical_prepared_rules m → Within l m
unfolding canonical_prepared_rules
same-Within l m e r p =
    let q = sort_by-keeps name_less (map canonical_rule l) (map-keeps canonical_rule l p) in
    map-member canonical_rule m
      (sort_by-member name_less (map canonical_rule m) (subst (Memᴰ (canonical_rule r)) e q))

-- What the comparison of the ledger with the rules found assures.
pub record IsOwned (expected actual : List PreparedRule) : Type 0 where
  pub ledger : IsLedger (canonical_prepared_rules expected)
  pub count : length expected ≡ length actual
  pub present : Within expected actual
  pub owned : Within actual expected

-- If the ownership is accepted, then the ledger has names without repetition and no enabled rule, the
-- rules found are as many as those of the ledger, and each of either is one of the other, but for the
-- order of its ports and aliases: none is missing, changed, or foreign.
pub validate_prepared_firewall_ownership-IsOwned :
    (expected actual : List PreparedRule)
    → validate_prepared_firewall_ownership expected actual ≡ none
    → IsOwned expected actual
unfolding validate_prepared_firewall_ownership
validate_prepared_firewall_ownership-IsOwned expected actual h =
    let (p, h₁) = passed {b = is_empty expected || not (length expected == length actual)} _ _ h in
    let (q, h₂) = first_none (check_ledger (canonical_prepared_rules expected) []) _ h₁ in
    let (r, h₃) =
      passed
        {b = not (same_rules (canonical_prepared_rules expected) (canonical_prepared_rules actual))}
        _ _ h₂ in
    let same =
      same_rules-eq (canonical_prepared_rules expected) (canonical_prepared_rules actual)
        (ground (arith, r)) in
    record {
      ledger = check_ledger-IsLedger (canonical_prepared_rules expected) [] q;
      count = ground (arith, p);
      present = same-Within expected actual same;
      owned = same-Within actual expected (sym same);
    }
