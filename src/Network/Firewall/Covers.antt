-- ===== src/Network/Firewall/Covers.antt =====
-- internal/agent/firewall_pool.go: every adapter is covered by the rules.
use mathlib.Core.Path.{subst}
use mathlib.Core.List.{Memᴰ}
use mathlib.Core.List.Memᴰ
use Prim.Native.String.{◌++◌ as ◌then◌}
use overseas.Base.{
  ℤ, String, Bool, true, false, Option, none, some, List, [], ◌∷◌, ◌||◌, not, if◌then◌else◌, eq_int,
  if_true, if_false, if_both, is_empty, map, any, ◌≡◌, ◌⊎◌, inl, inr, refl, sym, ap, ◌∙◌,
  Bool-cases, is_after, insert_string, sort_strings,
}
use overseas.AccessModel.Validate.{is_member_of}
use overseas.Network.Native.{NativeAdapter}
use overseas.Network.Native.Normalize.{insert_by, sort_by, before}
use overseas.Network.Firewall.{
  PreparedRule, PoolEnv, PoolError, Pool, built, refused_pool, pool_then, or_refuse,
  hash_canonical_prefixes, is_exempt, is_identified, guid_of, canonical_adapter, protect_adapters,
  guid_less, name_less, aliases_of_adapters, adapter_rule, shared_rule, invalid_blocked_prefixes,
  invalid_dns_prefixes, no_adapters, pool_rules, build_prepared_firewall_rules,
}

-- Sorting loses nothing.
module _ {A : Type 0} (less : A → A → Bool) where
  insert_by-keeps : (x : A) (l : List A) {y : A} → (y ≡ x) ⊎ Memᴰ y l → Memᴰ y (insert_by less x l)
  unfolding insert_by
  insert_by-keeps x [] (inl e) = Memᴰ.head e
  insert_by-keeps x [] (inr m) = Memᴰ.tail m
  insert_by-keeps x (z ∷ zs) {y} (inl e) =
      if_both (Memᴰ y) (less z x) (λ _. Memᴰ.tail (insert_by-keeps x zs (inl e))) (λ _. Memᴰ.head e)
  insert_by-keeps x (z ∷ zs) {y} (inr m) =
      if_both (Memᴰ y) (less z x)
        (λ _. elim (Memᴰ.cases_cons m) [
          | inl e ↦ Memᴰ.head e
          | inr n ↦ Memᴰ.tail (insert_by-keeps x zs (inr n))
        ])
        (λ _. Memᴰ.tail m)

  pub sort_by-keeps : (l : List A) {y : A} → Memᴰ y l → Memᴰ y (sort_by less l)
  unfolding sort_by
  sort_by-keeps [] m = m
  sort_by-keeps (x ∷ xs) m =
      insert_by-keeps x (sort_by less xs)
        (elim (Memᴰ.cases_cons m) [ inl e ↦ inl e | inr n ↦ inr (sort_by-keeps xs n) ])

pub map-keeps : {A B : Type 0} (f : A → B) (l : List A) {x : A} → Memᴰ x l → Memᴰ (f x) (map f l)
map-keeps f [] m = absurd (Memᴰ.not-nil m)
map-keeps f (y ∷ ys) m = elim (Memᴰ.cases_cons m) [
  | inl e ↦ Memᴰ.head (ap f e)
  | inr n ↦ Memᴰ.tail (map-keeps f ys n)
]

insert_string-by : (x : String) (l : List String) → insert_string x l ≡ insert_by before x l
unfolding insert_string insert_by
insert_string-by x [] = refl
insert_string-by x (y ∷ ys) =
    ap (λ later. if is_after x y then y ∷ later else x ∷ y ∷ ys) (insert_string-by x ys)

sort_strings-by : (l : List String) → sort_strings l ≡ sort_by before l
unfolding sort_strings sort_by
sort_strings-by [] = refl
sort_strings-by (x ∷ xs) =
    insert_string-by x (sort_strings xs) ∙ ap (insert_by before x) (sort_strings-by xs)

pool_then-built :
    {A B : Type 0} (n : Pool A) (f : A → Pool B) {b : B}
    → pool_then n f ≡ built b
    → (a : A) × (n ≡ built a) × (f a ≡ built b)
pool_then-built (built a) f h = (a, refl, h)
pool_then-built (refused_pool e) f h = cc

built-eq : {A : Type 0} {a b : A} → built a ≡ built b → a ≡ b
built-eq e = cc

admitted :
    {A : Type 0} (b : Bool) (e : PoolError) (n : Pool A) {a : A}
    → (if b then refused_pool e else n) ≡ built a
    → n ≡ built a
admitted true e n h = cc
admitted false e n h = h

or_refuse-built :
    {A : Type 0} (e : PoolError) (o : Option A) {a : A} → or_refuse e o ≡ built a → o ≡ some a
or_refuse-built e none h = cc
or_refuse-built e (some a) h = cc

module _ (d : PoolEnv) where
  -- The adapters that are not exempt are protected.
  protect-keeps :
      (l : List NativeAdapter) (guids : List String) (indices : List ℤ) {ps : List NativeAdapter}
      {a : NativeAdapter}
      → protect_adapters d l guids indices ≡ built ps
      → is_exempt d a ≡ false
      → Memᴰ a l
      → Memᴰ (canonical_adapter d a) ps
  unfolding protect_adapters
  protect-keeps [] guids indices h n m = absurd (Memᴰ.not-nil m)
  protect-keeps (x ∷ xs) guids indices {ps} {a} h n m =
      let h₁ = admitted (not (is_identified d x)) _ _ h in
      elim (Bool-cases (is_exempt d x)) [
        | inl exempt ↦
            let h₂ = sym (if_true _ _ exempt) ∙ h₁ in
            elim (Memᴰ.cases_cons m) [
              | inl e ↦ absurd (differ (ap (is_exempt d) e ∙ exempt) n)
              | inr k ↦ protect-keeps xs guids indices h₂ n k
            ]
        | inr covered ↦
            let h₂ =
              admitted
                (is_member_of (guid_of d x) guids || any (λ i. eq_int i x.interface_index) indices)
                _ _ (sym (if_false _ _ covered) ∙ h₁) in
            let (rest, h₃, h₄) =
              pool_then-built
                (protect_adapters d xs (guid_of d x ∷ guids) (x.interface_index ∷ indices)) _ h₂ in
            subst (Memᴰ (canonical_adapter d a)) (built-eq h₄) (elim (Memᴰ.cases_cons m) [
              | inl e ↦ Memᴰ.head (ap (canonical_adapter d) e)
              | inr k ↦ Memᴰ.tail (protect-keeps xs _ _ h₃ n k)
            ])
      ]
    where
      differ : {b : Bool} → b ≡ true → b ≡ false → ⊥
      differ p q = cc

  -- The rules that stop an adapter's traffic: its own, and the emergency's.
  pub record IsCovered (blocked : String) (rules : List PreparedRule) (a : NativeAdapter)
      : Type 0 where
    pub own : PreparedRule
    pub own_listed : Memᴰ own rules
    pub own_blocks : (own.protocol ≡ "Any") × (own.remote_addresses_sha ≡ blocked)
    pub own_ports : own.remote_ports ≡ []
    pub own_adapter :
        (own.interface_guid ≡ "{" then (guid_of d a then "}"))
        × (own.interface_alias ≡ a.interface_alias)
    pub own_standing : own.is_emergency ≡ false
    pub emergency : PreparedRule
    pub listed : Memᴰ emergency rules
    pub is_emergency : emergency.is_emergency ≡ true
    pub blocks : (emergency.protocol ≡ "Any") × (emergency.remote_addresses_sha ≡ blocked)
    pub on_adapter : Memᴰ a.interface_alias emergency.interface_aliases

  pool_rules-IsCovered :
      (blocked dns : String) (ps : List NativeAdapter) (a : NativeAdapter)
      → Memᴰ (canonical_adapter d a) ps
      → IsCovered blocked (pool_rules d blocked dns ps) a
  unfolding pool_rules
  pool_rules-IsCovered blocked dns ps a m =
      let sorted = sort_by guid_less ps in
      let n : Memᴰ (canonical_adapter d a) sorted = sort_by-keeps guid_less ps m in
      let named = map-keeps (λ (b : NativeAdapter). b.interface_alias) sorted n in
      record {
        own = adapter_rule d blocked (canonical_adapter d a);
        own_blocks = (refl, refl);
        own_ports = refl;
        own_adapter = (refl, refl);
        own_standing = refl;
        own_listed =
            sort_by-keeps name_less _
              (Memᴰ.append_left _ (map-keeps (adapter_rule d blocked) sorted n));
        emergency =
            shared_rule d "RegenBioOverseasAccess.BlockPublicEmergency"
              (sort_strings (aliases_of_adapters d sorted)) "Any" [] blocked true;
        listed = sort_by-keeps name_less _ (
            Memᴰ.append_right (map (adapter_rule d blocked) sorted)
              (Memᴰ.tail (Memᴰ.tail (Memᴰ.head refl))));
        is_emergency = refl;
        blocks = (refl, refl);
        on_adapter =
            subst (Memᴰ a.interface_alias) (sym (sort_strings-by (aliases_of_adapters d sorted)))
              (sort_by-keeps before _ named);
      }

-- If the rules are built, then every adapter that is not exempt (the loopback, the tunnel, or one that
-- is not present) has a rule of its own, of its GUID and alias, that blocks the hashed prefixes by any
-- protocol and on every port, and is listed by the emergency rule, which blocks them by any
-- protocol too.
pub build_prepared_firewall_rules-IsCovered :
    (d : PoolEnv) (adapters : List NativeAdapter) (blocked_prefixes dns_prefixes : List String)
    {rules : List PreparedRule}
    → build_prepared_firewall_rules d adapters blocked_prefixes dns_prefixes ≡ built rules
    → (blocked : String) × (hash_canonical_prefixes d blocked_prefixes ≡ some blocked)
      × ((a : NativeAdapter)
          → Memᴰ a adapters
          → is_exempt d a ≡ false
          → IsCovered d blocked rules a)
unfolding build_prepared_firewall_rules
build_prepared_firewall_rules-IsCovered d adapters blocked_prefixes dns_prefixes {rules} h =
    let (blocked, h₁, h₂) =
      pool_then-built
        (or_refuse invalid_blocked_prefixes (hash_canonical_prefixes d blocked_prefixes)) _ h in
    let (dns, h₃, h₄) =
      pool_then-built (or_refuse invalid_dns_prefixes (hash_canonical_prefixes d dns_prefixes)) _
        h₂ in
    let (ps, h₅, h₆) = pool_then-built (protect_adapters d adapters [] []) _ h₄ in
    let same = built-eq (admitted (is_empty ps) no_adapters _ h₆) in
    (
      blocked,
      or_refuse-built invalid_blocked_prefixes (hash_canonical_prefixes d blocked_prefixes) h₁,
      λ a m n.
          subst (λ l. IsCovered d blocked l a) same
            (pool_rules-IsCovered d blocked dns ps a (protect-keeps d adapters [] [] h₅ n m)),
    )
