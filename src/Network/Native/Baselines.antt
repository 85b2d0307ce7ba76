-- ===== src/Network/Native/Baselines.antt =====
-- internal/agent/network_native.go: the node routes of a baseline.
use mathlib.Core.Path.{subst}
use mathlib.Core.List.{Memᴰ}
use mathlib.Core.List.Memᴰ
use overseas.Base.{
  String, Bool, true, false, Option, none, some, List, [], ◌∷◌, ◌||◌, not, ◌==◌, if◌then◌else◌,
  is_empty, any, ◌≡◌, ◌⊎◌, inl, inr, refl, sym, ap, arith,
}
use overseas.Network.Native.{
  HelperAdapter, HelperInterface, HelperRoute, NetEnv, NodeRoute, Baseline, Candidate, NativeError,
  Native, normal, broken, and_then,
}
use overseas.Network.Native.Parse.{
  normalize_adapters, normalize_interfaces, parse_routes, choose_route, node_route, route_nodes,
  check_nodes_of, canonical_ipv4_addresses, reach_nodes,
}
use overseas.Network.Native.Normalize.{
  insert_by, sort_by, node_less, canonicalize, finish, normalize,
}
use overseas.Network.Native.Routes.{IsNearest, choose_route-IsNearest}

-- The route of a node is that of a candidate, the nearest of all, and is to be bypassed exactly if
-- that is a default route.
pub record IsNodeRoute (d : NetEnv) (cs : List Candidate) (r : NodeRoute) : Type 0 where
  pub best : Candidate
  pub listed : Memᴰ best cs
  pub nearest : IsNearest d r.node_address cs best
  pub prefix : r.destination_prefix ≡ best.prefix.text
  pub hop : r.next_hop ≡ best.value.next_hop
  pub index : r.interface_index ≡ best.value.interface_index
  pub metric : r.effective_metric ≡ best.effective
  pub bypass : r.is_bypass_required ≡ (best.prefix.bits == 0)

module _ {A : Type 0} (less : A → A → Bool) where
  branch_member :
      (b : Bool) (l m : List A) {y : A} → Memᴰ y (if b then l else m) → Memᴰ y l ⊎ Memᴰ y m
  branch_member true l m h = inl h
  branch_member false l m h = inr h

  insert_by-member : (x : A) (l : List A) {y : A} → Memᴰ y (insert_by less x l) → (y ≡ x) ⊎ Memᴰ y l
  unfolding insert_by
  insert_by-member x [] m = Memᴰ.cases_cons m
  insert_by-member x (z ∷ zs) m =
      elim (branch_member (less z x) (z ∷ insert_by less x zs) (x ∷ z ∷ zs) m) [
        | inr front ↦ Memᴰ.cases_cons front
        | inl later ↦ elim (Memᴰ.cases_cons later) [
          | inl e ↦ inr (Memᴰ.head e)
          | inr n ↦ elim (insert_by-member x zs n) [ inl e ↦ inl e | inr k ↦ inr (Memᴰ.tail k) ]
        ]
      ]

  pub sort_by-member : (l : List A) {y : A} → Memᴰ y (sort_by less l) → Memᴰ y l
  unfolding sort_by
  sort_by-member [] m = m
  sort_by-member (x ∷ xs) m = elim (insert_by-member x (sort_by less xs) m) [
    | inl e ↦ Memᴰ.head e
    | inr n ↦ Memᴰ.tail (sort_by-member xs n)
  ]

normal-eq : {A : Type 0} {a b : A} → normal a ≡ normal b → a ≡ b
normal-eq e = cc

-- A guard that did not refuse.
unguarded :
    {A : Type 0} (b : Bool) (e : NativeError) (n : Native A) {a : A}
    → (if b then broken e else n) ≡ normal a
    → (b ≡ false) × (n ≡ normal a)
unguarded true e n h = cc
unguarded false e n h = (refl, h)

-- What a chain that ends normally went through.
and_then-normal :
    {A B : Type 0} (n : Native A) (f : A → Native B) {b : B}
    → and_then n f ≡ normal b
    → (a : A) × (n ≡ normal a) × (f a ≡ normal b)
and_then-normal (normal a) f h = (a, refl, h)
and_then-normal (broken e) f h = cc

module _ (d : NetEnv) (cs : List Candidate) where
  node_route-IsNodeRoute :
      (node : String) (o : Option Candidate) {r : NodeRoute}
      → choose_route d node cs none ≡ o
      → node_route d node o ≡ normal r
      → IsNodeRoute d cs r
  node_route-IsNodeRoute node none c h = cc
  node_route-IsNodeRoute node (some b) {r} c h =
      let (m, p) = choose_route-IsNearest d node cs c in
      subst (IsNodeRoute d cs) (normal-eq h) (record {
        best = b;
        listed = m;
        nearest = p;
        prefix = refl;
        hop = refl;
        index = refl;
        metric = refl;
        bypass = refl;
      })

  route_nodes-IsNodeRoute :
      (nodes : List String) {ns : List NodeRoute} {r : NodeRoute}
      → route_nodes d cs nodes ≡ normal ns
      → Memᴰ r ns
      → IsNodeRoute d cs r
  unfolding route_nodes
  route_nodes-IsNodeRoute [] {ns} {r} h m =
      absurd (Memᴰ.not-nil (subst (Memᴰ r) (normal-eq (sym h)) m))
  route_nodes-IsNodeRoute (node ∷ later) {ns} {r} h m =
      let (n, h₁, h₂) = and_then-normal (node_route d node (choose_route d node cs none)) _ h in
      let (rest, h₃, h₄) = and_then-normal (route_nodes d cs later) _ h₂ in
      elim (Memᴰ.cases_cons (subst (Memᴰ r) (normal-eq (sym h₄)) m)) [
        | inl e ↦ subst (IsNodeRoute d cs) (sym e) (node_route-IsNodeRoute node _ refl h₁)
        | inr k ↦ route_nodes-IsNodeRoute later h₃ k
      ]

  check_nodes-IsNodeRoute :
      (o : Option (List String)) {ns : List NodeRoute} {r : NodeRoute}
      → check_nodes_of d o cs ≡ normal ns
      → Memᴰ r ns
      → IsNodeRoute d cs r
  check_nodes-IsNodeRoute none h m = cc
  check_nodes-IsNodeRoute (some texts) h m = route_nodes-IsNodeRoute texts h m

  abbrev has_default : Bool
  has_default = any (λ (c : Candidate). c.prefix.bits == 0) cs

  reach_nodes-default :
      (nodes : List String) {ns : List NodeRoute}
      → reach_nodes d cs nodes ≡ normal ns
      → (has_default ≡ true) × (check_nodes_of d (canonical_ipv4_addresses d nodes) cs ≡ normal ns)
  unfolding reach_nodes
  reach_nodes-default nodes h =
      let (p, q) = unguarded (not has_default) _ _ h in (ground (arith, p), q)

-- If `normalizeNativeNetwork` gives a baseline, then the routes it parsed contain a default route, and
-- every node route of the baseline is that of a parsed route which reaches the node, has the longest
-- prefix of those that do and among these the lowest effective metric, and is to be bypassed exactly
-- if it is a default route.
pub normalize-IsNodeRoute :
    (d : NetEnv) (adapters : List HelperAdapter) (interfaces : List HelperInterface)
    (routes : List HelperRoute) (nodes : List String) {b : Baseline}
    → normalize d adapters interfaces routes nodes ≡ normal b
    → (kept : List HelperInterface) × (cs : List Candidate) × (parse_routes d kept routes
        ≡ normal cs)
      × (any (λ (c : Candidate). c.prefix.bits == 0) cs ≡ true)
      × ((r : NodeRoute) → Memᴰ r b.node_routes → IsNodeRoute d cs r)
unfolding normalize finish canonicalize
normalize-IsNodeRoute d adapters interfaces routes nodes {b} h =
    let (full, h₀) =
      unguarded (is_empty adapters || (is_empty interfaces || is_empty routes)) _ _ h in
    let (native, h₁, h₂) = and_then-normal (normalize_adapters d adapters) _ h₀ in
    let (kept, h₃, h₄) = and_then-normal (normalize_interfaces adapters interfaces []) _ h₂ in
    let (cs, h₅, h₆) = and_then-normal (parse_routes d kept routes) _ h₄ in
    let (ns, h₇, h₈) = and_then-normal (reach_nodes d cs nodes) _ h₆ in
    let (p, q) = reach_nodes-default d cs nodes h₇ in
    let sorted = ap (λ (b : Baseline). b.node_routes) (normal-eq (sym h₈)) in
    (
      kept,
      cs,
      h₅,
      p,
      λ r m.
          check_nodes-IsNodeRoute d cs (canonical_ipv4_addresses d nodes) q
            (sort_by-member node_less ns (subst (Memᴰ r) sorted m)),
    )
