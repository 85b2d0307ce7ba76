-- ===== src/Network/Native/Routes.antt =====
-- internal/agent/network_native.go: the route chosen for a node is the nearest that reaches it.
use mathlib.Core.Path.{subst}
use mathlib.Core.List.{Memᴰ}
use overseas.Base.{
  ℤ, pos, negsuc, leb_int, String, Bool, true, false, none, some, List, [], ◌∷◌, ◌&&◌, ◌||◌, not,
  ltb, ◌==◌, if_true, if_false, all, ◌≡◌, ◌⊎◌, inl, inr, refl, sym, ap, ◌∙◌, arith, Bool-cases,
}
use overseas.Network.Native.{NetEnv, Candidate}
use overseas.Network.Native.Parse.{route_candidate_less, choose_route}

-- A candidate with a longer prefix, or with as long a one and no higher effective metric.
abbrev pub is_nearer : Candidate → Candidate → Bool
is_nearer a b =
    ltb b.prefix.bits a.prefix.bits
    || (a.prefix.bits == b.prefix.bits && leb_int a.effective b.effective)

leb_int_trans : (a b c : ℤ) → leb_int a b ≡ true → leb_int b c ≡ true → leb_int a c ≡ true
leb_int_trans (pos a) (pos b) (pos c) h k = ground (arith, h, k)
leb_int_trans (pos a) (pos b) (negsuc c) h k = cc
leb_int_trans (pos a) (negsuc b) c h k = cc
leb_int_trans (negsuc a) (pos b) (pos c) h k = refl
leb_int_trans (negsuc a) (pos b) (negsuc c) h k = cc
leb_int_trans (negsuc a) (negsuc b) (pos c) h k = refl
leb_int_trans (negsuc a) (negsuc b) (negsuc c) h k = ground (arith, h, k)

leb_int_total : (a b : ℤ) → (leb_int a b || leb_int b a) ≡ true
leb_int_total (pos a) (pos b) = ground arith
leb_int_total (pos a) (negsuc b) = refl
leb_int_total (negsuc a) (pos b) = refl
leb_int_total (negsuc a) (negsuc b) = ground arith

nearer_trans :
    (a b c : Candidate) → is_nearer a b ≡ true → is_nearer b c ≡ true → is_nearer a c ≡ true
nearer_trans a b c h k = ground (arith, h, k, leb_int_trans a.effective b.effective c.effective)

less-nearer : (a b : Candidate) → route_candidate_less a b ≡ true → is_nearer a b ≡ true
unfolding route_candidate_less
less-nearer a b h = ground (arith, h, leb_int_total a.effective b.effective)

unless-nearer : (a b : Candidate) → route_candidate_less a b ≡ false → is_nearer b a ≡ true
unfolding route_candidate_less
unless-nearer a b h = ground (arith, h, leb_int_total a.effective b.effective)

nearer_refl : (a : Candidate) → is_nearer a a ≡ true
nearer_refl a = ground (arith, leb_int_total a.effective a.effective)

module _ (d : NetEnv) (node : String) where
  -- A candidate that reaches the node, and that is as near as any other that does.
  pub record IsNearest (cs : List Candidate) (b : Candidate) : Type 0 where
    pub reaches : d.contains b.prefix node ≡ true
    pub nearest : all (λ c. not (d.contains c.prefix node) || is_nearer b c) cs ≡ true

  nearest-weaken :
      (a b : Candidate) (cs : List Candidate)
      → is_nearer a b ≡ true
      → all (λ c. not (d.contains c.prefix node) || is_nearer b c) cs ≡ true
      → all (λ c. not (d.contains c.prefix node) || is_nearer a c) cs ≡ true
  nearest-weaken a b [] h p = refl
  nearest-weaken a b (c ∷ cs) h p =
      ground (arith, h, p, nearer_trans a b c h, nearest-weaken a b cs h)

  -- What the loop has found from a first candidate on.
  record IsImproved (best : Candidate) (cs : List Candidate) (b : Candidate) : Type 0 where
    listed : (best ≡ b) ⊎ Memᴰ b cs
    improved : is_nearer b best ≡ true
    chosen : IsNearest cs b

  improve :
      (best : Candidate) (cs : List Candidate) {b : Candidate}
      → d.contains best.prefix node ≡ true
      → choose_route d node cs (some best) ≡ some b
      → IsImproved best cs b
  unfolding choose_route
  improve best [] {b} h e =
      let same : best ≡ b = cc in
      record {
        listed = inl same;
        improved = subst (λ x. is_nearer x best ≡ true) same (nearer_refl best);
        chosen = record {
          reaches = subst (λ x. d.contains x.prefix node ≡ true) same h;
          nearest = refl;
        };
      }
  improve best (c ∷ cs) {b} h e = elim (Bool-cases (d.contains c.prefix node)) [
    | inr away ↦
        let p = improve best cs h (sym (if_true _ _ (ap not away)) ∙ e) in
        record {
          listed = later best p.listed;
          improved = p.improved;
          chosen = record {
            reaches = p.chosen.reaches;
            nearest = rw (away, p.chosen.nearest) refl;
          };
        }
    | inl here ↦ elim (Bool-cases (route_candidate_less c best)) [
      | inl less ↦
          let p = improve c cs here (sym (if_false _ _ (ap not here) ∙ if_true _ _ less) ∙ e) in
          record {
            listed = inr (moved p.listed);
            improved = nearer_trans b c best p.improved (less-nearer c best less);
            chosen = record {
              reaches = p.chosen.reaches;
              nearest = rw (here, p.improved, p.chosen.nearest) refl;
            };
          }
      | inr more ↦
          let p = improve best cs h (sym (if_false _ _ (ap not here) ∙ if_false _ _ more) ∙ e) in
          let close = nearer_trans b best c p.improved (unless-nearer c best more) in
          record {
            listed = later best p.listed;
            improved = p.improved;
            chosen = record {
              reaches = p.chosen.reaches;
              nearest = rw (here, close, p.chosen.nearest) refl;
            };
          }
    ]
  ]
    where
      later :
          {c : Candidate} (best : Candidate) {cs : List Candidate}
          → (best ≡ b) ⊎ Memᴰ b cs
          → (best ≡ b) ⊎ Memᴰ b (c ∷ cs)
      later best (inl same) = inl same
      later best (inr there) = inr (Memᴰ.tail there)

      moved : {c : Candidate} {cs : List Candidate} → (c ≡ b) ⊎ Memᴰ b cs → Memᴰ b (c ∷ cs)
      moved (inl same) = Memᴰ.head (sym same)
      moved (inr there) = Memᴰ.tail there

  -- The route chosen of a list is one of the list, reaches the node, and is as near as any that does.
  pub choose_route-IsNearest :
      (cs : List Candidate) {b : Candidate}
      → choose_route d node cs none ≡ some b
      → Memᴰ b cs × IsNearest cs b
  unfolding choose_route
  choose_route-IsNearest [] e = cc
  choose_route-IsNearest (c ∷ cs) {b} e = elim (Bool-cases (d.contains c.prefix node)) [
    | inr away ↦
        let (m, p) = choose_route-IsNearest cs (sym (if_true _ _ (ap not away)) ∙ e) in
        (Memᴰ.tail m, record { reaches = p.reaches; nearest = rw (away, p.nearest) refl })
    | inl here ↦
        let p = improve c cs here (sym (if_false _ _ (ap not here)) ∙ e) in
        (
          moved p.listed,
          record {
            reaches = p.chosen.reaches;
            nearest = rw (here, p.improved, p.chosen.nearest) refl;
          },
        )
  ]
    where
      moved : (c ≡ b) ⊎ Memᴰ b cs → Memᴰ b (c ∷ cs)
      moved (inl same) = Memᴰ.head (sym same)
      moved (inr there) = Memᴰ.tail there
