-- ===== src/Verdict/SameState/Counts.antt =====
-- internal/verdict/verdict.go: inventories that `sameState` does not tell apart hold the same items, as
-- often.
use overseas.Base.{
  ℕ, ◌+◌, String, true, List, [], ◌∷◌, str_eq, if◌then◌else◌, map, ◌≡◌, refl, sym, ap, ◌∙◌, arith,
  eq_iff, if_both, is_after, insert_string, sort_strings,
}
use overseas.Inventory.{State}
use overseas.Verdict.Evidence.{VerdictEnv}
use overseas.Verdict.SameState.{
  same_strings, same_multiset, normalize_rule, items_of, same_firewall_rules, same_state,
}

-- How often a text occurs.
abbrev pub occurrences : String → List String → ℕ
occurrences w [] = 0
occurrences w (x ∷ xs) = (if str_eq w x then 1 else 0) + occurrences w xs

insert_string-occurrences :
    (w x : String) (l : List String) → occurrences w (insert_string x l) ≡ occurrences w (x ∷ l)
unfolding insert_string
insert_string-occurrences w x [] = refl
insert_string-occurrences w x (y ∷ ys) =
    if_both (λ l. occurrences w l ≡ occurrences w (x ∷ y ∷ ys)) (is_after x y)
      (λ _. omega (arith, insert_string-occurrences w x ys)) (λ _. refl)

sort_strings-occurrences :
    (w : String) (l : List String) → occurrences w (sort_strings l) ≡ occurrences w l
unfolding sort_strings
sort_strings-occurrences w [] = refl
sort_strings-occurrences w (x ∷ xs) =
    insert_string-occurrences w x (sort_strings xs)
    ∙ ap (λ n. (if str_eq w x then 1 else 0) + n) (sort_strings-occurrences w xs)

pub same_strings-eq : (l m : List String) → same_strings l m ≡ true → l ≡ m
unfolding same_strings
same_strings-eq [] [] h = refl
same_strings-eq [] (y ∷ ys) h = cc
same_strings-eq (x ∷ xs) [] h = cc
same_strings-eq (x ∷ xs) (y ∷ ys) h =
    let this : str_eq x y ≡ true = ground arith in
    let others : same_strings xs ys ≡ true = ground arith in
    cc ((eq_iff x y).0 this, same_strings-eq xs ys others)

-- Two lists whose encoded items are the same, as often.
abbrev pub SameItems : {A : Type 0} → (A → String) → List A → List A → Type 0
SameItems encode left right =
    (w : String) → occurrences w (map encode left) ≡ occurrences w (map encode right)

pub same_multiset-SameItems :
    {A : Type 0} (encode : A → String) (left right : List A)
    → same_multiset encode left right ≡ true
    → SameItems encode left right
unfolding same_multiset
same_multiset-SameItems encode left right h w =
    let same : same_strings (sort_strings (map encode left)) (sort_strings (map encode right))
        ≡ true =
      ground arith in
    let e = same_strings-eq _ _ same in
    sym (sort_strings-occurrences w (map encode left))
    ∙ ap (occurrences w) e
    ∙ sort_strings-occurrences w (map encode right)

-- Nothing was added to the state, and nothing is missing.
pub record IsRestored (d : VerdictEnv) (left right : State) : Type 0 where
  pub interfaces : SameItems d.encode_interface left.interfaces right.interfaces
  pub routes : SameItems d.encode_route left.routes right.routes
  pub nat : SameItems d.encode_nat (items_of left.nat) (items_of right.nat)
  pub rules :
      SameItems d.encode_rule
        (map normalize_rule left.firewall_rules)
        (map normalize_rule right.firewall_rules)

pub same_state-IsRestored :
    (d : VerdictEnv) (left right : State) → same_state d left right ≡ true → IsRestored d left right
unfolding same_state same_firewall_rules
same_state-IsRestored d left right h = record {
  interfaces = same_multiset-SameItems _ _ _ (ground arith);
  routes = same_multiset-SameItems _ _ _ (ground arith);
  nat = same_multiset-SameItems _ _ _ (ground arith);
  rules = same_multiset-SameItems _ _ _ (ground arith);
}
