-- ===== src/AccessModel/Accepted.antt =====
-- internal/accessmodel/validate.go: what holds of a policy that `Validate` accepts.
use mathlib.Core.Path.{subst}
use overseas.Base.{
  map, sym, ap, ◌∙◌, ℕ, String, Bool, true, false, Option, none, some, List, [], ◌∷◌, ◌&&◌, not,
  str_eq, if◌then◌else◌, ◌≡◌, inl, inr, refl, Bool-cases, eq_iff, all, arith,
}
use overseas.AccessModel.Model.{Node}
use overseas.AccessModel.Validate.{
  PolicyEnv, is_member_of, Checked, refused, keyed, check_unique, check_endpoint, check_nodes,
  first_error,
}

abbrev pub is_keyed : Checked → Bool
is_keyed (refused e) = false
is_keyed (keyed k) = true

abbrev pub is_distinct : List String → Bool
is_distinct [] = true
is_distinct (k ∷ ks) = not (is_member_of k ks) && is_distinct ks

abbrev pub add_key : Checked → List String → List String
add_key (refused e) ks = ks
add_key (keyed k) ks = k ∷ ks

module _ {A : Type 0} (check : A → Checked) where
  abbrev pub keys : List A → List String
  keys [] = []
  keys (x ∷ xs) = add_key (check x) (keys xs)

  abbrev pub all_keyed : List A → Bool
  all_keyed [] = true
  all_keyed (x ∷ xs) = is_keyed (check x) && all_keyed xs

str_eq_refl : (s : String) → str_eq s s ≡ true
str_eq_refl s = (eq_iff s s).1 refl

-- An error's absence decides a test that would have given one.
pub passed :
    {b : Bool} (e : String) (o : Option String)
    → (if b then some e else o) ≡ none
    → (b ≡ false) × (o ≡ none)
passed {b = true} e o h = absurd (some_none e h)
  where
    some_none : (e : String) → some e ≡ none → ⊥
    some_none e h = cc
passed {b = false} e o h = (refl, h)

pub first_none : (o next : Option String) → first_error o next ≡ none → (o ≡ none) × (next ≡ none)
first_none none next h = (refl, h)
first_none (some e) next h = cc

module _ {A : Type 0} (check : A → Checked) (duplicate : String) where
  -- A key that was seen is none of the keys of an accepted list.
  unseen_key :
      (k : String) (seen : List String) (l : List A)
      → is_member_of k seen ≡ true
      → check_unique check duplicate seen l ≡ none
      → is_member_of k (keys check l) ≡ false
  unfolding check_unique
  unseen_key k seen [] m h = refl
  unseen_key k seen (x ∷ xs) m h = by_check (check x) h (λ j. unseen_key k (j ∷ seen) xs)
    where
      by_check :
          (c : Checked)
          → (elim c [
            | refused e ↦ some e
            | keyed j ↦
                if is_member_of j seen
                then some duplicate
                else check_unique check duplicate (j ∷ seen) xs
          ])
            ≡ none
          → ((j : String)
              → is_member_of k (j ∷ seen) ≡ true
              → check_unique check duplicate (j ∷ seen) xs ≡ none
              → is_member_of k (keys check xs) ≡ false)
          → is_member_of k (add_key c (keys check xs)) ≡ false
      by_check (refused e) h again = cc
      by_check (keyed j) h again = elim (Bool-cases (str_eq k j)) [
        | inl same ↦
            let e = (eq_iff k j).0 same in
            let p = passed duplicate (check_unique check duplicate (j ∷ seen) xs) h in
            let q : is_member_of j seen ≡ true = subst (λ w. is_member_of w seen ≡ true) e m in
            cc (p.0, q)
        | inr other ↦
            let p = passed duplicate (check_unique check duplicate (j ∷ seen) xs) h in
            let rest = again j (rw other m) p.1 in rw (other, rest) refl
      ]

  -- An accepted list has a key at each item, and its keys differ.
  pub check_unique-accepts :
      (seen : List String) (l : List A)
      → check_unique check duplicate seen l ≡ none
      → (all_keyed check l ≡ true) × (is_distinct (keys check l) ≡ true)
  unfolding check_unique
  check_unique-accepts seen [] h = (refl, refl)
  check_unique-accepts seen (x ∷ xs) h =
      by_check (check x) h (λ j. check_unique-accepts (j ∷ seen) xs)
    where
      by_check :
          (c : Checked)
          → (elim c [
            | refused e ↦ some e
            | keyed j ↦
                if is_member_of j seen
                then some duplicate
                else check_unique check duplicate (j ∷ seen) xs
          ])
            ≡ none
          → ((j : String)
              → check_unique check duplicate (j ∷ seen) xs ≡ none
              → (all_keyed check xs ≡ true) × (is_distinct (keys check xs) ≡ true))
          → ((is_keyed c && all_keyed check xs) ≡ true)
            × (is_distinct (add_key c (keys check xs)) ≡ true)
      by_check (refused e) h again = cc
      by_check (keyed j) h again =
          let p = passed duplicate (check_unique check duplicate (j ∷ seen) xs) h in
          let q = again j p.1 in
          let u = unseen_key j (j ∷ seen) xs (rw (str_eq_refl j) refl) p.1 in
          (q.0, rw (u, q.1) refl)

-- What a key at each item implies of each.
pub all_keyed-all :
    {A : Type 0} (check : A → Checked) (q : A → Bool) (l : List A)
    → ((x : A) → is_keyed (check x) ≡ true → q x ≡ true)
    → all_keyed check l ≡ true
    → all q l ≡ true
all_keyed-all check q [] imply h = refl
all_keyed-all check q (x ∷ xs) imply h =
    let k : is_keyed (check x) ≡ true = ground arith in
    let r : all_keyed check xs ≡ true = ground arith in
    ground (arith, imply x k, all_keyed-all check q xs imply r)

id_of : Node → Checked
id_of n = keyed n.id

keys-ids : (l : List Node) → keys id_of l ≡ map (λ (n : Node). n.id) l
unfolding id_of
keys-ids [] = refl
keys-ids (n ∷ ns) = ap (λ ks. n.id ∷ ks) (keys-ids ns)

module _ (d : PolicyEnv) (version : ℕ) where
  -- What `check_nodes` accepts has unique IDs and unique endpoints.
  check_nodes_unique :
      (ids endpoints : List String) (l : List Node)
      → check_nodes d version ids endpoints l ≡ none
      → (check_unique id_of "nodes.id must be unique" ids l ≡ none)
        × (check_unique (check_endpoint d version) "nodes endpoint must be unique" endpoints l
            ≡ none)
  unfolding check_nodes check_unique id_of
  check_nodes_unique ids endpoints [] h = (refl, refl)
  check_nodes_unique ids endpoints (n ∷ ns) h =
      let p = passed "nodes.id must not be empty" _ h in
      let q = passed "nodes.id must be unique" _ p.1 in
      by_check (check_endpoint d version n) q.1
        (λ j. check_nodes_unique (n.id ∷ ids) (j ∷ endpoints) ns) q.0
    where
      by_check :
          (c : Checked)
          → (elim c [
            | refused e ↦ some e
            | keyed j ↦
                if is_member_of j endpoints
                then some "nodes endpoint must be unique"
                else check_nodes d version (n.id ∷ ids) (j ∷ endpoints) ns
          ])
            ≡ none
          → ((j : String)
              → check_nodes d version (n.id ∷ ids) (j ∷ endpoints) ns ≡ none
              → (check_unique id_of "nodes.id must be unique" (n.id ∷ ids) ns ≡ none)
                × (check_unique
                      (check_endpoint d version)
                      "nodes endpoint must be unique"
                      (j ∷ endpoints)
                      ns
                    ≡ none))
          → is_member_of n.id ids ≡ false
          → ((if is_member_of n.id ids
                then some "nodes.id must be unique"
                else check_unique id_of "nodes.id must be unique" (n.id ∷ ids) ns)
              ≡ none)
            × ((elim c [
              | refused e ↦ some e
              | keyed j ↦
                  if is_member_of j endpoints
                  then some "nodes endpoint must be unique"
                  else check_unique
                      (check_endpoint d version)
                      "nodes endpoint must be unique"
                      (j ∷ endpoints)
                      ns
            ])
                ≡ none)
      by_check (refused e) h again m = cc
      by_check (keyed j) h again m =
          let p = passed {b = is_member_of j endpoints} "nodes endpoint must be unique" _ h in
          let q = again j p.1 in (rw (m, q.0) refl, rw (p.0, q.1) refl)

  -- The nodes of an accepted list have acceptable endpoints, which differ, and IDs that differ.
  pub check_nodes-accepts :
      (l : List Node)
      → check_nodes d version [] [] l ≡ none
      → (all_keyed (check_endpoint d version) l ≡ true)
        × ((is_distinct (map (λ (n : Node). n.id) l) ≡ true)
            × (is_distinct (keys (check_endpoint d version) l) ≡ true))
  check_nodes-accepts l h =
      let (ids, endpoints) = check_nodes_unique [] [] l h in
      let (p, q) = check_unique-accepts id_of "nodes.id must be unique" [] l ids in
      let (r, t) =
        check_unique-accepts (check_endpoint d version) "nodes endpoint must be unique" [] l
          endpoints in
      (r, (ap is_distinct (sym (keys-ids l)) ∙ q, t))
