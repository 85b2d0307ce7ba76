-- ===== src/DiagnosticMode/Privacy.antt =====
-- internal/diagnosticmode/gate.go: no output is kept while the gate is off, and never more than a
-- bounded line while it is on.
use overseas.Base.{
  ℕ, ◌≤◌, Bool, true, false, List, [], ◌∷◌, ◌++◌, ◌==◌, leb, if◌then◌else◌, length, ◌≡◌, refl,
  arith, Bool-cases, inl, inr, length-append,
}
use overseas.Trace.Event.{max_detail_bytes}
use overseas.DiagnosticMode.Gate.{
  OutputState, empty_output, clear_output, clear_streams, find_stream, put_stream, remove_stream,
  add_byte,
}

-- What an output holds where the gate is on, or off.
pub record IsKept (on : Bool) (s : OutputState) : Type 0 where
  pub nothing_off : on ≡ false → s.pending ≡ []
  pub bounded : length s.pending ≤ max_detail_bytes
  pub dropped : s.dropping ≡ true → s.pending ≡ []

abbrev pub AllKept : Bool → List (ℕ × OutputState) → Type 0
AllKept on [] = Unit
AllKept on ((i, s) ∷ l) = IsKept on s × AllKept on l

pub empty-IsKept : (on : Bool) (s : OutputState) → s.pending ≡ [] → IsKept on s
empty-IsKept on s e = record { nothing_off = λ h. e; bounded = rw e zero_le; dropped = λ h. e }
  where
    zero_le : 0 ≤ max_detail_bytes
    zero_le = omega arith

pub clear_output-IsKept : (on : Bool) (s : OutputState) → IsKept on (clear_output s)
unfolding clear_output
clear_output-IsKept on s = empty-IsKept on _ refl

pub clear_streams-AllKept : (on : Bool) (l : List (ℕ × OutputState)) → AllKept on (clear_streams l)
unfolding clear_streams
clear_streams-AllKept on [] = tt
clear_streams-AllKept on ((i, s) ∷ l) = (clear_output-IsKept on s, clear_streams-AllKept on l)

pub IsKept-on : (on : Bool) (s : OutputState) → IsKept on s → IsKept true s
IsKept-on on s p = record { nothing_off = λ h. cc; bounded = p.bounded; dropped = p.dropped }

pub AllKept-on : (on : Bool) (l : List (ℕ × OutputState)) → AllKept on l → AllKept true l
AllKept-on on [] p = tt
AllKept-on on ((i, s) ∷ l) (p, q) = (IsKept-on on s p, AllKept-on on l q)

module _ (on : Bool) (i : ℕ) where
  pub find_stream-IsKept : (l : List (ℕ × OutputState)) → AllKept on l → IsKept on (find_stream i l)
  unfolding find_stream
  find_stream-IsKept [] p = empty-IsKept on _ refl
  find_stream-IsKept ((j, s) ∷ l) (p, q) = elim (Bool-cases (i == j)) [
    | inl e ↦ rw e p
    | inr e ↦ rw e (find_stream-IsKept l q)
  ]

  pub put_stream-AllKept :
      (t : OutputState) (l : List (ℕ × OutputState))
      → IsKept on t
      → AllKept on l
      → AllKept on (put_stream i t l)
  unfolding put_stream
  put_stream-AllKept t [] k p = tt
  put_stream-AllKept t ((j, s) ∷ l) k (p, q) = elim (Bool-cases (i == j)) [
    | inl e ↦ rw e (k, q)
    | inr e ↦ rw e (p, put_stream-AllKept t l k q)
  ]

  pub remove_stream-AllKept :
      (l : List (ℕ × OutputState)) → AllKept on l → AllKept on (remove_stream i l)
  unfolding remove_stream
  remove_stream-AllKept [] p = tt
  remove_stream-AllKept ((j, s) ∷ l) (p, q) = elim (Bool-cases (i == j)) [
    | inl e ↦ rw e q
    | inr e ↦ rw e (p, remove_stream-AllKept l q)
  ]

pub append-AllKept :
    (on : Bool) (i : ℕ) (l : List (ℕ × OutputState))
    → AllKept on l
    → AllKept on (l ++ ((i, empty_output) ∷ []))
append-AllKept on i [] p = (empty-IsKept on _ refl, tt)
append-AllKept on i ((j, s) ∷ l) (p, q) = (p, append-AllKept on i l q)

if-Kept :
    {on : Bool} {s t : OutputState} (b : Bool)
    → IsKept on s
    → (b ≡ false → IsKept on t)
    → IsKept on (if b then s else t)
if-Kept true p q = p
if-Kept false p q = q refl

pub add_byte-IsKept : (b : ℕ) (s : OutputState) → IsKept true s → IsKept true (add_byte b s)
unfolding add_byte
add_byte-IsKept b s p =
    let size = length-append s.pending (b ∷ []) in
    if-Kept s.dropping p λ e.
      if-Kept (leb max_detail_bytes (length s.pending)) (empty-IsKept true _ refl)
        λ h. record { nothing_off = λ k. cc; bounded = ground arith; dropped = λ k. cc }

-- What a closed stream may still hold: a bounded line.
abbrev pub IsBounded : OutputState → Type 0
IsBounded s = length s.pending ≤ max_detail_bytes

abbrev pub AllBounded : List (ℕ × OutputState) → Type 0
AllBounded [] = Unit
AllBounded ((i, s) ∷ l) = IsBounded s × AllBounded l

pub clear_output-IsBounded : (s : OutputState) → IsBounded (clear_output s)
clear_output-IsBounded s = (clear_output-IsKept true s).bounded

pub find_stream-IsBounded :
    (i : ℕ) (l : List (ℕ × OutputState)) → AllBounded l → IsBounded (find_stream i l)
unfolding find_stream
find_stream-IsBounded i [] p = (empty-IsKept true empty_output refl).bounded
find_stream-IsBounded i ((j, s) ∷ l) (p, q) = elim (Bool-cases (i == j)) [
  | inl e ↦ rw e p
  | inr e ↦ rw e (find_stream-IsBounded i l q)
]

pub put_stream-AllBounded :
    (i : ℕ) (t : OutputState) (l : List (ℕ × OutputState))
    → IsBounded t
    → AllBounded l
    → AllBounded (put_stream i t l)
unfolding put_stream
put_stream-AllBounded i t [] k p = tt
put_stream-AllBounded i t ((j, s) ∷ l) k (p, q) = elim (Bool-cases (i == j)) [
  | inl e ↦ rw e (k, q)
  | inr e ↦ rw e (p, put_stream-AllBounded i t l k q)
]

pub add_byte-IsBounded : (b : ℕ) (s : OutputState) → IsBounded s → IsBounded (add_byte b s)
unfolding add_byte
add_byte-IsBounded b s p = ground (arith, length-append s.pending (b ∷ []))
