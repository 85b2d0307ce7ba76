-- ===== src/Base/Proc.antt =====
-- Procedures over a state that may wait for ever: `none` is a wait that nobody ends.
use mathlib.Core.Path.{◌≡◌, refl}
use mathlib.Core.Bool.{Bool, true, false}
use mathlib.Core.Option.{Option, none, some}
use overseas.Base.Tests.{if◌then◌else◌}

abbrev pub Proc : Type 0 → Type 0 → Type 0
Proc S A = S → Option (A × S)

module _ {S A : Type 0} where
  unfoldable pub pure : A → Proc S A
  pure a s = some (a, s)

  unfoldable pub gets : (S → A) → Proc S A
  gets f s = some (f s, s)

unfoldable pub modify : {S : Type 0} → (S → S) → Proc S (Unit {0})
modify f s = some (tt, f s)

module _ {S A B : Type 0} where
  infixl 10 ◌>>=◌ ◌>>◌
  unfoldable pub ◌>>=◌ : Proc S A → (A → Proc S B) → Proc S B
  ◌>>=◌ m f s = elim (m s) [ none ↦ none | some (a, s') ↦ f a s' ]

  abbrev pub ◌>>◌ : Proc S A → Proc S B → Proc S B
  m >> n = m >>= λ _. n

-- The run ends, and its value and last state satisfy `Q`.
abbrev pub Returns : {S A : Type 0} → (A → S → Type 0) → Option (A × S) → Type 0
Returns Q none = ⊥
Returns Q (some (a, s)) = Q a s

-- Total correctness: from every state of `P` the procedure ends, in `Q`.
pub record Sat {S A : Type 0} (P : S → Type 0) (m : Proc S A) (Q : A → S → Type 0) : Type 0 where
  pub at : (s : S) → P s → Returns Q (m s)

pub Returns-weaken :
    {S A : Type 0} {Q R : A → S → Type 0} (r : Option (A × S))
    → ((a : A) (s : S) → Q a s → R a s)
    → Returns Q r
    → Returns R r
Returns-weaken none w h = h
Returns-weaken (some (a, s)) w h = w a s h

module _ {S A : Type 0} {P : S → Type 0} {Q : A → S → Type 0} where
  pub Sat-pure : (a : A) → ((s : S) → P s → Q a s) → Sat P (pure a) Q
  unfolding pure
  Sat-pure a h = record { at = h }

  pub Sat-gets : (f : S → A) → ((s : S) → P s → Q (f s) s) → Sat P (gets f) Q
  unfolding gets
  Sat-gets f h = record { at = h }

  pub Sat-if :
      (b : Bool) (m n : Proc S A)
      → (b ≡ true → Sat P m Q)
      → (b ≡ false → Sat P n Q)
      → Sat P (if b then m else n) Q
  Sat-if true m n km kn = km refl
  Sat-if false m n km kn = kn refl

  pub Sat-weaken :
      {P' : S → Type 0} {Q' : A → S → Type 0} (m : Proc S A)
      → ((s : S) → P' s → P s)
      → ((a : A) (s : S) → Q a s → Q' a s)
      → Sat P m Q
      → Sat P' m Q'
  Sat-weaken m pre post h = record { at = λ s p. Returns-weaken (m s) post (h.at s (pre s p)) }

pub Sat-modify :
    {S : Type 0} {P : S → Type 0} {Q : Unit {0} → S → Type 0} (f : S → S)
    → ((s : S) → P s → Q tt (f s))
    → Sat P (modify f) Q
unfolding modify
Sat-modify f h = record { at = h }

module _ {S A B : Type 0} {R : A → S → Type 0} {Q : B → S → Type 0} where
  then-Returns :
      (r : Option (A × S)) (f : A → Proc S B)
      → Returns R r
      → ((a : A) → Sat (R a) (f a) Q)
      → Returns Q (elim r [ none ↦ none | some (a, s') ↦ f a s' ])
  then-Returns none f h k = h
  then-Returns (some (a, s)) f h k = (k a).at s h

module _ {S A B : Type 0} {P : S → Type 0} {R : A → S → Type 0} {Q : B → S → Type 0} where
  pub Sat-bind :
      (m : Proc S A) (f : A → Proc S B)
      → Sat P m R
      → ((a : A) → Sat (R a) (f a) Q)
      → Sat P (m >>= f) Q
  unfolding ◌>>=◌
  Sat-bind m f h k = record { at = λ s p. then-Returns (m s) f (h.at s p) k }

-- The procedure waits for ever from every state of `P`.
pub record Blocks {S A : Type 0} (P : S → Type 0) (m : Proc S A) : Type 0 where
  pub at : (s : S) → P s → m s ≡ none

module _ {S A B : Type 0} {R : A → S → Type 0} where
  then-Blocks :
      (r : Option (A × S)) (f : A → Proc S B)
      → Returns R r
      → ((a : A) → Blocks (R a) (f a))
      → (elim r [ none ↦ none | some (a, s') ↦ f a s' ]) ≡ none
  then-Blocks none f h k = refl
  then-Blocks (some (a, s)) f h k = (k a).at s h

module _ {S A B : Type 0} {P : S → Type 0} {R : A → S → Type 0} where
  pub Blocks-after :
      (m : Proc S A) (f : A → Proc S B)
      → Sat P m R
      → ((a : A) → Blocks (R a) (f a))
      → Blocks P (m >>= f)
  unfolding ◌>>=◌
  Blocks-after m f h k = record { at = λ s p. then-Blocks (m s) f (h.at s p) k }

module _ {S A B : Type 0} where
  stuck-bind :
      (r : Option (A × S)) (f : A → Proc S B)
      → r ≡ none
      → (elim r [ none ↦ none | some (a, s') ↦ f a s' ]) ≡ none
  stuck-bind none f e = refl
  stuck-bind (some (a, s)) f e = cc

module _ {S A B : Type 0} {P : S → Type 0} where
  pub Blocks-bind : (m : Proc S A) (f : A → Proc S B) → Blocks P m → Blocks P (m >>= f)
  unfolding ◌>>=◌
  Blocks-bind m f h = record { at = λ s p. stuck-bind (m s) f (h.at s p) }
