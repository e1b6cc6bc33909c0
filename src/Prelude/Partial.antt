-- ===== src/Prelude/Partial.antt =====
-- Code that may raise one kind of error: `none` is the error.
use mathlib.Core.Path.{◌≡◌, refl, subst}
use mathlib.Core.Bool.{Bool, true, false}
use mathlib.Core.Option.{Option, none, some}

infixl 5 ◌>>=◌ ◌>>◌
abbrev pub ◌>>=◌ {ℓ κ} : {A : Type ℓ} {B : Type κ} → Option A → (A → Option B) → Option B
some a >>= f = f a
none >>= f = none

abbrev pub ◌>>◌ {ℓ} : {B : Type ℓ} → Option (Unit {0}) → Option B → Option B
m >> k = m >>= λ _. k

-- `if not test: raise`.
abbrev pub check : Bool → Option (Unit {0})
check true = some tt
check false = none

pub some_eq {ℓ} : {A : Type ℓ} {a b : A} → some a ≡ some b → a ≡ b
some_eq e = cc

-- Inversion of a chain that succeeded.
pub >>=-eq-some {ℓ κ} :
    {A : Type ℓ} {B : Type κ} (m : Option A) (f : A → Option B) {b : B}
    → (m >>= f) ≡ some b
    → (a : A) × (m ≡ some a) × (f a ≡ some b)
>>=-eq-some (some a) f h = (a, refl, h)
>>=-eq-some none f h = cc

pub check-eq-some : (b : Bool) {u : Unit {0}} → check b ≡ some u → b ≡ true
check-eq-some true h = refl
check-eq-some false h = cc

pub check-bind-eq-some {ℓ} :
    {B : Type ℓ} (b : Bool) (m : Option B) {r : B}
    → (check b >> m) ≡ some r
    → (b ≡ true) × (m ≡ some r)
check-bind-eq-some true m h = (refl, h)
check-bind-eq-some false m h = cc

-- Whatever comes out satisfies `Q`.
abbrev pub Gives {κ} : {A : Type 0} → (A → Type κ) → Option A → Type κ
Gives {A = A} Q o = (a : A) → o ≡ some a → Q a

module _ {κ} {A : Type 0} (Q : A → Type κ) where
  pub Gives-some : (a : A) → Q a → Gives Q (some a)
  Gives-some a q b e = subst Q (some_eq e) q

  pub Gives-bind :
      {R : Type 0} (m : Option R) (f : R → Option A)
      → ((r : R) → m ≡ some r → Gives Q (f r))
      → Gives Q (m >>= f)
  Gives-bind (some r) f h = h r refl
  Gives-bind none f h = λ b e. cc

  pub Gives-check : (b : Bool) (m : Option A) → (b ≡ true → Gives Q m) → Gives Q (check b >> m)
  Gives-check true m h = h refl
  Gives-check false m h = λ b e. cc
