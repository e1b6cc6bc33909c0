-- ===== src/Prelude/Raising.antt =====
-- Code that may raise one of several errors: a value, or the error's code.
use mathlib.Core.Path.{◌≡◌, refl, subst}
use mathlib.Core.Bool.{Bool, true, false}
use mathlib.Core.Option.{Option, none, some}

pub data Raising (E A : Type 0) : Type 0 where
  built : A → Raising E A
  refused : E → Raising E A

infixl 5 ◌>>=◌ ◌>>◌
abbrev pub ◌>>=◌ : {E A B : Type 0} → Raising E A → (A → Raising E B) → Raising E B
built a >>= f = f a
refused e >>= f = refused e

abbrev pub ◌>>◌ : {E B : Type 0} → Raising E (Unit {0}) → Raising E B → Raising E B
m >> k = m >>= λ _. k

-- `if not test: raise error`.
abbrev pub require : {E : Type 0} → Bool → E → Raising E (Unit {0})
require true error = built tt
require false error = refused error

-- A call whose failure is the error.
abbrev pub or_refuse : {E A : Type 0} → Option A → E → Raising E A
or_refuse (some a) error = built a
or_refuse none error = refused error

-- Whatever is built satisfies `Q`.
abbrev pub Yields : {E A : Type 0} → (A → Type 0) → Raising E A → Type 0
Yields {A = A} Q m = (a : A) → m ≡ built a → Q a

abbrev success : {E A : Type 0} → A → Raising E A
success a = built a

built_eq : {E A : Type 0} {a b : A} → success {E = E} a ≡ success b → a ≡ b
built_eq e = cc

module _ {E A : Type 0} (Q : A → Type 0) where
  pub Yields-built : (a : A) → Q a → Yields {E = E} Q (built a)
  Yields-built a q b e = subst Q (built_eq {E = E} e) q

  pub Yields-bind :
      {R : Type 0} (m : Raising E R) (f : R → Raising E A)
      → ((r : R) → m ≡ built r → Yields Q (f r))
      → Yields Q (m >>= f)
  Yields-bind (built r) f h = h r refl
  Yields-bind (refused error) f h = λ b e. cc

  pub Yields-require :
      (b : Bool) (error : E) (m : Raising E A)
      → (b ≡ true → Yields Q m)
      → Yields Q (require b error >> m)
  Yields-require true error m h = h refl
  Yields-require false error m h = λ b e. cc

  pub Yields-or_refuse :
      {R : Type 0} (o : Option R) (error : E) (f : R → Raising E A)
      → ((r : R) → o ≡ some r → Yields Q (f r))
      → Yields Q (or_refuse o error >>= f)
  Yields-or_refuse (some r) error f h = h r refl
  Yields-or_refuse none error f h = λ b e. cc
