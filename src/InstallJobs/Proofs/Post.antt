-- ===== src/InstallJobs/Proofs/Post.antt =====
-- What holds when a method ends: one predicate for its result and another for an exception.
use ha_paneld_home_assistant.Prelude.{
  ◌≡◌, refl, subst, Option, none, some, Bool, true, false, if◌then◌else◌,
}
use ha_paneld_home_assistant.InstallJobs.World.{
  World, Result, ok, raise, M, ◌>>=◌, Error, pure, throw, require, or_throw, looking, continue,
}

pub data Post {A : Type 0} (Q : A → World → Type 0) (P : World → Type 0)
    : Result A × World → Type 0 where
  returns : {a : A} {w : World} → Q a w → Post Q P (ok a, w)
  raises : {e : Error} {w : World} → P w → Post Q P (raise e, w)

module _ {A : Type 0} {Q : A → World → Type 0} {P : World → Type 0} where
  pub Post-pure : (a : A) (w : World) → Q a w → Post Q P (pure a w)
  unfolding pure
  Post-pure a w q = returns q

  pub Post-throw : (e : Error) (w : World) → P w → Post Q P (throw e w)
  unfolding throw
  Post-throw e w h = raises h

  pub Post-or_throw :
      (o : Option A) (e : Error) (w : World)
      → ((a : A) → o ≡ some a → Q a w)
      → P w
      → Post Q P (or_throw o e w)
  unfolding or_throw
  Post-or_throw none e w q h = raises h
  Post-or_throw (some a) e w q h = returns (q a refl)

  pub Post-result :
      (r : Result A) (w : World) → ((a : A) → r ≡ ok a → Q a w) → P w → Post Q P (r, w)
  Post-result (ok a) w q h = returns (q a refl)
  Post-result (raise e) w q h = raises h

  pub Post-looking :
      (f : World → Result A) (w : World)
      → ((a : A) → f w ≡ ok a → Q a w)
      → P w
      → Post Q P (looking f w)
  unfolding looking
  Post-looking f w q h = Post-result (f w) w q h

  pub Post-if :
      (b : Bool) (x y : Result A × World)
      → (b ≡ true → Post Q P x)
      → (b ≡ false → Post Q P y)
      → Post Q P (if b then x else y)
  Post-if true x y k h = k refl
  Post-if false x y k h = h refl

pub Post-require :
    {Q : Unit {0} → World → Type 0} {P : World → Type 0} (b : Bool) (e : Error) (w : World)
    → (b ≡ true → Q tt w)
    → P w
    → Post Q P (require b e w)
unfolding require
Post-require true e w q h = returns (q refl)
Post-require false e w q h = raises h

module _ {A B : Type 0} {R : A → World → Type 0} {Q : B → World → Type 0} {P : World → Type 0} where
  Post-continue :
      (f : A → M B) (x : Result A × World)
      → Post R P x
      → ((a : A) (w' : World) → R a w' → Post Q P (f a w'))
      → Post Q P (continue f x)
  Post-continue f (ok a, w') (returns q) k = k a w' q
  Post-continue f (raise e, w') (raises q) k = raises q

  pub Post-bind :
      (m : M A) (f : A → M B) (w : World)
      → Post R P (m w)
      → ((a : A) (w' : World) → R a w' → Post Q P (f a w'))
      → Post Q P ((m >>= f) w)
  unfolding ◌>>=◌
  Post-bind m f w h k = Post-continue f (m w) h k

ok-injective : {A : Type 0} {a b : A} → ok a ≡ ok b → a ≡ b
ok-injective e = cc

pub Post-ok :
    {A : Type 0} {Q : A → World → Type 0} {P : World → Type 0} {a : A} (x : Result A × World)
    → Post Q P x
    → x.0 ≡ ok a
    → Q a x.1
Post-ok {Q = Q} (ok b, w) (returns q) e = subst (λ x. Q x w) (ok-injective e) q
Post-ok (raise f, w) (raises q) e = cc

pub Post-weaken :
    {A : Type 0} {Q R : A → World → Type 0} {P S : World → Type 0} (x : Result A × World)
    → Post R S x
    → ((a : A) (w : World) → R a w → Q a w)
    → ((w : World) → S w → P w)
    → Post Q P x
Post-weaken (ok a, w) (returns q) k h = returns (k a w q)
Post-weaken (raise e, w) (raises q) k h = raises (h w q)
