-- ===== src/InstallJobs/World.antt =====
-- What an `InstallJobManager` method runs in: the manager's fields, the disk, and the outcomes
-- that the environment has in store for the awaited calls. A method returns a value or raises, and
-- the state comes back after a raise too.
use ha_paneld_home_assistant.Prelude.{
  ℕ, Bool, false, Option, none, some, List, [], ◌∷◌, if◌then◌else◌, Text,
}
use ha_paneld_home_assistant.InstallJobs.Document.{Jobs}
use ha_paneld_home_assistant.InstallJobs.Disk.{Disk}

-- The exceptions that leave a method: the subclasses of `InstallJobError`, `CancelledError`, and
-- under `uncaught` the `ValueError`, `OverflowError` and `KeyError` that no handler names.
-- `no_draw` is no exception: the random identifiers given to the model have run out.
pub data Error : Type 0 where
  store_error conflict capacity not_found revision_error cleanup_required transition_error : Error
  cancelled uncaught no_draw : Error

-- How one awaited call ends: as it should, with an `Exception`, or with a `CancelledError`, each
-- before or after its effect.
pub data Outcome : Type 0 where
  calm fails_before fails_after cancels_before cancels_after : Outcome

-- `caller_cancelled`: the task that awaits is cancelled meanwhile.
pub record Weather : Type 0 where
  pub outcome : Outcome
  pub caller_cancelled : Bool

-- `cache` is `_jobs` and `claims` is `_claimed_jobs`; `stopping` says that Home Assistant's state
-- is `stopping` or `final_write`. When `weather` has run out, every call ends as it should.
pub record World : Type 0 where
  pub cache : Option Jobs
  pub claims : List (Text × ℕ)
  pub disk : Disk
  pub stopping : Bool
  pub weather : List Weather

pub data Result (A : Type 0) : Type 0 where
  ok : A → Result A
  raise : Error → Result A

abbrev pub M : Type 0 → Type 0
M A = World → Result A × World

unfoldable pub pure : {A : Type 0} → A → M A
pure a w = (ok a, w)

unfoldable pub throw : {A : Type 0} → Error → M A
throw e w = (raise e, w)

-- `if not test: raise e`.
unfoldable pub require : Bool → Error → M (Unit {0})
require test e w = if test then (ok tt, w) else (raise e, w)

-- A call whose error is `e`.
unfoldable pub or_throw : {A : Type 0} → Option A → Error → M A
or_throw (some a) e w = (ok a, w)
or_throw none e w = (raise e, w)

-- A step that looks at the state and leaves it.
unfoldable pub looking : {A : Type 0} → (World → Result A) → M A
looking f w = (f w, w)

abbrev pub continue : {A B : Type 0} → (A → M B) → Result A × World → Result B × World
continue f (ok a, w) = f a w
continue f (raise e, w) = (raise e, w)

infixl 5 ◌>>=◌ ◌>>◌
-- Opening this opens the steps above too.
unfoldable pub ◌>>=◌ : {A B : Type 0} → M A → (A → M B) → M B
unfolding pure throw require or_throw looking
◌>>=◌ m f w = continue f (m w)

abbrev pub ◌>>◌ : {A B : Type 0} → M A → M B → M B
m >> k = m >>= λ _. k

abbrev fine : Weather
fine = record { outcome = calm; caller_cancelled = false }

-- The outcome of the next awaited call.
unfoldable pub next_weather : List Weather → Weather
next_weather [] = fine
next_weather (x ∷ xs) = x

unfoldable pub later_weather : List Weather → List Weather
later_weather [] = []
later_weather (x ∷ xs) = xs

unfoldable pub pass : World → World
unfolding later_weather
pass w = record w { weather = later_weather w.weather }
