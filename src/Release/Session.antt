-- ===== src/Release/Session.antt =====
-- The HTTP session that the downloads of custom_components/panel_assistant/release.py share: the
-- replies that are still to come, and the URLs that were asked for, the last one first. A step that
-- raises leaves the session as it stands.
use ha_paneld_home_assistant.Prelude.{Option, none, some, List}
use ha_paneld_home_assistant.Web.{Url, Reply}

-- When `replies` has run out, a request waits until its time is over.
pub record Session : Type 0 where
  pub replies : List Reply
  pub asked : List Url

abbrev pub Fetching : Type 0 → Type 0
Fetching A = Session → Option A × Session

unfoldable pub pure : {A : Type 0} → A → Fetching A
pure a s = (some a, s)

-- A step that asks nothing, `none` where it raises.
unfoldable pub lift : {A : Type 0} → Option A → Fetching A
lift o s = (o, s)

abbrev pub continue : {A B : Type 0} → (A → Fetching B) → Option A × Session → Option B × Session
continue f (none, s) = (none, s)
continue f (some a, s) = f a s

infixl 5 ◌>>=◌ ◌>>◌
unfoldable pub ◌>>=◌ : {A B : Type 0} → Fetching A → (A → Fetching B) → Fetching B
unfolding pure lift
◌>>=◌ m f s = continue f (m s)

abbrev pub ◌>>◌ : {A B : Type 0} → Fetching A → Fetching B → Fetching B
m >> k = m >>= λ _. k
