-- ===== src/Catalog/Offered.antt =====
-- What the list of choices offers, in custom_components/panel_assistant/release_catalog.py.
use ha_paneld_home_assistant.Prelude.{
  ◌≡◌, refl, Option, none, some, List, [], ◌∷◌, ◌++◌, map, All, Text,
}
use ha_paneld_home_assistant.Value.{Value}
use ha_paneld_home_assistant.Web.{Web, Url}
use ha_paneld_home_assistant.Release.Session.{Session, lift}
use ha_paneld_home_assistant.BuildFeed.Build.{FeedBuild, feed_release_artifact}
use ha_paneld_home_assistant.BuildFeed.Feed.{BuildFeed, newest, first_build, find, parse_build_feed}
use ha_paneld_home_assistant.BuildFeed.Codes.{HasCode}
use ha_paneld_home_assistant.BuildFeed.Proofs.{parse_build_feed-IsFeed, parse_build_feed-find}
use ha_paneld_home_assistant.BuildFeed.Tagged.{feed_build_code-feed_build_tag}
use ha_paneld_home_assistant.Catalog.Choices.{Choice, build_choice, builds_of}
use ha_paneld_home_assistant.Catalog.Listing.{
  or_builds, async_list_install_releases, async_list_install_choices, async_resolve_feed_choice,
  artifact_of_choice, async_resolve_install_choice, build_with, found_in,
}

-- The tag of the choice resolves to the build, without a request.
abbrev pub Resolves : Web → BuildFeed → FeedBuild → Type 0
Resolves w feed b =
    (s : Session)
    → async_resolve_install_choice w (some feed) (some (build_choice b).tag) s
      ≡ (some (feed_release_artifact b), s)

pub record IsOffered (w : Web) (dumps : Value → Text) (feed : BuildFeed) (s : Session)
    : Type 0 where
  pub releases : List Choice
  pub listed :
      (async_list_install_choices w dumps (some feed) s).0
      ≡ some (releases ++ map build_choice feed.builds)
  pub resolves : All (Resolves w feed) feed.builds

listed-Resolves :
    (w : Web) (feed : BuildFeed) (b : FeedBuild)
    → HasCode b
    → find feed b.version_code ≡ some b
    → Resolves w feed b
unfolding async_resolve_install_choice build_choice async_resolve_feed_choice build_with found_in
    artifact_of_choice lift
listed-Resolves w feed b (one, most) found s =
    rw (feed_build_code-feed_build_tag b.version_code one most, found)

every-Resolves :
    (w : Web) (feed : BuildFeed) (bs : List FeedBuild)
    → All HasCode bs
    → All (λ b. find feed b.version_code ≡ some b) bs
    → All (Resolves w feed) bs
every-Resolves w feed [] codes found = tt
every-Resolves w feed (b ∷ bs) (code, codes) (e, found) =
    (listed-Resolves w feed b code e, every-Resolves w feed bs codes found)

-- Builds are offered whether or not the releases can be listed.
or_builds-some :
    (b : Choice) (builds : List Choice) (listed : Option (List Choice) × Session)
    → (releases : List Choice) × ((or_builds (b ∷ builds) listed).0
        ≡ some (releases ++ (b ∷ builds)))
unfolding or_builds
or_builds-some b builds (some releases, s) = (releases, refl)
or_builds-some b builds (none, s) = ([], refl)

builds-listed :
    (bs : List FeedBuild) (listed : Option (List Choice) × Session) {b : FeedBuild}
    → first_build bs ≡ some b
    → (releases : List Choice) × ((or_builds (map build_choice bs) listed).0
        ≡ some (releases ++ map build_choice bs))
unfolding first_build
builds-listed [] listed h = cc
builds-listed (b ∷ bs) listed h = or_builds-some (build_choice b) (map build_choice bs) listed

-- With a parsed feed that is not empty, the choices are listed whatever the session answers and end
-- in the builds of the feed, and the tag of each resolves to that build without a request.
pub async_list_install_choices-IsOffered :
    (w : Web) (dumps : Value → Text) (body signature : Text) (feed_url : Url) (feed : BuildFeed)
    → parse_build_feed w body signature feed_url ≡ some feed
    → (b : FeedBuild) → newest feed ≡ some b
    → (s : Session) → IsOffered w dumps feed s
unfolding newest async_list_install_choices builds_of
async_list_install_choices-IsOffered w dumps body signature feed_url feed parsed b first s =
    let is_feed = parse_build_feed-IsFeed w body signature feed_url feed parsed in
    let (highest, only, found) = parse_build_feed-find w body signature feed_url feed parsed in
    let (releases, listed) =
      builds-listed feed.builds (async_list_install_releases w dumps s) first in
    record {
      releases = releases;
      listed = listed;
      resolves = every-Resolves w feed feed.builds is_feed.in_range found;
    }
