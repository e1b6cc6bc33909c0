-- ===== src/Catalog/Listing.antt =====
-- The list of choices and the resolution of one, over one session, of
-- custom_components/panel_assistant/release_catalog.py.
use ha_paneld_home_assistant.Prelude.{
  ℕ, ◌*◌, false, Option, none, some, List, [], ◌∷◌, ◌++◌, leb, Text, codes, is_some, if◌then◌else◌,
}
use ha_paneld_home_assistant.Value.{Value, str}
use ha_paneld_home_assistant.Web.{Web}
use ha_paneld_home_assistant.Release.Tags.{is_rc_release_tag, feed_build_code}
use ha_paneld_home_assistant.Release.Artifact.{ReleaseArtifact, InstallReleaseBundle}
use ha_paneld_home_assistant.Release.Descriptor.{load_document}
use ha_paneld_home_assistant.Release.Session.{Session, Fetching, pure, lift, ◌>>=◌, ◌>>◌}
use ha_paneld_home_assistant.Release.Fetch.{async_fetch_bounded}
use ha_paneld_home_assistant.Release.Resolve.{
  max_release_response_bytes, release_url, async_resolve_stable_release, async_resolve_rc_release,
  async_resolve_install_bundle,
}
use ha_paneld_home_assistant.InstallJobs.Parse.{fields_of}
use ha_paneld_home_assistant.InstallJobs.Document.{items_of, item_count}
use ha_paneld_home_assistant.BuildFeed.Build.{FeedBuild, feed_release_artifact}
use ha_paneld_home_assistant.BuildFeed.Feed.{BuildFeed, find}
use ha_paneld_home_assistant.Catalog.Choices.{Choice, max_recent_releases, builds_of, choices_of}

abbrev pub max_catalog_bytes : ℕ
max_catalog_bytes = 1024 * 1024

-- A build of the feed, with the signed feed.
pub record FeedInstallBundle : Type 0 where
  pub artifact : ReleaseArtifact
  pub feed : Text
  pub feed_signature : Text

pub data ChosenBundle : Type 0 where
  from_release : InstallReleaseBundle → ChosenBundle
  from_feed : FeedInstallBundle → ChosenBundle

-- `except ReleaseResolutionError`: the builds, if there are any.
unfoldable pub or_builds :
    List Choice → Option (List Choice) × Session → Option (List Choice) × Session
or_builds builds (some releases, s) = (some (releases ++ builds), s)
or_builds [] (none, s) = (none, s)
or_builds (b ∷ builds) (none, s) = (some (b ∷ builds), s)

unfoldable pub found_in : BuildFeed → Option FeedBuild → Option (BuildFeed × FeedBuild)
found_in feed none = none
found_in feed (some build) = some (feed, build)

unfoldable pub build_with : Option BuildFeed → Option ℕ → Option (BuildFeed × FeedBuild)
unfolding find found_in
build_with (some feed) (some code) = found_in feed (find feed code)
build_with _ _ = none

-- The feed is what `_async_current_feed` has just read, if there is one.
unfoldable pub async_resolve_feed_choice : Option BuildFeed → Text → Option (BuildFeed × FeedBuild)
unfolding feed_build_code build_with
async_resolve_feed_choice feed tag = build_with feed (feed_build_code (str tag))

unfoldable pub artifact_of_choice : Option (BuildFeed × FeedBuild) → Option ReleaseArtifact
unfolding feed_release_artifact
artifact_of_choice none = none
artifact_of_choice (some (feed, build)) = some (feed_release_artifact build)

unfoldable pub bundle_of_choice : Option (BuildFeed × FeedBuild) → Option ChosenBundle
unfolding feed_release_artifact
bundle_of_choice none = none
bundle_of_choice (some (feed, build)) = some (
    from_feed (record {
      artifact = feed_release_artifact build;
      feed = feed.raw;
      feed_signature = feed.signature;
    }))

module _ (w : Web) (dumps : Value → Text) where
  unfoldable pub async_list_install_releases : Fetching (List Choice)
  unfolding release_url async_fetch_bounded load_document fields_of items_of item_count choices_of
  async_list_install_releases = do
    latest_url ← lift (release_url w none)
    latest_body ← async_fetch_bounded w latest_url max_release_response_bytes false
    latest ← lift (load_document w latest_body)
    recent_url ←
        lift
          (w.url_of (codes "https://api.github.com/repos/maxlyth/ha-paneld/releases?per_page=30"))
    recent_body ← async_fetch_bounded w recent_url max_catalog_bytes false
    recent ← lift (load_document w recent_body)
    fields ← lift (fields_of latest)
    documents ← lift (items_of recent)
    lift (if leb (item_count documents) max_recent_releases then some tt else none)
    pure (choices_of w dumps latest documents)

  unfoldable pub async_list_install_choices : Option BuildFeed → Fetching (List Choice)
  unfolding async_list_install_releases or_builds builds_of
  async_list_install_choices feed s = or_builds (builds_of feed) (async_list_install_releases s)

module _ (w : Web) (feed : Option BuildFeed) where
  unfoldable pub async_resolve_install_choice : Option Text → Fetching ReleaseArtifact
  unfolding async_resolve_stable_release async_resolve_feed_choice artifact_of_choice
      async_resolve_rc_release feed_build_code is_rc_release_tag
  async_resolve_install_choice none = async_resolve_stable_release w
  async_resolve_install_choice (some tag) =
      if is_some (feed_build_code (str tag))
      then lift (artifact_of_choice (async_resolve_feed_choice feed tag))
      else if is_rc_release_tag (str tag)
      then async_resolve_rc_release w tag
      else lift none

  unfoldable pub async_resolve_install_bundle_choice : Option Text → Fetching ChosenBundle
  unfolding async_resolve_install_bundle async_resolve_feed_choice bundle_of_choice feed_build_code
      is_rc_release_tag
  async_resolve_install_bundle_choice none = do
    b ← async_resolve_install_bundle w none
    pure (from_release b)
  async_resolve_install_bundle_choice (some tag) =
      if is_some (feed_build_code (str tag))
      then lift (bundle_of_choice (async_resolve_feed_choice feed tag))
      else if is_rc_release_tag (str tag)
      then (async_resolve_install_bundle w (some tag) >>= λ b. pure (from_release b))
      else lift none
