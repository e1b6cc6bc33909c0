-- ===== src/BuildFeed/Fetch.antt =====
-- `async_fetch_build_feed` of custom_components/panel_assistant/build_feed.py.
use ha_paneld_home_assistant.Prelude.{false}
use ha_paneld_home_assistant.Web.{Web, Url}
use ha_paneld_home_assistant.Release.Session.{Fetching, lift, ◌>>=◌}
use ha_paneld_home_assistant.Release.Fetch.{async_fetch_bounded}
use ha_paneld_home_assistant.BuildFeed.Feed.{
  BuildFeed, max_feed_bytes, max_signature_bytes, parse_build_feed,
}

unfoldable pub async_fetch_build_feed : Web → Url → Fetching BuildFeed
unfolding async_fetch_bounded parse_build_feed
async_fetch_build_feed w feed_url = do
  body ← async_fetch_bounded w feed_url max_feed_bytes false
  signature ← async_fetch_bounded w (w.with_signature_name feed_url) max_signature_bytes false
  lift (parse_build_feed w body signature feed_url)
