-- ===== src/BuildFeed/Feed.antt =====
-- `BuildFeed`, `normalize_feed_url` and `parse_build_feed` of
-- custom_components/panel_assistant/build_feed.py. `none` is `BuildFeedError`.
use ha_paneld_home_assistant.Prelude.{
  ℕ, ◌*◌, Bool, true, false, ◌&&◌, not, Option, none, some, List, [], ◌∷◌, leb, ltb, ◌==◌, length,
  if◌then◌else◌, is_none, any, ◌>>=◌, ◌>>◌, check, Text, codes, text_eq, mem_text, chars_in,
  ends_with,
}
use ha_paneld_home_assistant.Value.{Items, nil, cons, item, is_text}
use ha_paneld_home_assistant.Web.{Web, Url}
use ha_paneld_home_assistant.Release.Descriptor.{
  text_of, verify_detached_signature, canonical_fields,
}
use ha_paneld_home_assistant.InstallJobs.Document.{items_of, item_count, sort_by}
use ha_paneld_home_assistant.BuildFeed.Build.{FeedBuild, parse_build}

abbrev pub max_feed_bytes : ℕ
max_feed_bytes = 256 * 1024

abbrev pub max_signature_bytes : ℕ
max_signature_bytes = 512

abbrev pub max_feed_builds : ℕ
max_feed_builds = 500

abbrev pub feed_schema : Text
feed_schema = codes "io.github.maxlyth.hapaneld.buildfeed.v1"

abbrev pub feed_channels : List Text
feed_channels = codes "maintainer" ∷ codes "beta" ∷ []

abbrev pub feed_fields : List Text
feed_fields = codes "builds" ∷ codes "channel" ∷ codes "schema" ∷ []

pub record BuildFeed : Type 0 where
  pub channel : Text
  pub builds : List FeedBuild
  pub raw : Text
  pub signature : Text

unfoldable pub first_build : List FeedBuild → Option FeedBuild
first_build [] = none
first_build (b ∷ bs) = some b

unfoldable pub newest : BuildFeed → Option FeedBuild
unfolding first_build
newest feed = first_build feed.builds

unfoldable pub find_build : ℕ → List FeedBuild → Option FeedBuild
find_build version_code [] = none
find_build version_code (b ∷ bs) =
    if b.version_code == version_code then some b else find_build version_code bs

unfoldable pub find : BuildFeed → ℕ → Option FeedBuild
unfolding find_build
find feed version_code = find_build version_code feed.builds

-- `len({build.version_code for build in builds}) == len(builds)`.
unfoldable pub codes_distinct : List FeedBuild → Bool
unfolding any
codes_distinct [] = true
codes_distinct (b ∷ bs) = not (any (λ c. b.version_code == c.version_code) bs) && codes_distinct bs

-- `sorted(builds, key=version_code, reverse=True)`.
unfoldable pub newest_first : List FeedBuild → List FeedBuild
unfolding sort_by
newest_first = sort_by (λ a b. leb b.version_code a.version_code)

has_host : Option Text → Bool
has_host none = false
has_host (some host) = ltb 0 (length host)

is_plain_url : Url → Bool
unfolding text_eq has_host ends_with
is_plain_url url =
    text_eq url.scheme (codes "https")
    && (has_host url.host
        && (is_none url.user
            && (is_none url.password
                && (text_eq url.query_string []
                    && (text_eq url.fragment [] && ends_with (codes ".json") url.path)))))

module _ (w : Web) where
  unfoldable pub normalize_feed_url : Text → Option Url
  unfolding chars_in is_plain_url
  normalize_feed_url value = do
    check (ltb 0 (length value) && leb (length value) 2048)
    check (chars_in (λ c. leb b'!' c && leb c b'~') value)
    url ← w.url_of value
    check (is_plain_url url)
    some url

  unfoldable pub parse_builds : Url → Items → Option (List FeedBuild)
  unfolding parse_build
  parse_builds feed_url nil = some []
  parse_builds feed_url (cons v vs) = do
    b ← parse_build w feed_url v
    bs ← parse_builds feed_url vs
    some (b ∷ bs)

  -- A body that is its own canonical form is ASCII, and so the decoding of other bytes is refused.
  unfoldable pub parse_build_feed : Text → Text → Url → Option BuildFeed
  unfolding verify_detached_signature chars_in canonical_fields item is_text text_of mem_text
      items_of item_count parse_builds codes_distinct newest_first
  parse_build_feed body signature feed_url = do
    check (leb (length body) max_feed_bytes)
    verify_detached_signature w body signature
    check (chars_in (λ c. ltb c 128) body)
    fields ← canonical_fields w feed_fields body
    check (is_text feed_schema (← item (codes "schema") fields))
    channel ← text_of (← item (codes "channel") fields)
    check (mem_text channel feed_channels)
    entries ← items_of (← item (codes "builds") fields)
    check (leb (item_count entries) max_feed_builds)
    builds ← parse_builds feed_url entries
    check (codes_distinct builds)
    some (record {
      channel = channel;
      builds = newest_first builds;
      raw = body;
      signature = signature;
    })
