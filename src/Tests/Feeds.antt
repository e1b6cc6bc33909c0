-- ===== src/Tests/Feeds.antt =====
-- A feed of two builds, and a download of one.
use ha_paneld_home_assistant.Prelude.{
  ℕ, ◌≡◌, ◌↔◌, refl, ◌≤◌, false, some, [], ◌∷◌, ◌++◌, All, Text, codes, arith, pos,
}
use ha_paneld_home_assistant.Value.{Value, str, int, arr, obj, nil, cons, end, field, texts}
use ha_paneld_home_assistant.Web.{Web, Reply, answered}
use ha_paneld_home_assistant.Release.Tags.{feed_build_code}
use ha_paneld_home_assistant.BuildFeed.Build.{FeedBuild, feed_build_tag}
use ha_paneld_home_assistant.BuildFeed.Feed.{BuildFeed, newest, find, parse_build_feed}
use ha_paneld_home_assistant.BuildFeed.Download.{async_download_build}
use ha_paneld_home_assistant.BuildFeed.Downloaded.{Delivers, async_download_build-Delivers}
use ha_paneld_home_assistant.BuildFeed.Proofs.{
  IsFeed, parse_build_feed-IsFeed, parse_build_feed-find,
}
use ha_paneld_home_assistant.BuildFeed.Tagged.{feed_build_code-feed_build_tag}
use ha_paneld_home_assistant.Tests.Setting.{platform, digest, artifact}
use ha_paneld_home_assistant.Tests.Online.{url_at, line_of, web, signature}

abbrev commit : Text
commit = codes "0123456789012345678901234567890123456789"

abbrev published : Text
published = codes "2026-01-01T00:00:00Z"

unfoldable apk_path : Text
apk_path = codes "apks/" ++ (digest ++ codes ".apk")

unfoldable entry : ℕ → Value
unfolding texts apk_path
entry code = obj (
    field (codes "apkPath") (str apk_path) (
      field (codes "apkSha256") (str digest) (
        field (codes "apkSize") (int (pos 5)) (
          field (codes "commit") (str commit) (
            field (codes "databaseCompatibility") (str artifact.database_compatibility) (
              field (codes "launchComponent") (str artifact.launch_component) (
                field (codes "minSdk") (int (pos 26)) (
                  field (codes "packageId") (str artifact.package_id) (
                    field (codes "published") (str published) (
                      field (codes "signerCertificateSha256")
                        (str artifact.signer_certificate_sha256)
                        (field (codes "supportedAbis") (arr (texts artifact.supported_abis)) (
                          field (codes "versionCode") (int (pos code))
                            (field (codes "versionName") (str (codes "0.9.7")) end)))))))))))))

unfoldable pub feed_document : Value
unfolding entry
feed_document = obj (
    field (codes "builds") (arr (cons (entry 7) (cons (entry 42) nil))) (
      field (codes "channel") (str (codes "beta"))
        (field (codes "schema") (str (codes "io.github.maxlyth.hapaneld.buildfeed.v1")) end)))

unfoldable pub build : ℕ → FeedBuild
unfolding apk_path
build code = record {
  version_code = code;
  version_name = codes "0.9.7";
  apk_url = url_at apk_path;
  apk_sha256 = digest;
  apk_size = 5;
  commit = commit;
  database_compatibility = artifact.database_compatibility;
  min_sdk = 26;
  published = published;
}

abbrev pub feed_web : Web
feed_web = web 0 (feed_document ∷ [])

abbrev pub feed : BuildFeed
feed = record {
  channel = codes "beta";
  builds = build 42 ∷ build 7 ∷ [];
  raw = line_of 0;
  signature = signature;
}

pub feed_run :
    parse_build_feed feed_web (line_of 0) signature (url_at (codes "https://github.com/feed.json"))
    ≡ some feed
unfolding parse_build_feed feed_document build
feed_run = refl

pub feed_first : newest feed ≡ some (build 42)
unfolding newest
feed_first = refl

parse_build_feed-IsFeed_example : IsFeed feed_web (line_of 0) signature feed
parse_build_feed-IsFeed_example =
    parse_build_feed-IsFeed feed_web (line_of 0) signature
      (url_at (codes "https://github.com/feed.json")) feed feed_run

parse_build_feed-find_example :
    ((b : FeedBuild)
      → newest feed ≡ some b
      → All (λ c. c.version_code ≤ b.version_code) feed.builds)
    × ((n : ℕ) (b : FeedBuild) → find feed n ≡ some b → b.version_code ≡ n)
    × All (λ b. find feed b.version_code ≡ some b) feed.builds
parse_build_feed-find_example =
    parse_build_feed-find feed_web (line_of 0) signature
      (url_at (codes "https://github.com/feed.json")) feed feed_run

-- The five bytes in two chunks.
abbrev answer : FeedBuild → Reply
answer b = answered (record {
  has_history = false;
  url = b.apk_url;
  status = 200;
  locations = [];
  content_length = some 5;
  chunks = codes "ab" ∷ codes "cde" ∷ [];
})

download_run :
    async_download_build (platform []) (build 42) (answer (build 42)) ≡ some (codes "abcde")
unfolding async_download_build build
download_run = refl

async_download_build-Delivers_example :
    (async_download_build (platform []) (build 42) (answer (build 42)) ≡ some (codes "abcde"))
    ↔ Delivers (platform []) (build 42) (answer (build 42)) (codes "abcde")
async_download_build-Delivers_example =
    async_download_build-Delivers (platform []) (build 42) (answer (build 42)) (codes "abcde")

feed_build_code-feed_build_tag_example : feed_build_code (str (feed_build_tag 772)) ≡ some 772
feed_build_code-feed_build_tag_example =
    feed_build_code-feed_build_tag 772 (omega arith) (omega arith)
