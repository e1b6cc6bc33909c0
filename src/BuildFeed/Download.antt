-- ===== src/BuildFeed/Download.antt =====
-- `async_download_build` of custom_components/panel_assistant/build_feed.py. `none` is
-- `BuildFeedError`.
use ha_paneld_home_assistant.Prelude.{
  ℕ, Bool, true, ◌&&◌, Option, none, some, List, [], ◌∷◌, ◌++◌, leb, ◌==◌, length, ◌>>=◌, ◌>>◌,
  check, Text, text_eq,
}
use ha_paneld_home_assistant.Platform.{Platform}
use ha_paneld_home_assistant.Web.{Reply, broken, answered}
use ha_paneld_home_assistant.BuildFeed.Build.{FeedBuild}

unfoldable pub announced : ℕ → Option ℕ → Bool
announced size none = true
announced size (some n) = n == size

-- The loop over the chunks: the body, and what `digest` was updated with. A chunk that makes the body
-- too long is not hashed.
unfoldable pub receive : ℕ → Text → Text → List Text → Option (Text × Text)
receive size body digest [] = some (body, digest)
receive size body digest (chunk ∷ chunks) = do
  check (leb (length (body ++ chunk)) size)
  receive size (body ++ chunk) (digest ++ chunk) chunks

module _ (p : Platform) where
  -- By the reply to the one request, for `build.apk_url`. `hexdigest()` is the digest of all that was
  -- hashed.
  unfoldable pub async_download_build : FeedBuild → Reply → Option Text
  unfolding text_eq announced receive
  async_download_build build broken = none
  async_download_build build (answered response) = do
    check (response.status == 200 && text_eq response.url.text build.apk_url.text)
    check (announced build.apk_size response.content_length)
    (body, digest) ← receive build.apk_size [] [] response.chunks
    check (length body == build.apk_size && text_eq (p.sha256_hex digest) build.apk_sha256)
    some body
