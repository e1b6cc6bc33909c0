-- ===== src/BuildFeed/Codes.antt =====
-- The version codes that the parser of a feed lets through, in
-- custom_components/panel_assistant/build_feed.py.
use ha_paneld_home_assistant.Prelude.{
  ℕ, ◌≤◌, [], ◌∷◌, ◌++◌, arith, codes, All, Gives, Gives-some, Gives-bind, Gives-check, is_hex, pos,
}
use ha_paneld_home_assistant.Value.{Fields, Value, int, Items, nil, cons, item, keys_are, is_text}
use ha_paneld_home_assistant.Web.{Web, Url}
use ha_paneld_home_assistant.Release.Tags.{max_android_version_code}
use ha_paneld_home_assistant.Release.Descriptor.{text_of}
use ha_paneld_home_assistant.InstallJobs.Scalars.{integer, max_apk_bytes, max_sdk}
use ha_paneld_home_assistant.InstallJobs.Parse.{fields_of}
use ha_paneld_home_assistant.BuildFeed.Build.{
  FeedBuild, build_fields, apk_file, parse_build, build_of, build_texts, check_identity,
}
use ha_paneld_home_assistant.BuildFeed.Feed.{parse_builds}

-- A version code that Android allows.
abbrev pub InRange : ℕ → Type 0
InRange n = (1 ≤ n) × (n ≤ max_android_version_code)

abbrev pub HasCode : FeedBuild → Type 0
HasCode b = InRange b.version_code

integer-InRange : (v : Value) → Gives InRange (integer 1 max_android_version_code v)
unfolding integer
integer-InRange (int (pos n)) m h = ground arith
integer-InRange _ m h = cc

module _ (w : Web) (feed_url : Url) where
  build_of-HasCode :
      (fields : Fields) (version_code apk_size min_sdk : ℕ)
      → InRange version_code
      → Gives HasCode (build_of w feed_url fields version_code apk_size min_sdk)
  unfolding build_of
  build_of-HasCode fields version_code apk_size min_sdk fits =
      Gives-bind HasCode (item (codes "apkSha256") fields) _ λ digest has_digest.
        Gives-bind HasCode (text_of digest) _ λ sha256 is_digest.
          Gives-check HasCode (is_hex 64 sha256) _ λ hex.
            Gives-bind HasCode (item (codes "apkPath") fields) _ λ path has_path.
              Gives-check HasCode (is_text (codes "apks/" ++ apk_file sha256) path) _ λ named.
                Gives-bind HasCode (build_texts fields) _ λ texts read.
                  Gives-bind HasCode (check_identity fields) _ λ u identified.
                    Gives-bind HasCode (w.url_of (codes "apks/" ++ apk_file sha256)) _
                      λ path_url is_url. Gives-some HasCode _ fits

  parse_build-HasCode : (v : Value) → Gives HasCode (parse_build w feed_url v)
  unfolding parse_build
  parse_build-HasCode v = Gives-bind HasCode (fields_of v) _ λ fields is_object.
      Gives-check HasCode (keys_are build_fields fields) _ λ keyed.
        Gives-bind HasCode (item (codes "versionCode") fields) _ λ coded has_code.
          Gives-bind HasCode (integer 1 max_android_version_code coded) _ λ version_code is_code.
            Gives-bind HasCode (item (codes "apkSize") fields) _ λ sized has_size.
              Gives-bind HasCode (integer 1 max_apk_bytes sized) _ λ apk_size is_size.
                Gives-bind HasCode (item (codes "minSdk") fields) _ λ least has_sdk.
                  Gives-bind HasCode (integer 1 max_sdk least) _ λ min_sdk is_sdk.
                    build_of-HasCode fields version_code apk_size min_sdk
                      (integer-InRange coded version_code is_code)

  pub parse_builds-HasCode : (vs : Items) → Gives (All HasCode) (parse_builds w feed_url vs)
  unfolding parse_builds
  parse_builds-HasCode nil = Gives-some _ [] tt
  parse_builds-HasCode (cons v vs) = Gives-bind _ (parse_build w feed_url v) _ λ b parsed.
      Gives-bind _ (parse_builds w feed_url vs) _ λ bs rest.
        Gives-some _ (b ∷ bs) (parse_build-HasCode v b parsed, parse_builds-HasCode vs bs rest)
