-- ===== src/BuildFeed/Build.antt =====
-- `FeedBuild`, `_parse_build`, `feed_release_artifact`, `build_label` and `parse_build_request` of
-- custom_components/panel_assistant/build_feed.py, and `feed_build_tag` of
-- custom_components/panel_assistant/release.py. `none` is `BuildFeedError`, and of
-- `parse_build_request` it is `None`.
use ha_paneld_home_assistant.Prelude.{
  ℕ, Bool, true, false, ◌&&◌, Option, none, some, List, [], ◌∷◌, ◌++◌, leb, ◌==◌, length,
  if◌then◌else◌, ◌>>=◌, ◌>>◌, check, Text, codes, is_hex, is_digit, strip, remove_prefix, decimal,
  to_decimal,
}
use ha_paneld_home_assistant.Value.{Value, str, Fields, item, keys_are, is_text}
use ha_paneld_home_assistant.Web.{Web, Url}
use ha_paneld_home_assistant.Release.Tags.{
  max_android_version_code, is_positive_numeral, matches_version_name,
}
use ha_paneld_home_assistant.Release.Artifact.{ReleaseArtifact}
use ha_paneld_home_assistant.Release.Descriptor.{text_of}
use ha_paneld_home_assistant.InstallJobs.Scalars.{integer, max_apk_bytes, max_sdk, database_groups}
use ha_paneld_home_assistant.InstallJobs.Parse.{
  fields_of, is_database_range, are_supported_abis, descriptor_schema_id, package_id_text,
  launch_component_text, release_signer, supported_abis_list,
}

pub record FeedBuild : Type 0 where
  pub version_code : ℕ
  pub version_name : Text
  pub apk_url : Url
  pub apk_sha256 : Text
  pub apk_size : ℕ
  pub commit : Text
  pub database_compatibility : Text
  pub min_sdk : ℕ
  pub published : Text

unfoldable pub build_label : Text → ℕ → Text
unfolding to_decimal
build_label version_name version_code = version_name ++ (codes " build " ++ to_decimal version_code)

unfoldable pub label : FeedBuild → Text
unfolding build_label
label b = build_label b.version_name b.version_code

unfoldable pub feed_build_tag : ℕ → Text
unfolding to_decimal
feed_build_tag version_code = codes "build-" ++ to_decimal version_code

unfoldable pub apk_file : Text → Text
apk_file sha256 = sha256 ++ codes ".apk"

unfoldable pub feed_release_artifact : FeedBuild → ReleaseArtifact
unfolding feed_build_tag apk_file
feed_release_artifact b = record {
  tag = feed_build_tag b.version_code;
  version = b.version_name;
  apk_name = apk_file b.apk_sha256;
  apk_url = b.apk_url.text;
  sha256 = b.apk_sha256;
  descriptor = some (record {
    schema = descriptor_schema_id;
    release_tag = feed_build_tag b.version_code;
    version_name = b.version_name;
    version_code = b.version_code;
    apk_name = apk_file b.apk_sha256;
    apk_size = b.apk_size;
    apk_sha256 = b.apk_sha256;
    package_id = package_id_text;
    signer_certificate_sha256 = release_signer;
    min_sdk = b.min_sdk;
    supported_abis = supported_abis_list;
    database_compatibility = b.database_compatibility;
    launch_component = launch_component_text;
  });
}

-- `[1-9][0-9]{0,9}`
short_numeral : Text → Option Text
unfolding is_positive_numeral
short_numeral s = if is_positive_numeral s && leb (length s) 10 then some s else none

after_build : Option Text → Option Text
unfolding short_numeral
after_build none = none
after_build (some rest) = short_numeral rest

-- `.* build ([1-9][0-9]{0,9})`: a numeral holds no space, so there is one way to match. `.` is no
-- line feed.
labelled : Text → Option Text
unfolding after_build remove_prefix
labelled [] = none
labelled (c ∷ s) =
    let rest = labelled s in
    elim (after_build (remove_prefix (codes " build ") (c ∷ s))) [
      | some digits ↦ some digits
      | none ↦ if c == 10 then none else rest
    ]

label_digits : Text → Option Text
unfolding short_numeral labelled
label_digits s = elim (short_numeral s) [ some digits ↦ some digits | none ↦ labelled s ]

unfoldable pub parse_build_request : Value → Option ℕ
unfolding label_digits strip decimal
parse_build_request (str value) = do
  digits ← label_digits (strip value)
  check (leb (decimal digits) max_android_version_code)
  some (decimal digits)
parse_build_request _ = none

abbrev pub build_fields : List Text
build_fields =
    codes "apkPath"
    ∷ codes "apkSha256"
    ∷ codes "apkSize"
    ∷ codes "commit"
    ∷ codes "databaseCompatibility"
    ∷ codes "launchComponent"
    ∷ codes "minSdk"
    ∷ codes "packageId"
    ∷ codes "published"
    ∷ codes "signerCertificateSha256"
    ∷ codes "supportedAbis"
    ∷ codes "versionCode"
    ∷ codes "versionName"
    ∷ []

-- The shape of a time: a digit where the pattern has `0`, and else the same character.
fits_shape : Text → Text → Bool
unfolding is_digit
fits_shape [] [] = true
fits_shape (m ∷ ms) (c ∷ s) = (if m == b'0' then is_digit c else m == c) && fits_shape ms s
fits_shape _ _ = false

is_published : Text → Bool
unfolding fits_shape
is_published = fits_shape (codes "0000-00-00T00:00:00Z")

-- `_database_range_valid`: the pattern has no zero, so the lower number is positive.
unfoldable pub database_range_valid : Text → Bool
unfolding database_groups is_database_range
database_range_valid s = elim (database_groups s) [
  | none ↦ false
  | some groups ↦ is_database_range groups
]

-- The version name, the commit, the time and the range of database versions.
unfoldable pub build_texts : Fields → Option (Text × Text × Text × Text)
unfolding item text_of matches_version_name is_hex is_published database_range_valid
build_texts fields = do
  version_name ← text_of (← item (codes "versionName") fields)
  check (matches_version_name version_name)
  commit ← text_of (← item (codes "commit") fields)
  check (is_hex 40 commit)
  published ← text_of (← item (codes "published") fields)
  check (is_published published)
  database ← text_of (← item (codes "databaseCompatibility") fields)
  check (database_range_valid database)
  some (version_name, commit, published, database)

-- The constants of every build.
unfoldable pub check_identity : Fields → Option (Unit {0})
unfolding item is_text are_supported_abis
check_identity fields = do
  check (is_text package_id_text (← item (codes "packageId") fields))
  check (is_text release_signer (← item (codes "signerCertificateSha256") fields))
  check (is_text launch_component_text (← item (codes "launchComponent") fields))
  check (are_supported_abis (← item (codes "supportedAbis") fields))

module _ (w : Web) (feed_url : Url) where
  -- The build, once its numbers are read. `URL` does not raise at the path of a digest.
  unfoldable pub build_of : Fields → ℕ → ℕ → ℕ → Option FeedBuild
  unfolding item text_of is_hex is_text apk_file build_texts check_identity
  build_of fields version_code apk_size min_sdk = do
    sha256 ← text_of (← item (codes "apkSha256") fields)
    check (is_hex 64 sha256)
    let apk_path = codes "apks/" ++ apk_file sha256
    check (is_text apk_path (← item (codes "apkPath") fields))
    (version_name, commit, published, database) ← build_texts fields
    check_identity fields
    path_url ← w.url_of apk_path
    some (record {
      version_code = version_code;
      version_name = version_name;
      apk_url = w.url_join feed_url path_url;
      apk_sha256 = sha256;
      apk_size = apk_size;
      commit = commit;
      database_compatibility = database;
      min_sdk = min_sdk;
      published = published;
    })

  unfoldable pub parse_build : Value → Option FeedBuild
  unfolding fields_of keys_are item integer build_of
  parse_build entry = do
    fields ← fields_of entry
    check (keys_are build_fields fields)
    version_code ← integer 1 max_android_version_code (← item (codes "versionCode") fields)
    apk_size ← integer 1 max_apk_bytes (← item (codes "apkSize") fields)
    min_sdk ← integer 1 max_sdk (← item (codes "minSdk") fields)
    build_of fields version_code apk_size min_sdk
