-- ===== src/Release/Descriptor.antt =====
-- `_parse_install_descriptor`, `_parse_checksum_record` and `_verify_detached_signature` of
-- custom_components/panel_assistant/release.py. `none` is `ReleaseResolutionError`.
use ha_paneld_home_assistant.Prelude.{
  ◌&&◌, Option, none, some, List, [], ◌∷◌, ◌++◌, ◌==◌, length, take, ◌>>=◌, ◌>>◌, check, Text,
  codes, text_eq, is_hex,
}
use ha_paneld_home_assistant.Value.{Value, str, Fields, item, keys_are, no_duplicates, is_text}
use ha_paneld_home_assistant.Web.{Web}
use ha_paneld_home_assistant.Release.Artifact.{InstallDescriptor}
use ha_paneld_home_assistant.Release.Tags.{max_android_version_code, without_v}
use ha_paneld_home_assistant.InstallJobs.Scalars.{integer, max_apk_bytes, max_sdk, database_groups}
use ha_paneld_home_assistant.InstallJobs.Parse.{
  fields_of, is_database_range, are_supported_abis, descriptor_schema_id, package_id_text,
  launch_component_text, release_signer, supported_abis_list,
}

abbrev pub descriptor_keys : List Text
descriptor_keys =
    codes "apkName"
    ∷ codes "apkSha256"
    ∷ codes "apkSize"
    ∷ codes "databaseCompatibility"
    ∷ codes "launchComponent"
    ∷ codes "minSdk"
    ∷ codes "packageId"
    ∷ codes "releaseTag"
    ∷ codes "schema"
    ∷ codes "signerCertificateSha256"
    ∷ codes "supportedAbis"
    ∷ codes "versionCode"
    ∷ codes "versionName"
    ∷ []

-- `isinstance(value, str)`
unfoldable pub text_of : Value → Option Text
text_of (str s) = some s
text_of _ = none

-- `re.compile(rb"([0-9a-f]{64})  " + re.escape(apk_name) + rb"\n").fullmatch(checksum)`
unfoldable pub parse_checksum_record : Text → Text → Option Text
unfolding text_eq is_hex
parse_checksum_record checksum apk_name = do
  let digest = take 64 checksum
  check (is_hex 64 digest)
  check (text_eq checksum (digest ++ (codes "  " ++ (apk_name ++ codes "\n"))))
  some digest

module _ (w : Web) where
  unfoldable pub verify_detached_signature : Text → Text → Option (Unit {0})
  verify_detached_signature payload signature = do
    check (length signature == 256)
    check (w.rsa_verify payload signature)

  -- `json.loads` with both hooks.
  unfoldable pub load_document : Text → Option Value
  unfolding no_duplicates
  load_document body = do
    document ← w.loads_strict body
    check (no_duplicates document)
    some document

  -- The fields of a document that is byte for byte its own canonical form.
  unfoldable pub canonical_fields : List Text → Text → Option Fields
  unfolding load_document fields_of keys_are text_eq
  canonical_fields names body = do
    document ← load_document body
    fields ← fields_of document
    check (keys_are names fields)
    canonical ← w.dumps_canonical document
    check (text_eq body (canonical ++ codes "\n"))
    some fields

-- The descriptor of checked fields, for one tag, file name and digest.
unfoldable pub descriptor_of : Fields → Text → Text → Text → Option InstallDescriptor
unfolding item integer text_of is_text is_hex are_supported_abis database_groups is_database_range
    without_v text_eq
descriptor_of fields tag apk_name apk_sha256 = do
  apk_size ← integer 1 max_apk_bytes (← item (codes "apkSize") fields)
  version_code ← integer 1 max_android_version_code (← item (codes "versionCode") fields)
  min_sdk ← integer 1 max_sdk (← item (codes "minSdk") fields)
  database ← text_of (← item (codes "databaseCompatibility") fields)
  check (is_database_range (← database_groups database))
  check (is_text descriptor_schema_id (← item (codes "schema") fields))
  check (is_text tag (← item (codes "releaseTag") fields))
  check (is_text (without_v tag) (← item (codes "versionName") fields))
  check (is_text apk_name (← item (codes "apkName") fields))
  sha256 ← text_of (← item (codes "apkSha256") fields)
  check (text_eq sha256 apk_sha256 && is_hex 64 sha256)
  check (is_text package_id_text (← item (codes "packageId") fields))
  check (is_text release_signer (← item (codes "signerCertificateSha256") fields))
  check (are_supported_abis (← item (codes "supportedAbis") fields))
  check (is_text launch_component_text (← item (codes "launchComponent") fields))
  some (record {
    schema = descriptor_schema_id;
    release_tag = tag;
    version_name = without_v tag;
    version_code = version_code;
    apk_name = apk_name;
    apk_size = apk_size;
    apk_sha256 = apk_sha256;
    package_id = package_id_text;
    signer_certificate_sha256 = release_signer;
    min_sdk = min_sdk;
    supported_abis = supported_abis_list;
    database_compatibility = database;
    launch_component = launch_component_text;
  })

module _ (w : Web) where
  unfoldable pub parse_install_descriptor : Text → Text → Text → Text → Option InstallDescriptor
  unfolding canonical_fields descriptor_of
  parse_install_descriptor body tag apk_name apk_sha256 = do
    fields ← canonical_fields w descriptor_keys body
    descriptor_of fields tag apk_name apk_sha256
