-- ===== src/InstallJobs/Parse.antt =====
-- Parsing of frozen targets and artifacts, and the digest of a plan:
-- custom_components/panel_assistant/install_jobs.py. `none` is `InstallJobStoreError`.
use ha_paneld_home_assistant.Prelude.{
  Bool, true, false, ◌&&◌, Option, none, some, List, [], ◌∷◌, leb, ◌==◌, ◌++◌, length, all, ◌>>=◌,
  ◌>>◌, check, Text, codes, text_eq, decimal, is_hex, pos,
}
use ha_paneld_home_assistant.Value.{
  Value, str, int, arr, obj, Fields, end, field, item, keys_are, is_text, items_are, texts,
}
use ha_paneld_home_assistant.Platform.{Platform, IpAddress, ip_eq}
use ha_paneld_home_assistant.Client.Address.{PanelAddress, normalize_address, stored_value}
use ha_paneld_home_assistant.Network.{is_allowed_install_address, resolver_hostname}
use ha_paneld_home_assistant.Release.Tags.{artifact_identity_matches}
use ha_paneld_home_assistant.InstallJobs.Receipt.{InstallTarget, InstallArtifact}
use ha_paneld_home_assistant.InstallJobs.Scalars.{
  safe_text, integer, is_adb_serial, is_abi, is_apk_name, database_groups, max_version_code,
  max_apk_bytes, max_sdk,
}

abbrev pub descriptor_schema_id : Text
descriptor_schema_id = codes "io.github.maxlyth.hapaneld.install.v1"

abbrev pub package_id_text : Text
package_id_text = codes "io.github.maxlyth.hapaneld"

abbrev pub launch_component_text : Text
launch_component_text = codes "io.github.maxlyth.hapaneld/.MainActivity"

abbrev pub release_signer : Text
release_signer = codes "ac6193307fb0b70113aae205d7549406f96e063bc5491b67b1d5694a34b0e339"

abbrev pub supported_abis_list : List Text
supported_abis_list = codes "arm64-v8a" ∷ codes "armeabi-v7a" ∷ []

abbrev pub target_keys : List Text
target_keys =
    codes "address"
    ∷ codes "pinned_address"
    ∷ codes "adb_serial"
    ∷ codes "model"
    ∷ codes "primary_abi"
    ∷ codes "android_sdk"
    ∷ []

abbrev pub artifact_keys : List Text
artifact_keys =
    codes "descriptor_schema"
    ∷ codes "release_tag"
    ∷ codes "version_name"
    ∷ codes "version_code"
    ∷ codes "apk_name"
    ∷ codes "apk_sha256"
    ∷ codes "apk_size"
    ∷ codes "package_id"
    ∷ codes "signer_certificate_sha256"
    ∷ codes "min_sdk"
    ∷ codes "supported_abis"
    ∷ codes "database_compatibility"
    ∷ codes "launch_component"
    ∷ []

-- `isinstance(value, dict)`
unfoldable pub fields_of : Value → Option Fields
fields_of (obj fields) = some fields
fields_of _ = none

-- `asdict(target)`
unfoldable pub target_dict : InstallTarget → Value
target_dict t = obj (
    field (codes "address") (str t.address) (
      field (codes "pinned_address") (str t.pinned_address) (
        field (codes "adb_serial") (str t.adb_serial) (
          field (codes "model") (str t.model) (
            field (codes "primary_abi") (str t.primary_abi)
              (field (codes "android_sdk") (int (pos t.android_sdk)) end))))))

-- `asdict(artifact)`
unfoldable pub artifact_dict : InstallArtifact → Value
unfolding texts
artifact_dict a = obj (
    field (codes "descriptor_schema") (str a.descriptor_schema) (
      field (codes "release_tag") (str a.release_tag) (
        field (codes "version_name") (str a.version_name) (
          field (codes "version_code") (int (pos a.version_code)) (
            field (codes "apk_name") (str a.apk_name) (
              field (codes "apk_sha256") (str a.apk_sha256) (
                field (codes "apk_size") (int (pos a.apk_size)) (
                  field (codes "package_id") (str a.package_id) (
                    field (codes "signer_certificate_sha256") (str a.signer_certificate_sha256) (
                      field (codes "min_sdk") (int (pos a.min_sdk)) (
                        field (codes "supported_abis") (arr (texts a.supported_abis)) (
                          field (codes "database_compatibility") (str a.database_compatibility) (
                            field (codes "launch_component") (str a.launch_component)
                              end)))))))))))))

-- `not isinstance(abis, (list, tuple)) or tuple(abis) != _SUPPORTED_ABIS`, negated.
unfoldable pub are_supported_abis : Value → Bool
unfolding items_are
are_supported_abis (arr xs) = items_are supported_abis_list xs
are_supported_abis _ = false

unfoldable pub is_database_range : Text × Text → Bool
unfolding decimal
is_database_range (low, high) =
    leb (length low) 10
    && (leb (length high) 10
        && (leb (decimal low) (decimal high) && leb (decimal high) max_version_code))

module _ (p : Platform) where
  -- A host that is an address must be the pinned one, and any other a safe DNS name.
  host_matches : Text → IpAddress → Bool
  unfolding resolver_hostname ip_eq
  host_matches host pinned_ip = elim (p.ip_address host) [
    | some original_ip ↦ ip_eq original_ip pinned_ip
    | none ↦ elim (resolver_hostname p host) [ none ↦ false | some name ↦ true ]
  ]

  pinned_matches : Text → Text → PanelAddress → PanelAddress → IpAddress → Bool
  unfolding stored_value text_eq is_allowed_install_address host_matches
  pinned_matches address pinned_address original pinned pinned_ip =
      text_eq (stored_value original) address
      && (text_eq (stored_value pinned) pinned_address
          && (text_eq pinned.host (p.ip_text pinned_ip)
              && ((pinned.port == original.port)
                  && (is_allowed_install_address pinned_ip
                      && host_matches original.host pinned_ip))))

  -- The tests on an address and its pin, which `_parse_target` and `async_find_active` share.
  unfoldable pub check_addresses : Text → Text → Option (Unit {0})
  unfolding normalize_address pinned_matches
  check_addresses address pinned_address = do
    original ← normalize_address p address
    pinned ← normalize_address p pinned_address
    pinned_ip ← p.ip_address pinned.host
    check (pinned_matches address pinned_address original pinned pinned_ip)

  unfoldable pub parse_target : Value → Option InstallTarget
  unfolding fields_of keys_are item safe_text integer check_addresses is_adb_serial is_abi all
  parse_target value = do
    fields ← fields_of value
    check (keys_are target_keys fields)
    address ← safe_text 255 (← item (codes "address") fields)
    pinned_address ← safe_text 255 (← item (codes "pinned_address") fields)
    check_addresses address pinned_address
    model ← safe_text 128 (← item (codes "model") fields)
    adb_serial ← safe_text 128 (← item (codes "adb_serial") fields)
    primary_abi ← safe_text 64 (← item (codes "primary_abi") fields)
    check (all p.is_printable model && (is_adb_serial adb_serial && is_abi primary_abi))
    android_sdk ← integer 1 max_sdk (← item (codes "android_sdk") fields)
    some (record {
      address = address;
      pinned_address = pinned_address;
      adb_serial = adb_serial;
      model = model;
      primary_abi = primary_abi;
      android_sdk = android_sdk;
    })

unfoldable pub parse_artifact : Value → Option InstallArtifact
unfolding fields_of keys_are item safe_text integer is_text are_supported_abis
    artifact_identity_matches is_apk_name is_hex database_groups is_database_range
parse_artifact value = do
  fields ← fields_of value
  check (keys_are artifact_keys fields)
  release_tag ← safe_text 128 (← item (codes "release_tag") fields)
  version_name ← safe_text 128 (← item (codes "version_name") fields)
  apk_name ← safe_text 255 (← item (codes "apk_name") fields)
  apk_sha256 ← safe_text 64 (← item (codes "apk_sha256") fields)
  signer ← safe_text 64 (← item (codes "signer_certificate_sha256") fields)
  abis ← item (codes "supported_abis") fields
  database ← safe_text 128 (← item (codes "database_compatibility") fields)
  schema ← item (codes "descriptor_schema") fields
  package_value ← item (codes "package_id") fields
  component ← item (codes "launch_component") fields
  code ← item (codes "version_code") fields
  check (is_text descriptor_schema_id schema && is_text package_id_text package_value)
  check (is_text launch_component_text component && text_eq signer release_signer)
  check (are_supported_abis abis)
  check (
      artifact_identity_matches (str release_tag) (str version_name) code (str apk_name)
        (str apk_sha256))
  check (is_apk_name apk_name && is_hex 64 apk_sha256)
  check (is_database_range (← database_groups database))
  version_code ← integer 1 max_version_code code
  apk_size ← integer 1 max_apk_bytes (← item (codes "apk_size") fields)
  min_sdk ← integer 1 max_sdk (← item (codes "min_sdk") fields)
  some (record {
    descriptor_schema = descriptor_schema_id;
    release_tag = release_tag;
    version_name = version_name;
    version_code = version_code;
    apk_name = apk_name;
    apk_sha256 = apk_sha256;
    apk_size = apk_size;
    package_id = package_id_text;
    signer_certificate_sha256 = signer;
    min_sdk = min_sdk;
    supported_abis = supported_abis_list;
    database_compatibility = database;
    launch_component = launch_component_text;
  })

plan_document : InstallTarget → InstallArtifact → Text → Value
unfolding target_dict artifact_dict
plan_document target artifact credential_id = obj (
    field (codes "schema") (str (codes "io.github.maxlyth.hapaneld.install-plan.v1")) (
      field (codes "target") (target_dict target) (
        field (codes "artifact") (artifact_dict artifact)
          (field (codes "adb_credential_id") (str credential_id) end))))

module _ (p : Platform) where
  unfoldable pub install_plan_sha256 : InstallTarget → InstallArtifact → Text → Option Text
  unfolding parse_target target_dict artifact_dict parse_artifact safe_text is_hex plan_document
  install_plan_sha256 target artifact adb_credential_id = do
    parsed_target ← parse_target p (target_dict target)
    parsed_artifact ← parse_artifact (artifact_dict artifact)
    credential_id ← safe_text 64 (str adb_credential_id)
    check (is_hex 64 credential_id)
    let document = plan_document parsed_target parsed_artifact credential_id
    some (p.sha256_hex (p.dumps_sorted document ++ codes "\n"))
