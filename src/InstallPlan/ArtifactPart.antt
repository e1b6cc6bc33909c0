-- ===== src/InstallPlan/ArtifactPart.antt =====
-- `_selection_matches` and `_build_artifact` of
-- custom_components/panel_assistant/install_plan.py.
use ha_paneld_home_assistant.Prelude.{
  ℕ, Bool, false, ◌&&◌, ◌||◌, not, Option, none, some, leb, is_some, Text, text_eq, decimal, is_hex,
  pos,
}
use ha_paneld_home_assistant.Value.{Value, null, str, int}
use ha_paneld_home_assistant.Platform.{Platform}
use ha_paneld_home_assistant.Release.Tags.{
  is_install_release_tag, is_rc_release_tag, is_feed_build_tag, artifact_identity_matches,
}
use ha_paneld_home_assistant.Release.Artifact.{InstallDescriptor, ReleaseArtifact}
use ha_paneld_home_assistant.InstallJobs.Receipt.{InstallArtifact, texts_eq}
use ha_paneld_home_assistant.InstallJobs.Scalars.{
  database_groups, max_version_code, max_apk_bytes, max_sdk,
}
use ha_paneld_home_assistant.InstallJobs.Parse.{
  descriptor_schema_id, package_id_text, launch_component_text, release_signer, supported_abis_list,
  is_database_range,
}
use ha_paneld_home_assistant.Prelude.Raising.{built, ◌>>=◌, ◌>>◌, require, or_refuse}
use ha_paneld_home_assistant.InstallPlan.Outcome.{Bound, preview_only_release, invalid_release}
use ha_paneld_home_assistant.InstallPlan.TargetPart.{safe_text, bounded_integer}

unfoldable pub selection_matches : Text → Option Text → Bool
unfolding is_install_release_tag is_rc_release_tag text_eq is_feed_build_tag
selection_matches release_tag none =
    is_install_release_tag (str release_tag) && not (is_rc_release_tag (str release_tag))
selection_matches release_tag (some expected) =
    text_eq release_tag expected
    && (is_rc_release_tag (str expected) || is_feed_build_tag (str expected))

-- A text or a number as the identity test takes it, `None` included.
text_value : Option Text → Value
text_value none = null
text_value (some s) = str s

number_value : Option ℕ → Value
number_value none = null
number_value (some n) = int (pos n)

unfoldable pub option_is : Text → Option Text → Bool
unfolding text_eq
option_is t none = false
option_is t (some s) = text_eq s t

is_digest : Option Text → Bool
unfolding is_hex
is_digest none = false
is_digest (some s) = is_hex 64 s

-- The pattern and the bounds of its two numbers, without which there is no positive lower one.
in_database_range : Option Text → Bool
unfolding database_groups is_database_range decimal
in_database_range none = false
in_database_range (some database) = elim (database_groups database) [
  | none ↦ false
  | some (low, high) ↦ leb 1 (decimal low) && is_database_range (low, high)
]

unfoldable pub artifact_of : InstallDescriptor → InstallArtifact
artifact_of d = record {
  descriptor_schema = d.schema;
  release_tag = d.release_tag;
  version_name = d.version_name;
  version_code = d.version_code;
  apk_name = d.apk_name;
  apk_sha256 = d.apk_sha256;
  apk_size = d.apk_size;
  package_id = d.package_id;
  signer_certificate_sha256 = d.signer_certificate_sha256;
  min_sdk = d.min_sdk;
  supported_abis = d.supported_abis;
  database_compatibility = d.database_compatibility;
  launch_component = d.launch_component;
}

module _ (p : Platform) where
  -- What the signed descriptor must say of itself, `release_tag` being a safe text.
  is_installable : InstallDescriptor → Text → Bool
  unfolding text_eq safe_text bounded_integer artifact_identity_matches text_value number_value
      is_digest option_is texts_eq in_database_range
  is_installable d release_tag =
      let apk_sha256 = safe_text p 64 (some d.apk_sha256) in
      let version_code = bounded_integer 1 max_version_code (some d.version_code) in
      text_eq d.schema descriptor_schema_id
      && (artifact_identity_matches (str release_tag)
            (text_value (safe_text p 128 (some d.version_name))) (number_value version_code)
            (text_value (safe_text p 255 (some d.apk_name))) (text_value apk_sha256)
          && (is_digest apk_sha256
              && (option_is release_signer (safe_text p 64 (some d.signer_certificate_sha256))
                  && (text_eq d.package_id package_id_text
                      && (texts_eq d.supported_abis supported_abis_list
                          && (in_database_range (safe_text p 128 (some d.database_compatibility))
                              && (text_eq d.launch_component launch_component_text
                                  && (is_some version_code
                                      && (is_some
                                            (bounded_integer 1 max_apk_bytes (some d.apk_size))
                                          && is_some
                                              (bounded_integer 1 max_sdk (some d.min_sdk)))))))))))

  -- The release is the one that its descriptor describes.
  unfoldable pub release_matches : ReleaseArtifact → InstallDescriptor → Text → Bool
  unfolding text_eq option_is safe_text
  release_matches release d release_tag =
      text_eq release.tag release_tag
      && (option_is release.version (safe_text p 128 (some d.version_name))
          && (option_is release.apk_name (safe_text p 255 (some d.apk_name))
              && option_is release.sha256 (safe_text p 64 (some d.apk_sha256))))

  -- The disjunction before `INVALID_RELEASE`, negated.
  unfoldable pub descriptor_fits : ReleaseArtifact → Option Text → InstallDescriptor → Text → Bool
  unfolding is_installable selection_matches release_matches
  descriptor_fits release expected_tag d release_tag =
      is_installable d release_tag
      && (selection_matches release_tag expected_tag && release_matches release d release_tag)

  unfoldable pub build_artifact : ReleaseArtifact → Option Text → Bound InstallArtifact
  unfolding safe_text descriptor_fits artifact_of
  build_artifact release expected_tag = do
    d ← or_refuse release.descriptor preview_only_release
    release_tag ← or_refuse (safe_text p 128 (some d.release_tag)) invalid_release
    require (descriptor_fits release expected_tag d release_tag) invalid_release
    built (artifact_of d)
