-- ===== src/Release/Artifact.antt =====
-- The records of custom_components/panel_assistant/release.py.
use ha_paneld_home_assistant.Prelude.{ℕ, Option, List, Text}

pub record InstallDescriptor : Type 0 where
  pub schema : Text
  pub release_tag : Text
  pub version_name : Text
  pub version_code : ℕ
  pub apk_name : Text
  pub apk_size : ℕ
  pub apk_sha256 : Text
  pub package_id : Text
  pub signer_certificate_sha256 : Text
  pub min_sdk : ℕ
  pub supported_abis : List Text
  pub database_compatibility : Text
  pub launch_component : Text

pub record ReleaseArtifact : Type 0 where
  pub tag : Text
  pub version : Text
  pub apk_name : Text
  pub apk_url : Text
  pub sha256 : Text
  pub descriptor : Option InstallDescriptor

pub record SignedReleaseMetadata : Type 0 where
  pub checksum : Text
  pub checksum_signature : Text
  pub descriptor_bytes : Text
  pub descriptor_signature : Text

pub record InstallReleaseBundle : Type 0 where
  pub artifact : ReleaseArtifact
  pub signed_metadata : SignedReleaseMetadata
