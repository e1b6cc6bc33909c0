-- ===== src/InstallPlan.antt =====
-- `build_install_plan` of custom_components/panel_assistant/install_plan.py, which binds a pinned
-- target, a probe and an authenticated release into one plan. A plan is the same four fields that
-- `async_create_or_join` takes. The `isinstance` tests hold by the types of the arguments.
pub mod Outcome
pub mod TargetPart
pub mod ArtifactPart
pub mod Proofs
use ha_paneld_home_assistant.Prelude.{
  Bool, true, false, Option, none, some, leb, not, ◌||◌, Text, is_hex, mem_text,
}
use ha_paneld_home_assistant.Platform.{Platform}
use ha_paneld_home_assistant.Network.Target.{PinnedPanelTarget}
use ha_paneld_home_assistant.Provisioning.{InstallTargetProbe}
use ha_paneld_home_assistant.Release.Artifact.{ReleaseArtifact}
use ha_paneld_home_assistant.InstallJobs.Parse.{install_plan_sha256}
use ha_paneld_home_assistant.InstallJobs.Manager.Operations.Create.{Plan}
use ha_paneld_home_assistant.Prelude.Raising.{built, ◌>>=◌, ◌>>◌, require, or_refuse}
use Outcome.{Bound, invalid_credential, incompatible_release, invalid_plan}
use TargetPart.{build_target}
use ArtifactPart.{build_artifact}

module _ (p : Platform) where
  unfoldable pub build_install_plan :
      PinnedPanelTarget → InstallTargetProbe → ReleaseArtifact → Text → Option Text → Bound Plan
  unfolding build_target build_artifact is_hex mem_text install_plan_sha256
  build_install_plan pinned_target probe release adb_credential_id expected_rc_tag = do
    target ← build_target p pinned_target probe
    artifact ← build_artifact p release expected_rc_tag
    require (is_hex 64 adb_credential_id) invalid_credential
    require (leb artifact.min_sdk target.android_sdk) incompatible_release
    require (mem_text target.primary_abi artifact.supported_abis) incompatible_release
    plan_sha256 ← or_refuse (install_plan_sha256 p target artifact adb_credential_id) invalid_plan
    built (record {
      target = target;
      artifact = artifact;
      plan_sha256 = plan_sha256;
      adb_credential_id = adb_credential_id;
    })
