-- ===== src/InstallPlan/Proofs/Accepted.antt =====
-- The job store takes a plan that `build_install_plan` has built.
use ha_paneld_home_assistant.Prelude.{
  ◌≡◌, sym, ap, subst, ◌∙◌, true, Option, some, leb, Text, text_eq_refl, mem_text, is_hex, Gives,
  Gives-bind,
}
use ha_paneld_home_assistant.Platform.{Platform}
use ha_paneld_home_assistant.Network.Target.{PinnedPanelTarget}
use ha_paneld_home_assistant.Provisioning.{InstallTargetProbe}
use ha_paneld_home_assistant.Release.Artifact.{ReleaseArtifact}
use ha_paneld_home_assistant.InstallJobs.Receipt.{InstallTarget, InstallArtifact}
use ha_paneld_home_assistant.InstallJobs.Parse.{
  install_plan_sha256, parse_target, parse_artifact, target_dict, artifact_dict,
}
use ha_paneld_home_assistant.InstallJobs.World.{World, ok, ◌>>=◌}
use ha_paneld_home_assistant.InstallJobs.Manager.Operations.Create.{Plan, checked_plan}
use ha_paneld_home_assistant.InstallJobs.Proofs.Parsed.{parse_target-same, parse_artifact-same}
use ha_paneld_home_assistant.InstallPlan.{build_install_plan}
use ha_paneld_home_assistant.Prelude.Raising.{built}
use ha_paneld_home_assistant.InstallPlan.Proofs.Binding.{build_install_plan-IsBound}

-- Both parts of the plan are what their own documents parse as.
abbrev Stands : Platform → InstallTarget → InstallArtifact → Type 0
Stands p t a =
    (parse_target p (target_dict t) ≡ some t) × (parse_artifact (artifact_dict a) ≡ some a)

stands :
    (p : Platform) (t : InstallTarget) (a : InstallArtifact) (credential : Text)
    → Gives (λ digest. Stands p t a) (install_plan_sha256 p t a credential)
unfolding install_plan_sha256
stands p t a credential = Gives-bind _ (parse_target p (target_dict t)) _ λ t' is_target.
    Gives-bind _ (parse_artifact (artifact_dict a)) _ λ a' is_artifact. λ digest e. (
      is_target ∙ ap some (parse_target-same p t t' is_target),
      is_artifact ∙ ap some (parse_artifact-same a a' is_artifact),
    )

checked :
    (p : Platform) (plan : Plan) (w : World)
    → Stands p plan.target plan.artifact
    → install_plan_sha256 p plan.target plan.artifact plan.adb_credential_id ≡ some plan.plan_sha256
    → is_hex 64 plan.adb_credential_id ≡ true
    → mem_text plan.target.primary_abi plan.artifact.supported_abis ≡ true
    → leb plan.artifact.min_sdk plan.target.android_sdk ≡ true
    → checked_plan p plan w ≡ (ok plan, w)
unfolding checked_plan ◌>>=◌
checked p plan w (is_target, is_artifact) digest hex abi sdk =
    rw (is_target, is_artifact, digest, text_eq_refl plan.plan_sha256, hex, abi, sdk)

-- In every state, the checks that the job store makes before it takes a plan pass for a plan that
-- was built, and leave the plan and the state as they are.
pub build_install_plan-accepted :
    (p : Platform) (pt : PinnedPanelTarget) (probe : InstallTargetProbe) (release : ReleaseArtifact)
    (credential : Text) (expected : Option Text) (plan : Plan) (w : World)
    → build_install_plan p pt probe release credential expected ≡ built plan
    → checked_plan p plan w ≡ (ok plan, w)
build_install_plan-accepted p pt probe release credential expected plan w h =
    let b = build_install_plan-IsBound p pt probe release credential expected plan h in
    let digest =
      subst (λ c. install_plan_sha256 p plan.target plan.artifact c ≡ some plan.plan_sha256)
        (sym b.credential_id) b.plan_sha256 in
    checked p plan w (stands p plan.target plan.artifact credential plan.plan_sha256 b.plan_sha256)
      digest (subst (λ c. is_hex 64 c ≡ true) (sym b.credential_id) b.is_digest) b.primary_abi
      b.min_sdk
