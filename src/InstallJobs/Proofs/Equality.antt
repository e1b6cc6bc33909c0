-- ===== src/InstallJobs/Proofs/Equality.antt =====
-- `==` of receipts and of dictionaries of receipts is equality.
use ha_paneld_home_assistant.Prelude.{
  ℕ, ◌≡◌, refl, Bool, true, Option, none, some, Text, text_eq, text_eq_iff, arith, ap, ◌==◌, ==_iff,
  and-eq-true,
}
use ha_paneld_home_assistant.InstallJobs.Phase.{Phase, ResultCode, phase_eq, code_eq}
use ha_paneld_home_assistant.InstallJobs.Receipt.{
  InstallTarget, InstallArtifact, InstallJobReceipt, target_eq, artifact_eq, receipt_eq,
  texts_eq_iff, bool_eq, option_eq,
}

pub phase_eq_sound : (a b : Phase) → phase_eq a b ≡ true → a ≡ b
phase_eq_sound a b h = ground arith

code_eq_sound : (a b : ResultCode) → code_eq a b ≡ true → a ≡ b
code_eq_sound a b h = ground arith

pub target_eq_sound : (a b : InstallTarget) → target_eq a b ≡ true → a ≡ b
unfolding target_eq
target_eq_sound a b h = ground (
  arith,
  text_eq_iff a.address b.address,
  text_eq_iff a.pinned_address b.pinned_address,
  text_eq_iff a.adb_serial b.adb_serial,
  text_eq_iff a.model b.model,
  text_eq_iff a.primary_abi b.primary_abi,
)

pub artifact_eq_sound : (a b : InstallArtifact) → artifact_eq a b ≡ true → a ≡ b
unfolding artifact_eq
artifact_eq_sound a b h = ground (
  arith,
  text_eq_iff a.descriptor_schema b.descriptor_schema,
  text_eq_iff a.release_tag b.release_tag,
  text_eq_iff a.version_name b.version_name,
  text_eq_iff a.apk_name b.apk_name,
  text_eq_iff a.apk_sha256 b.apk_sha256,
  text_eq_iff a.package_id b.package_id,
  text_eq_iff a.signer_certificate_sha256 b.signer_certificate_sha256,
  texts_eq_iff a.supported_abis b.supported_abis,
  text_eq_iff a.database_compatibility b.database_compatibility,
  text_eq_iff a.launch_component b.launch_component,
)

option_eq_sound :
    {A : Type 0} (eq : A → A → Bool)
    → ((a b : A) → eq a b ≡ true → a ≡ b)
    → (x y : Option A) → option_eq eq x y ≡ true
    → x ≡ y
unfolding option_eq
option_eq_sound eq sound none none h = refl
option_eq_sound eq sound (some a) (some b) h = ap some (sound a b h)
option_eq_sound eq sound none (some b) h = cc
option_eq_sound eq sound (some a) none h = cc

option_text_sound : (x y : Option Text) → option_eq text_eq x y ≡ true → x ≡ y
option_text_sound = option_eq_sound text_eq (λ a b. (text_eq_iff a b).0)

option_number_sound : (x y : Option ℕ) → option_eq (λ m n. m == n) x y ≡ true → x ≡ y
option_number_sound = option_eq_sound (λ m n. m == n) (λ a b. (==_iff a b).0)

option_code_sound : (x y : Option ResultCode) → option_eq code_eq x y ≡ true → x ≡ y
option_code_sound = option_eq_sound code_eq code_eq_sound

bool_eq_sound : (a b : Bool) → bool_eq a b ≡ true → a ≡ b
unfolding bool_eq
bool_eq_sound a b h = ground arith

-- Two receipts that compare equal are the same receipt.
pub receipt_eq_sound : (a b : InstallJobReceipt) → receipt_eq a b ≡ true → a ≡ b
unfolding receipt_eq
receipt_eq_sound a b h =
    let (same_job_id, after_job_id) = and-eq-true _ _ h in
    let (same_revision, after_revision) = and-eq-true _ _ after_job_id in
    let (same_generation, after_generation) = and-eq-true _ _ after_revision in
    let (same_created, after_created) = and-eq-true _ _ after_generation in
    let (same_updated, after_updated) = and-eq-true _ _ after_created in
    let (same_phase, after_phase) = and-eq-true _ _ after_updated in
    let (same_cancel, after_cancel) = and-eq-true _ _ after_phase in
    let (same_attempt, after_attempt) = and-eq-true _ _ after_cancel in
    let (same_target, after_target) = and-eq-true _ _ after_attempt in
    let (same_artifact, after_artifact) = and-eq-true _ _ after_target in
    let (same_plan, after_plan) = and-eq-true _ _ after_artifact in
    let (same_credential, after_credential) = and-eq-true _ _ after_plan in
    let (same_mode, after_mode) = and-eq-true _ _ after_credential in
    let (same_actual, after_actual) = and-eq-true _ _ after_mode in
    let (same_health, after_health) = and-eq-true _ _ after_actual in
    let (same_code, after_code) = and-eq-true _ _ after_health in
    λ i. record {
      job_id = (text_eq_iff a.job_id b.job_id).0 same_job_id i;
      revision = (==_iff a.revision b.revision).0 same_revision i;
      executor_generation =
          (==_iff a.executor_generation b.executor_generation).0 same_generation i;
      created_at = (text_eq_iff a.created_at b.created_at).0 same_created i;
      updated_at = (text_eq_iff a.updated_at b.updated_at).0 same_updated i;
      phase = phase_eq_sound a.phase b.phase same_phase i;
      cancel_requested = bool_eq_sound a.cancel_requested b.cancel_requested same_cancel i;
      attempt = (==_iff a.attempt b.attempt).0 same_attempt i;
      target = target_eq_sound a.target b.target same_target i;
      artifact = artifact_eq_sound a.artifact b.artifact same_artifact i;
      plan_sha256 = (text_eq_iff a.plan_sha256 b.plan_sha256).0 same_plan i;
      adb_credential_id = (text_eq_iff a.adb_credential_id b.adb_credential_id).0 same_credential i;
      preflight_root_mode =
          option_text_sound a.preflight_root_mode b.preflight_root_mode same_mode i;
      actual_apk_bytes = option_number_sound a.actual_apk_bytes b.actual_apk_bytes same_actual i;
      health_checked_at = option_text_sound a.health_checked_at b.health_checked_at same_health i;
      result_code = option_code_sound a.result_code b.result_code same_code i;
      consumed_entry_id = option_text_sound a.consumed_entry_id b.consumed_entry_id after_code i;
    }
