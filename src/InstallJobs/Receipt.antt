-- ===== src/InstallJobs/Receipt.antt =====
-- The frozen records of an installation, with their `==`:
-- custom_components/panel_assistant/install_jobs.py.
use ha_paneld_home_assistant.Prelude.{
  ℕ, ◌≡◌, ◌↔◌, Bool, true, false, ◌&&◌, Option, none, some, List, [], ◌∷◌, ◌==◌, Text, text_eq,
  text_eq_iff, arith,
}
use ha_paneld_home_assistant.InstallJobs.Phase.{
  Phase, ResultCode, phase_eq, code_eq, in_phases, terminal_phases,
}

pub record InstallTarget : Type 0 where
  pub address : Text
  pub pinned_address : Text
  pub adb_serial : Text
  pub model : Text
  pub primary_abi : Text
  pub android_sdk : ℕ

pub record InstallArtifact : Type 0 where
  pub descriptor_schema : Text
  pub release_tag : Text
  pub version_name : Text
  pub version_code : ℕ
  pub apk_name : Text
  pub apk_sha256 : Text
  pub apk_size : ℕ
  pub package_id : Text
  pub signer_certificate_sha256 : Text
  pub min_sdk : ℕ
  pub supported_abis : List Text
  pub database_compatibility : Text
  pub launch_component : Text

pub record InstallJobReceipt : Type 0 where
  pub job_id : Text
  pub revision : ℕ
  pub executor_generation : ℕ
  pub created_at : Text
  pub updated_at : Text
  pub phase : Phase
  pub cancel_requested : Bool
  pub attempt : ℕ
  pub target : InstallTarget
  pub artifact : InstallArtifact
  pub plan_sha256 : Text
  pub adb_credential_id : Text
  pub preflight_root_mode : Option Text
  pub actual_apk_bytes : Option ℕ
  pub health_checked_at : Option Text
  pub result_code : Option ResultCode
  pub consumed_entry_id : Option Text

-- `receipt.is_terminal`
unfoldable pub is_terminal : InstallJobReceipt → Bool
unfolding in_phases
is_terminal r = in_phases r.phase terminal_phases

unfoldable pub texts_eq : List Text → List Text → Bool
unfolding text_eq
texts_eq [] [] = true
texts_eq (s ∷ ss) (t ∷ ts) = text_eq s t && texts_eq ss ts
texts_eq _ _ = false

unfoldable pub bool_eq : Bool → Bool → Bool
bool_eq true b = b
bool_eq false true = false
bool_eq false false = true

unfoldable pub option_eq {ℓ} : {A : Type ℓ} → (A → A → Bool) → Option A → Option A → Bool
option_eq eq none none = true
option_eq eq (some a) (some b) = eq a b
option_eq eq _ _ = false

-- `==` of the dataclasses: field by field.
unfoldable pub target_eq : InstallTarget → InstallTarget → Bool
unfolding text_eq
target_eq a b =
    text_eq a.address b.address
    && (text_eq a.pinned_address b.pinned_address
        && (text_eq a.adb_serial b.adb_serial
            && (text_eq a.model b.model
                && (text_eq a.primary_abi b.primary_abi && (a.android_sdk == b.android_sdk)))))

unfoldable pub artifact_eq : InstallArtifact → InstallArtifact → Bool
unfolding text_eq texts_eq
artifact_eq a b =
    text_eq a.descriptor_schema b.descriptor_schema
    && (text_eq a.release_tag b.release_tag
        && (text_eq a.version_name b.version_name
            && ((a.version_code == b.version_code)
                && (text_eq a.apk_name b.apk_name
                    && (text_eq a.apk_sha256 b.apk_sha256
                        && ((a.apk_size == b.apk_size)
                            && (text_eq a.package_id b.package_id
                                && (text_eq a.signer_certificate_sha256 b.signer_certificate_sha256
                                    && ((a.min_sdk == b.min_sdk)
                                        && (texts_eq a.supported_abis b.supported_abis
                                            && (text_eq a.database_compatibility
                                                  b.database_compatibility
                                                && text_eq a.launch_component
                                                    b.launch_component)))))))))))

unfoldable pub receipt_eq : InstallJobReceipt → InstallJobReceipt → Bool
unfolding text_eq target_eq artifact_eq bool_eq option_eq
receipt_eq a b =
    text_eq a.job_id b.job_id
    && ((a.revision == b.revision)
        && ((a.executor_generation == b.executor_generation)
            && (text_eq a.created_at b.created_at
                && (text_eq a.updated_at b.updated_at
                    && (phase_eq a.phase b.phase
                        && (bool_eq a.cancel_requested b.cancel_requested
                            && ((a.attempt == b.attempt)
                                && (target_eq a.target b.target
                                    && (artifact_eq a.artifact b.artifact
                                        && (text_eq a.plan_sha256 b.plan_sha256
                                            && (text_eq a.adb_credential_id b.adb_credential_id
                                                && (option_eq text_eq a.preflight_root_mode
                                                      b.preflight_root_mode
                                                    && (option_eq (λ m n. m == n) a.actual_apk_bytes
                                                          b.actual_apk_bytes
                                                        && (option_eq text_eq a.health_checked_at
                                                            b.health_checked_at
                                                            && (option_eq code_eq a.result_code
                                                            b.result_code
                                                            && option_eq text_eq a.consumed_entry_id
                                                            b.consumed_entry_id)))))))))))))))

pub texts_eq_iff : (a b : List Text) → (texts_eq a b ≡ true) ↔ (a ≡ b)
unfolding texts_eq
texts_eq_iff [] [] = ground arith
texts_eq_iff (s ∷ ss) (t ∷ ts) = ground (arith, text_eq_iff s t, texts_eq_iff ss ts)
texts_eq_iff [] (t ∷ ts) = ground arith
texts_eq_iff (s ∷ ss) [] = ground arith
