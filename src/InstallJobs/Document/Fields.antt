-- ===== src/InstallJobs/Document/Fields.antt =====
-- `_parse_receipt` and `_serialize_receipt` of
-- custom_components/panel_assistant/install_jobs.py; `none` is `InstallJobStoreError`.
use ha_paneld_home_assistant.Prelude.{
  Bool, ◌&&◌, Option, none, some, List, [], ◌∷◌, if◌then◌else◌, ◌>>=◌, ◌>>◌, check, Text, codes,
  is_hex, pos,
}
use ha_paneld_home_assistant.Value.{Value, null, bool, int, str, obj, end, field, item, keys_are}
use ha_paneld_home_assistant.Platform.{Platform}
use ha_paneld_home_assistant.InstallJobs.Phase.{
  Phase, ResultCode, phase_of, code_of, phase_value, code_value,
}
use ha_paneld_home_assistant.InstallJobs.Receipt.{InstallJobReceipt}
use ha_paneld_home_assistant.InstallJobs.Scalars.{
  safe_text, integer, timestamp, is_config_entry_id, max_attempts, max_executor_generation,
  max_revision, max_apk_bytes,
}
use ha_paneld_home_assistant.InstallJobs.Parse.{
  fields_of, parse_target, parse_artifact, target_dict, artifact_dict,
}
use ha_paneld_home_assistant.InstallJobs.Invariants.{is_root_mode, validate_receipt_invariants}

abbrev pub receipt_keys : List Text
receipt_keys =
    codes "job_id"
    ∷ codes "revision"
    ∷ codes "executor_generation"
    ∷ codes "created_at"
    ∷ codes "updated_at"
    ∷ codes "phase"
    ∷ codes "cancel_requested"
    ∷ codes "attempt"
    ∷ codes "target"
    ∷ codes "artifact"
    ∷ codes "plan_sha256"
    ∷ codes "adb_credential_id"
    ∷ codes "preflight_root_mode"
    ∷ codes "actual_apk_bytes"
    ∷ codes "health_checked_at"
    ∷ codes "result_code"
    ∷ codes "consumed_entry_id"
    ∷ []

-- A field that may be `None`, or is parsed.
unfoldable pub optional : {A : Type 0} → (Value → Option A) → Value → Option (Option A)
optional parse null = some none
optional parse v = do a ← parse v; some (some a)

unfoldable pub parse_phase : Value → Option Phase
unfolding phase_of
parse_phase (str s) = phase_of s
parse_phase _ = none

unfoldable pub parse_code : Value → Option ResultCode
unfolding code_of
parse_code (str s) = code_of s
parse_code _ = none

unfoldable pub parse_bool : Value → Option Bool
parse_bool (bool b) = some b
parse_bool _ = none

unfoldable pub parse_root_mode : Value → Option Text
unfolding is_root_mode
parse_root_mode (str s) = if is_root_mode (some s) then some s else none
parse_root_mode _ = none

module _ (p : Platform) where
  unfoldable pub parse_entry_id : Value → Option Text
  unfolding safe_text is_config_entry_id
  parse_entry_id v = do
    entry_id ← safe_text 32 v
    check (is_config_entry_id p entry_id)
    some entry_id

  -- The fields, each parsed on its own.
  unfoldable pub parse_receipt_fields : Value → Option InstallJobReceipt
  unfolding fields_of keys_are item safe_text is_hex optional parse_phase parse_code parse_bool
      parse_root_mode integer timestamp parse_entry_id parse_target parse_artifact
  parse_receipt_fields value = do
    fields ← fields_of value
    check (keys_are receipt_keys fields)
    job_id ← safe_text 32 (← item (codes "job_id") fields)
    plan_sha256 ← safe_text 64 (← item (codes "plan_sha256") fields)
    credential_id ← safe_text 64 (← item (codes "adb_credential_id") fields)
    check (is_hex 32 job_id && (is_hex 64 plan_sha256 && is_hex 64 credential_id))
    phase ← parse_phase (← item (codes "phase") fields)
    result_code ← optional parse_code (← item (codes "result_code") fields)
    cancel_requested ← parse_bool (← item (codes "cancel_requested") fields)
    root_mode ← optional parse_root_mode (← item (codes "preflight_root_mode") fields)
    actual ← optional (integer 1 max_apk_bytes) (← item (codes "actual_apk_bytes") fields)
    health ← optional (timestamp p) (← item (codes "health_checked_at") fields)
    entry_id ← optional parse_entry_id (← item (codes "consumed_entry_id") fields)
    revision ← integer 0 max_revision (← item (codes "revision") fields)
    generation ← integer 0 max_executor_generation (← item (codes "executor_generation") fields)
    created_at ← timestamp p (← item (codes "created_at") fields)
    updated_at ← timestamp p (← item (codes "updated_at") fields)
    attempt ← integer 0 max_attempts (← item (codes "attempt") fields)
    target ← parse_target p (← item (codes "target") fields)
    artifact ← parse_artifact (← item (codes "artifact") fields)
    some (record {
      job_id = job_id;
      revision = revision;
      executor_generation = generation;
      created_at = created_at;
      updated_at = updated_at;
      phase = phase;
      cancel_requested = cancel_requested;
      attempt = attempt;
      target = target;
      artifact = artifact;
      plan_sha256 = plan_sha256;
      adb_credential_id = credential_id;
      preflight_root_mode = root_mode;
      actual_apk_bytes = actual;
      health_checked_at = health;
      result_code = result_code;
      consumed_entry_id = entry_id;
    })

  unfoldable pub parse_receipt : Value → Option InstallJobReceipt
  unfolding parse_receipt_fields validate_receipt_invariants
  parse_receipt value = do
    receipt ← parse_receipt_fields value
    validate_receipt_invariants p receipt
    some receipt

-- `None`, or the value of what is there.
unfoldable pub or_null : {A : Type 0} → (A → Value) → Option A → Value
or_null f none = null
or_null f (some a) = f a

unfoldable pub serialize_receipt : InstallJobReceipt → Value
unfolding target_dict artifact_dict phase_value code_value or_null
serialize_receipt r = obj (
    field (codes "job_id") (str r.job_id) (
      field (codes "revision") (int (pos r.revision)) (
        field (codes "executor_generation") (int (pos r.executor_generation)) (
          field (codes "created_at") (str r.created_at) (
            field (codes "updated_at") (str r.updated_at) (
              field (codes "phase") (str (phase_value r.phase)) (
                field (codes "cancel_requested") (bool r.cancel_requested) (
                  field (codes "attempt") (int (pos r.attempt)) (
                    field (codes "target") (target_dict r.target) (
                      field (codes "artifact") (artifact_dict r.artifact) (
                        field (codes "plan_sha256") (str r.plan_sha256) (
                          field (codes "adb_credential_id") (str r.adb_credential_id) (
                            field (codes "preflight_root_mode") (or_null str r.preflight_root_mode)
                              (field (codes "actual_apk_bytes")
                                (or_null (λ n. int (pos n)) r.actual_apk_bytes)
                                (field (codes "health_checked_at") (or_null str r.health_checked_at)
                                  (field (codes "result_code")
                                    (or_null (λ c. str (code_value c)) r.result_code)
                                    (field (codes "consumed_entry_id")
                                      (or_null str r.consumed_entry_id) end)))))))))))))))))
