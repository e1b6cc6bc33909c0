-- ===== src/InstallJobs/Invariants.antt =====
-- `_validate_receipt_invariants` of custom_components/panel_assistant/install_jobs.py. Each
-- conjunct is one `if …: raise InstallJobStoreError`, negated.
use ha_paneld_home_assistant.Prelude.{
  ℕ, Bool, true, false, ◌&&◌, ◌||◌, not, Option, none, some, List, [], ◌∷◌, leb, ◌==◌,
  if◌then◌else◌, is_some, is_none, ◌>>◌, check, Text, codes, text_eq, text_ltb, mem_text,
}
use ha_paneld_home_assistant.Platform.{Platform}
use ha_paneld_home_assistant.InstallJobs.Phase.{
  in_phases, in_codes, phase_eq, terminal_phases, artifact_required_phases,
  preflight_root_mode_required_phases, preflight_root_mode_forbidden_phases, failure_codes,
  recovery_codes, entry_created, cancelled_by_user, cancelled_after_staging_cleanup, consumed,
  cancelled, failed, recovery_required, healthy_unclaimed,
}
use ha_paneld_home_assistant.InstallJobs.Receipt.{InstallJobReceipt}
use ha_paneld_home_assistant.InstallJobs.Parse.{install_plan_sha256}

abbrev pub preflight_root_modes : List Text
preflight_root_modes = codes "root_adbd" ∷ codes "rootless" ∷ codes "root_su" ∷ []

-- `mode in _PREFLIGHT_ROOT_MODES`
unfoldable pub is_root_mode : Option Text → Bool
unfolding mem_text
is_root_mode none = false
is_root_mode (some mode) = mem_text mode preflight_root_modes

size_matches : Option ℕ → ℕ → Bool
size_matches none apk_size = true
size_matches (some actual) apk_size = actual == apk_size

unfoldable pub revisions_fit : InstallJobReceipt → Bool
revisions_fit r = (r.attempt == r.executor_generation) && leb r.executor_generation r.revision

unfoldable pub root_mode_fits : InstallJobReceipt → Bool
unfolding in_phases is_root_mode
root_mode_fits r =
    not (in_phases r.phase preflight_root_mode_forbidden_phases && is_some r.preflight_root_mode)
    && not (
        in_phases r.phase preflight_root_mode_required_phases
        && not (is_root_mode r.preflight_root_mode))

unfoldable pub artifact_fits : InstallJobReceipt → Bool
unfolding in_phases
artifact_fits r =
    not (in_phases r.phase artifact_required_phases && is_none r.actual_apk_bytes)
    && not (
        not (in_phases r.phase artifact_required_phases)
        && (not (in_phases r.phase terminal_phases) && is_some r.actual_apk_bytes))

unfoldable pub consumption_fits : InstallJobReceipt → Bool
unfolding in_codes
consumption_fits r =
    if phase_eq r.phase consumed
    then in_codes r.result_code (entry_created ∷ [])
      && (is_some r.consumed_entry_id && is_some r.health_checked_at)
    else is_none r.consumed_entry_id

unfoldable pub result_fits : InstallJobReceipt → Bool
unfolding in_codes
result_fits r =
    if phase_eq r.phase cancelled
    then in_codes r.result_code (cancelled_by_user ∷ cancelled_after_staging_cleanup ∷ [])
      && r.cancel_requested
    else if phase_eq r.phase failed
    then in_codes r.result_code failure_codes
    else if phase_eq r.phase recovery_required
    then in_codes r.result_code recovery_codes
    else (phase_eq r.phase consumed || is_none r.result_code)

unfoldable pub health_fits : InstallJobReceipt → Bool
unfolding in_phases
health_fits r =
    if in_phases r.phase (healthy_unclaimed ∷ consumed ∷ [])
    then is_some r.health_checked_at
    else is_none r.health_checked_at

-- `created_at <= health_checked_at <= updated_at`
unfoldable pub health_time_fits : InstallJobReceipt → Bool
unfolding text_ltb
health_time_fits r = elim r.health_checked_at [
  | none ↦ true
  | some checked ↦ not (text_ltb checked r.created_at) && not (text_ltb r.updated_at checked)
]

-- What is tested of the phase and the fields that depend on it.
unfoldable pub phase_fields_fit : InstallJobReceipt → Bool
unfolding revisions_fit root_mode_fits artifact_fits consumption_fits result_fits health_fits
    health_time_fits
phase_fields_fit r =
    revisions_fit r
    && (root_mode_fits r
        && (artifact_fits r
            && (consumption_fits r && (result_fits r && (health_fits r && health_time_fits r)))))

module _ (p : Platform) where
  -- The plan's digest, and the fit of the artifact to the target.
  unfoldable pub plan_fits : InstallJobReceipt → Bool
  unfolding install_plan_sha256 text_eq mem_text
  plan_fits r = elim (install_plan_sha256 p r.target r.artifact r.adb_credential_id) [
    | none ↦ false
    | some digest ↦
        text_eq r.plan_sha256 digest
        && (mem_text r.target.primary_abi r.artifact.supported_abis
            && leb r.artifact.min_sdk r.target.android_sdk)
  ]

  unfoldable pub validate_receipt_invariants : InstallJobReceipt → Option (Unit {0})
  unfolding text_ltb size_matches plan_fits phase_fields_fit
  validate_receipt_invariants r = do
    check (not (text_ltb r.updated_at r.created_at))
    check (size_matches r.actual_apk_bytes r.artifact.apk_size)
    check (plan_fits r)
    check (phase_fields_fit r)
