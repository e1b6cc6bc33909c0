-- ===== src/InstallJobs/Manager/Operations/Transition.antt =====
-- `async_transition` of custom_components/panel_assistant/install_jobs.py.
use ha_paneld_home_assistant.Prelude.{
  ℕ, ◌+◌, Bool, true, false, ◌&&◌, ◌||◌, not, Option, none, some, [], ◌∷◌, if◌then◌else◌, is_some,
  is_none, Text, pos,
}
use ha_paneld_home_assistant.Value.{str, int}
use ha_paneld_home_assistant.Platform.{Platform}
use ha_paneld_home_assistant.InstallJobs.Phase.{
  Phase, ResultCode, phase_eq, in_phases, in_codes, next_phases, failure_codes_by_phase,
  recovery_source_phases, recovery_codes, preflight, downloading, artifact_ready, staging,
  healthy_unclaimed, consumed, cancelled, failed, recovery_required, entry_created,
  cancelled_by_user, cancelled_after_staging_cleanup,
}
use ha_paneld_home_assistant.InstallJobs.Receipt.{InstallJobReceipt}
use ha_paneld_home_assistant.InstallJobs.Scalars.{safe_text, integer, timestamp_text, max_apk_bytes}
use ha_paneld_home_assistant.InstallJobs.Invariants.{is_root_mode, validate_receipt_invariants}
use ha_paneld_home_assistant.InstallJobs.Document.{parse_entry_id}
use ha_paneld_home_assistant.InstallJobs.World.{
  M, ok, raise, looking, ◌>>=◌, ◌>>◌, require, or_throw, store_error, transition_error,
}
use ha_paneld_home_assistant.InstallJobs.Manager.Claims.{ClaimMap, holds_claim}
use ha_paneld_home_assistant.InstallJobs.Manager.Load.{load_refreshed}
use ha_paneld_home_assistant.InstallJobs.Manager.Current.{checked_current, prune_and_save_receipt}

-- The keyword arguments of a transition.
pub record Facts : Type 0 where
  pub preflight_root_mode : Option Text
  pub actual_apk_bytes : Option ℕ
  pub health_checked_at : Option Text
  pub result_code : Option ResultCode
  pub consumed_entry_id : Option Text

valid_if_given : {A B : Type 0} → (A → Option B) → Option A → Bool
valid_if_given parse none = true
valid_if_given parse (some a) = is_some (parse a)

module _ (p : Platform) where
  root_mode_valid : Text → Bool
  unfolding safe_text is_root_mode
  root_mode_valid mode = is_some (safe_text 16 (str mode)) && is_root_mode (some mode)

  -- The parsers return what they are given, so only their success is kept.
  unfoldable pub facts_valid : Facts → Bool
  unfolding valid_if_given root_mode_valid integer timestamp_text parse_entry_id
  facts_valid f =
      elim f.preflight_root_mode [ none ↦ true | some mode ↦ root_mode_valid mode ]
      && (valid_if_given (λ n. integer 1 max_apk_bytes (int (pos n))) f.actual_apk_bytes
          && (valid_if_given (timestamp_text p) f.health_checked_at
              && valid_if_given (λ s. parse_entry_id p (str s)) f.consumed_entry_id))

unfoldable pub edge_allowed : InstallJobReceipt → Phase → Bool
unfolding in_phases next_phases
edge_allowed r phase =
    in_phases phase (next_phases r.phase)
    && not
        (r.cancel_requested && not (in_phases phase (cancelled ∷ failed ∷ recovery_required ∷ [])))

-- Only the end of a healthy installation needs no claim.
unfoldable pub claim_allows : InstallJobReceipt → Phase → Text → ClaimMap → Bool
unfolding in_phases holds_claim
claim_allows r phase job_id claims =
    (phase_eq r.phase healthy_unclaimed && in_phases phase (consumed ∷ recovery_required ∷ []))
    || holds_claim job_id r.executor_generation claims

-- What one phase learns must be given there and be new, and must not be given elsewhere.
learned : {A : Type 0} → Bool → Option A → Option A → Bool
learned true given old = is_some given && is_none old
learned false given old = is_none given

unfoldable pub facts_allowed : InstallJobReceipt → Phase → Facts → Bool
unfolding learned
facts_allowed r phase f =
    learned (phase_eq r.phase preflight && phase_eq phase downloading) f.preflight_root_mode
      r.preflight_root_mode
    && (learned (phase_eq phase artifact_ready) f.actual_apk_bytes r.actual_apk_bytes
        && learned (phase_eq phase healthy_unclaimed) f.health_checked_at r.health_checked_at)

unfoldable pub result_allowed : InstallJobReceipt → Phase → Facts → Bool
unfolding in_codes in_phases failure_codes_by_phase
result_allowed r phase f =
    if phase_eq phase cancelled
    then r.cancel_requested
      && (in_codes f.result_code (
            (if phase_eq r.phase staging
              then cancelled_after_staging_cleanup
              else cancelled_by_user)
            ∷ [])
          && is_none f.consumed_entry_id)
    else if phase_eq phase failed
    then in_codes f.result_code (failure_codes_by_phase r.phase) && is_none f.consumed_entry_id
    else if phase_eq phase recovery_required
    then in_phases r.phase recovery_source_phases
      && (in_codes f.result_code recovery_codes && is_none f.consumed_entry_id)
    else if phase_eq phase consumed
    then in_codes f.result_code (entry_created ∷ []) && is_some f.consumed_entry_id
    else (is_none f.result_code && is_none f.consumed_entry_id)

unfoldable pub newer {ℓ} : {A : Type ℓ} → Option A → Option A → Option A
newer none old = old
newer (some a) old = some a

unfoldable pub advanced : InstallJobReceipt → Phase → Facts → Text → InstallJobReceipt
unfolding newer
advanced r phase f now = record r {
  revision = r.revision + 1;
  updated_at = now;
  phase = phase;
  preflight_root_mode = newer f.preflight_root_mode r.preflight_root_mode;
  actual_apk_bytes = newer f.actual_apk_bytes r.actual_apk_bytes;
  health_checked_at =
      if phase_eq r.phase healthy_unclaimed && phase_eq phase recovery_required
      then none
      else newer f.health_checked_at r.health_checked_at;
  result_code = f.result_code;
  consumed_entry_id = f.consumed_entry_id;
}

module _ (p : Platform) where
  -- The guards that read the current receipt and the claims.
  unfoldable pub guarded : InstallJobReceipt → Phase → Facts → Text → M (Unit {0})
  unfolding edge_allowed claim_allows facts_allowed result_allowed
  guarded current phase f job_id = do
    require (edge_allowed current phase) transition_error
    looking
        (λ w. if claim_allows current phase job_id w.claims then ok tt else raise transition_error)
    require (facts_allowed current phase f) transition_error
    require (result_allowed current phase f) transition_error

  unfoldable pub transition : Text → Text → ℕ → Phase → Facts → M InstallJobReceipt
  unfolding facts_valid load_refreshed checked_current guarded timestamp_text advanced
      validate_receipt_invariants prune_and_save_receipt
  transition clock job_id expected_revision phase f = do
    require (facts_valid p f) transition_error
    jobs ← load_refreshed p
    current ← looking (λ w. checked_current jobs job_id expected_revision)
    guarded current phase f job_id
    now ← or_throw (timestamp_text p clock) store_error
    or_throw (validate_receipt_invariants p (advanced current phase f now)) transition_error
    prune_and_save_receipt p jobs job_id (advanced current phase f now)
