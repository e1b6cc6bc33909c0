-- ===== src/InstallJobs/Manager/Operations/Claim.antt =====
-- `async_claim` of custom_components/panel_assistant/install_jobs.py.
use ha_paneld_home_assistant.Prelude.{
  ℕ, ◌+◌, Bool, true, ◌&&◌, ◌||◌, not, Option, none, some, leb, ◌==◌, if◌then◌else◌, is_none, Text,
}
use ha_paneld_home_assistant.Platform.{Platform}
use ha_paneld_home_assistant.InstallJobs.Phase.{
  Phase, ResultCode, in_phases, phase_eq, restart_ambiguous_phases, recovery_required,
  healthy_unclaimed, verification_required,
}
use ha_paneld_home_assistant.InstallJobs.Receipt.{InstallJobReceipt, is_terminal}
use ha_paneld_home_assistant.InstallJobs.Scalars.{
  timestamp_text, max_attempts, max_executor_generation,
}
use ha_paneld_home_assistant.InstallJobs.Document.{Jobs}
use ha_paneld_home_assistant.InstallJobs.World.{
  ok, raise, M, looking, ◌>>=◌, ◌>>◌, require, or_throw, store_error, transition_error,
  revision_error, cleanup_required,
}
use ha_paneld_home_assistant.InstallJobs.Manager.Claims.{holds_claim, put_claim}
use ha_paneld_home_assistant.InstallJobs.Manager.Load.{load_refreshed}
use ha_paneld_home_assistant.InstallJobs.Manager.Current.{checked_current, prune_and_save_receipt}

unfoldable pub is_exhausted : InstallJobReceipt → Bool
is_exhausted r = leb max_executor_generation r.executor_generation || leb max_attempts r.attempt

unfoldable pub exhausted_receipt : InstallJobReceipt → Text → InstallJobReceipt
exhausted_receipt r now = record r {
  revision = r.revision + 1;
  updated_at = now;
  phase = recovery_required;
  result_code = some verification_required;
}

-- The phase and the code of a claimed receipt: an ambiguous phase is never resumed.
unfoldable pub claimed_phase : Phase → Phase × Option ResultCode
unfolding in_phases
claimed_phase phase =
    if in_phases phase restart_ambiguous_phases
    then (recovery_required, some verification_required)
    else (phase, none)

unfoldable pub claimed_receipt : InstallJobReceipt → Text → InstallJobReceipt
unfolding claimed_phase
claimed_receipt r now = record r {
  revision = r.revision + 1;
  executor_generation = r.executor_generation + 1;
  updated_at = now;
  phase = (claimed_phase r.phase).0;
  attempt = r.attempt + 1;
  result_code = (claimed_phase r.phase).1;
}

unfoldable pub cleanup_confirmed : Option ℕ → ℕ → Bool
cleanup_confirmed none revision = true
cleanup_confirmed (some confirmed) revision = confirmed == revision

-- The claim of a receipt that can still be advanced.
unfoldable pub record_claim : Text → InstallJobReceipt → M InstallJobReceipt
unfolding is_terminal put_claim
record_claim job_id r w =
    if is_terminal r
    then (ok r, w)
    else (ok r, record w { claims = put_claim job_id r.executor_generation w.claims })

module _ (p : Platform) where
  unfoldable pub save_claim : Jobs → Text → InstallJobReceipt → Text → M InstallJobReceipt
  unfolding is_exhausted exhausted_receipt claimed_receipt prune_and_save_receipt record_claim
  save_claim jobs job_id current now w =
      if is_exhausted current
      then prune_and_save_receipt p jobs job_id (exhausted_receipt current now) w
      else (prune_and_save_receipt p jobs job_id (claimed_receipt current now)
            >>= record_claim job_id)
          w

  unfoldable pub claim_anew : Text → Jobs → Text → InstallJobReceipt → M InstallJobReceipt
  unfolding timestamp_text save_claim
  claim_anew clock jobs job_id current = do
    now ← or_throw (timestamp_text p clock) store_error
    save_claim jobs job_id current now

  unfoldable pub claim_or_keep :
      Text → Jobs → Text → InstallJobReceipt → Option ℕ → M InstallJobReceipt
  unfolding holds_claim is_exhausted in_phases claim_anew
  claim_or_keep clock jobs job_id current cleanup w =
      if holds_claim job_id current.executor_generation w.claims
      then (ok current, w)
      else if (is_exhausted current || in_phases current.phase restart_ambiguous_phases)
          && is_none cleanup
      then (raise cleanup_required, w)
      else claim_anew clock jobs job_id current w

  unfoldable pub claim : Text → Text → ℕ → Option ℕ → M InstallJobReceipt
  unfolding load_refreshed checked_current is_terminal cleanup_confirmed claim_or_keep
  claim clock job_id expected_revision cleanup = do
    jobs ← load_refreshed p
    current ← looking (λ w. checked_current jobs job_id expected_revision)
    require (not (is_terminal current || phase_eq current.phase healthy_unclaimed)) transition_error
    require (cleanup_confirmed cleanup current.revision) revision_error
    claim_or_keep clock jobs job_id current cleanup
