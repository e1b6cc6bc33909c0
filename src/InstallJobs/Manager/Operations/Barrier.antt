-- ===== src/InstallJobs/Manager/Operations/Barrier.antt =====
-- `async_verify_mutation_barrier` and `async_verify_cleanup_barrier` of
-- custom_components/panel_assistant/install_jobs.py.
use ha_paneld_home_assistant.Prelude.{ℕ, Bool, true, false, ◌&&◌, not, Text}
use ha_paneld_home_assistant.Platform.{Platform}
use ha_paneld_home_assistant.InstallJobs.Phase.{
  Phase, phase_eq, in_phases, mutation_barriers, cleanup_barrier_cancel_polarity,
}
use ha_paneld_home_assistant.InstallJobs.Receipt.{InstallJobReceipt, receipt_eq}
use ha_paneld_home_assistant.InstallJobs.Disk.{Disk}
use ha_paneld_home_assistant.InstallJobs.World.{
  ok, raise, M, looking, ◌>>=◌, ◌>>◌, require, or_throw, transition_error,
}
use ha_paneld_home_assistant.InstallJobs.Manager.Claims.{ClaimMap, holds_claim, invalidate_cache}
use ha_paneld_home_assistant.InstallJobs.Manager.Load.{load_locked, load_durable}
use ha_paneld_home_assistant.InstallJobs.Manager.Current.{checked_current}

unfoldable pub bool_is : Bool → Bool → Bool
bool_is true b = b
bool_is false b = not b

-- The negation of the condition under which the barrier is refused.
unfoldable pub barrier_holds :
    Bool → Phase → Text → ClaimMap → InstallJobReceipt → InstallJobReceipt → Bool
unfolding receipt_eq bool_is holds_claim
barrier_holds cancel phase job_id claims in_memory receipt =
    receipt_eq receipt in_memory
    && (phase_eq receipt.phase phase
        && (bool_is cancel receipt.cancel_requested
            && holds_claim job_id receipt.executor_generation claims))

unfoldable pub barrier_result : Bool → InstallJobReceipt → M InstallJobReceipt
unfolding invalidate_cache
barrier_result true receipt w = (ok receipt, w)
barrier_result false receipt w = (raise transition_error, invalidate_cache w)

-- `meanwhile` is what another writer makes of the disk between the two snapshots of the load.
module _ (p : Platform) where
  unfoldable pub verify_barrier : (Disk → Disk) → Bool → Text → ℕ → Phase → M InstallJobReceipt
  unfolding load_locked load_durable checked_current barrier_holds barrier_result
  verify_barrier meanwhile cancel job_id expected_revision phase = do
    cached ← load_locked p
    in_memory ← looking (λ w. checked_current cached job_id expected_revision)
    durable ← load_durable p meanwhile
    receipt ← looking (λ w. checked_current durable job_id expected_revision)
    λ w. barrier_result (barrier_holds cancel phase job_id w.claims in_memory receipt) receipt w

  unfoldable pub verify_mutation_barrier : (Disk → Disk) → Text → ℕ → Phase → M InstallJobReceipt
  unfolding in_phases verify_barrier
  verify_mutation_barrier meanwhile job_id expected_revision phase = do
    require (in_phases phase mutation_barriers) transition_error
    verify_barrier meanwhile false job_id expected_revision phase

  unfoldable pub verify_cleanup_barrier : (Disk → Disk) → Text → ℕ → Phase → M InstallJobReceipt
  unfolding cleanup_barrier_cancel_polarity verify_barrier
  verify_cleanup_barrier meanwhile job_id expected_revision phase = do
    expected_cancel ← or_throw (cleanup_barrier_cancel_polarity phase) transition_error
    verify_barrier meanwhile expected_cancel job_id expected_revision phase
