-- ===== src/InstallJobs/Manager/Current.antt =====
-- `_checked_current` of custom_components/panel_assistant/install_jobs.py, and what the methods
-- share: the revision that replaces a receipt, and the receipt read back after a save.
use ha_paneld_home_assistant.Prelude.{ℕ, Option, none, some, ◌==◌, if◌then◌else◌, Text, is_hex}
use ha_paneld_home_assistant.Platform.{Platform}
use ha_paneld_home_assistant.InstallJobs.Receipt.{InstallJobReceipt}
use ha_paneld_home_assistant.InstallJobs.Document.{Jobs, job, put}
use ha_paneld_home_assistant.InstallJobs.World.{
  Result, ok, raise, M, not_found, revision_error, uncaught, looking, ◌>>=◌, ◌>>◌, or_throw,
}
use ha_paneld_home_assistant.InstallJobs.Manager.Prune.{prune}
use ha_paneld_home_assistant.InstallJobs.Manager.Save.{save_locked}

unfoldable pub at_revision : ℕ → Option InstallJobReceipt → Result InstallJobReceipt
at_revision expected none = raise not_found
at_revision expected (some r) = if r.revision == expected then ok r else raise revision_error

unfoldable pub checked_current : Jobs → Text → ℕ → Result InstallJobReceipt
unfolding is_hex job at_revision
checked_current jobs job_id expected_revision =
    if is_hex 32 job_id then at_revision expected_revision (job job_id jobs) else raise not_found

found : Option InstallJobReceipt → Result InstallJobReceipt
found none = raise uncaught
found (some r) = ok r

unfoldable pub entry_of : Text → Option Jobs → Result InstallJobReceipt
unfolding job found
entry_of job_id none = raise uncaught
entry_of job_id (some jobs) = found (job job_id jobs)

-- `self._jobs[job_id]`, where a missing key is a `KeyError`.
unfoldable pub persisted : Text → M InstallJobReceipt
persisted job_id = looking (λ w. entry_of job_id w.cache)

module _ (p : Platform) where
  -- `jobs[job_id] = updated`, the save, and the receipt as it was read back.
  unfoldable pub save_receipt : Jobs → Text → InstallJobReceipt → M InstallJobReceipt
  unfolding put save_locked persisted entry_of
  save_receipt jobs job_id updated = do save_locked p (put job_id updated jobs); persisted job_id

  -- The same with `self._prune(jobs, updated.updated_at)` before the save.
  unfoldable pub prune_and_save_receipt : Jobs → Text → InstallJobReceipt → M InstallJobReceipt
  unfolding put prune save_locked persisted entry_of
  prune_and_save_receipt jobs job_id updated = do
    pruned ← or_throw (prune p (put job_id updated jobs) updated.updated_at) uncaught
    save_locked p pruned
    persisted job_id
