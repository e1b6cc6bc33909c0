-- ===== src/InstallJobs/Manager/Operations/Cancel.antt =====
-- `async_request_cancel` of custom_components/panel_assistant/install_jobs.py.
use ha_paneld_home_assistant.Prelude.{ℕ, ◌+◌, true, if◌then◌else◌, Text}
use ha_paneld_home_assistant.Platform.{Platform}
use ha_paneld_home_assistant.InstallJobs.Phase.{in_phases, cancellable_phases}
use ha_paneld_home_assistant.InstallJobs.Receipt.{InstallJobReceipt}
use ha_paneld_home_assistant.InstallJobs.Scalars.{timestamp_text}
use ha_paneld_home_assistant.InstallJobs.Document.{Jobs}
use ha_paneld_home_assistant.InstallJobs.World.{
  M, ok, looking, ◌>>=◌, ◌>>◌, require, or_throw, store_error, transition_error,
}
use ha_paneld_home_assistant.InstallJobs.Manager.Load.{load_refreshed}
use ha_paneld_home_assistant.InstallJobs.Manager.Current.{checked_current, save_receipt}

unfoldable pub cancel_requested_receipt : InstallJobReceipt → Text → InstallJobReceipt
cancel_requested_receipt r now = record r {
  revision = r.revision + 1;
  updated_at = now;
  cancel_requested = true;
}

module _ (p : Platform) where
  unfoldable pub save_cancel : Text → Jobs → Text → InstallJobReceipt → M InstallJobReceipt
  unfolding timestamp_text cancel_requested_receipt save_receipt
  save_cancel clock jobs job_id current = do
    now ← or_throw (timestamp_text p clock) store_error
    save_receipt p jobs job_id (cancel_requested_receipt current now)

  -- A repeated request changes nothing.
  unfoldable pub cancel_once : Text → Jobs → Text → InstallJobReceipt → M InstallJobReceipt
  unfolding save_cancel
  cancel_once clock jobs job_id current w =
      if current.cancel_requested then (ok current, w) else save_cancel clock jobs job_id current w

  unfoldable pub request_cancel : Text → Text → ℕ → M InstallJobReceipt
  unfolding load_refreshed checked_current in_phases cancel_once
  request_cancel clock job_id expected_revision = do
    jobs ← load_refreshed p
    current ← looking (λ w. checked_current jobs job_id expected_revision)
    require (in_phases current.phase cancellable_phases) transition_error
    cancel_once clock jobs job_id current
