-- ===== src/InstallJobs/Manager/Operations/Find.antt =====
-- `async_get`, `async_list` and `async_find_active` of
-- custom_components/panel_assistant/install_jobs.py.
use ha_paneld_home_assistant.Prelude.{
  Bool, ◌&&◌, ◌||◌, Option, none, some, List, [], ◌∷◌, if◌then◌else◌, Text, text_eq, is_hex,
}
use ha_paneld_home_assistant.Platform.{Platform}
use ha_paneld_home_assistant.InstallJobs.Receipt.{InstallTarget, InstallJobReceipt, is_terminal}
use ha_paneld_home_assistant.InstallJobs.Parse.{check_addresses}
use ha_paneld_home_assistant.InstallJobs.Document.{job, values, in_order}
use ha_paneld_home_assistant.InstallJobs.World.{
  Result, ok, raise, M, looking, ◌>>=◌, ◌>>◌, pure, require, or_throw, store_error, conflict,
  not_found,
}
use ha_paneld_home_assistant.InstallJobs.Manager.Load.{load_refreshed}

unfoldable pub same_addresses : Text → Text → InstallTarget → Bool
unfolding text_eq
same_addresses address pinned t = text_eq t.address address && text_eq t.pinned_address pinned

unfoldable pub shares_address : Text → Text → InstallTarget → Bool
unfolding text_eq
shares_address address pinned t = text_eq t.address address || text_eq t.pinned_address pinned

-- The loop over the receipts: the job, `None`, or a conflict.
unfoldable pub active_at : Text → Text → List InstallJobReceipt → Result (Option InstallJobReceipt)
unfolding is_terminal shares_address same_addresses
active_at address pinned [] = ok none
active_at address pinned (r ∷ rs) =
    let rest = active_at address pinned rs in
    if is_terminal r
    then rest
    else if shares_address address pinned r.target
    then (if same_addresses address pinned r.target then ok (some r) else raise conflict)
    else rest

module _ (p : Platform) where
  unfoldable pub get : Text → M InstallJobReceipt
  unfolding is_hex load_refreshed job
  get job_id = do
    require (is_hex 32 job_id) not_found
    jobs ← load_refreshed p
    or_throw (job job_id jobs) not_found

  unfoldable pub list_jobs : M (List InstallJobReceipt)
  unfolding load_refreshed in_order
  list_jobs = do jobs ← load_refreshed p; pure (in_order jobs)

  unfoldable pub find_active : Text → Text → M (Option InstallJobReceipt)
  unfolding check_addresses load_refreshed active_at
  find_active address pinned_address = do
    or_throw (check_addresses p address pinned_address) store_error
    jobs ← load_refreshed p
    looking (λ w. active_at address pinned_address (values jobs))
