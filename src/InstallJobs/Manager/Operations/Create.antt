-- ===== src/InstallJobs/Manager/Operations/Create.antt =====
-- `async_create_or_join` of custom_components/panel_assistant/install_jobs.py.
use ha_paneld_home_assistant.Prelude.{
  ℕ, ◌+◌, Bool, true, false, ◌&&◌, ◌||◌, Option, none, some, List, [], ◌∷◌, leb, ltb, if◌then◌else◌,
  Text, text_eq, mem_text, is_hex, is_some,
}
use ha_paneld_home_assistant.Platform.{Platform}
use ha_paneld_home_assistant.InstallJobs.Phase.{approved}
use ha_paneld_home_assistant.InstallJobs.Receipt.{
  InstallTarget, InstallArtifact, InstallJobReceipt, is_terminal, target_eq, artifact_eq,
}
use ha_paneld_home_assistant.InstallJobs.Scalars.{timestamp_text, max_active_jobs}
use ha_paneld_home_assistant.InstallJobs.Parse.{
  parse_target, parse_artifact, target_dict, artifact_dict, install_plan_sha256,
}
use ha_paneld_home_assistant.InstallJobs.Document.{Jobs, job, values}
use ha_paneld_home_assistant.InstallJobs.World.{
  M, ◌>>=◌, ◌>>◌, pure, throw, require, or_throw, store_error, conflict, capacity, transition_error,
  uncaught, no_draw,
}
use ha_paneld_home_assistant.InstallJobs.Manager.Load.{load_refreshed}
use ha_paneld_home_assistant.InstallJobs.Manager.Prune.{prune}
use ha_paneld_home_assistant.InstallJobs.Manager.Current.{save_receipt}

-- The frozen inputs of one installation.
pub record Plan : Type 0 where
  pub target : InstallTarget
  pub artifact : InstallArtifact
  pub plan_sha256 : Text
  pub adb_credential_id : Text

-- Shares an address, a pin or a serial with the target.
unfoldable pub overlaps : InstallTarget → InstallTarget → Bool
unfolding text_eq
overlaps a b =
    text_eq a.address b.address
    || (text_eq a.pinned_address b.pinned_address || text_eq a.adb_serial b.adb_serial)

unfoldable pub same_plan : Plan → InstallJobReceipt → Bool
unfolding target_eq artifact_eq text_eq
same_plan plan r =
    target_eq r.target plan.target
    && (artifact_eq r.artifact plan.artifact
        && (text_eq r.plan_sha256 plan.plan_sha256
            && text_eq r.adb_credential_id plan.adb_credential_id))

-- What the loop over the receipts finds: the job to join, a conflict, or neither.
pub data Joining : Type 0 where
  join : InstallJobReceipt → Joining
  conflicts : Joining
  free : Joining

unfoldable pub joining : Plan → List InstallJobReceipt → Joining
unfolding is_terminal overlaps same_plan
joining plan [] = free
joining plan (r ∷ rs) =
    let rest = joining plan rs in
    if is_terminal r
    then rest
    else if overlaps r.target plan.target
    then (if same_plan plan r then join r else conflicts)
    else rest

unfoldable pub active_count : List InstallJobReceipt → ℕ
unfolding is_terminal
active_count [] = 0
active_count (r ∷ rs) = if is_terminal r then active_count rs else active_count rs + 1

-- `token_hex(16)` until it is not among the jobs.
unfoldable pub draw : List Text → Jobs → Option Text
unfolding job
draw [] jobs = none
draw (d ∷ ds) jobs = if is_some (job d jobs) then draw ds jobs else some d

unfoldable pub new_receipt : Plan → Text → Text → InstallJobReceipt
new_receipt plan job_id now = record {
  job_id = job_id;
  revision = 0;
  executor_generation = 0;
  created_at = now;
  updated_at = now;
  phase = approved;
  cancel_requested = false;
  attempt = 0;
  target = plan.target;
  artifact = plan.artifact;
  plan_sha256 = plan.plan_sha256;
  adb_credential_id = plan.adb_credential_id;
  preflight_root_mode = none;
  actual_apk_bytes = none;
  health_checked_at = none;
  result_code = none;
  consumed_entry_id = none;
}

module _ (p : Platform) where
  -- What comes before the lock: the parsed plan.
  unfoldable pub checked_plan : Plan → M Plan
  unfolding parse_target target_dict parse_artifact artifact_dict install_plan_sha256 text_eq is_hex
      mem_text
  checked_plan plan = do
    target ← or_throw (parse_target p (target_dict plan.target)) store_error
    artifact ← or_throw (parse_artifact (artifact_dict plan.artifact)) store_error
    expected ← or_throw (install_plan_sha256 p target artifact plan.adb_credential_id) store_error
    require (text_eq plan.plan_sha256 expected && is_hex 64 plan.adb_credential_id) transition_error
    require (mem_text target.primary_abi artifact.supported_abis) transition_error
    require (leb artifact.min_sdk target.android_sdk) transition_error
    pure (record plan { target = target; artifact = artifact })

  unfoldable pub create_new : List Text → Text → Plan → Jobs → M (InstallJobReceipt × Bool)
  unfolding active_count draw new_receipt save_receipt
  create_new draws now plan jobs = do
    require (ltb (active_count (values jobs)) max_active_jobs) capacity
    job_id ← or_throw (draw draws jobs) no_draw
    r ← save_receipt p jobs job_id (new_receipt plan job_id now)
    pure (r, true)

  -- The receipt to join, a conflict, or a new receipt.
  unfoldable pub settle : List Text → Text → Plan → Jobs → Joining → M (InstallJobReceipt × Bool)
  unfolding create_new
  settle draws now plan jobs (join r) = pure (r, false)
  settle draws now plan jobs conflicts = throw conflict
  settle draws now plan jobs free = create_new draws now plan jobs

  unfoldable pub create_or_join : List Text → Text → Plan → M (InstallJobReceipt × Bool)
  unfolding checked_plan load_refreshed timestamp_text prune joining settle
  create_or_join draws clock given = do
    plan ← checked_plan given
    loaded ← load_refreshed p
    now ← or_throw (timestamp_text p clock) store_error
    jobs ← or_throw (prune p loaded now) uncaught
    settle draws now plan jobs (joining plan (values jobs))
