-- ===== src/InstallJobs/Manager/Calls.antt =====
-- The life of an `InstallJobManager` of custom_components/panel_assistant/install_jobs.py: the calls
-- of its methods one after the other, under the lock that each of them takes, and its `__init__`
-- when Home Assistant starts again.
use ha_paneld_home_assistant.Prelude.{ℕ, Option, none, List, [], ◌∷◌, Text}
use ha_paneld_home_assistant.Platform.{Platform}
use ha_paneld_home_assistant.InstallJobs.Phase.{Phase}
use ha_paneld_home_assistant.InstallJobs.Disk.{Disk}
use ha_paneld_home_assistant.InstallJobs.World.{World, Weather}
use ha_paneld_home_assistant.InstallJobs.Manager.Operations.Create.{Plan, create_or_join}
use ha_paneld_home_assistant.InstallJobs.Manager.Operations.Find.{get, list_jobs, find_active}
use ha_paneld_home_assistant.InstallJobs.Manager.Operations.Cancel.{request_cancel}
use ha_paneld_home_assistant.InstallJobs.Manager.Operations.Claim.{claim}
use ha_paneld_home_assistant.InstallJobs.Manager.Operations.Transition.{Facts, transition}
use ha_paneld_home_assistant.InstallJobs.Manager.Operations.Barrier.{
  verify_mutation_barrier, verify_cleanup_barrier,
}

-- One call with its arguments, and what `token_hex` and the clock answer in it and another writer does
-- to the disk.
pub data Call : Type 0 where
  creating : (draws : List Text) (clock : Text) (plan : Plan) → Call
  getting : (job_id : Text) → Call
  listing : Call
  finding : (address pinned_address : Text) → Call
  cancelling : (clock job_id : Text) (expected_revision : ℕ) → Call
  claiming : (clock job_id : Text) (expected_revision : ℕ) (cleanup : Option ℕ) → Call
  advancing : (clock job_id : Text) (expected_revision : ℕ) (phase : Phase) (facts : Facts) → Call
  before_mutation :
      (meanwhile : Disk → Disk) (job_id : Text) (expected_revision : ℕ) (phase : Phase) → Call
  before_cleanup :
      (meanwhile : Disk → Disk) (job_id : Text) (expected_revision : ℕ) (phase : Phase) → Call
  restart : Call

-- A new manager: no cache and no claim, over the same file.
unfoldable pub restarted : World → World
restarted w = record w { cache = none; claims = [] }

module _ (p : Platform) where
  -- The state after the call, whether it returns or raises.
  unfoldable pub run_call : Call → World → World
  unfolding restarted create_or_join get list_jobs find_active request_cancel claim transition
      verify_mutation_barrier verify_cleanup_barrier
  run_call (creating draws clock plan) w = (create_or_join p draws clock plan w).1
  run_call (getting job_id) w = (get p job_id w).1
  run_call listing w = (list_jobs p w).1
  run_call (finding address pinned) w = (find_active p address pinned w).1
  run_call (cancelling clock job_id n) w = (request_cancel p clock job_id n w).1
  run_call (claiming clock job_id n cleanup) w = (claim p clock job_id n cleanup w).1
  run_call (advancing clock job_id n phase f) w = (transition p clock job_id n phase f w).1
  run_call (before_mutation meanwhile job_id n phase) w =
      (verify_mutation_barrier p meanwhile job_id n phase w).1
  run_call (before_cleanup meanwhile job_id n phase) w =
      (verify_cleanup_barrier p meanwhile job_id n phase w).1
  run_call restart w = restarted w

  -- The calls in order, each with the outcomes that the environment has in store for it.
  unfoldable pub run_calls : List (Call × List Weather) → World → World
  unfolding run_call
  run_calls [] w = w
  run_calls ((c, weather) ∷ cs) w = run_calls cs (run_call c (record w { weather = weather }))
