-- ===== src/Tests/Final.antt =====
-- A cancelled job is final.
use ha_paneld_home_assistant.Prelude.{◌≡◌, refl, true, none, some, [], ◌∷◌}
use ha_paneld_home_assistant.Platform.{Platform}
use ha_paneld_home_assistant.InstallJobs.Phase.{cancelled, cancelled_by_user, authorizing}
use ha_paneld_home_assistant.InstallJobs.Receipt.{InstallJobReceipt, is_terminal}
use ha_paneld_home_assistant.InstallJobs.Document.{job}
use ha_paneld_home_assistant.InstallJobs.Disk.{read_disk}
use ha_paneld_home_assistant.InstallJobs.Manager.Operations.Cancel.{request_cancel}
use ha_paneld_home_assistant.InstallJobs.Manager.Operations.Claim.{claim}
use ha_paneld_home_assistant.InstallJobs.Manager.Operations.Transition.{Facts, transition}
use ha_paneld_home_assistant.InstallJobs.Proofs.Coherence.{durable}
use ha_paneld_home_assistant.InstallJobs.Proofs.Refusals.{Refused}
use ha_paneld_home_assistant.InstallJobs.Proofs.Finality.{terminal-Refused}
use ha_paneld_home_assistant.Tests.Setting.{platform, only, fresh, document, started, job_id, late}

abbrev given_up : InstallJobReceipt
given_up = record fresh {
  revision = 1;
  phase = cancelled;
  cancel_requested = true;
  result_code = some cancelled_by_user;
}

abbrev over : Platform
over = platform (document (only given_up) ∷ [])

abbrev no_facts : Facts
no_facts = record {
  preflight_root_mode = none;
  actual_apk_bytes = none;
  health_checked_at = none;
  result_code = none;
  consumed_entry_id = none;
}

over_held : durable over (started 0).disk ≡ some (only given_up)
unfolding durable read_disk document
over_held = refl

over_found : job job_id (only given_up) ≡ some given_up
unfolding job
over_found = refl

over_terminal : is_terminal given_up ≡ true
unfolding is_terminal
over_terminal = refl

terminal-Refused_example :
    Refused (started 0) (request_cancel over late job_id 1 (started 0))
    × Refused (started 0) (claim over late job_id 1 none (started 0))
    × Refused (started 0) (transition over late job_id 1 authorizing no_facts (started 0))
terminal-Refused_example =
    terminal-Refused over job_id 1 (started 0) (only given_up) given_up late none authorizing
      no_facts over_held over_found over_terminal
