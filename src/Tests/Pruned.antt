-- ===== src/Tests/Pruned.antt =====
-- A live job, and one that was given up more than a week ago.
use ha_paneld_home_assistant.Prelude.{
  ◌≡◌, ◌↔◌, ◌*◌, refl, true, some, [], ◌∷◌, if◌then◌else◌, Text, codes, text_eq,
}
use ha_paneld_home_assistant.Platform.{Platform}
use ha_paneld_home_assistant.InstallJobs.Phase.{cancelled, cancelled_by_user}
use ha_paneld_home_assistant.InstallJobs.Receipt.{InstallJobReceipt, is_terminal}
use ha_paneld_home_assistant.InstallJobs.Scalars.{terminal_retention}
use ha_paneld_home_assistant.InstallJobs.Document.{Jobs, job}
use ha_paneld_home_assistant.InstallJobs.Manager.Prune.{prune}
use ha_paneld_home_assistant.InstallJobs.Proofs.Entries.{Pairwise}
use ha_paneld_home_assistant.InstallJobs.Proofs.Pruning.{HaveOtherKeys}
use ha_paneld_home_assistant.InstallJobs.Proofs.Retention.{IsRetained, prune-exact}
use ha_paneld_home_assistant.Tests.Setting.{platform, only, fresh, job_id, late}

abbrev other_id : Text
other_id = codes "fedcba9876543210fedcba9876543210"

abbrev given_up : InstallJobReceipt
given_up = record fresh {
  job_id = other_id;
  revision = 1;
  phase = cancelled;
  cancel_requested = true;
  result_code = some cancelled_by_user;
}

abbrev both : Jobs
both = (other_id, given_up) ∷ (job_id, fresh) ∷ []

-- The later of the two times is two weeks after the other.
unfoldable weeks : Platform
unfolding text_eq
weeks = record (platform []) {
  fromisoformat = λ s. some (record {
    is_utc = true;
    micros = if text_eq s late then 3 * terminal_retention else terminal_retention;
  });
}

prune_run : prune weeks both late ≡ some (only fresh)
unfolding prune weeks
prune_run = refl

both_apart : Pairwise HaveOtherKeys both
unfolding text_eq
both_apart = ((refl, tt), (tt, tt))

prune-exact_example : (job other_id (only fresh) ≡ some given_up) ↔ (
    (job other_id both ≡ some given_up)
    × (is_terminal given_up ≡ true → IsRetained weeks both late given_up))
prune-exact_example =
    prune-exact weeks both (only fresh) late other_id given_up (refl, (refl, tt)) both_apart
      prune_run
