-- ===== src/Tests/Receipts.antt =====
-- Runs of the manager's methods over one stored job.
use ha_paneld_home_assistant.Prelude.{◌≡◌, refl, ℕ, codes, none, some, [], ◌∷◌, true}
use ha_paneld_home_assistant.Platform.{Platform}
use ha_paneld_home_assistant.InstallJobs.Phase.{healthy_unclaimed, consumed, entry_created}
use ha_paneld_home_assistant.InstallJobs.Receipt.{InstallJobReceipt}
use ha_paneld_home_assistant.InstallJobs.Document.{validated_document_for_save}
use ha_paneld_home_assistant.InstallJobs.World.{World, ok, ◌>>=◌}
use ha_paneld_home_assistant.InstallJobs.Manager.Claims.{claim_of}
use ha_paneld_home_assistant.InstallJobs.Manager.Save.{
  save_candidate, write_verified, look_again, presence_shown, drain, store_save, look, read_back,
  read_shown, finish, readback_matches,
}
use ha_paneld_home_assistant.InstallJobs.Manager.Operations.Create.{
  Plan, create_or_join, new_receipt,
}
use ha_paneld_home_assistant.InstallJobs.Manager.Operations.Claim.{claim, claimed_receipt}
use ha_paneld_home_assistant.InstallJobs.Manager.Operations.Cancel.{
  request_cancel, cancel_requested_receipt,
}
use ha_paneld_home_assistant.InstallJobs.Manager.Operations.Transition.{Facts, transition, advanced}
use ha_paneld_home_assistant.InstallJobs.Proofs.Coherence.{IsCoherent}
use ha_paneld_home_assistant.InstallJobs.Proofs.Creating.{HasCreated, create_or_join-HasCreated}
use ha_paneld_home_assistant.InstallJobs.Proofs.Claiming.{HasClaimed, claim-HasClaimed}
use ha_paneld_home_assistant.InstallJobs.Proofs.Cancelling.{
  HasCancelled, request_cancel-HasCancelled,
}
use ha_paneld_home_assistant.InstallJobs.Proofs.Transitions.{HasAdvanced, transition-HasAdvanced}
use ha_paneld_home_assistant.InstallJobs.Manager.Save.{save_locked}
use ha_paneld_home_assistant.InstallJobs.Proofs.Post.{Post}
use ha_paneld_home_assistant.InstallJobs.Proofs.Saving.{Saved, Forgotten, save_locked-Saved}
use ha_paneld_home_assistant.Tests.Setting.{
  platform, only, fresh, document, started, job_id, early, late, target, artifact, digest,
}

started-IsCoherent : (p : Platform) (n : ℕ) → IsCoherent p (started n)
unfolding claim_of
started-IsCoherent p n = record { fresh = λ jobs e. cc; claimed = λ k g e. cc }

unfoldable claimed : InstallJobReceipt
unfolding claimed_receipt
claimed = claimed_receipt fresh late

abbrev claims : Platform
claims = platform (document (only fresh) ∷ document (only claimed) ∷ [])

claim_run : (claim claims late job_id 0 none (started 0)).0 ≡ ok claimed
unfolding claim document claimed ◌>>=◌ validated_document_for_save save_candidate write_verified
    look_again presence_shown drain store_save look read_back read_shown finish readback_matches
claim_run = refl

claim-HasClaimed_example :
    HasClaimed claims
      (started 0)
      job_id
      0
      none
      claimed
      (claim claims late job_id 0 none (started 0)).1
claim-HasClaimed_example = claim-HasClaimed claims late job_id 0 none (started 0) claimed claim_run

-- The manager after its load.
abbrev loaded : World
loaded = record (started 0) { cache = some (only fresh) }

save_locked-Saved_example :
    Post (λ u w. Saved claims (only claimed) w) Forgotten (save_locked claims (only claimed) loaded)
save_locked-Saved_example = save_locked-Saved claims (only claimed) loaded

unfoldable cancelling : InstallJobReceipt
unfolding cancel_requested_receipt
cancelling = cancel_requested_receipt fresh late

abbrev cancels : Platform
cancels = platform (document (only fresh) ∷ document (only cancelling) ∷ [])

cancel_run : (request_cancel cancels late job_id 0 (started 0)).0 ≡ ok cancelling
unfolding request_cancel document cancelling ◌>>=◌ validated_document_for_save save_candidate
    write_verified look_again presence_shown drain store_save look read_back read_shown finish
    readback_matches
cancel_run = refl

request_cancel-HasCancelled_example :
    HasCancelled cancels
      (started 0)
      job_id
      0
      cancelling
      (request_cancel cancels late job_id 0 (started 0)).1
request_cancel-HasCancelled_example =
    request_cancel-HasCancelled cancels late job_id 0 (started 0) cancelling cancel_run

-- A panel that answers, and waits for its config entry.
abbrev healthy : InstallJobReceipt
healthy = record fresh {
  revision = 12;
  executor_generation = 1;
  attempt = 1;
  phase = healthy_unclaimed;
  preflight_root_mode = some (codes "rootless");
  actual_apk_bytes = some 1000;
  health_checked_at = some early;
}

abbrev entry : Facts
entry = record {
  preflight_root_mode = none;
  actual_apk_bytes = none;
  health_checked_at = none;
  result_code = some entry_created;
  consumed_entry_id = some job_id;
}

unfoldable finished : InstallJobReceipt
unfolding advanced
finished = advanced healthy consumed entry late

abbrev consumes : Platform
consumes = platform (document (only healthy) ∷ document (only finished) ∷ [])

transition_run : (transition consumes late job_id 12 consumed entry (started 0)).0 ≡ ok finished
unfolding transition document finished ◌>>=◌ validated_document_for_save save_candidate
    write_verified look_again presence_shown drain store_save look read_back read_shown finish
    readback_matches
transition_run = refl

transition-HasAdvanced_example :
    HasAdvanced consumes
      (started 0)
      job_id
      12
      consumed
      entry
      finished
      (transition consumes late job_id 12 consumed entry (started 0)).1
transition-HasAdvanced_example =
    transition-HasAdvanced consumes late job_id 12 consumed entry (started 0) finished
      (started-IsCoherent consumes 0) transition_run

abbrev plan : Plan
plan = record {
  target = target;
  artifact = artifact;
  plan_sha256 = digest;
  adb_credential_id = digest;
}

unfoldable created_now : InstallJobReceipt
unfolding new_receipt
created_now = new_receipt plan job_id late

abbrev creates : Platform
creates = platform (document [] ∷ document (only created_now) ∷ [])

create_run : (create_or_join creates (job_id ∷ []) late plan (started 0)).0 ≡ ok (created_now, true)
unfolding create_or_join document created_now ◌>>=◌ validated_document_for_save save_candidate
    write_verified look_again presence_shown drain store_save look read_back read_shown finish
    readback_matches
create_run = refl

create_or_join-HasCreated_example :
    HasCreated creates
      (started 0)
      plan
      created_now
      true
      (create_or_join creates (job_id ∷ []) late plan (started 0)).1
create_or_join-HasCreated_example =
    create_or_join-HasCreated creates (job_id ∷ []) late plan (started 0) created_now true
      (started-IsCoherent creates 0) create_run
