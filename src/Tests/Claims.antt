-- ===== src/Tests/Claims.antt =====
-- Runs of the barriers, of several calls, of pruning and of parsing over one stored job.
use ha_paneld_home_assistant.Prelude.{
  ap, arith, ◌≡◌, refl, ℕ, codes, none, some, [], ◌∷◌, List, true, false, Bool, ◌∙◌,
}
use ha_paneld_home_assistant.Platform.{Platform}
use ha_paneld_home_assistant.InstallJobs.Phase.{
  installing, mutation_barriers, in_phases, cleanup_barrier_cancel_polarity,
}
use ha_paneld_home_assistant.InstallJobs.Receipt.{InstallJobReceipt}
use ha_paneld_home_assistant.InstallJobs.Document.{
  validated_document_for_save, parse_document, serialize_document, job,
}
use ha_paneld_home_assistant.InstallJobs.Disk.{read_disk}
use ha_paneld_home_assistant.InstallJobs.World.{
  World, Weather, ok, raise, store_error, ◌>>=◌, calm, cancels_after,
}
use ha_paneld_home_assistant.InstallJobs.Manager.Claims.{claim_of}
use ha_paneld_home_assistant.InstallJobs.Manager.Save.{
  save_candidate, write_verified, look_again, presence_shown, drain, store_save, look, read_back,
  read_shown, finish, readback_matches,
}
use ha_paneld_home_assistant.InstallJobs.Manager.Calls.{Call, claiming, listing, restart, run_calls}
use ha_paneld_home_assistant.InstallJobs.Manager.Operations.Claim.{claim, claimed_receipt}
use ha_paneld_home_assistant.InstallJobs.Manager.Operations.Barrier.{
  verify_mutation_barrier, verify_cleanup_barrier,
}
use ha_paneld_home_assistant.InstallJobs.Proofs.Coherence.{IsCoherent, durable, some_eq}
use ha_paneld_home_assistant.InstallJobs.Proofs.Documents.{AreValid, parse_document-AreValid}
use ha_paneld_home_assistant.InstallJobs.Proofs.Durable.{run_calls-AreValid}
use ha_paneld_home_assistant.InstallJobs.Proofs.Calls.{run_calls-IsCoherent}
use ha_paneld_home_assistant.InstallJobs.Proofs.Barriers.{
  HasVerified, verify_mutation_barrier-HasVerified, verify_cleanup_barrier-HasVerified,
}
use ha_paneld_home_assistant.InstallJobs.Proofs.Refusals.{IsStale, Refused, stale-Refused}
use ha_paneld_home_assistant.InstallJobs.Manager.Operations.Cancel.{request_cancel}
use ha_paneld_home_assistant.InstallJobs.Manager.Operations.Transition.{Facts, transition}
use ha_paneld_home_assistant.Tests.Setting.{platform, only, fresh, document, started, job_id, late}

started-IsCoherent : (p : Platform) (n : ℕ) → IsCoherent p (started n)
unfolding claim_of
started-IsCoherent p n = record { fresh = λ jobs e. cc; claimed = λ k g e. cc }

-- Being installed on the panel.
abbrev in_work : InstallJobReceipt
in_work = record fresh {
  revision = 7;
  executor_generation = 1;
  attempt = 1;
  phase = installing;
  preflight_root_mode = some (codes "rootless");
  actual_apk_bytes = some 1000;
}

abbrev stages : Platform
stages = platform (document (only in_work) ∷ [])

-- The manager that claimed it.
abbrev working : World
working = record (started 0) { cache = some (only in_work); claims = (job_id, 1) ∷ [] }

mutation_run : (verify_mutation_barrier stages (λ d. d) job_id 7 installing working).0 ≡ ok in_work
unfolding verify_mutation_barrier document ◌>>=◌
mutation_run = refl

verify_mutation_barrier-HasVerified_example :
    (in_phases installing mutation_barriers ≡ true)
    × HasVerified stages
        (λ d. d)
        working
        job_id
        7
        installing
        false
        in_work
        (verify_mutation_barrier stages (λ d. d) job_id 7 installing working).1
verify_mutation_barrier-HasVerified_example =
    verify_mutation_barrier-HasVerified stages (λ d. d) job_id 7 installing working in_work
      mutation_run

-- Another writer puts the receipt that the cache holds in the place of a later one, between the two
-- snapshots: only their difference tells.
abbrev intruded : Platform
intruded =
    platform (document (only (record in_work { revision = 8 })) ∷ document (only in_work) ∷ [])

intruded_run :
    (verify_mutation_barrier intruded (λ d. (started 1).disk) job_id 7 installing working).0
    ≡ raise store_error
unfolding verify_mutation_barrier document ◌>>=◌
intruded_run = refl

cleanup_run : (verify_cleanup_barrier stages (λ d. d) job_id 7 installing working).0 ≡ ok in_work
unfolding verify_cleanup_barrier document ◌>>=◌
cleanup_run = refl

verify_cleanup_barrier-HasVerified_example :
    (cancel : Bool) × (cleanup_barrier_cancel_polarity installing ≡ some cancel)
    × HasVerified stages
        (λ d. d)
        working
        job_id
        7
        installing
        cancel
        in_work
        (verify_cleanup_barrier stages (λ d. d) job_id 7 installing working).1
verify_cleanup_barrier-HasVerified_example =
    verify_cleanup_barrier-HasVerified stages (λ d. d) job_id 7 installing working in_work
      cleanup_run

unfoldable claimed : InstallJobReceipt
unfolding claimed_receipt
claimed = claimed_receipt fresh late

abbrev claims : Platform
claims = platform (document (only fresh) ∷ document (only claimed) ∷ [])

-- A claim that is cancelled once its save has reached the disk, a restart, and a look.
abbrev interrupted : List (Call × List Weather)
interrupted =
    (
      claiming late job_id 0 none,
      record { outcome = calm; caller_cancelled = false }
          ∷ record { outcome = calm; caller_cancelled = false }
          ∷ record { outcome = cancels_after; caller_cancelled = true }
          ∷ [],
    )
    ∷ (restart, [])
    ∷ (listing, [])
    ∷ []

interrupted_run : (run_calls claims interrupted (started 0)).cache ≡ some (only claimed)
unfolding run_calls document claimed ◌>>=◌ validated_document_for_save save_candidate write_verified
    look_again presence_shown drain store_save look read_back read_shown finish readback_matches
interrupted_run = refl

run_calls-IsCoherent_example : IsCoherent claims (run_calls claims interrupted (started 0))
run_calls-IsCoherent_example =
    run_calls-IsCoherent claims interrupted (started 0) (started-IsCoherent claims 0)

run_calls-AreValid_example : AreValid claims (only claimed)
run_calls-AreValid_example =
    run_calls-AreValid claims interrupted (started 0) (only claimed) (started-IsCoherent claims 0)
      interrupted_run

parse_run : parse_document claims (serialize_document (only fresh)) ≡ some (only fresh)
unfolding parse_document serialize_document
parse_run = refl

parse_document-AreValid_example : AreValid claims (only fresh)
parse_document-AreValid_example =
    parse_document-AreValid claims (serialize_document (only fresh)) (only fresh) parse_run

abbrev no_facts : Facts
no_facts = record {
  preflight_root_mode = none;
  actual_apk_bytes = none;
  health_checked_at = none;
  result_code = none;
  consumed_entry_id = none;
}

durable-fresh : durable claims (started 0).disk ≡ some (only fresh)
unfolding durable read_disk document
durable-fresh = refl

fresh-IsStale : IsStale (only fresh) job_id 5
unfolding job
fresh-IsStale r e h =
    let zero_five : fresh.revision ≡ 5 =
      ap (λ (x : InstallJobReceipt). x.revision) (some_eq e) ∙ h in
    omega (arith, zero_five)

stale-Refused_example :
    Refused (started 0) (request_cancel claims late job_id 5 (started 0))
    × Refused (started 0) (claim claims late job_id 5 none (started 0))
    × Refused (started 0) (transition claims late job_id 5 installing no_facts (started 0))
stale-Refused_example =
    stale-Refused claims job_id 5 (started 0) (only fresh) late none installing no_facts
      durable-fresh fresh-IsStale
