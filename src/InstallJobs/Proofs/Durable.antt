-- ===== src/InstallJobs/Proofs/Durable.antt =====
-- What the store file holds, and so what a manager's cache holds, is a valid document.
use ha_paneld_home_assistant.Prelude.{
  ◌≡◌, subst, ◌&&◌, some, List, [], Text, arith, Bool-cases, Option-cases, inl, inr,
}
use ha_paneld_home_assistant.Platform.{Platform}
use ha_paneld_home_assistant.InstallJobs.Document.{Jobs, store_data, parse_store_document}
use ha_paneld_home_assistant.InstallJobs.Disk.{
  Disk, ReadCalls, read_unchanged, read_durable_jobs, read_disk, same_identity, quiet_calls,
}
use ha_paneld_home_assistant.InstallJobs.World.{World, Weather}
use ha_paneld_home_assistant.InstallJobs.Manager.Calls.{Call, run_calls}
use ha_paneld_home_assistant.InstallJobs.Manager.Prune.{terminal_only}
use ha_paneld_home_assistant.InstallJobs.Manager.Operations.Create.{active_count}
use ha_paneld_home_assistant.InstallJobs.Proofs.Coherence.{IsCoherent, durable, some_eq}
use ha_paneld_home_assistant.InstallJobs.Proofs.Documents.{AreValid, parse_document-AreValid}
use ha_paneld_home_assistant.InstallJobs.Proofs.Calls.{run_calls-IsCoherent}

module _ (p : Platform) where
  parse_store_document-AreValid :
      (body : Text) (jobs : Jobs) → parse_store_document p body ≡ some jobs → AreValid p jobs
  unfolding parse_store_document
  parse_store_document-AreValid body jobs e = elim (Option-cases (store_data p body)) [
    | inl bad ↦ cc (rw bad at e)
    | inr (v, good) ↦ parse_document-AreValid p v jobs (rw good at e)
  ]

  read_durable_jobs-AreValid :
      (calls : ReadCalls) (jobs : Jobs) → read_durable_jobs p calls ≡ some jobs → AreValid p jobs
  unfolding read_durable_jobs
  read_durable_jobs-AreValid calls jobs e = elim (Option-cases (read_unchanged p calls)) [
    | inl bad ↦ cc (rw bad at e)
    | inr (body, good) ↦ elim (Option-cases (parse_store_document p body)) [
      | inl bad ↦ cc (rw (good, bad) at e)
      | inr (parsed, found) ↦
          elim (Bool-cases
            (same_identity calls.after calls.final && same_identity calls.final calls.final_path)) [
              | inl same ↦
                  subst (AreValid p) (some_eq (rw (good, found, same) at e))
                    (parse_store_document-AreValid body parsed found)
              | inr changed ↦ cc (rw (good, found, changed) at e)
            ]
    ]
  ]

  empty-AreValid : AreValid p []
  unfolding active_count terminal_only
  empty-AreValid = record {
    keyed = tt;
    valid = tt;
    apart = tt;
    few_active = omega arith;
    few_terminal = omega arith;
  }

  durable-AreValid : (d : Disk) (jobs : Jobs) → durable p d ≡ some jobs → AreValid p jobs
  unfolding durable read_disk
  durable-AreValid d jobs h = elim (Option-cases d.file) [
    | inl absent ↦ subst (AreValid p) (some_eq (rw absent at h)) empty-AreValid
    | inr (f, there) ↦ read_durable_jobs-AreValid (quiet_calls p f) jobs (rw there at h)
  ]

  -- Whatever the store file holds at first and whatever calls and restarts follow, under any outcome
  -- of the awaited calls, a cache that a manager then has is a valid document: every job is under
  -- its own identifier and satisfies the receipt invariants, no two jobs have one identifier, no two
  -- live ones have an address, a pin or a serial in common, at most four are live and at most 32
  -- terminal.
  pub run_calls-AreValid :
      (cs : List (Call × List Weather)) (w : World) (jobs : Jobs)
      → IsCoherent p w
      → (run_calls p cs w).cache ≡ some jobs
      → AreValid p jobs
  run_calls-AreValid cs w jobs c cached =
      durable-AreValid _ jobs ((run_calls-IsCoherent p cs w c).fresh jobs cached)
