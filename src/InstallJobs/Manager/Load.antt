-- ===== src/InstallJobs/Manager/Load.antt =====
-- `_async_load_locked` and `_async_load_durable_locked` of
-- custom_components/panel_assistant/install_jobs.py.
use ha_paneld_home_assistant.Prelude.{
  Bool, true, false, ◌&&◌, not, Option, none, some, [], ◌∷◌, if◌then◌else◌,
}
use ha_paneld_home_assistant.Platform.{Platform}
use ha_paneld_home_assistant.InstallJobs.Receipt.{InstallJobReceipt, receipt_eq}
use ha_paneld_home_assistant.InstallJobs.Document.{Jobs, job, jobs_eq}
use ha_paneld_home_assistant.InstallJobs.Disk.{Disk, store_presence, read_disk}
use ha_paneld_home_assistant.InstallJobs.World.{
  World, Result, ok, raise, M, looking, ◌>>=◌, ◌>>◌, pure, require, store_error, cancelled, Weather,
  calm, fails_before, fails_after, cancels_before, cancels_after, next_weather, pass,
}
use ha_paneld_home_assistant.InstallJobs.Manager.Claims.{ClaimMap, invalidate_cache, adopt}

unfoldable pub ends_as : {A : Type 0} → Weather → Option A → Result A
ends_as weather result =
    if weather.caller_cancelled then raise cancelled else elim weather.outcome [
      | calm ↦ elim result [ none ↦ raise store_error | some a ↦ ok a ]
      | fails_before ↦ raise store_error
      | fails_after ↦ raise store_error
      | cancels_before ↦ raise cancelled
      | cancels_after ↦ raise cancelled
    ]

-- `await hass.async_add_executor_job(look, …)`, a job that only reads the disk.
unfoldable pub await_job : {A : Type 0} → (Disk → Option A) → M A
unfolding ends_as next_weather pass
await_job look w = (ends_as (next_weather w.weather) (look w.disk), pass w)

same_entry : Option InstallJobReceipt → Option InstallJobReceipt → Bool
unfolding receipt_eq
same_entry none none = true
same_entry (some a) (some b) = receipt_eq a b
same_entry _ _ = false

claims_unchanged : Jobs → Jobs → ClaimMap → Bool
unfolding same_entry job
claims_unchanged loaded cache [] = true
claims_unchanged loaded cache ((k, g) ∷ claims) =
    same_entry (job k loaded) (job k cache) && claims_unchanged loaded cache claims

-- No claimed receipt may have changed behind the cache.
unfoldable pub agrees : Jobs → World → Bool
unfolding claims_unchanged
agrees loaded w = elim w.cache [ none ↦ true | some cache ↦ claims_unchanged loaded cache w.claims ]

-- `except …: self._invalidate_cache(); raise`, and on success the new cache.
unfoldable pub adopted : Result Jobs × World → Result Jobs × World
unfolding invalidate_cache adopt
adopted (ok jobs, w) = (ok jobs, adopt jobs w)
adopted (raise e, w) = (raise e, invalidate_cache w)

unfoldable pub adopting : M Jobs → M Jobs
unfolding adopted
adopting load w = adopted (load w)

unfoldable pub other_write : (Disk → Disk) → M (Unit {0})
other_write write w = (ok tt, record w { disk = write w.disk })

module _ (p : Platform) where
  -- No file is no job.
  unfoldable pub existing_jobs : Bool → M Jobs
  unfolding await_job read_disk
  existing_jobs false = pure []
  existing_jobs true = await_job (read_disk p)

  unfoldable pub read_fresh : M Jobs
  unfolding await_job store_presence existing_jobs agrees
  read_fresh = do
    (existed, corrupt) ← await_job (store_presence p)
    require (not corrupt) store_error
    loaded ← existing_jobs existed
    looking (λ w. if agrees loaded w then ok loaded else raise store_error)

  -- `refresh=True`
  unfoldable pub load_refreshed : M Jobs
  unfolding adopting read_fresh
  load_refreshed = adopting read_fresh

  unfoldable pub load_locked : M Jobs
  unfolding load_refreshed
  load_locked w = elim w.cache [ none ↦ load_refreshed w | some jobs ↦ (ok jobs, w) ]

  unfoldable pub snapshot : M Jobs
  unfolding await_job store_presence read_disk
  snapshot = do
    (existed, corrupt) ← await_job (store_presence p)
    require (existed && not corrupt) store_error
    await_job (read_disk p)

  -- `meanwhile` is what another writer makes of the disk between the two snapshots.
  unfoldable pub two_snapshots : (Disk → Disk) → M Jobs
  unfolding snapshot jobs_eq other_write
  two_snapshots meanwhile = do
    first ← snapshot
    other_write meanwhile
    second ← snapshot
    require (jobs_eq first second) store_error
    pure second

  unfoldable pub load_durable : (Disk → Disk) → M Jobs
  unfolding adopting two_snapshots
  load_durable meanwhile = adopting (two_snapshots meanwhile)
