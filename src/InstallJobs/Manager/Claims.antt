-- ===== src/InstallJobs/Manager/Claims.antt =====
-- The claims of a manager and its cache: `_invalidate_cache`, `_reconcile_claims`.
use ha_paneld_home_assistant.Prelude.{
  ℕ, Bool, false, ◌&&◌, not, Option, none, some, List, [], ◌∷◌, ◌==◌, if◌then◌else◌, Text, text_eq,
}
use ha_paneld_home_assistant.InstallJobs.Phase.{healthy_unclaimed, phase_eq}
use ha_paneld_home_assistant.InstallJobs.Receipt.{InstallJobReceipt, is_terminal}
use ha_paneld_home_assistant.InstallJobs.Document.{Jobs, job}
use ha_paneld_home_assistant.InstallJobs.World.{World}

abbrev pub ClaimMap : Type 0
ClaimMap = List (Text × ℕ)

-- `_claimed_jobs.get(job_id)`
unfoldable pub claim_of : Text → ClaimMap → Option ℕ
unfolding text_eq
claim_of job_id [] = none
claim_of job_id ((k, g) ∷ claims) = if text_eq k job_id then some g else claim_of job_id claims

-- `_claimed_jobs[job_id] = generation`
unfoldable pub put_claim : Text → ℕ → ClaimMap → ClaimMap
unfolding text_eq
put_claim job_id g [] = (job_id, g) ∷ []
put_claim job_id g ((k, h) ∷ claims) =
    if text_eq k job_id then (k, g) ∷ claims else (k, h) ∷ put_claim job_id g claims

-- `_claimed_jobs.get(job_id) == generation`
unfoldable pub holds_claim : Text → ℕ → ClaimMap → Bool
unfolding claim_of
holds_claim job_id generation claims = elim (claim_of job_id claims) [
  | none ↦ false
  | some g ↦ g == generation
]

-- What the comprehension keeps.
unfoldable pub keeps_claim : Option InstallJobReceipt → ℕ → Bool
unfolding is_terminal
keeps_claim none generation = false
keeps_claim (some r) generation =
    not (is_terminal r)
    && (not (phase_eq r.phase healthy_unclaimed) && (r.executor_generation == generation))

unfoldable pub reconciled : Jobs → ClaimMap → ClaimMap
unfolding keeps_claim job
reconciled jobs [] = []
reconciled jobs ((k, g) ∷ claims) =
    let rest = reconciled jobs claims in if keeps_claim (job k jobs) g then (k, g) ∷ rest else rest

unfoldable pub invalidate_cache : World → World
invalidate_cache w = record w { cache = none; claims = [] }

-- `self._jobs = jobs`, then `_reconcile_claims`.
unfoldable pub adopt : Jobs → World → World
unfolding reconciled
adopt jobs w = record w { cache = some jobs; claims = reconciled jobs w.claims }
