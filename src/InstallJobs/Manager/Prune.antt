-- ===== src/InstallJobs/Manager/Prune.antt =====
-- `_prune` of custom_components/panel_assistant/install_jobs.py.
use ha_paneld_home_assistant.Prelude.{
  ℕ, ◌-◌, Option, some, List, [], ◌∷◌, leb, if◌then◌else◌, take, ◌>>=◌, ◌>>◌, check, Text, text_eq,
  mem_text,
}
use ha_paneld_home_assistant.Platform.{Platform}
use ha_paneld_home_assistant.InstallJobs.Receipt.{InstallJobReceipt, is_terminal}
use ha_paneld_home_assistant.InstallJobs.Scalars.{max_terminal_jobs, terminal_retention}
use ha_paneld_home_assistant.InstallJobs.Document.{Jobs, values, sort_by, pair_le}

-- `jobs.pop(job_id, None)`
unfoldable pub pop : Text → Jobs → Jobs
unfolding text_eq
pop job_id [] = []
pop job_id ((k, r) ∷ jobs) =
    let rest = pop job_id jobs in if text_eq k job_id then rest else (k, r) ∷ rest

unfoldable pub terminal_only : List InstallJobReceipt → List InstallJobReceipt
unfolding is_terminal
terminal_only [] = []
terminal_only (r ∷ rs) = let rest = terminal_only rs in if is_terminal r then r ∷ rest else rest

-- The newest first, by `(updated_at, job_id)`.
unfoldable pub newest_first : List InstallJobReceipt → List InstallJobReceipt
unfolding sort_by pair_le
newest_first = sort_by (λ a b. pair_le (b.updated_at, b.job_id) (a.updated_at, a.job_id))

-- The loop that removes what is not retained.
unfoldable pub pop_unretained : List InstallJobReceipt → List Text → Jobs → Jobs
unfolding mem_text pop
pop_unretained [] retained jobs = jobs
pop_unretained (r ∷ rs) retained jobs =
    pop_unretained rs retained (if mem_text r.job_id retained then jobs else pop r.job_id jobs)

module _ (p : Platform) where
  -- The identifiers of those updated at the cutoff or later; `none` is an uncaught `ValueError`.
  unfoldable pub retained_ids : ℕ → List InstallJobReceipt → Option (List Text)
  retained_ids cutoff [] = some []
  retained_ids cutoff (r ∷ rs) = do
    moment ← p.fromisoformat r.updated_at
    rest ← retained_ids cutoff rs
    some (if leb cutoff moment.micros then r.job_id ∷ rest else rest)

  -- `none` is an uncaught `ValueError`, or `OverflowError` in the first week of year one.
  unfoldable pub prune : Jobs → Text → Option Jobs
  unfolding terminal_only newest_first retained_ids pop_unretained
  prune jobs now = do
    moment ← p.fromisoformat now
    check (leb terminal_retention moment.micros)
    let terminal = newest_first (terminal_only (values jobs))
    retained ← retained_ids (moment.micros - terminal_retention) (take max_terminal_jobs terminal)
    some (pop_unretained terminal retained jobs)
