-- ===== src/InstallJobs/Proofs/Stored.antt =====
-- What the methods share: the compare-and-swap on the revision, and the stored receipt.
use ha_paneld_home_assistant.Prelude.{
  ℕ, ◌≡◌, sym, ap, subst, ◌∙◌, Option, none, some, List, Text, Bool-cases, inl, inr, is_hex, ◌==◌,
  ==_iff, Option-cases, leb, take, ◌-◌,
}
use ha_paneld_home_assistant.Platform.{Platform}
use ha_paneld_home_assistant.InstallJobs.Receipt.{InstallJobReceipt}
use ha_paneld_home_assistant.InstallJobs.Document.{Jobs, job, put, values}
use ha_paneld_home_assistant.InstallJobs.Scalars.{terminal_retention, max_terminal_jobs}
use ha_paneld_home_assistant.InstallJobs.World.{World, ok, uncaught}
use ha_paneld_home_assistant.InstallJobs.Manager.Prune.{
  prune, pop_unretained, terminal_only, newest_first, retained_ids,
}
use ha_paneld_home_assistant.InstallJobs.Manager.Current.{
  checked_current, at_revision, entry_of, persisted, save_receipt, prune_and_save_receipt,
}
use ha_paneld_home_assistant.InstallJobs.Proofs.Lookup.{
  job-put_self, job_of_pop_unretained, jobs_eq-job,
}
use ha_paneld_home_assistant.InstallJobs.Proofs.Post.{Post, Post-bind, Post-or_throw, Post-looking}
use ha_paneld_home_assistant.InstallJobs.Proofs.Coherence.{IsCoherent, durable, some_eq}
use ha_paneld_home_assistant.InstallJobs.Proofs.Saving.{Saved, save_locked-Post}

ok_eq : {a b : InstallJobReceipt} → ok a ≡ ok b → a ≡ b
ok_eq e = cc

at_revision-ok :
    (n : ℕ) (o : Option InstallJobReceipt) {r : InstallJobReceipt}
    → at_revision n o ≡ ok r
    → (o ≡ some r) × (r.revision ≡ n)
unfolding at_revision
at_revision-ok n none h = cc
at_revision-ok n (some s) {r = r} h = elim (Bool-cases (s.revision == n)) [
  | inl e ↦
      let same : s ≡ r = ok_eq (rw e at h) in
      (ap some same, subst (λ x. x.revision ≡ n) same ((==_iff s.revision n).0 e))
  | inr e ↦ cc (rw e at h)
]

-- The compare-and-swap accepts only the receipt under the identifier, at the revision.
pub checked_current-ok :
    (jobs : Jobs) (k : Text) (n : ℕ) {r : InstallJobReceipt}
    → checked_current jobs k n ≡ ok r
    → (job k jobs ≡ some r) × (r.revision ≡ n)
unfolding checked_current
checked_current-ok jobs k n h = elim (Bool-cases (is_hex 32 k)) [
  | inl e ↦ at_revision-ok n (job k jobs) (rw e at h)
  | inr e ↦ cc (rw e at h)
]

-- Pruning that succeeds pops the terminal receipts that some list does not retain.
pub prune-pops :
    (p : Platform) (jobs : Jobs) (now : Text) {pruned : Jobs}
    → prune p jobs now ≡ some pruned
    → (kept : List Text) × (pruned
        ≡ pop_unretained (newest_first (terminal_only (values jobs))) kept jobs)
unfolding prune
prune-pops p jobs now h = elim (Option-cases (p.fromisoformat now)) [
  | inl bad ↦ cc (rw bad at h)
  | inr (moment, good) ↦ elim (Bool-cases (leb terminal_retention moment.micros)) [
    | inr early ↦ cc (rw (good, early) at h)
    | inl late ↦
        let terminal = newest_first (terminal_only (values jobs)) in
        let ids =
          retained_ids p (moment.micros - terminal_retention) (take max_terminal_jobs terminal) in
        elim (Option-cases ids) [
          | inl bad ↦ cc (rw (good, late, bad) at h)
          | inr (kept, ids_kept) ↦ (kept, sym (some_eq (rw (good, late, ids_kept) at h)))
        ]
  ]
]

pub job_of_prune :
    (p : Platform) (jobs : Jobs) (now : Text) (k : Text) {pruned : Jobs} {r : InstallJobReceipt}
    → prune p jobs now ≡ some pruned
    → job k pruned ≡ some r
    → job k jobs ≡ some r
job_of_prune p jobs now k {r = r} h e =
    let (kept, same) = prune-pops p jobs now h in
    job_of_pop_unretained _ kept k jobs (subst (λ x. job k x ≡ some r) same e)

entry_of-ok :
    (k : Text) (jobs : Jobs) {r : InstallJobReceipt}
    → entry_of k (some jobs) ≡ ok r
    → job k jobs ≡ some r
unfolding entry_of
entry_of-ok k jobs h = elim (Option-cases (job k jobs)) [
  | inl e ↦ cc (rw e at h)
  | inr (s, e) ↦ e ∙ ap some (ok_eq (rw e at h))
]

module _ (p : Platform) where
  -- The returned receipt is the updated one, and the disk holds it under its identifier.
  abbrev pub Stored : Text → InstallJobReceipt → InstallJobReceipt → World → Type 0
  Stored k updated r w =
      IsCoherent p w
      × (r ≡ updated)
      × (jobs : Jobs) × (w.cache ≡ some jobs)
      × (durable p w.disk ≡ some jobs)
      × (job k jobs ≡ some updated)

  persisted-Post :
      (k : Text) (updated : InstallJobReceipt) (jobs : Jobs) (w : World)
      → ((r : InstallJobReceipt) → job k jobs ≡ some r → r ≡ updated)
      → Saved p jobs w
      → Post (λ r w'. Stored k updated r w') (IsCoherent p) (persisted k w)
  unfolding persisted
  persisted-Post k updated jobs w h (coherent, saved, cached, same) =
      Post-looking (λ v. entry_of k v.cache) w
        (λ r e.
          let in_cache = entry_of-ok k saved (ap (entry_of k) (sym cached) ∙ e) in
          let same_receipt = h r (jobs_eq-job saved jobs k same in_cache) in
          (
            coherent,
            same_receipt,
            saved,
            cached,
            coherent.fresh saved cached,
            subst (λ x. job k saved ≡ some x) same_receipt in_cache,
          ))
        coherent

  pub save_receipt-Post :
      (jobs : Jobs) (k : Text) (updated : InstallJobReceipt) (w : World)
      → Post (λ r w'. Stored k updated r w') (IsCoherent p) (save_receipt p jobs k updated w)
  unfolding save_receipt
  save_receipt-Post jobs k updated w =
      Post-bind _ _ w (save_locked-Post p (put k updated jobs) w) λ u w' saved.
        persisted-Post k updated (put k updated jobs) w'
          (λ r e. some_eq (sym e ∙ job-put_self k updated jobs)) saved

  pub prune_and_save_receipt-Post :
      (jobs : Jobs) (k : Text) (updated : InstallJobReceipt) (w : World)
      → IsCoherent p w
      → Post
          (λ r w'. Stored k updated r w')
          (IsCoherent p)
          (prune_and_save_receipt p jobs k updated w)
  unfolding prune_and_save_receipt
  prune_and_save_receipt-Post jobs k updated w c =
      Post-bind _ _ w
        (Post-or_throw
          {Q = λ pruned w'. prune p (put k updated jobs) updated.updated_at ≡ some pruned}
          (prune p (put k updated jobs) updated.updated_at) uncaught w (λ a e. e) c)
        λ pruned w1 e. Post-bind _ _ w1 (save_locked-Post p pruned w1) λ u w2 saved.
          persisted-Post k updated pruned w2
            (λ r f. some_eq (sym (job_of_prune p _ _ k e f) ∙ job-put_self k updated jobs)) saved
