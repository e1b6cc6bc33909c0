-- ===== src/InstallJobs/Proofs/Retention.antt =====
-- `_prune`: exactly what it keeps.
use ha_paneld_home_assistant.Prelude.{
  ◌+◌, ◌-◌, ◌≤◌, ◌<◌, ◌≡◌, ◌↔◌, sym, ap, subst, ◌∙◌, true, some, some_eq, List, [], ◌∷◌, Text,
  text_eq, text_eq_iff, mem_text, arith, leb, leb→le, take, All, Bool-cases, inl, inr,
  check-bind-eq-some, >>=-eq-some,
}
use ha_paneld_home_assistant.Platform.{Platform, Moment}
use ha_paneld_home_assistant.InstallJobs.Receipt.{InstallJobReceipt, is_terminal}
use ha_paneld_home_assistant.InstallJobs.Scalars.{terminal_retention, max_terminal_jobs}
use ha_paneld_home_assistant.InstallJobs.Document.{Jobs, job, values}
use ha_paneld_home_assistant.InstallJobs.Manager.Prune.{
  prune, pop_unretained, terminal_only, newest_first, retained_ids,
}
use ha_paneld_home_assistant.InstallJobs.Proofs.Stored.{job_of_prune}
use ha_paneld_home_assistant.InstallJobs.Proofs.Entries.{Pairwise, All-map}
use ha_paneld_home_assistant.InstallJobs.Proofs.Pruning.{
  HaveOtherKeys, AreOther, others, terminal_only-AreOther, prune-keeps_live,
}
use ha_paneld_home_assistant.InstallJobs.Proofs.Ranks.{
  Any, Any-map, all_trivial, count, sort_by-Any, take-sort_by,
}
use ha_paneld_home_assistant.InstallJobs.Proofs.Newest.{
  newer, newest_le, HasOtherId, newest-Sorts, other_way,
}
use ha_paneld_home_assistant.InstallJobs.Proofs.Kept.{
  IsLate, retained_ids-mem, pop_unretained-kept, pop_unretained-dropped,
}

-- The entry under a key, if it is terminal, is the one among the terminal receipts that has the
-- identifier.
module _ (P : InstallJobReceipt → Type 0) (k : Text) where
  not_listed :
      (rs : List InstallJobReceipt) → AreOther k rs → Any (λ s. (k ≡ s.job_id) × P s) rs → ⊥
  not_listed [] others found = found
  not_listed (s ∷ rs) (other, others) (inl (same, h)) =
      absurd (cc (other, (text_eq_iff s.job_id k).1 (sym same)))
  not_listed (s ∷ rs) (other, others) (inr found) = not_listed rs others found

  terminal-listed :
      (jobs : Jobs) (r : InstallJobReceipt)
      → All (λ e. e.0 ≡ e.1.job_id) jobs
      → Pairwise HaveOtherKeys jobs
      → job k jobs ≡ some r
      → is_terminal r ≡ true
      → Any (λ s. (k ≡ s.job_id) × P s) (terminal_only (values jobs)) ↔ P r
  unfolding job terminal_only
  terminal-listed [] r keyed apart h over = ((λ f. cc), λ f. cc)
  terminal-listed ((i, q) ∷ jobs) r keyed apart h over = elim (Bool-cases (text_eq i k)) [
    | inl same ↦
        let e : q ≡ r = some_eq (rw same at h) in
        let here = (text_eq_iff i k).0 same in
        rw (ap is_terminal e ∙ over) (
          λ found. elim found [
            | inl (_, h) ↦ subst P e h
            | inr there ↦ absurd (
                not_listed _
                  (terminal_only-AreOther k jobs keyed.1 (others k i q jobs here apart.0)) there)
          ],
          λ h. inl (sym here ∙ keyed.0, subst P (sym e) h),
        )
    | inr other ↦
        let rest = terminal-listed jobs r keyed.1 apart.1 (rw other at h) over in
        elim (Bool-cases (is_terminal q)) [
          | inr q_live ↦ rw q_live rest
          | inl q_over ↦ rw q_over (
            λ found. elim found [
              | inl (same, _) ↦ absurd (cc ((text_eq_iff i k).1 (keyed.0 ∙ sym same), other))
              | inr there ↦ rest.0 there
            ],
            λ h. inr (rest.1 h),
          )
        ]
  ]

terminal_only-HasOtherId :
    (jobs : Jobs)
    → All (λ e. e.0 ≡ e.1.job_id) jobs
    → Pairwise HaveOtherKeys jobs
    → Pairwise HasOtherId (terminal_only (values jobs))
unfolding terminal_only
terminal_only-HasOtherId [] keyed apart = tt
terminal_only-HasOtherId ((i, q) ∷ jobs) keyed apart =
    let rest = terminal_only-HasOtherId jobs keyed.1 apart.1 in
    elim (Bool-cases (is_terminal q)) [
      | inr live ↦ rw live rest
      | inl over ↦ rw over (
        All-map (terminal_only (values jobs)) (λ s h. other_way s.job_id q.job_id h)
            (terminal_only-AreOther q.job_id jobs keyed.1
              (others q.job_id i q jobs keyed.0 apart.0)),
        rest,
      )
    ]

module _ (p : Platform) where
  -- At most a week before the moment that `now` names, and fewer than 32 terminal receipts are newer.
  abbrev pub IsRetained : Jobs → Text → InstallJobReceipt → Type 0
  IsRetained jobs now r =
      (moment : Moment) × (p.fromisoformat now ≡ some moment)
      × (m : Moment) × (p.fromisoformat r.updated_at ≡ some m)
      × (moment.micros ≤ m.micros + terminal_retention)
      × (count (λ s. newer s r) (terminal_only (values jobs)) < max_terminal_jobs)

  -- What a run of `_prune` that returns has computed.
  record IsPruned (jobs : Jobs) (now : Text) (pruned : Jobs) : Type 0 where
    pub moment : Moment
    pub read : p.fromisoformat now ≡ some moment
    pub enough : terminal_retention ≤ moment.micros
    pub kept : List Text
    pub ids :
        retained_ids p
          (moment.micros - terminal_retention)
          (take max_terminal_jobs (newest_first (terminal_only (values jobs))))
        ≡ some kept
    pub result : pruned ≡ pop_unretained (newest_first (terminal_only (values jobs))) kept jobs

  prune-IsPruned :
      (jobs : Jobs) (now : Text) (pruned : Jobs)
      → prune p jobs now ≡ some pruned
      → IsPruned jobs now pruned
  unfolding prune
  prune-IsPruned jobs now pruned h =
      let (moment, read, h1) = >>=-eq-some (p.fromisoformat now) _ h in
      let (enough, h2) = check-bind-eq-some (leb terminal_retention moment.micros) _ h1 in
      let (kept, ids, h3) =
        >>=-eq-some
          (retained_ids p (moment.micros - terminal_retention)
            (take max_terminal_jobs (newest_first (terminal_only (values jobs)))))
          _ h2 in
      record {
        moment = moment;
        read = read;
        enough = leb→le _ _ enough;
        kept = kept;
        ids = ids;
        result = sym (some_eq h3);
      }

  module _ (jobs pruned : Jobs) (now k : Text) (r : InstallJobReceipt)
      (keyed : All (λ e. e.0 ≡ e.1.job_id) jobs) (apart : Pairwise HaveOtherKeys jobs)
      (h : prune p jobs now ≡ some pruned) where
    -- Updated at the cutoff or later, and among the 32 newest.
    abbrev IsRecent : Moment → InstallJobReceipt → Type 0
    IsRecent moment s =
        (m : Moment) × (p.fromisoformat s.updated_at ≡ some m)
        × (moment.micros - terminal_retention ≤ m.micros)
        × (count (λ t. newer t s) (terminal_only (values jobs)) < max_terminal_jobs)

    -- A terminal receipt is among the identifiers that are kept.
    kept-IsRetained :
        (i : IsPruned jobs now pruned)
        → job k jobs ≡ some r
        → is_terminal r ≡ true
        → (mem_text k i.kept ≡ true) ↔ IsRetained jobs now r
    unfolding newest_first
    kept-IsRetained i was over =
        let terminal = terminal_only (values jobs) in
        let in_ids =
          retained_ids-mem p _ k (take max_terminal_jobs (newest_first terminal)) i.kept i.ids in
        let ranked =
          take-sort_by newer newest_le HasOtherId newest-Sorts
            (IsLate p (i.moment.micros - terminal_retention) k) max_terminal_jobs terminal
            (terminal_only-HasOtherId jobs keyed apart) in
        let entry = terminal-listed (IsRecent i.moment) k jobs r keyed apart was over in
        (
          λ there.
              let (m, e, fits, few) = entry.0 (
                Any-map terminal (λ s u ((same, m, e, fits), few). (same, (m, e, fits, few)))
                  (all_trivial _) (ranked.0 (in_ids.0 there))) in
              (i.moment, i.read, m, e, omega (arith, fits, i.enough), few),
          λ (moment, read, m, e, fits, few).
              let same_now : moment ≡ i.moment = some_eq (sym read ∙ i.read) in
              let fits_now : i.moment.micros - terminal_retention ≤ m.micros =
                omega (arith, fits, ap (λ (x : Moment). x.micros) same_now) in
              in_ids.1 (
                ranked.1 (
                  Any-map terminal (λ s u (same, (m, e, fits, few)). ((same, m, e, fits), few))
                    (all_trivial _) (entry.1 (m, e, fits_now, few)))),
        )

    listed :
        job k jobs ≡ some r
        → is_terminal r ≡ true
        → Any (λ s. s.job_id ≡ k) (newest_first (terminal_only (values jobs)))
    unfolding newest_first
    listed was over = (sort_by-Any newest_le (λ s. s.job_id ≡ k) (terminal_only (values jobs))).1 (
        Any-map (terminal_only (values jobs)) (λ s u q. sym q.0) (all_trivial _)
          ((terminal-listed (λ s. Unit {0}) k jobs r keyed apart was over).1 tt))

    -- From receipts under distinct keys, each under its own identifier, a run of `_prune` that returns
    -- leaves exactly the live receipts and those terminal receipts that were updated at most a week
    -- before `now` and that fewer than 32 terminal receipts are newer than, by the time of the update
    -- and then by the identifier. Each is left as it was.
    pub prune-exact :
        (job k pruned ≡ some r)
        ↔ ((job k jobs ≡ some r) × (is_terminal r ≡ true → IsRetained jobs now r))
    prune-exact =
        let i = prune-IsPruned jobs now pruned h in
        let sorted = newest_first (terminal_only (values jobs)) in
        (
          λ e.
              let was = job_of_prune p jobs now k h e in
              (
                was,
                λ over. elim (Bool-cases (mem_text k i.kept)) [
                  | inl kept ↦ (kept-IsRetained i was over).0 kept
                  | inr dropped ↦ absurd (
                      cc (
                        pop_unretained-dropped p sorted i.kept k jobs dropped (listed was over),
                        i.result,
                        e,
                      ))
                ],
              ),
          λ (was, late). elim (Bool-cases (is_terminal r)) [
            | inr live ↦ prune-keeps_live p jobs pruned now k r keyed apart h live was
            | inl over ↦
                let kept = (kept-IsRetained i was over).1 (late over) in
                ap (job k) i.result ∙ (pop_unretained-kept p sorted i.kept k jobs kept ∙ was)
          ],
        )
