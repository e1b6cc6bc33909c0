-- ===== src/InstallJobs/Proofs/Claiming.antt =====
-- `async_claim`: what a claim that returns has done, also after a restart.
use ha_paneld_home_assistant.Prelude.{
  ℕ, ◌+◌, ◌≡◌, refl, sym, ap, subst, ◌∙◌, Bool, true, false, not, ◌||◌, ◌&&◌, Option, none, some,
  Text, arith, is_none, ==_iff,
}
use ha_paneld_home_assistant.Platform.{Platform}
use ha_paneld_home_assistant.InstallJobs.Phase.{
  phase_eq, healthy_unclaimed, in_phases, restart_ambiguous_phases,
}
use ha_paneld_home_assistant.InstallJobs.Receipt.{InstallJobReceipt, is_terminal}
use ha_paneld_home_assistant.InstallJobs.Scalars.{timestamp_text}
use ha_paneld_home_assistant.InstallJobs.Document.{Jobs, job}
use ha_paneld_home_assistant.InstallJobs.World.{
  World, ok, store_error, transition_error, revision_error,
}
use ha_paneld_home_assistant.InstallJobs.Manager.Claims.{ClaimMap, claim_of, holds_claim}
use ha_paneld_home_assistant.InstallJobs.Manager.Operations.Claim.{
  is_exhausted, exhausted_receipt, claimed_receipt, cleanup_confirmed, save_claim, claim_anew,
  claim_or_keep, claim,
}
use ha_paneld_home_assistant.InstallJobs.Proofs.Lookup.{holds_claim-claim_of}
use ha_paneld_home_assistant.InstallJobs.Proofs.Post.{
  Post, returns, raises, Post-ok, Post-weaken, Post-bind, Post-require, Post-or_throw, Post-looking,
  Post-if,
}
use ha_paneld_home_assistant.InstallJobs.Proofs.Coherence.{
  IsCoherent, durable, load_refreshed-Post, Fewer,
}
use ha_paneld_home_assistant.InstallJobs.Proofs.Stored.{
  checked_current-ok, prune_and_save_receipt-Post,
}
use ha_paneld_home_assistant.InstallJobs.Proofs.Claims.{
  ClaimOutcome, claimed_not_healthy, kept, exhausted, renewed, record_claim-Post,
}

-- What a claim that returns `r` has done to the store of `before`.
pub record HasClaimed (p : Platform) (before : World) (k : Text) (n : ℕ) (cleanup : Option ℕ)
    (r : InstallJobReceipt) (after : World) : Type 0 where
  pub jobs : Jobs
  pub current : InstallJobReceipt
  pub held : durable p before.disk ≡ some jobs
  pub found : job k jobs ≡ some current
  pub revision : current.revision ≡ n
  pub live : is_terminal current ≡ false
  pub claimable : phase_eq current.phase healthy_unclaimed ≡ false
  pub outcome : ClaimOutcome current r
  -- Without a claim of this manager on the job, the receipt is replaced.
  pub anew : claim_of k before.claims ≡ none → r.revision ≡ n + 1
  -- What ends a job's work is done only against a confirmed cleanup.
  pub cleaned : is_terminal r ≡ true → cleanup ≡ some n
  pub coherent : IsCoherent p after
  pub stored : (jobs' : Jobs) × (durable p after.disk ≡ some jobs') × (job k jobs' ≡ some r)

-- An ambiguous phase is the only one from which a claim makes a receipt terminal.
claimed_terminal :
    (r : InstallJobReceipt) (now : Text)
    → is_terminal r ≡ false
    → is_terminal (claimed_receipt r now) ≡ true
    → in_phases r.phase restart_ambiguous_phases ≡ true
unfolding is_terminal claimed_receipt in_phases
claimed_terminal r now live t = ground arith

exhausted_not_healthy :
    (r : InstallJobReceipt) (now : Text)
    → phase_eq (exhausted_receipt r now).phase healthy_unclaimed ≡ false
unfolding exhausted_receipt
exhausted_not_healthy r now = refl

claimed_revision :
    (r : InstallJobReceipt) (now : Text)
    → ((claimed_receipt r now).revision ≡ r.revision + 1)
      × ((exhausted_receipt r now).revision ≡ r.revision + 1)
unfolding claimed_receipt exhausted_receipt
claimed_revision r now = (refl, refl)

exhausted_cleaned : (a b c : Bool) → a ≡ true → ((a || b) && c) ≡ false → c ≡ false
exhausted_cleaned a b c h e = ground arith

ambiguous_cleaned : (a b c : Bool) → b ≡ true → ((a || b) && c) ≡ false → c ≡ false
ambiguous_cleaned a b c h e = ground arith

module _ (p : Platform) (k : Text) (current : InstallJobReceipt) (cleanup : Option ℕ)
    (claims : ClaimMap) where
  record IsDone (r : InstallJobReceipt) (after : World) : Type 0 where
    outcome : ClaimOutcome current r
    anew : claim_of k claims ≡ none → r.revision ≡ current.revision + 1
    cleaned : is_terminal r ≡ true → is_none cleanup ≡ false
    coherent : IsCoherent p after
    stored : (jobs : Jobs) × (durable p after.disk ≡ some jobs) × (job k jobs ≡ some r)

  save_claim-Post :
      (jobs : Jobs) (now : Text) (w : World)
      → IsCoherent p w
      → is_terminal current ≡ false
      → phase_eq current.phase healthy_unclaimed ≡ false
      → ((is_exhausted current || in_phases current.phase restart_ambiguous_phases)
          && is_none cleanup)
        ≡ false
      → Post (λ r w'. IsDone r w') (IsCoherent p) (save_claim p jobs k current now w)
  unfolding save_claim
  save_claim-Post jobs now w c live unhealthy confirmed =
      Post-if (is_exhausted current) _ _
        (λ e.
          Post-weaken _ (prune_and_save_receipt-Post p jobs k (exhausted_receipt current now) w c)
            (λ r w' s. record {
              outcome = exhausted now e s.1;
              anew = λ f.
                  ap (λ (x : InstallJobReceipt). x.revision) s.1 ∙ (claimed_revision current now).1;
              cleaned =
                  λ t. exhausted_cleaned (is_exhausted current) _ (is_none cleanup) e confirmed;
              coherent = s.0;
              stored = (s.2, s.4, s.5 ∙ ap some (sym s.1));
            })
            (λ w' q. q))
        (λ e.
          Post-weaken _
            (Post-bind _ _ w
              (prune_and_save_receipt-Post p jobs k (claimed_receipt current now) w c)
              λ r w' s.
                record_claim-Post p k (claimed_receipt current now) r w'
                  (claimed_not_healthy current now unhealthy) s)
            (λ r w' s. record {
              outcome = renewed now e s.1;
              anew = λ f.
                  ap (λ (x : InstallJobReceipt). x.revision) s.1 ∙ (claimed_revision current now).0;
              cleaned = λ t.
                  ambiguous_cleaned (is_exhausted current)
                    (in_phases current.phase restart_ambiguous_phases) (is_none cleanup)
                    (claimed_terminal current now live (ap is_terminal (sym s.1) ∙ t)) confirmed;
              coherent = s.0;
              stored = (s.2, s.4, s.5 ∙ ap some (sym s.1));
            })
            (λ w' q. q))

  claim_or_keep-Post :
      (clock : Text) (jobs : Jobs) (w : World)
      → IsCoherent p w
      → is_terminal current ≡ false
      → phase_eq current.phase healthy_unclaimed ≡ false
      → w.cache ≡ some jobs
      → job k jobs ≡ some current
      → Fewer claims w.claims
      → Post (λ r w'. IsDone r w') (IsCoherent p) (claim_or_keep p clock jobs k current cleanup w)
  unfolding claim_or_keep claim_anew
  claim_or_keep-Post clock jobs w c live unhealthy cached held fewer =
      Post-if (holds_claim k current.executor_generation w.claims) _ _
        (λ h. returns (record {
          outcome = kept refl;
          anew = λ e. absurd (holds_claim-claim_of k _ w.claims h (fewer k e));
          cleaned = λ t. cc (live, t);
          coherent = c;
          stored = (jobs, c.fresh jobs cached, held);
        }))
        (λ h.
          Post-if
            ((is_exhausted current || in_phases current.phase restart_ambiguous_phases)
              && is_none cleanup)
            _ _ (λ e. raises c)
            (λ e.
              Post-bind {R = λ now w'. w' ≡ w} _ _ w
                (Post-or_throw (timestamp_text p clock) store_error w (λ a f. refl) c)
                λ now w' s.
                  save_claim-Post jobs now w' (subst (IsCoherent p) (sym s) c) live unhealthy e))

confirmed_at :
    (cleanup : Option ℕ) (m : ℕ)
    → cleanup_confirmed cleanup m ≡ true
    → is_none cleanup ≡ false
    → cleanup ≡ some m
unfolding cleanup_confirmed
confirmed_at none m h e = cc
confirmed_at (some c) m h e = ap some ((==_iff c m).0 h)

not_either : (a b : Bool) → not (a || b) ≡ true → (a ≡ false) × (b ≡ false)
not_either a b h = ground arith

module _ (p : Platform) (clock k : Text) (n : ℕ) (cleanup : Option ℕ) where
  pub claim-Post :
      (w : World)
      → Post (λ r w'. HasClaimed p w k n cleanup r w') (IsCoherent p) (claim p clock k n cleanup w)
  unfolding claim
  claim-Post w =
      Post-bind _ _ w (Post-weaken _ (load_refreshed-Post p w) (λ jobs w' q. q) (λ w' q. q.0))
        λ jobs w1 (c1, disk, cached, fewer).
          Post-bind
            {R = λ current w'. (job k jobs ≡ some current) × (current.revision ≡ n) × (w' ≡ w1)} _ _
            w1
            (Post-looking _ w1
              (λ a e.
                let (found, revision) = checked_current-ok jobs k n e in (found, revision, refl))
              c1)
            λ current w2 (found, revision, s2).
              let c2 = subst (IsCoherent p) (sym s2) c1 in
              let both = is_terminal current || phase_eq current.phase healthy_unclaimed in
              Post-bind {R = λ u w'. (not both ≡ true) × (w' ≡ w1)} _ _ w2
                (Post-require (not both) transition_error w2 (λ h. (h, s2)) c2)
                λ u3 w3 (open_phase, s3).
                  let (live, unhealthy) =
                    not_either (is_terminal current) (phase_eq current.phase healthy_unclaimed)
                      open_phase in
                  let confirmation = cleanup_confirmed cleanup current.revision in
                  Post-bind {R = λ u w'. (confirmation ≡ true) × (w' ≡ w1)} _ _ w3
                    (Post-require confirmation revision_error w3 (λ h. (h, s3))
                      (subst (IsCoherent p) (sym s3) c1))
                    λ u4 w4 (confirmed, s4).
                      Post-weaken _
                        (claim_or_keep-Post p k current cleanup w.claims clock jobs w4
                          (subst (IsCoherent p) (sym s4) c1) live unhealthy
                          (ap (λ (v : World). v.cache) s4 ∙ cached) found
                          (λ j e. ap (λ (v : World). claim_of j v.claims) s4 ∙ fewer j e))
                        (λ r w' d. record {
                          jobs = jobs;
                          current = current;
                          held = ap (durable p) (sym disk) ∙ c1.fresh jobs cached;
                          found = found;
                          revision = revision;
                          live = live;
                          claimable = unhealthy;
                          outcome = d.outcome;
                          anew = λ e. d.anew e ∙ ap (λ m. m + 1) revision;
                          cleaned = λ t.
                              confirmed_at cleanup current.revision confirmed (d.cleaned t)
                              ∙ ap some revision;
                          coherent = d.coherent;
                          stored = d.stored;
                        })
                        (λ w' q. q)

  -- A claim that returns `r` found in the store, under the identifier and at the expected revision,
  -- a live receipt that is not waiting to be consumed. `r` is that receipt, or its exhausted form,
  -- or the form of the next executor generation; it is a new revision unless this manager held a
  -- claim; it is terminal only if a cleanup was confirmed for the expected revision; the disk holds
  -- `r`, and the state is coherent.
  pub claim-HasClaimed :
      (w : World) (r : InstallJobReceipt)
      → (claim p clock k n cleanup w).0 ≡ ok r
      → HasClaimed p w k n cleanup r (claim p clock k n cleanup w).1
  claim-HasClaimed w r h = Post-ok _ (claim-Post w) h
