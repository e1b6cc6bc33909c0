-- ===== src/InstallJobs/Proofs/Cancelling.antt =====
-- `async_request_cancel`: what a request that returns has done.
use ha_paneld_home_assistant.Prelude.{
  ℕ, ◌≡◌, refl, sym, ap, subst, ◌∙◌, true, false, some, Text, ◌⊎◌, inl, inr, [],
}
use ha_paneld_home_assistant.Platform.{Platform}
use ha_paneld_home_assistant.InstallJobs.Phase.{in_phases, cancellable_phases}
use ha_paneld_home_assistant.InstallJobs.Receipt.{InstallJobReceipt}
use ha_paneld_home_assistant.InstallJobs.Scalars.{timestamp_text}
use ha_paneld_home_assistant.InstallJobs.Document.{Jobs, job}
use ha_paneld_home_assistant.InstallJobs.World.{World, ok, store_error, transition_error}
use ha_paneld_home_assistant.InstallJobs.Manager.Operations.Cancel.{
  cancel_requested_receipt, request_cancel,
}
use ha_paneld_home_assistant.InstallJobs.Proofs.Post.{
  Post, returns, Post-ok, Post-weaken, Post-bind, Post-require, Post-or_throw, Post-looking,
  Post-if,
}
use ha_paneld_home_assistant.InstallJobs.Proofs.Coherence.{IsCoherent, durable, load_refreshed-Post}
use ha_paneld_home_assistant.InstallJobs.Proofs.Stored.{checked_current-ok, save_receipt-Post}

-- What a request that returns `r` has done to the store of `before`.
pub record HasCancelled (p : Platform) (before : World) (k : Text) (n : ℕ) (r : InstallJobReceipt)
    (after : World) : Type 0 where
  pub jobs : Jobs
  pub current : InstallJobReceipt
  pub now : Text
  pub held : durable p before.disk ≡ some jobs
  pub found : job k jobs ≡ some current
  pub revision : current.revision ≡ n
  pub cancellable : in_phases current.phase cancellable_phases ≡ true
  pub outcome :
      ((current.cancel_requested ≡ true) × (r ≡ current))
      ⊎ ((current.cancel_requested ≡ false) × (r ≡ cancel_requested_receipt current now))
  pub coherent : IsCoherent p after
  pub stored : (jobs' : Jobs) × (durable p after.disk ≡ some jobs') × (job k jobs' ≡ some r)

module _ (p : Platform) (clock k : Text) (n : ℕ) where
  pub request_cancel-Post :
      (w : World)
      → Post (λ r w'. HasCancelled p w k n r w') (IsCoherent p) (request_cancel p clock k n w)
  unfolding request_cancel
  request_cancel-Post w =
      Post-bind _ _ w (Post-weaken _ (load_refreshed-Post p w) (λ jobs w' q. q) (λ w' q. q.0))
        λ jobs w1 (c1, disk, cached, fewer).
          let held = ap (durable p) (sym disk) ∙ c1.fresh jobs cached in
          Post-bind
            {R = λ current w'. (job k jobs ≡ some current) × (current.revision ≡ n) × (w' ≡ w1)} _ _
            w1
            (Post-looking _ w1
              (λ a e.
                let (found, revision) = checked_current-ok jobs k n e in (found, revision, refl))
              c1)
            λ current w2 (found, revision, s2).
              let c2 = subst (IsCoherent p) (sym s2) c1 in
              let allowed = in_phases current.phase cancellable_phases in
              Post-bind {R = λ u w'. (allowed ≡ true) × (w' ≡ w1)} _ _ w2
                (Post-require allowed transition_error w2 (λ h. (h, s2)) c2)
                λ u w3 (cancellable, s3).
                  let c3 = subst (IsCoherent p) (sym s3) c1 in
                  Post-if current.cancel_requested _ _
                    (λ again. returns (record {
                      jobs = jobs;
                      current = current;
                      now = [];
                      held = held;
                      found = found;
                      revision = revision;
                      cancellable = cancellable;
                      outcome = inl (again, refl);
                      coherent = c3;
                      stored =
                          (jobs, c3.fresh jobs (ap (λ (v : World). v.cache) s3 ∙ cached), found);
                    }))
                    (λ first.
                      Post-bind {R = λ now w'. w' ≡ w3} _ _ w3
                        (Post-or_throw (timestamp_text p clock) store_error w3 (λ a f. refl) c3)
                        λ now w4 s4.
                          Post-weaken _
                            (save_receipt-Post p jobs k (cancel_requested_receipt current now) w4)
                            (λ r w' s. record {
                              jobs = jobs;
                              current = current;
                              now = now;
                              held = held;
                              found = found;
                              revision = revision;
                              cancellable = cancellable;
                              outcome = inr (first, s.1);
                              coherent = s.0;
                              stored = (s.2, s.4, s.5 ∙ ap some (sym s.1));
                            })
                            (λ w' q. q))

  -- A cancellation request that returns `r` found in the store, at the expected revision, a receipt
  -- in a phase that can be cancelled. `r` is that receipt if it was already to be cancelled, and
  -- else the same receipt with the request recorded; the disk holds `r`, and the state is coherent.
  pub request_cancel-HasCancelled :
      (w : World) (r : InstallJobReceipt)
      → (request_cancel p clock k n w).0 ≡ ok r
      → HasCancelled p w k n r (request_cancel p clock k n w).1
  request_cancel-HasCancelled w r h = Post-ok _ (request_cancel-Post w) h
