-- ===== src/InstallJobs/Proofs/Barriers.antt =====
-- The mutation and cleanup barriers: what a barrier that returns has verified.
use ha_paneld_home_assistant.Prelude.{
  ℕ, ◌≡◌, refl, sym, ap, subst, ◌∙◌, Bool, true, false, none, some, Text, and-eq-true, arith, ◌≢◌,
}
use ha_paneld_home_assistant.Platform.{Platform}
use ha_paneld_home_assistant.InstallJobs.Phase.{
  Phase, in_phases, mutation_barriers, cleanup_barrier_cancel_polarity,
}
use ha_paneld_home_assistant.InstallJobs.Receipt.{InstallJobReceipt}
use ha_paneld_home_assistant.InstallJobs.Document.{Jobs, job}
use ha_paneld_home_assistant.InstallJobs.Disk.{Disk}
use ha_paneld_home_assistant.InstallJobs.World.{World, ok, transition_error}
use ha_paneld_home_assistant.InstallJobs.Manager.Claims.{ClaimMap, claim_of, holds_claim}
use ha_paneld_home_assistant.InstallJobs.Manager.Operations.Barrier.{
  barrier_holds, barrier_result, verify_barrier, verify_mutation_barrier, verify_cleanup_barrier,
  bool_is,
}
use ha_paneld_home_assistant.InstallJobs.Proofs.Equality.{phase_eq_sound, receipt_eq_sound}
use ha_paneld_home_assistant.InstallJobs.Proofs.Lookup.{holds_claim-claim_of}
use ha_paneld_home_assistant.InstallJobs.Proofs.Post.{
  Post, returns, raises, Post-ok, Post-weaken, Post-bind, Post-require, Post-or_throw, Post-looking,
}
use ha_paneld_home_assistant.InstallJobs.Proofs.Coherence.{
  IsCoherent, durable, invalidate_cache-IsCoherent,
}
use ha_paneld_home_assistant.InstallJobs.Proofs.Stored.{checked_current-ok}
use ha_paneld_home_assistant.InstallJobs.Proofs.Loading.{
  IsAgreed, IsAgreed-disk, load_locked-Post, load_durable-Post,
}

-- What a barrier that returns `r` has verified.
pub record HasVerified (p : Platform) (meanwhile : Disk → Disk) (before : World) (k : Text) (n : ℕ)
    (phase : Phase) (cancel : Bool) (r : InstallJobReceipt) (after : World) : Type 0 where
  pub jobs : Jobs
  pub agreed : IsAgreed p before jobs
  pub held : durable p (meanwhile before.disk) ≡ some jobs
  pub found : job k jobs ≡ some r
  pub remembered : (c : Jobs) → before.cache ≡ some c → job k c ≡ some r
  pub revision : r.revision ≡ n
  pub at_phase : r.phase ≡ phase
  pub at_cancel : r.cancel_requested ≡ cancel
  pub claim : holds_claim k r.executor_generation after.claims ≡ true
  pub claimed_before : claim_of k before.claims ≢ none
  pub unwritten : after.disk ≡ meanwhile before.disk
  pub coherent : IsCoherent p after

bool_is-eq : (a b : Bool) → bool_is a b ≡ true → b ≡ a
unfolding bool_is
bool_is-eq a b h = ground arith

barrier_facts :
    (cancel : Bool) (phase : Phase) (k : Text) (claims : ClaimMap) (m r : InstallJobReceipt)
    → barrier_holds cancel phase k claims m r ≡ true
    → (r ≡ m)
      × (r.phase ≡ phase)
      × (r.cancel_requested ≡ cancel)
      × (holds_claim k r.executor_generation claims ≡ true)
unfolding barrier_holds
barrier_facts cancel phase k claims m r h =
    let (same, rest) = and-eq-true _ _ h in
    let (at_phase, rest2) = and-eq-true _ _ rest in
    let (at_cancel, claim) = and-eq-true _ _ rest2 in
    (
      receipt_eq_sound r m same,
      phase_eq_sound r.phase phase at_phase,
      bool_is-eq cancel r.cancel_requested at_cancel,
      claim,
    )

module _ (p : Platform) where
  barrier_result-Post :
      {Q : InstallJobReceipt → World → Type 0} (b : Bool) (r : InstallJobReceipt) (w : World)
      → (b ≡ true → Q r w)
      → Post Q (IsCoherent p) (barrier_result b r w)
  unfolding barrier_result
  barrier_result-Post true r w q = returns (q refl)
  barrier_result-Post false r w q = raises (invalidate_cache-IsCoherent p w)

  -- A step that starts from a coherent state ends in one.
  abbrev Stays : World → World → Type 0
  Stays v w = IsCoherent p v → IsCoherent p w

  module _ (meanwhile : Disk → Disk) (k : Text) (n : ℕ) (phase : Phase) where
    verify_barrier-Post :
        (cancel : Bool) (w : World)
        → Post
            (λ r w'. HasVerified p meanwhile w k n phase cancel r w')
            (Stays w)
            (verify_barrier p meanwhile cancel k n phase w)
    unfolding verify_barrier
    verify_barrier-Post cancel w =
        Post-bind _ _ w (Post-weaken _ (load_locked-Post p w) (λ jobs w' q. q) (λ w' q h. q))
          λ cached w1 (disk1, fewer1, same1, stays1).
            Post-bind {R = λ m w'. (job k cached ≡ some m) × (w' ≡ w1)} _ _ w1
              (Post-looking _ w1 (λ m e. ((checked_current-ok cached k n e).0, refl)) stays1)
              λ m w2 (held_m, s2).
                Post-bind _ _ w2
                  (Post-weaken _ (load_durable-Post p meanwhile w2) (λ jobs w' q. q) (λ w' q h. q))
                  λ jobs w3 (agreed3, (c3, disk3, cached3, fewer3)).
                    let untouched = ap (λ (v : World). v.disk) s2 ∙ disk1 in
                    let disk = disk3 ∙ ap meanwhile untouched in
                    Post-bind {R = λ r w'. (job k jobs ≡ some r) × (r.revision ≡ n) × (w' ≡ w3)} _ _
                      w3
                      (Post-looking _ w3
                        (λ a e.
                          let (found, revision) = checked_current-ok jobs k n e in
                          (found, revision, refl))
                        (λ h. c3))
                      λ r w4 (found, revision, s4).
                        Post-weaken _
                          (barrier_result-Post (barrier_holds cancel phase k w4.claims m r) r w4
                            λ h.
                              let (same, at_phase, at_cancel, claim) =
                                barrier_facts cancel phase k w4.claims m r h in
                              record {
                                jobs = jobs;
                                agreed = IsAgreed-disk p w2 w untouched agreed3;
                                held = ap (durable p) (sym disk) ∙ c3.fresh jobs cached3;
                                found = found;
                                remembered =
                                    λ c e. ap (job k) (same1 c e) ∙ (held_m ∙ ap some (sym same));
                                revision = revision;
                                at_phase = at_phase;
                                at_cancel = at_cancel;
                                claim = claim;
                                claimed_before = λ e. holds_claim-claim_of k _ w4.claims claim (
                                    ap (λ (v : World). claim_of k v.claims) s4
                                    ∙ fewer3 k
                                        (ap (λ (v : World). claim_of k v.claims) s2 ∙ fewer1 k e));
                                unwritten = ap (λ (v : World). v.disk) s4 ∙ disk;
                                coherent = subst (IsCoherent p) (sym s4) c3;
                              })
                          (λ a w' q. q) (λ w' q h. q)

    pub mutation-Post :
        (w : World)
        → Post
            (λ r w'.
              (in_phases phase mutation_barriers ≡ true)
              × HasVerified p meanwhile w k n phase false r w')
            (Stays w)
            (verify_mutation_barrier p meanwhile k n phase w)
    unfolding verify_mutation_barrier
    mutation-Post w =
        Post-bind {R = λ u w'. (in_phases phase mutation_barriers ≡ true) × (w' ≡ w)} _ _ w
          (Post-require (in_phases phase mutation_barriers) transition_error w (λ e. (e, refl))
            (λ h. h))
          λ u w1 (allowed, s1).
            Post-weaken _ (verify_barrier-Post false w1)
              (λ a w' q.
                (allowed, subst (λ v. HasVerified p meanwhile v k n phase false a w') s1 q))
              (λ w' q h. q (subst (IsCoherent p) (sym s1) h))

    pub cleanup-Post :
        (w : World)
        → Post
            (λ r w'.
              (cancel : Bool) × (cleanup_barrier_cancel_polarity phase ≡ some cancel)
              × HasVerified p meanwhile w k n phase cancel r w')
            (Stays w)
            (verify_cleanup_barrier p meanwhile k n phase w)
    unfolding verify_cleanup_barrier
    cleanup-Post w =
        Post-bind {R = λ x w'. (cleanup_barrier_cancel_polarity phase ≡ some x) × (w' ≡ w)} _ _ w
          (Post-or_throw (cleanup_barrier_cancel_polarity phase) transition_error w
            (λ a e. (e, refl)) (λ h. h))
          λ x w1 (polarity, s1).
            Post-weaken _ (verify_barrier-Post x w1)
              (λ a w' q.
                (x, polarity, subst (λ v. HasVerified p meanwhile v k n phase x a w') s1 q))
              (λ w' q h. q (subst (IsCoherent p) (sym s1) h))

    -- From any state, coherent or not, and whatever another writer does between the two snapshots, a
    -- mutation barrier that returns `r` was asked for `staging`, `installing` or `launching`; the disk
    -- holds `r`, at the expected revision, in that phase and with no cancellation requested; the
    -- first snapshot had the same receipts, and the cache, if there was one, held `r`; this manager
    -- holds the claim of its executor generation and held one before; the barrier wrote nothing.
    pub verify_mutation_barrier-HasVerified :
        (w : World) (r : InstallJobReceipt)
        → (verify_mutation_barrier p meanwhile k n phase w).0 ≡ ok r
        → (in_phases phase mutation_barriers ≡ true)
          × HasVerified p meanwhile w k n phase false r
              (verify_mutation_barrier p meanwhile k n phase w).1
    verify_mutation_barrier-HasVerified w r h = Post-ok _ (mutation-Post w) h

    -- From any state, coherent or not, and whatever another writer does between the two snapshots, a
    -- cleanup barrier that returns `r` was asked for a phase that the polarity table names, and
    -- verified the same facts with the cancellation that the table expects there.
    pub verify_cleanup_barrier-HasVerified :
        (w : World) (r : InstallJobReceipt)
        → (verify_cleanup_barrier p meanwhile k n phase w).0 ≡ ok r
        → (cancel : Bool) × (cleanup_barrier_cancel_polarity phase ≡ some cancel)
          × HasVerified p meanwhile w k n phase cancel r
              (verify_cleanup_barrier p meanwhile k n phase w).1
    verify_cleanup_barrier-HasVerified w r h = Post-ok _ (cleanup-Post w) h
