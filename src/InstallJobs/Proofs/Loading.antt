-- ===== src/InstallJobs/Proofs/Loading.antt =====
-- `_async_load_locked` and `_async_load_durable_locked`: what a load that returns has read, from any
-- state.
use ha_paneld_home_assistant.Prelude.{
  ◌≡◌, refl, sym, ap, subst, ◌∙◌, length, Text, ==_iff, true, Option, none, some, and-eq-true, ◌&&◌,
  not,
}
use ha_paneld_home_assistant.Platform.{Platform}
use ha_paneld_home_assistant.InstallJobs.Document.{Jobs, job, jobs_eq}
use ha_paneld_home_assistant.InstallJobs.Receipt.{InstallJobReceipt}
use ha_paneld_home_assistant.InstallJobs.Disk.{Disk, store_presence, read_disk}
use ha_paneld_home_assistant.InstallJobs.World.{World, ok, store_error}
use ha_paneld_home_assistant.InstallJobs.Manager.Load.{
  load_refreshed, load_locked, load_durable, two_snapshots, other_write, snapshot, adopting,
}
use ha_paneld_home_assistant.InstallJobs.Proofs.Lookup.{jobs_eq-job}
use ha_paneld_home_assistant.InstallJobs.Proofs.Post.{
  Post, returns, Post-weaken, Post-bind, Post-require, Post-pure,
}
use ha_paneld_home_assistant.InstallJobs.Proofs.Coherence.{
  IsCoherent, durable, Loaded, load_refreshed-Post, Fewer, Still, Still-trans, await_job-Post,
  some_eq, adopted-Post, presence-durable,
}

module _ (p : Platform) where
  snapshot-Post :
      (w : World)
      → Post (λ jobs w'. (durable p w.disk ≡ some jobs) × Still w w') (Still w) (snapshot p w)
  unfolding snapshot
  snapshot-Post w =
      Post-bind _ _ w (await_job-Post (store_presence p) w) λ (existed, corrupt) w1 (shown, s1).
        Post-bind {R = λ u w'. (existed ≡ true) × Still w w'} _ _ w1
          (Post-require (existed && not corrupt) store_error w1 (λ h. ((and-eq-true _ _ h).0, s1))
            s1)
          λ u w2 (there, s2).
            Post-weaken _ (await_job-Post (read_disk p) w2)
              (λ jobs w3 (read, s3). (
                (presence-durable p w.disk shown).1 there ∙ (ap (read_disk p) (sym s2.disk) ∙ read),
                Still-trans s2 s3,
              ))
              (λ w3 s3. Still-trans s2 s3)

  -- The first snapshot held the same receipts as `jobs`.
  pub record IsAgreed (v : World) (jobs : Jobs) : Type 0 where
    pub first : Jobs
    pub held_first : durable p v.disk ≡ some first
    pub as_many : length first ≡ length jobs
    pub agreed : (j : Text) (s : InstallJobReceipt) → job j first ≡ some s → job j jobs ≡ some s

  pub IsAgreed-disk :
      (v w : World) {jobs : Jobs} → v.disk ≡ w.disk → IsAgreed v jobs → IsAgreed w jobs
  IsAgreed-disk v w e a = record {
    first = a.first;
    held_first = ap (durable p) (sym e) ∙ a.held_first;
    as_many = a.as_many;
    agreed = a.agreed;
  }

  jobs_eq-length : (a b : Jobs) → jobs_eq a b ≡ true → length a ≡ length b
  unfolding jobs_eq
  jobs_eq-length a b h = (==_iff _ _).0 (and-eq-true _ _ h).0

  module _ (meanwhile : Disk → Disk) where
    abbrev pub rewritten : World → World
    rewritten v = record v { disk = meanwhile v.disk }

    two_snapshots-Post :
        (w : World)
        → Post
            (λ jobs w'.
              IsAgreed w jobs
              × ((durable p (meanwhile w.disk) ≡ some jobs) × Still (rewritten w) w'))
            (λ w'. Unit {0})
            (two_snapshots p meanwhile w)
    unfolding two_snapshots other_write
    two_snapshots-Post w =
        Post-bind _ _ w (Post-weaken _ (snapshot-Post w) (λ a w' q. q) (λ w' q. tt))
          λ first w1 (held1, s1).
            Post-bind {R = λ u w'. Still (rewritten w) w'} _ _ w1
              (returns
                (record { cache = s1.cache; claims = s1.claims; disk = ap meanwhile s1.disk }))
              λ u w2 s2.
                Post-bind _ _ w2 (Post-weaken _ (snapshot-Post w2) (λ a w' q. q) (λ w' q. tt))
                  λ second w3 (held3, s3).
                    Post-bind {R = λ u w'. (jobs_eq first second ≡ true) × (w' ≡ w3)} _ _ w3
                      (Post-require (jobs_eq first second) store_error w3 (λ h. (h, refl)) tt)
                      λ u w4 (same, e). Post-pure second w4 (
                        record {
                          first = first;
                          held_first = held1;
                          as_many = jobs_eq-length first second same;
                          agreed = λ j s h. jobs_eq-job first second j same h;
                        },
                        (
                          ap (durable p) (sym s2.disk) ∙ held3,
                          subst (λ v. Still (rewritten w) v) (sym e) (Still-trans s2 s3),
                        ),
                      )

    pub load_durable-Post :
        (w : World)
        → Post
            (λ jobs w'. IsAgreed w jobs × Loaded p (rewritten w) jobs w')
            (IsCoherent p)
            (load_durable p meanwhile w)
    unfolding load_durable adopting
    load_durable-Post w =
        Post-weaken _
          (adopted-Post p (IsAgreed w) (λ d. Unit {0}) (rewritten w) (two_snapshots p meanwhile w)
            (two_snapshots-Post w))
          (λ jobs w' q. q) (λ w' q. q.0)

  -- Loading without a refresh: the disk is as it was, no claim is new, and what the cache held is
  -- what is loaded, stale or not.
  abbrev pub Reached : World → Jobs → World → Type 0
  Reached v jobs w =
      (w.disk ≡ v.disk)
      × Fewer v.claims w.claims
      × ((c : Jobs) → v.cache ≡ some c → c ≡ jobs)
      × (IsCoherent p v → IsCoherent p w)

  load_locked_at-Post :
      (w : World) (o : Option Jobs)
      → w.cache ≡ o
      → Post {A = Jobs}
          (Reached w)
          (IsCoherent p)
          (elim o [ none ↦ load_refreshed p w | some jobs ↦ (ok jobs, w) ])
  load_locked_at-Post w none e =
      Post-weaken _ (load_refreshed-Post p w)
        (λ jobs w' q. (q.1, q.3, (λ c h. cc (h, e)), (λ h. q.0))) (λ w' q. q.0)
  load_locked_at-Post w (some jobs) e =
      returns (refl, (λ k h. h), (λ c h. some_eq (sym h ∙ e)), (λ h. h))

  pub load_locked-Post : (w : World) → Post (Reached w) (IsCoherent p) (load_locked p w)
  unfolding load_locked
  load_locked-Post w = load_locked_at-Post w w.cache refl
