-- ===== src/InstallJobs/Proofs/Creating.antt =====
-- `async_create_or_join`: what a call that returns has done.
use ha_paneld_home_assistant.Prelude.{
  ◌≤◌, ◌<◌, ◌≡◌, refl, sym, ap, subst, ◌∙◌, Bool, true, false, none, some, Text, List, ltb→lt, All,
  text_eq, text_eq_iff, leb→le, mem_text, and-eq-true,
}
use mathlib.Core.List.{Mem}
use ha_paneld_home_assistant.Platform.{Platform}
use ha_paneld_home_assistant.InstallJobs.Receipt.{InstallJobReceipt}
use ha_paneld_home_assistant.InstallJobs.Scalars.{timestamp_text, max_active_jobs}
use ha_paneld_home_assistant.InstallJobs.Parse.{
  parse_target, parse_artifact, target_dict, artifact_dict, install_plan_sha256,
}
use ha_paneld_home_assistant.InstallJobs.Document.{Jobs, job, values}
use ha_paneld_home_assistant.InstallJobs.World.{
  World, ok, store_error, transition_error, capacity, uncaught, no_draw,
}
use ha_paneld_home_assistant.InstallJobs.Manager.Prune.{prune}
use ha_paneld_home_assistant.InstallJobs.Manager.Operations.Create.{
  Plan, same_plan, Joining, join, conflicts, free, joining, active_count, draw, new_receipt,
  checked_plan, create_new, settle, create_or_join,
}
use ha_paneld_home_assistant.InstallJobs.Proofs.Post.{
  Post, Post-ok, Post-weaken, Post-bind, Post-require, Post-or_throw, Post-pure, Post-throw,
}
use ha_paneld_home_assistant.InstallJobs.Proofs.Coherence.{IsCoherent, durable, load_refreshed-Post}
use ha_paneld_home_assistant.InstallJobs.Proofs.Stored.{Stored, save_receipt-Post}
use ha_paneld_home_assistant.InstallJobs.Proofs.Rivals.{
  IsRival, joining-free, joining-join, draw-fresh,
}

-- A plan that passes the checks before the lock.
pub record IsChecked (p : Platform) (given plan : Plan) : Type 0 where
  pub target : parse_target p (target_dict given.target) ≡ some plan.target
  pub artifact : parse_artifact (artifact_dict given.artifact) ≡ some plan.artifact
  pub plan_sha256 :
      install_plan_sha256 p plan.target plan.artifact plan.adb_credential_id ≡ some plan.plan_sha256
  pub primary_abi : mem_text plan.target.primary_abi plan.artifact.supported_abis ≡ true
  pub min_sdk : plan.artifact.min_sdk ≤ plan.target.android_sdk

-- The two ways in which a call ends well, given the receipts that pruning left.
pub data CreateOutcome (p : Platform) (plan : Plan) (jobs pruned : Jobs) (now : Text)
    (r : InstallJobReceipt) (after : World) : Bool → Type 0 where
  joined :
      Mem r (values pruned)
      → IsRival plan.target r
      → same_plan plan r ≡ true
      → durable p after.disk ≡ some jobs
      → CreateOutcome p plan jobs pruned now r after false
  created :
      (job_id : Text)
      → job job_id pruned ≡ none
      → All (λ s. ¬ IsRival plan.target s) (values pruned)
      → active_count (values pruned) < max_active_jobs
      → Stored p job_id (new_receipt plan job_id now) r after
      → CreateOutcome p plan jobs pruned now r after true

pub record HasCreated (p : Platform) (before : World) (given : Plan) (r : InstallJobReceipt)
    (is_new : Bool) (after : World) : Type 0 where
  pub plan : Plan
  pub checked : IsChecked p given plan
  pub jobs : Jobs
  pub pruned : Jobs
  pub now : Text
  pub held : durable p before.disk ≡ some jobs
  pub kept : prune p jobs now ≡ some pruned
  pub outcome : CreateOutcome p plan jobs pruned now r after is_new

module _ (p : Platform) where
  checked_plan-Post :
      (given : Plan) (w : World)
      → Post (λ plan w'. IsChecked p given plan × (w' ≡ w)) (λ w'. w' ≡ w) (checked_plan p given w)
  unfolding checked_plan
  checked_plan-Post given w =
      Post-bind _ _ w
        (Post-or_throw
          {Q = λ target w'. (parse_target p (target_dict given.target) ≡ some target) × (w' ≡ w)} _
          store_error w (λ a e. (e, refl)) refl)
        λ target w1 (is_target, s1).
          Post-bind _ _ w1
            (Post-or_throw
              {Q = λ artifact w'.
                (parse_artifact (artifact_dict given.artifact) ≡ some artifact) × (w' ≡ w)}
              _ store_error w1 (λ a e. (e, s1)) s1)
            λ artifact w2 (is_artifact, s2).
              Post-bind _ _ w2
                (Post-or_throw
                  {Q = λ expected w'.
                    (install_plan_sha256 p target artifact given.adb_credential_id ≡ some expected)
                    × (w' ≡ w)}
                  _ store_error w2 (λ a e. (e, s2)) s2)
                λ expected w3 (is_expected, s3).
                  Post-bind {R = λ u w'. (text_eq given.plan_sha256 expected ≡ true) × (w' ≡ w)} _ _
                    w3 (Post-require _ transition_error w3 (λ h. ((and-eq-true _ _ h).0, s3)) s3)
                    λ u4 w4 (same, s4).
                      Post-bind
                        {R = λ u w'.
                          (mem_text target.primary_abi artifact.supported_abis ≡ true) × (w' ≡ w)}
                        _ _ w4 (Post-require _ transition_error w4 (λ h. (h, s4)) s4)
                        λ u5 w5 (abi, s5).
                          Post-bind {R = λ u w'. (artifact.min_sdk ≤ target.android_sdk) × (w' ≡ w)}
                            _ _ w5 (Post-require _ transition_error w5 (λ h. (leb→le _ _ h, s5)) s5)
                            λ u6 w6 (sdk, s6). Post-pure _ w6 (
                              record {
                                target = is_target;
                                artifact = is_artifact;
                                plan_sha256 =
                                    is_expected
                                    ∙ ap some
                                        (sym ((text_eq_iff given.plan_sha256 expected).0 same));
                                primary_abi = abi;
                                min_sdk = sdk;
                              },
                              s6,
                            )

  create_new-Post :
      (draws : List Text) (now : Text) (plan : Plan) (jobs pruned : Jobs) (w : World)
      → All (λ s. ¬ IsRival plan.target s) (values pruned)
      → IsCoherent p w
      → Post
          (λ x w'. IsCoherent p w' × CreateOutcome p plan jobs pruned now x.0 w' x.1)
          (IsCoherent p)
          (create_new p draws now plan pruned w)
  unfolding create_new
  create_new-Post draws now plan jobs pruned w alone c =
      Post-bind {R = λ u w'. (active_count (values pruned) < max_active_jobs) × (w' ≡ w)} _ _ w
        (Post-require _ capacity w (λ h. (ltb→lt _ _ h, refl)) c)
        λ u w1 (few, s1).
          let c1 = subst (IsCoherent p) (sym s1) c in
          Post-bind _ _ w1
            (Post-or_throw {Q = λ d w'. draw draws pruned ≡ some d} (draw draws pruned) no_draw w1
              (λ a e. e) c1)
            λ d w2 drawn.
              Post-bind _ _ w2 (save_receipt-Post p pruned d (new_receipt plan d now) w2) λ r w3 s.
                Post-pure (r, true) w3
                  (s.0, created d (draw-fresh draws pruned d drawn) alone few s)

  settle-Post :
      (draws : List Text) (now : Text) (plan : Plan) (jobs pruned : Jobs) (found : Joining)
      (w : World)
      → joining plan (values pruned) ≡ found
      → durable p w.disk ≡ some jobs
      → IsCoherent p w
      → Post
          (λ x w'. IsCoherent p w' × CreateOutcome p plan jobs pruned now x.0 w' x.1)
          (IsCoherent p)
          (settle p draws now plan pruned found w)
  unfolding settle
  settle-Post draws now plan jobs pruned (join r) w e held c =
      let (there, (rival, same)) = joining-join plan (values pruned) r e in
      Post-pure _ w (c, joined there rival same held)
  settle-Post draws now plan jobs pruned conflicts w e held c = Post-throw _ w c
  settle-Post draws now plan jobs pruned free w e held c =
      create_new-Post draws now plan jobs pruned w (joining-free plan (values pruned) e) c

  pub create_or_join-Post :
      (draws : List Text) (clock : Text) (given : Plan) (w : World)
      → IsCoherent p w
      → Post
          (λ x w'. IsCoherent p w' × HasCreated p w given x.0 x.1 w')
          (IsCoherent p)
          (create_or_join p draws clock given w)
  unfolding create_or_join
  create_or_join-Post draws clock given w c =
      Post-bind _ _ w
        (Post-weaken _ (checked_plan-Post given w) (λ a w' q. q)
          (λ w' s. subst (IsCoherent p) (sym s) c))
        λ plan w1 (checked, s1).
          Post-bind _ _ w1 (Post-weaken _ (load_refreshed-Post p w1) (λ jobs w' q. q) (λ w' q. q.0))
            λ jobs w2 (c2, disk, cached, fewer).
              Post-bind {R = λ now w'. w' ≡ w2} _ _ w2
                (Post-or_throw (timestamp_text p clock) store_error w2 (λ a e. refl) c2)
                λ now w3 s3.
                  let c3 = subst (IsCoherent p) (sym s3) c2 in
                  Post-bind _ _ w3
                    (Post-or_throw {Q = λ pruned w'. (prune p jobs now ≡ some pruned) × (w' ≡ w2)} _
                      uncaught w3 (λ a e. (e, s3)) c3)
                    λ pruned w4 (kept, s4).
                      let c4 = subst (IsCoherent p) (sym s4) c2 in
                      let held = c2.fresh jobs cached in
                      Post-weaken _
                        (settle-Post draws now plan jobs pruned _ w4 refl
                          (ap (λ (v : World). durable p v.disk) s4 ∙ held) c4)
                        (λ x w' q. (
                          q.0,
                          record {
                            plan = plan;
                            checked = checked;
                            jobs = jobs;
                            pruned = pruned;
                            now = now;
                            held =
                                ap (λ (v : World). durable p v.disk) (sym s1)
                                ∙ (ap (durable p) (sym disk) ∙ held);
                            kept = kept;
                            outcome = q.1;
                          },
                        ))
                        (λ w' q. q)

  -- From a coherent state, a call that returns `(r, is_new)` was given a plan that passes every
  -- check before the lock: its target, artifact and hash are right, the panel's ABI is supported
  -- and its SDK is high enough. If `is_new` is false then `r` is among the pruned receipts, is live,
  -- shares an address, a pin or a serial with the target and has the very same plan, and the disk
  -- is as it was. Otherwise no pruned receipt is live and shares one of these, fewer than four are
  -- live, and `r` is a new receipt under an identifier that none of them has, which the disk holds.
  pub create_or_join-HasCreated :
      (draws : List Text) (clock : Text) (given : Plan) (w : World) (r : InstallJobReceipt)
      (is_new : Bool)
      → IsCoherent p w
      → (create_or_join p draws clock given w).0 ≡ ok (r, is_new)
      → HasCreated p w given r is_new (create_or_join p draws clock given w).1
  create_or_join-HasCreated draws clock given w r is_new c h =
      (Post-ok _ (create_or_join-Post draws clock given w c) h).1
