-- ===== src/InstallJobs/Proofs/Calls.antt =====
-- Every call keeps the manager's state coherent, also when it fails halfway.
use ha_paneld_home_assistant.Prelude.{List, [], ◌∷◌, Text}
use ha_paneld_home_assistant.Platform.{Platform}
use ha_paneld_home_assistant.InstallJobs.Document.{job}
use ha_paneld_home_assistant.InstallJobs.World.{World, Weather, Result, not_found, store_error}
use ha_paneld_home_assistant.InstallJobs.Manager.Claims.{claim_of}
use ha_paneld_home_assistant.InstallJobs.Manager.Operations.Find.{get, list_jobs, find_active}
use ha_paneld_home_assistant.InstallJobs.Manager.Calls.{
  Call, creating, getting, listing, finding, cancelling, claiming, advancing, before_mutation,
  before_cleanup, restart, restarted, run_call, run_calls,
}
use ha_paneld_home_assistant.InstallJobs.Proofs.Post.{
  Post, returns, raises, Post-weaken, Post-bind, Post-require, Post-or_throw, Post-looking,
  Post-pure,
}
use ha_paneld_home_assistant.InstallJobs.Proofs.Coherence.{IsCoherent, load_refreshed-Post}
use ha_paneld_home_assistant.InstallJobs.Proofs.Creating.{create_or_join-Post}
use ha_paneld_home_assistant.InstallJobs.Proofs.Cancelling.{request_cancel-Post}
use ha_paneld_home_assistant.InstallJobs.Proofs.Claiming.{claim-Post}
use ha_paneld_home_assistant.InstallJobs.Proofs.Transitions.{transition-Post}
use ha_paneld_home_assistant.InstallJobs.Proofs.Barriers.{mutation-Post, cleanup-Post}

-- What holds at both ends holds of the state.
Post-both : {A : Type 0} {P : World → Type 0} (x : Result A × World) → Post (λ a w. P w) P x → P x.1
Post-both (_, w) (returns h) = h
Post-both (_, w) (raises h) = h

module _ (p : Platform) where
  get-Post :
      (k : Text) (w : World)
      → IsCoherent p w
      → Post (λ r w'. IsCoherent p w') (IsCoherent p) (get p k w)
  unfolding get
  get-Post k w c =
      Post-bind {R = λ u w'. IsCoherent p w'} _ _ w (Post-require _ not_found w (λ h. c) c)
        λ u w1 c1.
          Post-bind _ _ w1 (Post-weaken _ (load_refreshed-Post p w1) (λ jobs w' q. q) (λ w' q. q.0))
            λ jobs w2 q. Post-or_throw (job k jobs) not_found w2 (λ a e. q.0) q.0

  list_jobs-Post : (w : World) → Post (λ rs w'. IsCoherent p w') (IsCoherent p) (list_jobs p w)
  unfolding list_jobs
  list_jobs-Post w =
      Post-bind _ _ w (Post-weaken _ (load_refreshed-Post p w) (λ jobs w' q. q) (λ w' q. q.0))
        λ jobs w1 q. Post-pure _ w1 q.0

  find_active-Post :
      (address pinned : Text) (w : World)
      → IsCoherent p w
      → Post (λ r w'. IsCoherent p w') (IsCoherent p) (find_active p address pinned w)
  unfolding find_active
  find_active-Post address pinned w c =
      Post-bind {R = λ u w'. IsCoherent p w'} _ _ w (Post-or_throw _ store_error w (λ a e. c) c)
        λ u w1 c1.
          Post-bind _ _ w1 (Post-weaken _ (load_refreshed-Post p w1) (λ jobs w' q. q) (λ w' q. q.0))
            λ jobs w2 q. Post-looking _ w2 (λ a e. q.0) q.0

  restarted-IsCoherent : (w : World) → IsCoherent p (restarted w)
  unfolding restarted claim_of
  restarted-IsCoherent w = record { fresh = λ jobs e. cc; claimed = λ k g e. cc }

  run_call-IsCoherent : (c : Call) (w : World) → IsCoherent p w → IsCoherent p (run_call p c w)
  unfolding run_call
  run_call-IsCoherent (creating draws clock plan) w c =
      Post-both _
        (Post-weaken _ (create_or_join-Post p draws clock plan w c) (λ a w' q. q.0) (λ w' q. q))
  run_call-IsCoherent (getting k) w c = Post-both _ (get-Post k w c)
  run_call-IsCoherent listing w c = Post-both _ (list_jobs-Post w)
  run_call-IsCoherent (finding a pinned) w c = Post-both _ (find_active-Post a pinned w c)
  run_call-IsCoherent (cancelling clock k n) w c =
      Post-both _
        (Post-weaken _ (request_cancel-Post p clock k n w) (λ a w' q. q.coherent) (λ w' q. q))
  run_call-IsCoherent (claiming clock k n cleanup) w c =
      Post-both _
        (Post-weaken _ (claim-Post p clock k n cleanup w) (λ a w' q. q.coherent) (λ w' q. q))
  run_call-IsCoherent (advancing clock k n phase f) w c =
      Post-both _
        (Post-weaken _ (transition-Post p clock k n phase f w c) (λ a w' q. q.stored.0) (λ w' q. q))
  run_call-IsCoherent (before_mutation meanwhile k n phase) w c =
      Post-both _ (
        Post-weaken _ (mutation-Post p meanwhile k n phase w) (λ a w' q. q.1.coherent)
          (λ w' q. q c))
  run_call-IsCoherent (before_cleanup meanwhile k n phase) w c =
      Post-both _ (
        Post-weaken _ (cleanup-Post p meanwhile k n phase w) (λ a w' q. q.2.coherent) (λ w' q. q c))
  run_call-IsCoherent restart w c = restarted-IsCoherent w

  weather-IsCoherent :
      (weather : List Weather) (w : World)
      → IsCoherent p w
      → IsCoherent p (record w { weather = weather })
  weather-IsCoherent weather w c = record { fresh = c.fresh; claimed = c.claimed }

  -- However the awaited calls end, with success, an error or a cancellation before or after their
  -- effect, every sequence of the manager's calls and of restarts takes a coherent state to one: the
  -- cache is what the file holds, and every claim names a receipt of the cache that is neither
  -- terminal nor `healthy_unclaimed`, at its executor generation.
  pub run_calls-IsCoherent :
      (cs : List (Call × List Weather)) (w : World)
      → IsCoherent p w
      → IsCoherent p (run_calls p cs w)
  unfolding run_calls
  run_calls-IsCoherent [] w c = c
  run_calls-IsCoherent ((call, weather) ∷ cs) w c =
      run_calls-IsCoherent cs _ (run_call-IsCoherent call _ (weather-IsCoherent weather w c))
