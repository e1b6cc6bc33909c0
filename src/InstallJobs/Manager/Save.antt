-- ===== src/InstallJobs/Manager/Save.antt =====
-- `_async_save_locked`, `_async_store_save` and `_async_drain_operation` of
-- custom_components/panel_assistant/install_jobs.py.
use ha_paneld_home_assistant.Prelude.{
  Bool, true, false, ◌&&◌, ◌||◌, not, Option, none, some, [], ◌∷◌, if◌then◌else◌, is_some, text_ltb,
}
use ha_paneld_home_assistant.Value.{Value, value_eq}
use ha_paneld_home_assistant.Platform.{Platform}
use ha_paneld_home_assistant.InstallJobs.Document.{
  Jobs, job, jobs_eq, serialize_document, validated_document_for_save,
}
use ha_paneld_home_assistant.InstallJobs.Disk.{Disk, store_presence, read_disk}
use ha_paneld_home_assistant.InstallJobs.World.{
  World, ok, raise, M, store_error, cancelled, Weather, calm, fails_before, fails_after,
  cancels_before, cancels_after, next_weather, pass,
}
use ha_paneld_home_assistant.InstallJobs.Manager.Claims.{invalidate_cache, adopt}

-- What a drained operation leaves: its result (`none` for a failure of either kind), whether the
-- caller was cancelled while it ran, and the state.
pub record Drained (A : Type 0) : Type 0 where
  pub result : Option A
  pub cancellation : Bool
  pub world : World

unfoldable pub drained_as : {A : Type 0} → Weather → World → Option A × World → Drained A
drained_as weather w (result, w') = elim weather.outcome [
  | calm ↦ record { result = result; cancellation = weather.caller_cancelled; world = w' }
  | fails_before ↦ record { result = none; cancellation = weather.caller_cancelled; world = w }
  | fails_after ↦ record { result = none; cancellation = weather.caller_cancelled; world = w' }
  | cancels_before ↦ record { result = none; cancellation = weather.caller_cancelled; world = w }
  | cancels_after ↦ record { result = none; cancellation = weather.caller_cancelled; world = w' }
]

-- The operation runs to its end however often the caller is cancelled.
unfoldable pub drain : {A : Type 0} → (World → Option A × World) → World → Drained A
unfolding drained_as next_weather pass
drain operation w = drained_as (next_weather w.weather) (pass w) (operation (pass w))

-- Some receipt of the candidate is older than the one that it replaces.
unfoldable pub turns_back : Jobs → Jobs → Bool
unfolding job text_ltb
turns_back [] candidates = false
turns_back ((k, previous) ∷ cache) candidates =
    elim (job k candidates) [
      | none ↦ false
      | some candidate ↦ text_ltb candidate.updated_at previous.updated_at
    ]
    || turns_back cache candidates

unfoldable pub may_follow : Option Jobs → Jobs → Bool
unfolding turns_back
may_follow none candidates = false
may_follow (some cache) candidates = not (turns_back cache candidates)

unfoldable pub readback_matches : Value → Jobs → Jobs → Bool
unfolding jobs_eq value_eq serialize_document
readback_matches document jobs verified =
    jobs_eq verified jobs && value_eq (serialize_document verified) document

module _ (p : Platform) where
  -- `_async_store_save`: nothing is written while Home Assistant stops.
  unfoldable pub store_save : Value → World → Option (Unit {0}) × World
  store_save document w =
      if w.stopping
      then (none, w)
      else (some tt, record w { disk = record w.disk { file = some (p.store_file document) } })

  unfoldable pub look : {A : Type 0} → (Disk → Option A) → World → Option A × World
  look f w = (f w.disk, w)

  -- The end of the method: a cancellation first, then a failure, then success.
  unfoldable pub finish : Bool → Bool → Option Jobs → M (Unit {0})
  unfolding invalidate_cache adopt
  finish true saved verified w = (raise cancelled, invalidate_cache w)
  finish false false verified w = (raise store_error, invalidate_cache w)
  finish false true none w = (raise store_error, invalidate_cache w)
  finish false true (some verified) w = (ok tt, adopt verified w)

  -- What the read back of the file shows.
  unfoldable pub read_shown : Value → Jobs → Bool → Bool → Option Jobs → M (Unit {0})
  read_shown document jobs cancellation saved none w = finish cancellation false none w
  read_shown document jobs cancellation saved (some verified) w =
      finish cancellation (saved && readback_matches document jobs verified) (some verified) w

  unfoldable pub read_back : Value → Jobs → Bool → Bool → M (Unit {0})
  read_back document jobs cancellation saved w =
      let d = drain (look (read_disk p)) w in
      read_shown document jobs (cancellation || d.cancellation) saved d.result d.world

  -- What the look at the path shows.
  unfoldable pub presence_shown : Value → Jobs → Bool → Bool → Option (Bool × Bool) → M (Unit {0})
  presence_shown document jobs cancellation saved none w = finish cancellation false none w
  presence_shown document jobs cancellation saved (some (existed, corrupt)) w =
      if existed && not corrupt
      then read_back document jobs cancellation saved w
      else finish cancellation false none w

  unfoldable pub look_again : Value → Jobs → Bool → Bool → M (Unit {0})
  look_again document jobs cancellation saved w =
      let d = drain (look (store_presence p)) w in
      presence_shown document jobs (cancellation || d.cancellation) saved d.result d.world

  unfoldable pub write_verified : Value → Jobs → M (Unit {0})
  write_verified document jobs w =
      let d = drain (store_save document) w in
      look_again document jobs d.cancellation (is_some d.result) d.world

  -- The candidate passed the checks, or did not.
  unfoldable pub save_candidate : Jobs → Option Value → M (Unit {0})
  unfolding may_follow invalidate_cache
  save_candidate jobs none w = (raise store_error, invalidate_cache w)
  save_candidate jobs (some document) w =
      if may_follow w.cache jobs
      then write_verified document jobs w
      else (raise store_error, invalidate_cache w)

  unfoldable pub save_locked : Jobs → M (Unit {0})
  save_locked jobs = save_candidate jobs (validated_document_for_save p jobs)
