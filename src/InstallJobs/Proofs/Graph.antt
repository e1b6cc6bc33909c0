-- ===== src/InstallJobs/Proofs/Graph.antt =====
-- The diagram of the phases: `_NEXT_PHASE` of custom_components/panel_assistant/install_jobs.py.
use ha_paneld_home_assistant.Prelude.{
  ℕ, zero, suc, ◌+◌, ◌-◌, ◌≤◌, ◌<◌, ◌≡◌, subst, true, false, [], arith,
}
use ha_paneld_home_assistant.InstallJobs.Phase.{
  Phase, phase_index, in_phases, next_phases, terminal_phases, consumed, approved, authorizing,
  preflight, downloading, artifact_ready, revalidating, staging, installing, installed, launching,
  health_check, healthy_unclaimed,
}

-- One edge of the diagram.
abbrev pub Edge : Phase → Phase → Type 0
Edge a b = in_phases b (next_phases a) ≡ true

-- A walk along the edges, with its number of steps.
pub data Walk (a : Phase) : Phase → ℕ → Type 0 where
  here : Walk a a zero
  step : {b c : Phase} {n : ℕ} → Walk a b n → Edge b c → Walk a c (suc n)

next_rank : (a b : Phase) → Edge a b → phase_index a < phase_index b
unfolding in_phases next_phases
next_rank approved b h = ground arith
next_rank _ b h = ground arith

Walk-rank : {a b : Phase} {n : ℕ} → Walk a b n → phase_index a + n ≤ phase_index b
Walk-rank here = omega arith
Walk-rank (step {b = b} {c = c} w e) = omega (arith, Walk-rank w, next_rank b c e)

phase_index-le : (a : Phase) → phase_index a ≤ 15
phase_index-le approved = omega arith
phase_index-le _ = omega arith

-- Every walk along the transition table has at most fifteen steps, and a walk that comes back to
-- its first phase has none: an installation never repeats a phase.
pub Walk-terminates : (a b : Phase) (n : ℕ) → Walk a b n → (n ≤ 15) × (a ≡ b → n ≡ 0)
Walk-terminates a b n w =
    (omega (arith, Walk-rank w, phase_index-le b), λ e. ground (arith, Walk-rank w, e))

-- The phase that follows when nothing goes wrong.
abbrev forward : Phase → Phase
forward approved = authorizing
forward authorizing = preflight
forward preflight = downloading
forward downloading = artifact_ready
forward artifact_ready = revalidating
forward revalidating = staging
forward staging = installing
forward installing = installed
forward installed = launching
forward launching = health_check
forward health_check = healthy_unclaimed
forward healthy_unclaimed = consumed
forward last = last

forward-Edge :
    (a : Phase)
    → phase_index a < 12
    → Edge a (forward a) × (phase_index (forward a) ≡ phase_index a + 1)
unfolding in_phases next_phases
forward-Edge a h = ground arith

consumed_of_index : (a : Phase) → phase_index a + 0 ≡ 12 → consumed ≡ a
consumed_of_index a h = ground arith

Walk-cons : {a b c : Phase} {n : ℕ} → Edge a b → Walk b c n → Walk a c (suc n)
Walk-cons e here = step here e
Walk-cons e (step w d) = step (Walk-cons e w) d

Walk-forward : (k : ℕ) (a : Phase) → phase_index a + k ≡ 12 → Walk a consumed k
Walk-forward zero a h = subst (λ x. Walk x consumed zero) (consumed_of_index a h) here
Walk-forward (suc k) a h =
    let (e, rank) = forward-Edge a (omega arith) in
    Walk-cons e (Walk-forward k (forward a) (omega arith))

live-rank : (a : Phase) → in_phases a terminal_phases ≡ false → phase_index a < 12
unfolding in_phases
live-rank a h = ground arith

no_successor : (a : Phase) → in_phases a terminal_phases ≡ true → next_phases a ≡ []
unfolding in_phases next_phases
no_successor a h = ground arith

-- A terminal phase has no successor in the table; from every other phase the table has a walk to
-- `consumed`, of as many steps as there are phases between.
pub next_phases-progress :
    (a : Phase)
    → (in_phases a terminal_phases ≡ true → next_phases a ≡ [])
      × (in_phases a terminal_phases ≡ false → Walk a consumed (12 - phase_index a))
next_phases-progress a =
    (no_successor a, λ h. Walk-forward (12 - phase_index a) a (omega (arith, live-rank a h)))
