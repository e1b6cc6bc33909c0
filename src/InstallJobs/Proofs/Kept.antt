-- ===== src/InstallJobs/Proofs/Kept.antt =====
-- `_prune`: the identifiers that it keeps, and what the loop that removes the others leaves.
use ha_paneld_home_assistant.Prelude.{
  ℕ, ◌≤◌, ◌≡◌, ◌↔◌, ◌⊎◌, refl, sym, ap, subst, ◌∙◌, true, false, none, some, some_eq, List, [], ◌∷◌,
  Text, text_eq, text_eq_iff, mem_text, any, arith, leb, leb→le, le→leb, Bool-cases, Option-cases,
  inl, inr, if◌then◌else◌, >>=-eq-some,
}
use ha_paneld_home_assistant.Platform.{Platform, Moment}
use ha_paneld_home_assistant.InstallJobs.Receipt.{InstallJobReceipt}
use ha_paneld_home_assistant.InstallJobs.Document.{Jobs, job}
use ha_paneld_home_assistant.InstallJobs.Manager.Prune.{pop, pop_unretained, retained_ids}
use ha_paneld_home_assistant.InstallJobs.Proofs.Lookup.{job-pop, job_of_pop_unretained}
use ha_paneld_home_assistant.InstallJobs.Proofs.Ranks.{Any}

mem_text-cons :
    (k x : Text) (xs : List Text)
    → (mem_text k (x ∷ xs) ≡ true) ↔ ((k ≡ x) ⊎ (mem_text k xs ≡ true))
unfolding mem_text any
mem_text-cons k x xs = elim (Bool-cases (text_eq k x)) [
  | inl same ↦ ((λ h. inl ((text_eq_iff k x).0 same)), λ h. ground (arith, same))
  | inr other ↦ (
    (λ h. inr (ground (arith, h, other))),
    λ h. elim h [ inl e ↦ cc ((text_eq_iff k x).1 e, other) | inr there ↦ ground (arith, there) ],
  )
]

mem_text-nil : (k : Text) → mem_text k [] ≡ true → ⊥
unfolding mem_text any
mem_text-nil k h = cc

module _ (p : Platform) where
  -- Whether the receipt has the identifier and was updated at the cutoff or later.
  abbrev pub IsLate : ℕ → Text → InstallJobReceipt → Type 0
  IsLate cutoff k r =
      (k ≡ r.job_id) × (m : Moment) × (p.fromisoformat r.updated_at ≡ some m) × (cutoff ≤ m.micros)

  kept_one :
      (cutoff : ℕ) (k : Text) (r : InstallJobReceipt) (m : Moment) (rest : List Text)
      → p.fromisoformat r.updated_at ≡ some m
      → (mem_text k (if leb cutoff m.micros then r.job_id ∷ rest else rest) ≡ true)
        ↔ (IsLate cutoff k r ⊎ (mem_text k rest ≡ true))
  kept_one cutoff k r m rest read = elim (Bool-cases (leb cutoff m.micros)) [
    | inl late ↦ rw late (
      λ h. elim ((mem_text-cons k r.job_id rest).0 h) [
        | inl same ↦ inl (same, m, read, leb→le _ _ late)
        | inr there ↦ inr there
      ],
      λ h. elim h [
        | inl is_late ↦ (mem_text-cons k r.job_id rest).1 (inl is_late.0)
        | inr there ↦ (mem_text-cons k r.job_id rest).1 (inr there)
      ],
    )
    | inr early ↦ rw early (
      λ h. inr h,
      λ h. elim h [
        | inl (same, n, read_n, fits) ↦
            let e : n ≡ m = some_eq (sym read_n ∙ read) in
            cc (le→leb cutoff m.micros (subst (λ (x : Moment). cutoff ≤ x.micros) e fits), early)
        | inr there ↦ there
      ],
    )
  ]

  pub retained_ids-mem :
      (cutoff : ℕ) (k : Text) (rs : List InstallJobReceipt) (ids : List Text)
      → retained_ids p cutoff rs ≡ some ids
      → (mem_text k ids ≡ true) ↔ Any (IsLate cutoff k) rs
  unfolding retained_ids
  retained_ids-mem cutoff k [] ids h = (
    λ there. mem_text-nil k (subst (λ x. mem_text k x ≡ true) (sym (some_eq h)) there),
    λ found. absurd found,
  )
  retained_ids-mem cutoff k (r ∷ rs) ids h =
      let (m, read, h1) = >>=-eq-some (p.fromisoformat r.updated_at) _ h in
      let (rest, got, h2) = >>=-eq-some (retained_ids p cutoff rs) _ h1 in
      let later = retained_ids-mem cutoff k rs rest got in
      let one = kept_one cutoff k r m rest read in
      let e = some_eq h2 in
      (
        λ there. elim (one.0 (subst (λ x. mem_text k x ≡ true) (sym e) there)) [
          | inl late ↦ inl late
          | inr in_rest ↦ inr (later.0 in_rest)
        ],
        λ found.
            subst (λ x. mem_text k x ≡ true) e
              (one.1 (elim found [ inl late ↦ inl late | inr in_rest ↦ inr (later.1 in_rest) ])),
      )

  pub pop_unretained-kept :
      (rs : List InstallJobReceipt) (kept : List Text) (k : Text) (jobs : Jobs)
      → mem_text k kept ≡ true
      → job k (pop_unretained rs kept jobs) ≡ job k jobs
  unfolding pop_unretained
  pop_unretained-kept [] kept k jobs h = refl
  pop_unretained-kept (s ∷ rs) kept k jobs h = elim (Bool-cases (mem_text s.job_id kept)) [
    | inl e ↦ rw e (pop_unretained-kept rs kept k jobs h)
    | inr e ↦ rw e (pop_unretained-kept rs kept k (pop s.job_id jobs) h ∙ popped_other e)
  ]
    where
      popped_other : mem_text s.job_id kept ≡ false → job k (pop s.job_id jobs) ≡ job k jobs
      popped_other e = elim (Bool-cases (text_eq s.job_id k)) [
        | inr other ↦ job-pop s.job_id k jobs ∙ ap (λ b. if b then none else job k jobs) other
        | inl same ↦
            cc (subst (λ x. mem_text x kept ≡ false) ((text_eq_iff s.job_id k).0 same) e, h)
      ]

  gone :
      (rs : List InstallJobReceipt) (kept : List Text) (k : Text) (jobs : Jobs)
      → job k jobs ≡ none
      → job k (pop_unretained rs kept jobs) ≡ none
  gone rs kept k jobs h = elim (Option-cases (job k (pop_unretained rs kept jobs))) [
    | inl e ↦ e
    | inr (r, e) ↦ cc (job_of_pop_unretained rs kept k jobs e, h)
  ]

  pub pop_unretained-dropped :
      (rs : List InstallJobReceipt) (kept : List Text) (k : Text) (jobs : Jobs)
      → mem_text k kept ≡ false
      → Any (λ s. s.job_id ≡ k) rs
      → job k (pop_unretained rs kept jobs) ≡ none
  unfolding pop_unretained
  pop_unretained-dropped [] kept k jobs h found = absurd found
  pop_unretained-dropped (s ∷ rs) kept k jobs h (inl same) =
      rw (subst (λ x. mem_text x kept ≡ false) (sym same) h) (
        gone rs kept k (pop s.job_id jobs) (
          job-pop s.job_id k jobs
          ∙ ap (λ b. if b then none else job k jobs) ((text_eq_iff s.job_id k).1 same)))
  pop_unretained-dropped (s ∷ rs) kept k jobs h (inr found) =
      elim (Bool-cases (mem_text s.job_id kept)) [
        | inl e ↦ rw e (pop_unretained-dropped rs kept k jobs h found)
        | inr e ↦ rw e (pop_unretained-dropped rs kept k (pop s.job_id jobs) h found)
      ]
