-- ===== src/InstallJobs/Proofs/Documents.antt =====
-- The stored document: what `_parse_document` accepts, whatever the file holds.
use ha_paneld_home_assistant.Prelude.{
  ◌+◌, ◌≤◌, ◌≡◌, refl, sym, ap, subst, ◌∙◌, true, false, Option, none, some, [], ◌∷◌, length, Text,
  text_eq, mem_text, All, All-append, leb→le, leb, and-eq-true, arith, Bool-cases, Option-cases,
  inl, inr, if◌then◌else◌, ◌&&◌,
}
use ha_paneld_home_assistant.Value.{Value, Items, nil, cons}
use ha_paneld_home_assistant.Platform.{Platform}
use ha_paneld_home_assistant.InstallJobs.Receipt.{InstallJobReceipt, is_terminal}
use ha_paneld_home_assistant.InstallJobs.Scalars.{max_active_jobs, max_terminal_jobs}
use ha_paneld_home_assistant.InstallJobs.Invariants.{validate_receipt_invariants}
use ha_paneld_home_assistant.InstallJobs.Document.{
  Jobs, job, put, values, Seen, see_active, see, see_at, see_all, nothing_seen, document_items,
  bounded, parse_receipt_fields, parse_receipt, parse_document,
}
use ha_paneld_home_assistant.InstallJobs.Manager.Prune.{terminal_only}
use ha_paneld_home_assistant.InstallJobs.Proofs.Coherence.{some_eq}
use ha_paneld_home_assistant.InstallJobs.Manager.Operations.Create.{active_count}
use ha_paneld_home_assistant.InstallJobs.Proofs.Entries.{
  AreApart, Pairwise, Pairwise-append_one, All-map, put-new, active_count-append_one,
  terminal_count, terminal_count-append_one, IsListed, IsNew, listed-apart, taken, taken_wider,
  taken_here,
}

module _ (p : Platform) where
  -- What the loop keeps.
  record IsSeen (s : Seen) : Type 0 where
    keyed : All (λ e. e.0 ≡ e.1.job_id) s.parsed
    valid : All (λ e. validate_receipt_invariants p e.1 ≡ some tt) s.parsed
    apart : Pairwise AreApart s.parsed
    listed : All (λ e. IsListed s e.1) s.parsed
    active : active_count (values s.parsed) ≡ s.active_count
    terminal : terminal_count s.parsed ≡ s.terminal_count

  -- One more receipt, with counts and lists `t` that account for it.
  see_one :
      (r : InstallJobReceipt) (s t : Seen)
      → IsSeen s
      → validate_receipt_invariants p r ≡ some tt
      → job r.job_id s.parsed ≡ none
      → ((q : InstallJobReceipt) → IsListed s q → IsListed t q)
      → IsListed t r
      → (is_terminal r ≡ false → IsNew s r)
      → t.active_count ≡ s.active_count + (if is_terminal r then 0 else 1)
      → t.terminal_count ≡ s.terminal_count + (if is_terminal r then 1 else 0)
      → IsSeen (record t { parsed = put r.job_id r s.parsed })
  see_one r s t h v new wider here fresh more_active more_terminal =
      let (same, others) = put-new r.job_id r s.parsed new in
      let entry : Text × InstallJobReceipt = (r.job_id, r) in
      record {
        keyed =
            subst (All (λ e. e.0 ≡ e.1.job_id)) (sym same)
              (All-append _ s.parsed (entry ∷ []) h.keyed (refl, tt));
        valid =
            subst (All (λ e. validate_receipt_invariants p e.1 ≡ some tt)) (sym same)
              (All-append _ s.parsed (entry ∷ []) h.valid (v, tt));
        apart = subst (Pairwise AreApart) (sym same) (
            Pairwise-append_one AreApart s.parsed entry h.apart
              (apart_from s.parsed h.listed others));
        listed = subst (All (λ e. IsListed t e.1)) (sym same) (
            All-append _ s.parsed (entry ∷ []) (All-map s.parsed (λ e l. wider e.1 l) h.listed)
              (here, tt));
        active =
            ap (λ x. active_count (values x)) same
            ∙ (active_count-append_one r.job_id r s.parsed
                ∙ (ap (λ n. n + (if is_terminal r then 0 else 1)) h.active ∙ sym more_active));
        terminal =
            ap terminal_count same
            ∙ (terminal_count-append_one r.job_id r s.parsed
                ∙ (ap (λ n. n + (if is_terminal r then 1 else 0)) h.terminal ∙ sym more_terminal));
      }
    where
      apart_from :
          (jobs : Jobs)
          → All (λ e. IsListed s e.1) jobs
          → All (λ e. text_eq e.0 r.job_id ≡ false) jobs
          → All (λ e. AreApart e (r.job_id, r)) jobs
      apart_from [] l k = tt
      apart_from ((i, q) ∷ jobs) l k = (
        (k.0, λ q_live r_live. listed-apart s q r q_live l.0 (fresh r_live)),
        apart_from jobs l.1 k.1,
      )

  see_terminal :
      (r : InstallJobReceipt) (s : Seen)
      → IsSeen s
      → validate_receipt_invariants p r ≡ some tt
      → job r.job_id s.parsed ≡ none
      → is_terminal r ≡ true
      → IsSeen
          (record s { parsed = put r.job_id r s.parsed; terminal_count = s.terminal_count + 1 })
  see_terminal r s h v new over =
      see_one r s (record s { terminal_count = s.terminal_count + 1 }) h v new (λ q l. l)
        (λ live. cc (over, live)) (λ live. cc (over, live)) (rw over (omega arith)) (rw over refl)

  see_active-IsSeen :
      (r : InstallJobReceipt) (s : Seen) {t : Seen}
      → IsSeen s
      → validate_receipt_invariants p r ≡ some tt
      → job r.job_id s.parsed ≡ none
      → is_terminal r ≡ false
      → see_active r (record s { parsed = put r.job_id r s.parsed }) ≡ some t
      → IsSeen t
  unfolding see_active
  see_active-IsSeen r s h v new live e =
      elim (Bool-cases (mem_text r.target.address s.active_addresses)) [
        | inl seen ↦ cc (rw seen at e)
        | inr a ↦ elim (Bool-cases (mem_text r.target.pinned_address s.active_pins)) [
          | inl seen ↦ cc (rw (a, seen) at e)
          | inr b ↦ elim (Bool-cases (mem_text r.target.adb_serial s.active_serials)) [
            | inl seen ↦ cc (rw (a, b, seen) at e)
            | inr c ↦ subst IsSeen (some_eq (rw (a, b, c) at e)) (
                see_one r s (taken r s) h v new (taken_wider r s) (taken_here r s)
                  (λ q_live. (a, b, c)) (rw live refl) (rw live (omega arith)))
          ]
        ]
      ]

  see_at-IsSeen :
      (o : Option InstallJobReceipt) (r : InstallJobReceipt) (s : Seen) {t : Seen}
      → IsSeen s
      → validate_receipt_invariants p r ≡ some tt
      → job r.job_id s.parsed ≡ o
      → see_at o r s ≡ some t
      → IsSeen t
  unfolding see_at
  see_at-IsSeen (some old) r s h v new e = cc
  see_at-IsSeen none r s h v new e = elim (Bool-cases (is_terminal r)) [
    | inl over ↦ subst IsSeen (some_eq (rw over at e)) (see_terminal r s h v new over)
    | inr live ↦ see_active-IsSeen r s h v new live (rw live at e)
  ]

  see-IsSeen :
      (r : InstallJobReceipt) (s : Seen) {t : Seen}
      → IsSeen s
      → validate_receipt_invariants p r ≡ some tt
      → see r s ≡ some t
      → IsSeen t
  unfolding see
  see-IsSeen r s h v e = see_at-IsSeen (job r.job_id s.parsed) r s h v refl e

  parse_receipt-valid :
      (v : Value) {r : InstallJobReceipt}
      → parse_receipt p v ≡ some r
      → validate_receipt_invariants p r ≡ some tt
  unfolding parse_receipt
  parse_receipt-valid v e = elim (Option-cases (parse_receipt_fields p v)) [
    | inl bad ↦ cc (rw bad at e)
    | inr (q, good) ↦ elim (Option-cases (validate_receipt_invariants p q)) [
      | inl bad ↦ cc (rw (good, bad) at e)
      | inr (u, valid) ↦
          subst (λ x. validate_receipt_invariants p x ≡ some tt) (some_eq (rw (good, valid) at e))
            valid
    ]
  ]

  see_all-IsSeen :
      (xs : Items) (s : Seen) {t : Seen} → IsSeen s → see_all p xs s ≡ some t → IsSeen t
  unfolding see_all
  see_all-IsSeen nil s h e = subst IsSeen (some_eq e) h
  see_all-IsSeen (cons v xs) s h e = elim (Option-cases (parse_receipt p v)) [
    | inl bad ↦ cc (rw bad at e)
    | inr (r, good) ↦ elim (Option-cases (see r s)) [
      | inl bad ↦ cc (rw (good, bad) at e)
      | inr (m, seen) ↦
          see_all-IsSeen xs m (see-IsSeen r s h (parse_receipt-valid v good) seen)
            (rw (good, seen) at e)
    ]
  ]

  nothing_seen-IsSeen : IsSeen nothing_seen
  unfolding nothing_seen active_count terminal_count terminal_only
  nothing_seen-IsSeen = record {
    keyed = tt;
    valid = tt;
    apart = tt;
    listed = tt;
    active = refl;
    terminal = refl;
  }

  -- What every stored document satisfies.
  pub record AreValid (jobs : Jobs) : Type 0 where
    pub keyed : All (λ e. e.0 ≡ e.1.job_id) jobs
    pub valid : All (λ e. validate_receipt_invariants p e.1 ≡ some tt) jobs
    pub apart : Pairwise AreApart jobs
    pub few_active : active_count (values jobs) ≤ max_active_jobs
    pub few_terminal : length (terminal_only (values jobs)) ≤ max_terminal_jobs

  bounded-AreValid : (s : Seen) {jobs : Jobs} → IsSeen s → bounded s ≡ some jobs → AreValid jobs
  unfolding bounded terminal_count
  bounded-AreValid s {jobs} h e =
      elim (Bool-cases
        (leb s.active_count max_active_jobs && leb s.terminal_count max_terminal_jobs)) [
          | inr many ↦ cc (rw many at e)
          | inl few ↦
              let (active, terminal) = and-eq-true _ _ few in
              subst AreValid (some_eq (rw few at e)) (record {
                keyed = h.keyed;
                valid = h.valid;
                apart = h.apart;
                few_active = subst (λ n. n ≤ max_active_jobs) (sym h.active) (leb→le _ _ active);
                few_terminal =
                    subst (λ n. n ≤ max_terminal_jobs) (sym h.terminal) (leb→le _ _ terminal);
              })
        ]

  -- A document that parses, whatever it holds, gives jobs under their own and different
  -- identifiers, each of which satisfies the receipt invariants, no two live ones with an address,
  -- a pin or a serial in common, at most four live and at most 32 terminal.
  pub parse_document-AreValid :
      (v : Value) (jobs : Jobs) → parse_document p v ≡ some jobs → AreValid jobs
  unfolding parse_document
  parse_document-AreValid v jobs e = elim (Option-cases (document_items v)) [
    | inl bad ↦ cc (rw bad at e)
    | inr (xs, good) ↦ elim (Option-cases (see_all p xs nothing_seen)) [
      | inl bad ↦ cc (rw (good, bad) at e)
      | inr (s, seen) ↦
          bounded-AreValid s (see_all-IsSeen xs nothing_seen nothing_seen-IsSeen seen)
            (rw (good, seen) at e)
    ]
  ]
