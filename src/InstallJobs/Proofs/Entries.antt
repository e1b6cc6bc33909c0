-- ===== src/InstallJobs/Proofs/Entries.antt =====
-- Lemmas on the entries of a document and on what the loop of `_parse_document` has seen:
-- custom_components/panel_assistant/install_jobs.py.
use ha_paneld_home_assistant.Prelude.{
  ℕ, ◌+◌, ◌≡◌, refl, true, false, none, List, [], ◌∷◌, ◌++◌, length, Text, text_eq, text_eq_iff,
  text_eq_refl, any, mem_text, All, All-append, arith, Bool-cases, inl, inr, if◌then◌else◌,
}
use ha_paneld_home_assistant.InstallJobs.Receipt.{InstallJobReceipt, is_terminal}
use ha_paneld_home_assistant.InstallJobs.Document.{Jobs, job, put, values, Seen}
use ha_paneld_home_assistant.InstallJobs.Manager.Prune.{terminal_only}
use ha_paneld_home_assistant.InstallJobs.Manager.Operations.Create.{overlaps, active_count}

-- Two entries of a document: different keys, and no shared endpoint while both are live.
abbrev pub AreApart : Text × InstallJobReceipt → Text × InstallJobReceipt → Type 0
AreApart e f =
    (text_eq e.0 f.0 ≡ false)
    × (is_terminal e.1 ≡ false → is_terminal f.1 ≡ false → overlaps e.1.target f.1.target ≡ false)

abbrev pub Pairwise : {A : Type 0} → (A → A → Type 0) → List A → Type 0
Pairwise R [] = Unit
Pairwise R (x ∷ xs) = All (R x) xs × Pairwise R xs

pub Pairwise-append_one :
    {A : Type 0} (R : A → A → Type 0) (xs : List A) (y : A)
    → Pairwise R xs
    → All (λ x. R x y) xs
    → Pairwise R (xs ++ (y ∷ []))
Pairwise-append_one R [] y h k = (tt, tt)
Pairwise-append_one R (x ∷ xs) y h k =
    (All-append (R x) xs (y ∷ []) h.0 (k.0, tt), Pairwise-append_one R xs y h.1 k.1)

pub All-map :
    {A : Type 0} {P Q : A → Type 0} (xs : List A) → ((x : A) → P x → Q x) → All P xs → All Q xs
All-map [] f h = tt
All-map (x ∷ xs) f h = (f x h.0, All-map xs f h.1)

pub put-new :
    (k : Text) (r : InstallJobReceipt) (jobs : Jobs)
    → job k jobs ≡ none
    → (put k r jobs ≡ jobs ++ ((k, r) ∷ [])) × All (λ e. text_eq e.0 k ≡ false) jobs
unfolding job put
put-new k r [] h = (refl, tt)
put-new k r ((i, s) ∷ jobs) h = elim (Bool-cases (text_eq i k)) [
  | inl same ↦ cc (rw same at h)
  | inr other ↦
      let (rest, apart) = put-new k r jobs (rw other at h) in (rw (other, rest), (other, apart))
]

pub active_count-append_one :
    (k : Text) (r : InstallJobReceipt) (jobs : Jobs)
    → active_count (values (jobs ++ ((k, r) ∷ [])))
      ≡ active_count (values jobs) + (if is_terminal r then 0 else 1)
unfolding active_count
active_count-append_one k r [] = elim (Bool-cases (is_terminal r)) [ inl t ↦ rw t | inr f ↦ rw f ]
active_count-append_one k r ((i, s) ∷ jobs) = elim (Bool-cases (is_terminal s)) [
  | inl t ↦ rw (t, active_count-append_one k r jobs)
  | inr f ↦ rw (f, active_count-append_one k r jobs) (omega arith)
]

unfoldable pub terminal_count : Jobs → ℕ
terminal_count jobs = length (terminal_only (values jobs))

pub terminal_count-append_one :
    (k : Text) (r : InstallJobReceipt) (jobs : Jobs)
    → terminal_count (jobs ++ ((k, r) ∷ []))
      ≡ terminal_count jobs + (if is_terminal r then 1 else 0)
unfolding terminal_count terminal_only
terminal_count-append_one k r [] = elim (Bool-cases (is_terminal r)) [ inl t ↦ rw t | inr f ↦ rw f ]
terminal_count-append_one k r ((i, s) ∷ jobs) = elim (Bool-cases (is_terminal s)) [
  | inl t ↦ rw (t, terminal_count-append_one k r jobs) (omega arith)
  | inr f ↦ rw (f, terminal_count-append_one k r jobs)
]

-- A live receipt's address, pin and serial are among those seen.
abbrev pub IsListed : Seen → InstallJobReceipt → Type 0
IsListed s r =
    is_terminal r ≡ false
    → (mem_text r.target.address s.active_addresses ≡ true)
      × (mem_text r.target.pinned_address s.active_pins ≡ true)
      × (mem_text r.target.adb_serial s.active_serials ≡ true)

mem_text-cons : (t u : Text) (ts : List Text) → mem_text t ts ≡ true → mem_text t (u ∷ ts) ≡ true
unfolding mem_text any
mem_text-cons t u ts h = ground (arith, h)

mem_text-here : (t : Text) (ts : List Text) → mem_text t (t ∷ ts) ≡ true
unfolding mem_text any
mem_text-here t ts = rw (text_eq_refl t)

-- A text that is listed is not one that is not.
text_eq-apart :
    (t u : Text) (ts : List Text)
    → mem_text t ts ≡ true
    → mem_text u ts ≡ false
    → text_eq t u ≡ false
text_eq-apart t u ts h k = elim (Bool-cases (text_eq t u)) [
  | inr e ↦ e
  | inl e ↦ cc (h, k, (text_eq_iff t u).0 e)
]

abbrev pub IsNew : Seen → InstallJobReceipt → Type 0
IsNew s r =
    (mem_text r.target.address s.active_addresses ≡ false)
    × (mem_text r.target.pinned_address s.active_pins ≡ false)
    × (mem_text r.target.adb_serial s.active_serials ≡ false)

pub listed-apart :
    (s : Seen) (q r : InstallJobReceipt)
    → is_terminal q ≡ false
    → IsListed s q
    → IsNew s r
    → overlaps q.target r.target ≡ false
unfolding overlaps
listed-apart s q r live l n =
    let (a, b, c) = l live in
    rw (text_eq-apart _ _ _ a n.0, text_eq-apart _ _ _ b n.1, text_eq-apart _ _ _ c n.2)

-- What the loop has seen after one more live receipt, but for the jobs.
abbrev pub taken : InstallJobReceipt → Seen → Seen
taken r s = record s {
  active_count = s.active_count + 1;
  active_addresses = r.target.address ∷ s.active_addresses;
  active_pins = r.target.pinned_address ∷ s.active_pins;
  active_serials = r.target.adb_serial ∷ s.active_serials;
}

pub taken_wider :
    (r : InstallJobReceipt) (s : Seen) (q : InstallJobReceipt)
    → IsListed s q
    → IsListed (taken r s) q
taken_wider r s q l live =
    let (x, y, z) = l live in (mem_text-cons _ _ _ x, mem_text-cons _ _ _ y, mem_text-cons _ _ _ z)

pub taken_here : (r : InstallJobReceipt) (s : Seen) → IsListed (taken r s) r
taken_here r s live = (mem_text-here _ _, mem_text-here _ _, mem_text-here _ _)
