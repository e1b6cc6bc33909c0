-- ===== src/Provisioning/Presented.antt =====
-- What custom_components/panel_assistant/provisioning_plan.py leaves out of a document.
use ha_paneld_home_assistant.Prelude.{
  ◌≡◌, refl, ◌∙◌, Bool, true, false, not, some, List, [], ◌∷◌, ◌++◌, Bool-cases, inl, inr, sym,
  subst, Text, codes, Gives, Gives-some, Gives-bind, Gives-check, mem_text,
}
use mathlib.Core.List.{append_assoc, append-nil}
use ha_paneld_home_assistant.Value.{Value, Items, nil, cons, Fields, item}
use ha_paneld_home_assistant.Web.{Web}
use ha_paneld_home_assistant.Release.Descriptor.{load_document}
use ha_paneld_home_assistant.InstallJobs.Parse.{fields_of}
use ha_paneld_home_assistant.InstallJobs.Document.{items_of}
use ha_paneld_home_assistant.Provisioning.Guidance.{
  ids, reasons, ProvisioningItem, ProvisioningPlan, Reading, are_known_terms, entry_codes, keep,
  read_items, read_issues, issues_of, code, parse_provisioning_plan,
}
use ha_paneld_home_assistant.Provisioning.Allowlisted.{unread, parse_provisioning_plan-IsRead}

-- Each entry of the document is one item, with the codes that it has.
abbrev pub Presents : Items → List ProvisioningItem → Type 0
Presents nil [] = Unit
Presents nil (i ∷ is) = ⊥
Presents (cons v vs) [] = ⊥
Presents (cons v vs) (i ∷ is) = (entry_codes v ≡ some i) × Presents vs is

-- Unless an update is needed, the entries that were read are the new items.
abbrev Reads : Items → Reading → Reading → Type 0
Reads vs r s =
    s.updated ≡ false
    → (r.updated ≡ false)
      × ((new : List ProvisioningItem) × (s.items ≡ r.items ++ new) × Presents vs new)

kept_as_is :
    (i : ProvisioningItem) (r : Reading)
    → (keep i r).updated ≡ false
    → (r.updated ≡ false) × ((keep i r).items ≡ r.items ++ (i ∷ []))
unfolding keep
kept_as_is i r = elim (Bool-cases (mem_text i.id ids)) [
  | inr other ↦ rw other λ h. cc
  | inl known ↦ elim (Bool-cases (are_known_terms i)) [
    | inr other ↦ rw (known, other) λ h. cc
    | inl terms ↦ elim (Bool-cases (mem_text i.reason_code reasons)) [
      | inr other ↦ rw (known, terms, other) λ h. cc
      | inl reason ↦ rw (known, terms, reason) λ h. (h, refl)
    ]
  ]
]

read_on :
    (v : Value) (vs : Items) (i : ProvisioningItem) (r s : Reading)
    → entry_codes v ≡ some i
    → Reads vs (keep i r) s
    → Reads (cons v vs) r s
read_on v vs i r s found reads h =
    let (current, (new, all, shown)) = reads h in
    let (before, one) = kept_as_is i r current in
    (before, (i ∷ new, all ∙ (rw (one) (append_assoc r.items (i ∷ []) new)), (found, shown)))

read_items-Reads : (vs : Items) (r : Reading) → Gives (Reads vs r) (read_items vs r)
unfolding read_items
read_items-Reads nil r = Gives-some _ r λ h. (h, ([], sym (append-nil r.items), tt))
read_items-Reads (cons v vs) r = Gives-bind _ (entry_codes v) _ λ i found.
    Gives-check _ (not (mem_text i.id r.seen)) _
      λ new s read. read_on v vs i r s found (read_items-Reads vs (keep i r) s read)

read_issues-true : (vs : Items) → Gives (λ b. b ≡ true) (read_issues vs true)
unfolding read_issues
read_issues-true nil = Gives-some _ true refl
read_issues-true (cons v vs) = Gives-bind _ (fields_of v) _ λ fields is_object.
    Gives-bind _ (code (codes "code") fields) _ λ issue found. read_issues-true vs

read_issues-nil :
    (vs : Items) (updated : Bool)
    → Gives (λ b. b ≡ false → (updated ≡ false) × (vs ≡ nil)) (read_issues vs updated)
unfolding read_issues
read_issues-nil nil updated = Gives-some _ updated λ h. (h, refl)
read_issues-nil (cons v vs) updated = Gives-bind _ (fields_of v) _ λ fields is_object.
    Gives-bind _ (code (codes "code") fields) _
      λ issue found b told h. let e = read_issues-true vs b told in cc

-- The document of a plan that presents all of it.
pub record IsPresented (w : Web) (body : Text) (plan : ProvisioningPlan) : Type 0 where
  pub document : Value
  pub fields : Fields
  pub listed : Value
  pub entries : Items
  pub loaded : load_document w body ≡ some document
  pub is_object : fields_of document ≡ some fields
  pub has_items : item (codes "items") fields ≡ some listed
  pub is_list : items_of listed ≡ some entries
  pub shown : Presents entries plan.items
  pub no_issues : issues_of fields ≡ some nil

-- A plan that is parsed and needs no updated client presents each entry of the document, in order,
-- by the very codes of the entry, and the document tells of no issue.
pub parse_provisioning_plan-IsPresented :
    (w : Web) (body : Text) (plan : ProvisioningPlan)
    → parse_provisioning_plan w body ≡ some plan
    → plan.needs_updated_client ≡ false
    → IsPresented w body plan
parse_provisioning_plan-IsPresented w body plan parsed h =
    let p = parse_provisioning_plan-IsRead w body plan parsed in
    let (current, none_told) =
      read_issues-nil p.issues p.reading.updated plan.needs_updated_client p.told h in
    let (start, (new, all, shown)) = read_items-Reads p.entries unread p.reading p.read current in
    record {
      document = p.document;
      fields = p.fields;
      listed = p.listed;
      entries = p.entries;
      loaded = p.loaded;
      is_object = p.is_object;
      has_items = p.has_items;
      is_list = p.is_list;
      shown = subst (Presents p.entries) (sym (p.items_read ∙ all)) shown;
      no_issues = p.found ∙ (rw none_told refl);
    }
