-- ===== src/Provisioning/Allowlisted.antt =====
-- Proofs about custom_components/panel_assistant/provisioning_plan.py.
use ha_paneld_home_assistant.Prelude.{
  ◌≡◌, ◌≢◌, refl, ◌∙◌, Bool, true, false, not, some, List, [], ◌∷◌, ◌++◌, arith, length, leb, Text,
  codes, text_eq_iff, All, All-append, any, Bool-cases, inl, inr, Gives, Gives-some, Gives-bind,
  Gives-check, mem_text,
}
use ha_paneld_home_assistant.Value.{Value, Items, nil, cons, Fields, item}
use ha_paneld_home_assistant.Web.{Web}
use ha_paneld_home_assistant.Release.Descriptor.{load_document, text_of}
use ha_paneld_home_assistant.InstallJobs.Parse.{fields_of}
use ha_paneld_home_assistant.InstallJobs.Document.{items_of, item_count}
use ha_paneld_home_assistant.Provisioning.Guidance.{
  ids, reasons, ProvisioningItem, ProvisioningPlan, Reading, are_known_terms, entry_codes, keep,
  read_items, read_issues, issues_of, is_one, parse_provisioning_plan, max_provisioning_bytes,
}

-- The codes of an item are known ones, but for a reason that became "unknown".
pub record IsAllowed (i : ProvisioningItem) : Type 0 where
  pub id : mem_text i.id ids ≡ true
  pub terms : are_known_terms i ≡ true
  pub reason : mem_text i.reason_code (codes "unknown" ∷ reasons) ≡ true

-- No two items have one identifier.
abbrev pub Distinct : List ProvisioningItem → Type 0
Distinct [] = Unit
Distinct (i ∷ is) = All (λ j. i.id ≢ j.id) is × Distinct is

Distinct-append :
    (is : List ProvisioningItem) (i : ProvisioningItem)
    → All (λ j. j.id ≢ i.id) is
    → Distinct is
    → Distinct (is ++ (i ∷ []))
Distinct-append [] i other d = (tt, tt)
Distinct-append (j ∷ is) i (new, other) (before, d) =
    (All-append (λ k. j.id ≢ k.id) is (i ∷ []) before (new, tt), Distinct-append is i other d)

-- The items are allowed, and their identifiers, all different, are among those seen.
record IsKept (r : Reading) : Type 0 where
  pub allowed : All IsAllowed r.items
  pub distinct : Distinct r.items
  pub seen : All (λ i. mem_text i.id r.seen ≡ true) r.items

module _ (identity : Text) (seen : List Text) where
  seen_before :
      (is : List ProvisioningItem)
      → All (λ i. mem_text i.id seen ≡ true) is
      → All (λ i. mem_text i.id (identity ∷ seen) ≡ true) is
  unfolding mem_text any
  seen_before [] all = tt
  seen_before (i ∷ is) (h, all) = (ground arith, seen_before is all)

  unseen-differs :
      (is : List ProvisioningItem)
      → mem_text identity seen ≡ false
      → All (λ i. mem_text i.id seen ≡ true) is
      → All (λ i. i.id ≢ identity) is
  unseen-differs [] new all = tt
  unseen-differs (i ∷ is) new (h, all) = (λ e. cc, unseen-differs is new all)

  seen_now : mem_text identity (identity ∷ seen) ≡ true
  unfolding mem_text any
  seen_now = let same = (text_eq_iff identity identity).1 refl in ground arith

skipped-IsKept :
    (r : Reading) (identity : Text) (updated : Bool)
    → IsKept r
    → IsKept (record r { seen = identity ∷ r.seen; updated = updated })
skipped-IsKept r identity updated h = record {
  allowed = h.allowed;
  distinct = h.distinct;
  seen = seen_before identity r.seen r.items h.seen;
}

added-IsKept :
    (r : Reading) (i : ProvisioningItem) (updated : Bool)
    → mem_text i.id r.seen ≡ false
    → IsKept r
    → IsAllowed i
    → IsKept (record { items = r.items ++ (i ∷ []); seen = i.id ∷ r.seen; updated = updated })
added-IsKept r i updated new h good = record {
  allowed = All-append IsAllowed r.items (i ∷ []) h.allowed (good, tt);
  distinct = Distinct-append r.items i (unseen-differs i.id r.seen r.items new h.seen) h.distinct;
  seen =
      All-append _ r.items (i ∷ []) (seen_before i.id r.seen r.items h.seen)
        (seen_now i.id r.seen, tt);
}

unknown_or :
    (reason : Text)
    → mem_text reason reasons ≡ true
    → mem_text reason (codes "unknown" ∷ reasons) ≡ true
unfolding mem_text any
unknown_or reason h = ground arith

renamed-terms :
    (i : ProvisioningItem) (reason : Text)
    → are_known_terms (record i { reason_code = reason }) ≡ are_known_terms i
unfolding are_known_terms
renamed-terms i reason = refl

keep-IsKept :
    (i : ProvisioningItem) (r : Reading)
    → mem_text i.id r.seen ≡ false
    → IsKept r
    → IsKept (keep i r)
unfolding keep
keep-IsKept i r new h = elim (Bool-cases (mem_text i.id ids)) [
  | inr other ↦ rw other (skipped-IsKept r i.id true h)
  | inl known ↦ elim (Bool-cases (are_known_terms i)) [
    | inr other ↦ rw (known, other) (skipped-IsKept r i.id true h)
    | inl terms ↦ elim (Bool-cases (mem_text i.reason_code reasons)) [
      | inr other ↦
          rw (known, terms, other)
            (added-IsKept r (record i { reason_code = codes "unknown" }) true new h
              (record {
                id = known;
                terms = renamed-terms i (codes "unknown") ∙ terms;
                reason = seen_now (codes "unknown") reasons;
              }))
      | inl reason ↦
          rw (known, terms, reason)
            (added-IsKept r i r.updated new h
              (record { id = known; terms = terms; reason = unknown_or i.reason_code reason }))
    ]
  ]
]

abbrev pub unread : Reading
unread = record { items = []; seen = []; updated = false }

unread-IsKept : IsKept unread
unread-IsKept = record { allowed = tt; distinct = tt; seen = tt }

read_items-IsKept : (vs : Items) (r : Reading) → IsKept r → Gives IsKept (read_items vs r)
unfolding read_items
read_items-IsKept nil r h = Gives-some IsKept r h
read_items-IsKept (cons v vs) r h = Gives-bind IsKept (entry_codes v) _ λ i found.
    Gives-check IsKept (not (mem_text i.id r.seen)) _
      λ new. read_items-IsKept vs (keep i r) (keep-IsKept i r (ground arith) h)

-- What the parser has read when it returns a plan.
pub record IsRead (w : Web) (body : Text) (plan : ProvisioningPlan) : Type 0 where
  pub document : Value
  pub fields : Fields
  pub listed : Value
  pub entries : Items
  pub reading : Reading
  pub issues : Items
  pub loaded : load_document w body ≡ some document
  pub is_object : fields_of document ≡ some fields
  pub known : mem_text plan.state (codes "satisfied" ∷ codes "attention" ∷ []) ≡ true
  pub has_items : item (codes "items") fields ≡ some listed
  pub is_list : items_of listed ≡ some entries
  pub read : read_items entries unread ≡ some reading
  pub items_read : plan.items ≡ reading.items
  pub found : issues_of fields ≡ some issues
  pub told : read_issues issues reading.updated ≡ some plan.needs_updated_client

pub parse_provisioning_plan-IsRead :
    (w : Web) (body : Text) (plan : ProvisioningPlan)
    → parse_provisioning_plan w body ≡ some plan
    → IsRead w body plan
unfolding parse_provisioning_plan
parse_provisioning_plan-IsRead w body =
    Gives-check _ (leb (length body) max_provisioning_bytes) _ λ small.
      Gives-bind _ (load_document w body) _ λ document loaded.
        Gives-bind _ (fields_of document) _ λ fields is_object.
          Gives-bind _ (item (codes "plan_schema") fields) _ λ schema has_schema.
            Gives-check _ (is_one schema) _ λ first_schema.
              Gives-bind _ (item (codes "state") fields) _ λ named has_state.
                Gives-bind _ (text_of named) _ λ state is_text.
                  Gives-check _ (mem_text state (codes "satisfied" ∷ codes "attention" ∷ [])) _
                    λ known. Gives-bind _ (item (codes "items") fields) _ λ listed has_items.
                      Gives-bind _ (items_of listed) _ λ entries is_list.
                        Gives-check _ (leb (item_count entries) 32) _ λ few.
                          Gives-bind _ (read_items entries unread) _ λ r read.
                            Gives-bind _ (issues_of fields) _ λ issues found.
                              Gives-check _ (leb (item_count issues) 32) _ λ few_issues.
                                Gives-bind _ (read_issues issues r.updated) _ λ updated told.
                                  Gives-some _ _ (record {
                                    document = document;
                                    fields = fields;
                                    listed = listed;
                                    entries = entries;
                                    reading = r;
                                    issues = issues;
                                    loaded = loaded;
                                    is_object = is_object;
                                    known = known;
                                    has_items = has_items;
                                    is_list = is_list;
                                    read = read;
                                    items_read = refl;
                                    found = found;
                                    told = told;
                                  })

-- What may be shown of a panel's guidance.
pub record IsAllowlisted (plan : ProvisioningPlan) : Type 0 where
  pub state : mem_text plan.state (codes "satisfied" ∷ codes "attention" ∷ []) ≡ true
  pub allowed : All IsAllowed plan.items
  pub distinct : Distinct plan.items

-- A plan that is parsed has one of the two states, and its items, of which no two have one
-- identifier, hold known codes only, where a reason may be "unknown".
pub parse_provisioning_plan-IsAllowlisted :
    (w : Web) (body : Text) (plan : ProvisioningPlan)
    → parse_provisioning_plan w body ≡ some plan
    → IsAllowlisted plan
parse_provisioning_plan-IsAllowlisted w body plan parsed =
    let p = parse_provisioning_plan-IsRead w body plan parsed in
    let kept = read_items-IsKept p.entries unread unread-IsKept p.reading p.read in
    record {
      state = p.known;
      allowed = rw p.items_read kept.allowed;
      distinct = rw p.items_read kept.distinct;
    }
